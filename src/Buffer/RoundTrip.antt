-- ===== src/Buffer/RoundTrip.antt =====
-- The reads of src/buffer_util.h are the positional values of the bytes, and undo the writes.
use droidcam_whip_c.Common.{ℕ, ◌+◌, ◌*◌, ◌/◌, ◌%◌, ◌^◌, ◌<◌, ◌≡◌, refl, List, ◌∷◌, bit_or, arith}
use droidcam_whip_c.Common.Bits.{bit_or_disjoint, bit_or_fields}
use droidcam_whip_c.Buffer.{
  shl, IsByte, buffer_write16be, buffer_write32be, buffer_read16be, buffer_read32be,
  buffer_read64be,
}

pub read16be-value :
    (a b : ℕ) (rest : List ℕ) → IsByte a → IsByte b → buffer_read16be (a ∷ b ∷ rest) ≡ a * 256 + b
unfolding buffer_read16be
read16be-value a b rest ha hb = omega (arith, bit_or_disjoint 8 a b hb)

-- Four bytes joined by `|` from the left.
or_four :
    (a b c d : ℕ)
    → IsByte b
    → IsByte c
    → IsByte d
    → bit_or (bit_or (bit_or (shl a 24) (shl b 16)) (shl c 8)) d
      ≡ a * 2 ^ 24 + b * 2 ^ 16 + c * 2 ^ 8 + d
or_four a b c d hb hc hd =
    rw
      (
        bit_or_fields 24 a (a * 2 ^ 24) (b * 2 ^ 16) refl (omega arith),
        bit_or_fields 16 (a * 2 ^ 8 + b) (a * 2 ^ 24 + b * 2 ^ 16) (c * 2 ^ 8) (omega arith)
            (omega arith),
        bit_or_fields 8 (a * 2 ^ 16 + b * 2 ^ 8 + c) (a * 2 ^ 24 + b * 2 ^ 16 + c * 2 ^ 8) d
            (omega arith) (omega arith),
      )
      refl

pub read32be-value :
    (a b c d : ℕ) (rest : List ℕ)
    → IsByte a
    → IsByte b
    → IsByte c
    → IsByte d
    → buffer_read32be (a ∷ b ∷ c ∷ d ∷ rest) ≡ a * 2 ^ 24 + b * 2 ^ 16 + c * 2 ^ 8 + d
unfolding buffer_read32be
read32be-value a b c d rest ha hb hc hd = omega (arith, or_four a b c d hb hc hd)

-- What `buffer_write32be` stores at the start of a buffer of at least four bytes is what
-- `buffer_read32be` reads there, for every 32-bit value.
pub read32be-write32be :
    (a b c d : ℕ) (rest : List ℕ) (value : ℕ)
    → value < 2 ^ 32
    → buffer_read32be (buffer_write32be (a ∷ b ∷ c ∷ d ∷ rest) value) ≡ value
unfolding buffer_write32be
read32be-write32be a b c d rest value h = omega (
  arith,
  read32be-value (value / 2 ^ 24 % 256) (value / 2 ^ 16 % 256) (value / 2 ^ 8 % 256) (value % 256)
      rest (omega arith) (omega arith) (omega arith) (omega arith),
)

-- The same for 16 bits.
pub read16be-write16be :
    (a b : ℕ) (rest : List ℕ) (value : ℕ)
    → value < 2 ^ 16
    → buffer_read16be (buffer_write16be (a ∷ b ∷ rest) value) ≡ value
unfolding buffer_write16be
read16be-write16be a b rest value h =
    omega
      (arith, read16be-value (value / 2 ^ 8 % 256) (value % 256) rest (omega arith) (omega arith))

pub read64be-value :
    (a b c d e f g h : ℕ) (rest : List ℕ)
    → IsByte a
    → IsByte b
    → IsByte c
    → IsByte d
    → IsByte e
    → IsByte f
    → IsByte g
    → IsByte h
    → buffer_read64be (a ∷ b ∷ c ∷ d ∷ e ∷ f ∷ g ∷ h ∷ rest)
      ≡ (a * 2 ^ 24 + b * 2 ^ 16 + c * 2 ^ 8 + d) * 2 ^ 32
        + (e * 2 ^ 24 + f * 2 ^ 16 + g * 2 ^ 8 + h)
unfolding buffer_read64be
read64be-value a b c d e f g h rest ha hb hc hd he hf hg hh =
    rw
      (
        read32be-value a b c d (e ∷ f ∷ g ∷ h ∷ rest) ha hb hc hd,
        read32be-value e f g h rest he hf hg hh,
        bit_or_disjoint 32 (a * 2 ^ 24 + b * 2 ^ 16 + c * 2 ^ 8 + d)
            (e * 2 ^ 24 + f * 2 ^ 16 + g * 2 ^ 8 + h) (omega arith),
      )
      (omega arith)
