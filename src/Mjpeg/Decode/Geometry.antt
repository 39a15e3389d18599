-- ===== src/Mjpeg/Decode/Geometry.antt =====
-- The planes of a picture as TurboJPEG writes them, and where they end.
use droidcam_whip_c.Buffer.{byte}
use droidcam_whip_c.Common.{
  ap, refl, ◌≤◌, ◌||◌, ◌^◌, [], ◌≤◌, arith, ◌||◌, ◌^◌, ◌==◌, ◌*◌, ◌-◌, ◌/◌, ◌*◌, ◌==◌, ◌/◌, ◌∷◌,
  ◌-◌, if◌then◌else◌, ◌≡◌, ◌+◌, suc, set, ◌+◌, if◌then◌else◌, ◌≡◌, ℕ, List, ℕ,
}

-- What TurboJPEG documents of `tjDecompressToYUVPlanes`, by the subsampling of the picture: TJSAMP_444,
-- 422, 420, GRAY, 440, 411 are 0 to 5. A colour plane has a column for so many columns of the
-- picture, and one more; and a line likewise. GRAY has no colours.
abbrev pub extra_columns : ℕ → ℕ
extra_columns s = if s == 1 || s == 2 then 1 else if s == 5 then 3 else 0

abbrev pub extra_lines : ℕ → ℕ
extra_lines s = if s == 2 || s == 4 then 1 else 0

-- The columns or lines of the first plane are filled up, and those of the others are a part of them.
abbrev pub luma_side : ℕ → ℕ → ℕ
luma_side extra n = (n + extra) / (extra + 1) * (extra + 1)

abbrev pub chroma_side : ℕ → ℕ → ℕ → ℕ
chroma_side s extra n = if s == 3 then 0 else luma_side extra n / (extra + 1)

-- The lines begin a stride apart.
abbrev pub padded : ℕ → ℕ
padded n = (n + 1) / 2 * 2

abbrev pub plane_end : ℕ → ℕ → ℕ → ℕ → ℕ
plane_end start stride columns lines = start + (lines - 1) * stride + columns

padded_even : (a : ℕ) → padded (suc a * 2) ≡ suc a * 2
padded_even a = omega arith

lines_before : (b : ℕ) → suc b * 2 - 1 ≡ b * 2 + 1
lines_before b = omega arith

half_even : (a : ℕ) → suc a * 2 / 2 ≡ suc a
half_even a = omega arith

before_last : (b : ℕ) → suc b - 1 ≡ b
before_last b = omega arith

quarter_area : (a b : ℕ) → suc a * 2 * (suc b * 2) / 4 ≡ b * suc a + suc a
quarter_area a b = omega arith

even_luma :
    (a b : ℕ)
    → (padded (suc b * 2) - 1) * (suc a * 2) + padded (suc a * 2) ≡ suc a * 2 * (suc b * 2)
even_luma a b = rw (padded_even a, padded_even b, lines_before b) (omega arith)

even_chroma :
    (a b : ℕ)
    → (padded (suc b * 2) / 2 - 1) * (suc a * 2 / 2) + padded (suc a * 2) / 2
      ≡ suc a * 2 * (suc b * 2) / 4
even_chroma a b =
    rw (padded_even a, padded_even b, half_even a, half_even b, before_last b, quarter_area a b)
      refl

pub luma_fits :
    (w h a b p l : ℕ) {s q : ℕ}
    → w ≡ suc a * 2
    → h ≡ suc b * 2
    → l ≡ w
    → p ≡ s
    → s + w * h ≤ q
    → plane_end p l (padded w) (padded h) ≤ q
luma_fits w h a b p l ew eh el ep eq =
    rw (el, ew, eh, ep)
      (omega (arith, even_luma a b, ap (λ x. x * h) ew, ap (λ x. suc a * 2 * x) eh))

pub chroma_fits :
    (w h a b p l : ℕ) {s q : ℕ}
    → w ≡ suc a * 2
    → h ≡ suc b * 2
    → l ≡ w / 2 ^ 1
    → p ≡ s
    → s + w * h / 4 ≤ q
    → plane_end p l (padded w / 2) (padded h / 2) ≤ q
chroma_fits w h a b p l ew eh el ep eq =
    rw (el, ew, eh, ep)
      (omega (arith, even_chroma a b, ap (λ x. x * h / 4) ew, ap (λ x. suc a * 2 * x / 4) eh))

-- Three planes at least.
abbrev pub HasPlanes : List ℕ → Type 0
HasPlanes (a ∷ b ∷ c ∷ xs) = Unit {0}
HasPlanes xs = ⊥

pub set_three :
    (xs : List ℕ) (a b c d : ℕ)
    → HasPlanes xs
    → let ys = set (set (set (set xs 0 a) 1 b) 2 c) 3 d in
      (byte ys 0 ≡ a) × (byte ys 1 ≡ b) × (byte ys 2 ≡ c) × HasPlanes ys
set_three [] a b c d h = elim h [ ]
set_three (x ∷ []) a b c d h = elim h [ ]
set_three (x ∷ y ∷ []) a b c d h = elim h [ ]
set_three (x ∷ y ∷ z ∷ xs) a b c d h = (refl, refl, refl, tt)
