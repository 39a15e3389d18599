-- ===== src/Common/Bits.antt =====
-- `|` of fields that do not overlap is a sum. The law for the lowest digit comes from the
-- definition that the native operation stands for; the others follow by recursion on the width.
use Prim.Native.Nat.{
  ℕ, zero, suc, ◌+◌, ◌*◌, ◌/◌, ◌%◌, ◌^◌, ◌≤◌, ◌<◌, max, min, bit_or, bit_and, digits,
  bit_or-bitwise, bit_and-bitwise,
}
use mathlib.Core.Path.{◌≡◌, refl}
use native.Mathlib.Omega.{arith}
use native.Mathlib.Nat.{pow-suc}

abbrev or_digits : ℕ → ℕ → ℕ → ℕ
or_digits n a b = digits (λ y. y) max n a b

-- More digits than the number has change nothing.
or_digits_enough : (n m a b : ℕ) → a ≤ n → a ≤ m → or_digits n a b ≡ or_digits m a b
or_digits_enough zero zero a b p q = refl
or_digits_enough zero (suc m) zero b p q = refl
or_digits_enough zero (suc m) (suc a) b p q = absurd (omega arith)
or_digits_enough (suc n) zero zero b p q = refl
or_digits_enough (suc n) zero (suc a) b p q = absurd (omega arith)
or_digits_enough (suc n) (suc m) zero b p q = refl
or_digits_enough (suc n) (suc m) (suc a) b p q =
    omega (arith, or_digits_enough n m (suc a / 2) (b / 2) (omega arith) (omega arith))

pub zero-bit_or : (b : ℕ) → bit_or 0 b ≡ b
zero-bit_or b = bit_or-bitwise 0 b

pub bit_or_step : (p q : ℕ) → bit_or p q ≡ max (p % 2) (q % 2) + bit_or (p / 2) (q / 2) * 2
bit_or_step zero q = omega (arith, zero-bit_or q, zero-bit_or (q / 2))
bit_or_step (suc a) b = omega (
  arith,
  bit_or-bitwise (suc a) b,
  bit_or-bitwise (suc a / 2) (b / 2),
  or_digits_enough a (suc a / 2) (suc a / 2) (b / 2) (omega arith) (omega arith),
)

bit_or-zero_fuel : (n a : ℕ) → a ≤ n → bit_or a 0 ≡ a
bit_or-zero_fuel n zero h = zero-bit_or 0
bit_or-zero_fuel zero (suc a) h = absurd (omega arith)
bit_or-zero_fuel (suc n) (suc a) h =
    omega (arith, bit_or_step (suc a) 0, bit_or-zero_fuel n (suc a / 2) (omega arith))

scale-suc : (k q : ℕ) → q * 2 ^ suc k ≡ q * 2 ^ k * 2
scale-suc k q = rw pow-suc (omega arith)

-- `q << k | r` for a field `r` of `k` bits.
pub bit_or_disjoint : (k q r : ℕ) → r < 2 ^ k → bit_or (q * 2 ^ k) r ≡ q * 2 ^ k + r
bit_or_disjoint zero q r h = ground (arith, bit_or-zero_fuel q q)
bit_or_disjoint (suc k) q r h = rw scale-suc (
    ground (
      arith,
      bit_or_step (q * 2 ^ k * 2) r,
      bit_or_disjoint k q (r / 2) (omega (arith, pow-suc 2 k)),
    ))

-- The same for a number that ends in `k` zero bits.
pub bit_or_fields : (k q n r : ℕ) → n ≡ q * 2 ^ k → r < 2 ^ k → bit_or n r ≡ n + r
bit_or_fields k q n r e h = rw e (bit_or_disjoint k q r h)

-- The digits of `&`, in the same way.
and_digits_enough :
    (n m a b : ℕ) → a ≤ n → a ≤ m → digits (λ y. zero) min n a b ≡ digits (λ y. zero) min m a b
and_digits_enough zero zero a b p q = refl
and_digits_enough zero (suc m) zero b p q = refl
and_digits_enough zero (suc m) (suc a) b p q = absurd (omega arith)
and_digits_enough (suc n) zero zero b p q = refl
and_digits_enough (suc n) zero (suc a) b p q = absurd (omega arith)
and_digits_enough (suc n) (suc m) zero b p q = refl
and_digits_enough (suc n) (suc m) (suc a) b p q =
    omega (arith, and_digits_enough n m (suc a / 2) (b / 2) (omega arith) (omega arith))

lowest_of_and : (p q : ℕ) → bit_and p q ≡ min (p % 2) (q % 2) + bit_and (p / 2) (q / 2) * 2
lowest_of_and zero q = omega (arith, bit_and-bitwise 0 q, bit_and-bitwise 0 (q / 2))
lowest_of_and (suc a) b = omega (
  arith,
  bit_and-bitwise (suc a) b,
  bit_and-bitwise (suc a / 2) (b / 2),
  and_digits_enough a (suc a / 2) (suc a / 2) (b / 2) (omega arith) (omega arith),
)

nothing_of_and : (n a : ℕ) → a ≤ n → bit_and a 0 ≡ 0
nothing_of_and n zero h = bit_and-bitwise 0 0
nothing_of_and zero (suc a) h = absurd (omega arith)
nothing_of_and (suc n) (suc a) h =
    omega (arith, lowest_of_and (suc a) 0, nothing_of_and n (suc a / 2) (omega arith))

-- A mask of four or five bits is a remainder.
pub mask_four : (a : ℕ) → bit_and a 0xF ≡ a % 16
mask_four a = omega (
  arith,
  lowest_of_and a 15,
  lowest_of_and (a / 2) 7,
  lowest_of_and (a / 2 / 2) 3,
  lowest_of_and (a / 2 / 2 / 2) 1,
  nothing_of_and a (a / 2 / 2 / 2 / 2) (omega arith),
)

pub mask_five : (a : ℕ) → bit_and a 0x1F ≡ a % 32
mask_five a = omega (arith, lowest_of_and a 31, mask_four (a / 2))
