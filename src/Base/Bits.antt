-- ===== src/Base/Bits.antt =====
-- Laws of `|` and `&` at the masks that record headers use.
use Prim.Native.Nat.{
  ℕ, zero, suc, ◌+◌, ◌*◌, ◌/◌, ◌%◌, ◌≤◌, min, max, bit_and, bit_or, digits, bit_and-bitwise,
  bit_or-bitwise,
}
use mathlib.Core.Path.{◌≡◌, refl}
use native.Mathlib.Omega.{arith}

-- `digits` counts down a bound that only has to be large enough.
digits_bound :
    (z : ℕ → ℕ) (f : ℕ → ℕ → ℕ) (n m a b : ℕ) → a ≤ n → a ≤ m → digits z f n a b ≡ digits z f m a b
digits_bound z f zero zero a b p q = refl
digits_bound z f zero (suc m) zero b p q = refl
digits_bound z f zero (suc m) (suc a) b p q = absurd (omega arith)
digits_bound z f (suc n) zero zero b p q = refl
digits_bound z f (suc n) zero (suc a) b p q = absurd (omega arith)
digits_bound z f (suc n) (suc m) zero b p q = refl
digits_bound z f (suc n) (suc m) (suc a) b p q =
    omega (arith, digits_bound z f n m (suc a / 2) (b / 2) (omega arith) (omega arith))

zero-bit_and : (b : ℕ) → bit_and 0 b ≡ 0
zero-bit_and b = bit_and-bitwise 0 b

pub bit_and-halves : (a b : ℕ) → bit_and a b ≡ bit_and (a / 2) (b / 2) * 2 + min (a % 2) (b % 2)
bit_and-halves zero b = omega (arith, zero-bit_and b, zero-bit_and (b / 2))
bit_and-halves (suc a) b = omega (
  arith,
  bit_and-bitwise (suc a) b,
  bit_and-bitwise (suc a / 2) (b / 2),
  digits_bound (λ b. zero) min a (suc a / 2) (suc a / 2) (b / 2) (omega arith) (omega arith),
)

bit_and-zero_upto : (n a : ℕ) → a ≤ n → bit_and a 0 ≡ 0
bit_and-zero_upto n zero h = refl
bit_and-zero_upto zero (suc a) h = absurd (omega arith)
bit_and-zero_upto (suc n) (suc a) h =
    omega (arith, bit_and-halves (suc a) 0, bit_and-zero_upto n (suc a / 2) (omega arith))

pub bit_and-zero : (a : ℕ) → bit_and a 0 ≡ 0
bit_and-zero a = bit_and-zero_upto a a (omega arith)

zero-bit_or : (b : ℕ) → bit_or 0 b ≡ b
zero-bit_or b = bit_or-bitwise 0 b

pub bit_or-halves : (a b : ℕ) → bit_or a b ≡ bit_or (a / 2) (b / 2) * 2 + max (a % 2) (b % 2)
bit_or-halves zero b = omega (arith, zero-bit_or b, zero-bit_or (b / 2))
bit_or-halves (suc a) b = omega (
  arith,
  bit_or-bitwise (suc a) b,
  bit_or-bitwise (suc a / 2) (b / 2),
  digits_bound (λ b. b) max a (suc a / 2) (suc a / 2) (b / 2) (omega arith) (omega arith),
)

bit_or-zero_upto : (n a : ℕ) → a ≤ n → bit_or a 0 ≡ a
bit_or-zero_upto n zero h = refl
bit_or-zero_upto zero (suc a) h = absurd (omega arith)
bit_or-zero_upto (suc n) (suc a) h =
    omega (arith, bit_or-halves (suc a) 0, bit_or-zero_upto n (suc a / 2) (omega arith))

pub bit_or-zero : (a : ℕ) → bit_or a 0 ≡ a
bit_or-zero a = bit_or-zero_upto a a (omega arith)

-- Single bits, tested and set.
pub bit_and-one : (a : ℕ) → bit_and a 1 ≡ a % 2
bit_and-one a = omega (arith, bit_and-halves a 1, bit_and-zero (a / 2))

pub bit_and-two : (a : ℕ) → bit_and a 2 ≡ a / 2 % 2 * 2
bit_and-two a = omega (arith, bit_and-halves a 2, bit_and-one (a / 2))

pub bit_and-four : (a : ℕ) → bit_and a 4 ≡ a / 4 % 2 * 4
bit_and-four a = omega (arith, bit_and-halves a 4, bit_and-two (a / 2))

pub bit_or-one : (a : ℕ) → bit_or a 1 ≡ a / 2 * 2 + 1
bit_or-one a = omega (arith, bit_or-halves a 1, bit_or-zero (a / 2))

pub bit_or-two : (a : ℕ) → bit_or a 2 ≡ a / 4 * 4 + 2 + a % 2
bit_or-two a = omega (arith, bit_or-halves a 2, bit_or-one (a / 2))

pub bit_or-four : (a : ℕ) → bit_or a 4 ≡ a / 8 * 8 + 4 + a % 4
bit_or-four a = omega (arith, bit_or-halves a 4, bit_or-two (a / 2))

-- Low masks.
pub bit_and-three : (a : ℕ) → bit_and a 3 ≡ a % 4
bit_and-three a = omega (arith, bit_and-halves a 3, bit_and-one (a / 2))

pub bit_and-seven : (a : ℕ) → bit_and a 7 ≡ a % 8
bit_and-seven a = omega (arith, bit_and-halves a 7, bit_and-three (a / 2))

-- A multiple of 8 leaves the three low bits alone.
pub bit_or-eight_mul : (a b : ℕ) → bit_or a (8 * b) ≡ bit_or (a / 8) b * 8 + a % 8
bit_or-eight_mul a b = omega (
  arith,
  bit_or-halves a (8 * b),
  ap_half (a / 2) (8 * b / 2) (4 * b) (omega arith),
  bit_or-halves (a / 2) (4 * b),
  ap_half (a / 2 / 2) (4 * b / 2) (2 * b) (omega arith),
  bit_or-halves (a / 2 / 2) (2 * b),
  ap_both (a / 2 / 2 / 2) (a / 8) (2 * b / 2) b (omega arith) (omega arith),
)
  where
    ap_half : (x y z : ℕ) → y ≡ z → bit_or x y ≡ bit_or x z
    ap_half x y z e = cc

    ap_both : (x x' y y' : ℕ) → x ≡ x' → y ≡ y' → bit_or x y ≡ bit_or x' y'
    ap_both x x' y y' e f = cc

pub bit_or-zero_left : (b : ℕ) → bit_or 0 b ≡ b
bit_or-zero_left b = zero-bit_or b
