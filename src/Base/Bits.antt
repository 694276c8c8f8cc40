-- ===== src/Base/Bits.antt =====
-- Masks and fields in words, where `bit_and` and `bit_or` meet variables.
use Prim.Native.Nat.{
  ℕ, zero, suc, ◌+◌, ◌*◌, ◌/◌, ◌%◌, ◌^◌, ◌≤◌, min, max, digits, bit_and, bit_or, bit_and-bitwise,
  bit_or-bitwise,
}
use mathlib.Core.Path.{◌≡◌, refl, ap}
use native.Mathlib.Omega.{arith}

-- Any count of digits does that is not below the number.
digits_enough :
    (z : ℕ → ℕ) (f : ℕ → ℕ → ℕ) (n m a b : ℕ) → a ≤ n → a ≤ m → digits z f n a b ≡ digits z f m a b
digits_enough z f zero zero a b h k = refl
digits_enough z f zero (suc m) zero b h k = refl
digits_enough z f (suc n) zero zero b h k = refl
digits_enough z f (suc n) (suc m) zero b h k = refl
digits_enough z f zero m (suc a) b h k = absurd (omega arith)
digits_enough z f (suc n) zero (suc a) b h k = absurd (omega arith)
digits_enough z f (suc n) (suc m) (suc a) b h k =
    omega (arith, digits_enough z f n m (suc a / 2) (b / 2) (omega arith) (omega arith))

bit_and-zero : (b : ℕ) → bit_and 0 b ≡ 0
bit_and-zero b = bit_and-bitwise 0 b

bit_or-zero : (b : ℕ) → bit_or 0 b ≡ b
bit_or-zero b = bit_or-bitwise 0 b

and_digit : (a b : ℕ) → bit_and a b ≡ bit_and (a / 2) (b / 2) * 2 + min (a % 2) (b % 2)
and_digit zero b = omega (arith, bit_and-zero b, bit_and-zero (b / 2))
and_digit (suc a) b = omega (
  arith,
  bit_and-bitwise (suc a) b,
  bit_and-bitwise (suc a / 2) (b / 2),
  digits_enough (λ b. 0) min a (suc a / 2) (suc a / 2) (b / 2) (omega arith) (omega arith),
)

or_digit : (a b : ℕ) → bit_or a b ≡ bit_or (a / 2) (b / 2) * 2 + max (a % 2) (b % 2)
or_digit zero b = omega (arith, bit_or-zero b, bit_or-zero (b / 2))
or_digit (suc a) b = omega (
  arith,
  bit_or-bitwise (suc a) b,
  bit_or-bitwise (suc a / 2) (b / 2),
  digits_enough (λ b. b) max a (suc a / 2) (suc a / 2) (b / 2) (omega arith) (omega arith),
)

and_even : (a b : ℕ) → bit_and a (b * 2) ≡ bit_and (a / 2) b * 2
and_even a b = let e : b * 2 / 2 ≡ b = omega arith in rw (and_digit a (b * 2), e) (omega arith)

and_odd : (a b : ℕ) → bit_and a (b * 2 + 1) ≡ bit_and (a / 2) b * 2 + a % 2
and_odd a b =
    let e : (b * 2 + 1) / 2 ≡ b = omega arith in rw (and_digit a (b * 2 + 1), e) (omega arith)

and-none : (k a : ℕ) → a ≤ k → bit_and a 0 ≡ 0
and-none k zero h = refl
and-none zero (suc a) h = absurd (omega arith)
and-none (suc k) (suc a) h =
    omega (arith, and_digit (suc a) 0, and-none k (suc a / 2) (omega arith))

abbrev ones : ℕ → ℕ
ones zero = 0
ones (suc k) = ones k * 2 + 1

abbrev low_digits : ℕ → ℕ → ℕ
low_digits zero a = 0
low_digits (suc k) a = low_digits k (a / 2) * 2 + a % 2

bit_and-ones : (k a : ℕ) → bit_and a (ones k) ≡ low_digits k a
bit_and-ones zero a = and-none a a (omega arith)
bit_and-ones (suc k) a = omega (arith, and_odd a (ones k), bit_and-ones k (a / 2))

-- The masks of the low bits.
pub mask_4 : (a : ℕ) → bit_and a 0x0F ≡ a % 2 ^ 4
mask_4 a = omega (arith, bit_and-ones 4 a)

pub mask_8 : (a : ℕ) → bit_and a 0xFF ≡ a % 2 ^ 8
mask_8 a = omega (arith, bit_and-ones 8 a)

pub mask_16 : (a : ℕ) → bit_and a 0xFFFF ≡ a % 2 ^ 16
mask_16 a = omega (arith, bit_and-ones 16 a)

abbrev shift_left : ℕ → ℕ → ℕ
shift_left zero b = b
shift_left (suc k) b = shift_left k b * 2

abbrev shift_right : ℕ → ℕ → ℕ
shift_right zero a = a
shift_right (suc k) a = shift_right k (a / 2)

and-shift_left :
    (k a b : ℕ) → bit_and a (shift_left k b) ≡ shift_left k (bit_and (shift_right k a) b)
and-shift_left zero a b = refl
and-shift_left (suc k) a b = omega (arith, and_even a (shift_left k b), and-shift_left k (a / 2) b)

-- Masks of higher bits.
pub mask_high_4 : (a : ℕ) → bit_and a 0xF0 ≡ a / 2 ^ 4 % 2 ^ 4 * 2 ^ 4
mask_high_4 a = omega (arith, and-shift_left 4 a 0x0F, mask_4 (shift_right 4 a))

pub mask_high_16 : (a : ℕ) → bit_and a 0xFFFF0000 ≡ a / 2 ^ 16 % 2 ^ 16 * 2 ^ 16
mask_high_16 a = omega (arith, and-shift_left 16 a 0xFFFF, mask_16 (shift_right 16 a))

-- A number of at most `k` digits.
abbrev HasDigits : ℕ → ℕ → Type 0
HasDigits zero a = a ≡ 0
HasDigits (suc k) a = HasDigits k (a / 2)

or-shift_left : (k a b : ℕ) → HasDigits k a → bit_or a (shift_left k b) ≡ a + shift_left k b
or-shift_left zero a b h = omega (arith, bit_or-zero b, ap (λ n. bit_or n b) h)
or-shift_left (suc k) a b h =
    let e : shift_left k b * 2 / 2 ≡ shift_left k b = omega arith in
    rw (or_digit a (shift_left k b * 2), e) (omega (arith, or-shift_left k (a / 2) b h))

-- Two fields of four bits in a byte.
pub bit_or_fields :
    (low high : ℕ) → bit_or (low % 2 ^ 4) (high * 2 ^ 4) ≡ low % 2 ^ 4 + high * 2 ^ 4
bit_or_fields low high =
    let e : shift_left 4 high ≡ high * 2 ^ 4 = omega arith in
    rw (← e) (or-shift_left 4 (low % 2 ^ 4) high (omega arith))
