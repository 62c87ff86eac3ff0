-- ===== src/Prelude/Bits.antt =====
-- `&`, `|` and `^` as arithmetic: one equation for the lowest digit of each operation, low masks as
-- remainders, `(v << k) | b` as a sum, and `^` as its own inverse.
use Prim.Native.Nat.{
  ℕ, zero, suc, ◌+◌, ◌*◌, ◌/◌, ◌%◌, ◌^◌, ◌≤◌, ◌<◌, min, max, bit_and, bit_or, bit_xor, digits,
  bitwise, differ, bit_and-bitwise, bit_or-bitwise, bit_xor-bitwise,
}
use mathlib.Core.Path.{◌≡◌, refl, ap}
use native.Mathlib.Omega.{arith}

-- The count of digits to go does not matter, as long as there are enough.
module _ (z : ℕ → ℕ) (f : ℕ → ℕ → ℕ) where
  digits_count : (n m a b : ℕ) → a ≤ n → a ≤ m → digits z f n a b ≡ digits z f m a b
  digits_count zero zero a b p q = refl
  digits_count (suc n) zero zero b p q = refl
  digits_count (suc n) zero (suc a) b p q = absurd (omega arith)
  digits_count zero (suc m) zero b p q = refl
  digits_count zero (suc m) (suc a) b p q = absurd (omega arith)
  digits_count (suc n) (suc m) zero b p q = refl
  digits_count (suc n) (suc m) (suc a) b p q =
      ap (λ (d : ℕ). d * 2 + f (suc a % 2) (b % 2))
        (digits_count n m (suc a / 2) (b / 2) (omega arith) (omega arith))

  -- The lowest digit of a number that is not zero, apart from the rest.
  low_digit :
      (a b : ℕ)
      → bitwise z f (suc a) b ≡ bitwise z f (suc a / 2) (b / 2) * 2 + f (suc a % 2) (b % 2)
  low_digit a b =
      ap (λ (d : ℕ). d * 2 + f (suc a % 2) (b % 2))
        (digits_count a (suc a / 2) (suc a / 2) (b / 2) (omega arith) (omega arith))

-- The digits of `^`.
differ_bits : (a b : ℕ) → a < 2 → b < 2 → differ a b ≡ (a + b) % 2
differ_bits zero b p q = omega arith
differ_bits (suc zero) zero p q = refl
differ_bits (suc zero) (suc zero) p q = refl
differ_bits (suc zero) (suc (suc b)) p q = absurd (omega arith)
differ_bits (suc (suc a)) b p q = absurd (omega arith)

pub bit_and_low : (a b : ℕ) → bit_and a b ≡ bit_and (a / 2) (b / 2) * 2 + min (a % 2) (b % 2)
bit_and_low zero b = omega (arith, bit_and-bitwise 0 b, bit_and-bitwise 0 (b / 2))
bit_and_low (suc a) b = omega (
  arith,
  bit_and-bitwise (suc a) b,
  bit_and-bitwise (suc a / 2) (b / 2),
  low_digit (λ y. 0) min a b,
)

pub bit_or_low : (a b : ℕ) → bit_or a b ≡ bit_or (a / 2) (b / 2) * 2 + max (a % 2) (b % 2)
bit_or_low zero b = omega (arith, bit_or-bitwise 0 b, bit_or-bitwise 0 (b / 2))
bit_or_low (suc a) b = omega (
  arith,
  bit_or-bitwise (suc a) b,
  bit_or-bitwise (suc a / 2) (b / 2),
  low_digit (λ y. y) max a b,
)

pub bit_xor_low : (a b : ℕ) → bit_xor a b ≡ bit_xor (a / 2) (b / 2) * 2 + (a % 2 + b % 2) % 2
bit_xor_low zero b = omega (arith, bit_xor-bitwise 0 b, bit_xor-bitwise 0 (b / 2))
bit_xor_low (suc a) b = omega (
  arith,
  bit_xor-bitwise (suc a) b,
  bit_xor-bitwise (suc a / 2) (b / 2),
  low_digit (λ y. y) differ a b,
  differ_bits (suc a % 2) (b % 2),
)

bit_or-zero_count : (n a : ℕ) → a ≤ n → bit_or a 0 ≡ a
bit_or-zero_count n zero h = refl
bit_or-zero_count zero (suc a) h = absurd (omega arith)
bit_or-zero_count (suc n) (suc a) h =
    omega (arith, bit_or_low (suc a) 0, bit_or-zero_count n (suc a / 2) (omega arith))

pub bit_or-zero : (a : ℕ) → bit_or a 0 ≡ a
bit_or-zero a = bit_or-zero_count a a (omega arith)

bit_and-zero_count : (n a : ℕ) → a ≤ n → bit_and a 0 ≡ 0
bit_and-zero_count n zero h = refl
bit_and-zero_count zero (suc a) h = absurd (omega arith)
bit_and-zero_count (suc n) (suc a) h =
    omega (arith, bit_and_low (suc a) 0, bit_and-zero_count n (suc a / 2) (omega arith))

pub bit_and-zero : (a : ℕ) → bit_and a 0 ≡ 0
bit_and-zero a = bit_and-zero_count a a (omega arith)

-- The masks that the code uses, each from the one before.
mask_1 : (a : ℕ) → bit_and a 1 ≡ a % 2
mask_1 a = omega (arith, bit_and_low a 1, bit_and-zero (a / 2))

pub mask_3 : (a : ℕ) → bit_and a 3 ≡ a % 4
mask_3 a = omega (arith, bit_and_low a 3, mask_1 (a / 2))

pub mask_7 : (a : ℕ) → bit_and a 7 ≡ a % 8
mask_7 a = omega (arith, bit_and_low a 7, mask_3 (a / 2))

pub mask_15 : (a : ℕ) → bit_and a 0x0f ≡ a % 16
mask_15 a = omega (arith, bit_and_low a 0x0f, mask_7 (a / 2))

pub mask_31 : (a : ℕ) → bit_and a 0x1f ≡ a % 32
mask_31 a = omega (arith, bit_and_low a 0x1f, mask_15 (a / 2))

pub mask_63 : (a : ℕ) → bit_and a 0x3f ≡ a % 64
mask_63 a = omega (arith, bit_and_low a 0x3f, mask_31 (a / 2))

pub mask_127 : (a : ℕ) → bit_and a 0x7f ≡ a % 128
mask_127 a = omega (arith, bit_and_low a 0x7f, mask_63 (a / 2))

pub mask_255 : (a : ℕ) → bit_and a 0xff ≡ a % 256
mask_255 a = omega (arith, bit_and_low a 0xff, mask_127 (a / 2))

-- The one bit that a flag stands for.
flag_2 : (a : ℕ) → bit_and a 2 ≡ a / 2 % 2 * 2
flag_2 a = omega (arith, bit_and_low a 2, mask_1 (a / 2))

flag_4 : (a : ℕ) → bit_and a 4 ≡ a / 4 % 2 * 4
flag_4 a = omega (arith, bit_and_low a 4, flag_2 (a / 2))

flag_8 : (a : ℕ) → bit_and a 8 ≡ a / 8 % 2 * 8
flag_8 a = omega (arith, bit_and_low a 8, flag_4 (a / 2))

flag_16 : (a : ℕ) → bit_and a 16 ≡ a / 16 % 2 * 16
flag_16 a = omega (arith, bit_and_low a 16, flag_8 (a / 2))

pub flag_32 : (a : ℕ) → bit_and a 32 ≡ a / 32 % 2 * 32
flag_32 a = omega (arith, bit_and_low a 32, flag_16 (a / 2))

pub flag_64 : (a : ℕ) → bit_and a 64 ≡ a / 64 % 2 * 64
flag_64 a = omega (arith, bit_and_low a 64, flag_32 (a / 2))

pub flag_128 : (a : ℕ) → bit_and a 128 ≡ a / 128 % 2 * 128
flag_128 a = omega (arith, bit_and_low a 128, flag_64 (a / 2))

-- `u | b` is a sum where `b` fits below the lowest digit of `u`.
or_0 : (u b : ℕ) → b < 1 → bit_or u b ≡ u + b
or_0 u zero h = omega (arith, bit_or-zero u)
or_0 u (suc b) h = absurd (omega arith)

or_1 : (u b : ℕ) → u % 2 ≡ 0 → b < 2 → bit_or u b ≡ u + b
or_1 u b d h = omega (arith, bit_or_low u b, or_0 (u / 2) (b / 2) (omega arith))

pub or_2 : (u b : ℕ) → u % 4 ≡ 0 → b < 4 → bit_or u b ≡ u + b
or_2 u b d h = omega (arith, bit_or_low u b, or_1 (u / 2) (b / 2) (omega arith) (omega arith))

or_3 : (u b : ℕ) → u % 8 ≡ 0 → b < 8 → bit_or u b ≡ u + b
or_3 u b d h = omega (arith, bit_or_low u b, or_2 (u / 2) (b / 2) (omega arith) (omega arith))

pub or_4 : (u b : ℕ) → u % 16 ≡ 0 → b < 16 → bit_or u b ≡ u + b
or_4 u b d h = omega (arith, bit_or_low u b, or_3 (u / 2) (b / 2) (omega arith) (omega arith))

pub or_5 : (u b : ℕ) → u % 32 ≡ 0 → b < 32 → bit_or u b ≡ u + b
or_5 u b d h = omega (arith, bit_or_low u b, or_4 (u / 2) (b / 2) (omega arith) (omega arith))

pub or_6 : (u b : ℕ) → u % 64 ≡ 0 → b < 64 → bit_or u b ≡ u + b
or_6 u b d h = omega (arith, bit_or_low u b, or_5 (u / 2) (b / 2) (omega arith) (omega arith))

pub or_7 : (u b : ℕ) → u % 128 ≡ 0 → b < 128 → bit_or u b ≡ u + b
or_7 u b d h = omega (arith, bit_or_low u b, or_6 (u / 2) (b / 2) (omega arith) (omega arith))

pub or_8 : (u b : ℕ) → u % 256 ≡ 0 → b < 256 → bit_or u b ≡ u + b
or_8 u b d h = omega (arith, bit_or_low u b, or_7 (u / 2) (b / 2) (omega arith) (omega arith))

-- `^` with one number twice gives the other back.
bit_xor-zero_count : (n a : ℕ) → a ≤ n → bit_xor a 0 ≡ a
bit_xor-zero_count n zero h = refl
bit_xor-zero_count zero (suc a) h = absurd (omega arith)
bit_xor-zero_count (suc n) (suc a) h =
    omega (arith, bit_xor_low (suc a) 0, bit_xor-zero_count n (suc a / 2) (omega arith))

zero-bit_xor : (b : ℕ) → bit_xor 0 b ≡ b
zero-bit_xor b = bit_xor-bitwise 0 b

-- The digits of a `^` are the sums of the digits, with no carry.
bit_xor_half : (a b : ℕ) → bit_xor a b / 2 ≡ bit_xor (a / 2) (b / 2)
bit_xor_half a b = omega (arith, bit_xor_low a b)

bit_xor_parity : (a b : ℕ) → bit_xor a b % 2 ≡ (a % 2 + b % 2) % 2
bit_xor_parity a b = omega (arith, bit_xor_low a b)

xor_twice_count : (n a b : ℕ) → a ≤ n → b ≤ n → bit_xor (bit_xor a b) b ≡ a
xor_twice_count zero zero zero p q = refl
xor_twice_count zero zero (suc b) p q = absurd (omega arith)
xor_twice_count zero (suc a) b p q = absurd (omega arith)
xor_twice_count (suc n) a b p q = omega (
  arith,
  bit_xor_low (bit_xor a b) b,
  bit_xor_parity a b,
  ap (λ (u : ℕ). bit_xor u (b / 2)) (bit_xor_half a b),
  xor_twice_count n (a / 2) (b / 2) (omega arith) (omega arith),
)

pub xor_twice : (a b : ℕ) → bit_xor (bit_xor a b) b ≡ a
xor_twice a b = xor_twice_count (a + b) a b (omega arith) (omega arith)

-- `^` of two numbers below a power of two stays below it.
xor_bound_1 : (a b : ℕ) → a < 1 → b < 1 → bit_xor a b < 1
xor_bound_1 zero b p q = omega (arith, zero-bit_xor b)
xor_bound_1 (suc a) b p q = absurd (omega arith)

xor_bound_2 : (a b : ℕ) → a < 2 → b < 2 → bit_xor a b < 2
xor_bound_2 a b p q =
    omega (arith, bit_xor_half a b, xor_bound_1 (a / 2) (b / 2) (omega arith) (omega arith))

xor_bound_4 : (a b : ℕ) → a < 4 → b < 4 → bit_xor a b < 4
xor_bound_4 a b p q =
    omega (arith, bit_xor_half a b, xor_bound_2 (a / 2) (b / 2) (omega arith) (omega arith))

xor_bound_8 : (a b : ℕ) → a < 8 → b < 8 → bit_xor a b < 8
xor_bound_8 a b p q =
    omega (arith, bit_xor_half a b, xor_bound_4 (a / 2) (b / 2) (omega arith) (omega arith))

xor_bound_16 : (a b : ℕ) → a < 16 → b < 16 → bit_xor a b < 16
xor_bound_16 a b p q =
    omega (arith, bit_xor_half a b, xor_bound_8 (a / 2) (b / 2) (omega arith) (omega arith))

xor_bound_32 : (a b : ℕ) → a < 32 → b < 32 → bit_xor a b < 32
xor_bound_32 a b p q =
    omega (arith, bit_xor_half a b, xor_bound_16 (a / 2) (b / 2) (omega arith) (omega arith))

xor_bound_64 : (a b : ℕ) → a < 64 → b < 64 → bit_xor a b < 64
xor_bound_64 a b p q =
    omega (arith, bit_xor_half a b, xor_bound_32 (a / 2) (b / 2) (omega arith) (omega arith))

xor_bound_128 : (a b : ℕ) → a < 128 → b < 128 → bit_xor a b < 128
xor_bound_128 a b p q =
    omega (arith, bit_xor_half a b, xor_bound_64 (a / 2) (b / 2) (omega arith) (omega arith))

pub xor_bound_256 : (a b : ℕ) → a < 256 → b < 256 → bit_xor a b < 256
xor_bound_256 a b p q =
    omega (arith, bit_xor_half a b, xor_bound_128 (a / 2) (b / 2) (omega arith) (omega arith))

-- `|` of two shifted numbers is shifted.
or_shift_1 : (u v a b : ℕ) → u ≡ a * 2 → v ≡ b * 2 → bit_or u v ≡ bit_or a b * 2
or_shift_1 u v a b p q = omega (
  arith,
  bit_or_low u v,
  ap (λ (x : ℕ). bit_or x (v / 2)) {x = u / 2} {y = a} (omega arith),
  ap (λ (x : ℕ). bit_or a x) {x = v / 2} {y = b} (omega arith),
)

or_shift_2 : (u v a b : ℕ) → u ≡ a * 4 → v ≡ b * 4 → bit_or u v ≡ bit_or a b * 4
or_shift_2 u v a b p q = omega (
  arith,
  or_shift_1 u v (a * 2) (b * 2) (omega arith) (omega arith),
  or_shift_1 (a * 2) (b * 2) a b refl refl,
)

or_shift_4 : (u v a b : ℕ) → u ≡ a * 16 → v ≡ b * 16 → bit_or u v ≡ bit_or a b * 16
or_shift_4 u v a b p q = omega (
  arith,
  or_shift_2 u v (a * 4) (b * 4) (omega arith) (omega arith),
  or_shift_2 (a * 4) (b * 4) a b refl refl,
)

pub or_shift_8 : (u v a b : ℕ) → u ≡ a * 256 → v ≡ b * 256 → bit_or u v ≡ bit_or a b * 256
or_shift_8 u v a b p q = omega (
  arith,
  or_shift_4 u v (a * 16) (b * 16) (omega arith) (omega arith),
  or_shift_4 (a * 16) (b * 16) a b refl refl,
)

-- A mask with more bits, from the mask `m` of the bits above them.
mask_above_1 : (a c m : ℕ) → c ≡ m * 2 + 1 → bit_and a c ≡ bit_and (a / 2) m * 2 + a % 2
mask_above_1 a c m p =
    omega
      (arith, bit_and_low a c, ap (λ (x : ℕ). bit_and (a / 2) x) {x = c / 2} {y = m} (omega arith))

mask_above_2 : (a b c m : ℕ) → b ≡ a / 4 → c ≡ m * 4 + 3 → bit_and a c ≡ bit_and b m * 4 + a % 4
mask_above_2 a b c m q p = omega (
  arith,
  mask_above_1 a c (m * 2 + 1) (omega arith),
  mask_above_1 (a / 2) (m * 2 + 1) m refl,
  ap (λ (x : ℕ). bit_and x m) {x = a / 2 / 2} {y = b} (omega arith),
)

mask_above_4 :
    (a b c m : ℕ) → b ≡ a / 16 → c ≡ m * 16 + 15 → bit_and a c ≡ bit_and b m * 16 + a % 16
mask_above_4 a b c m q p = omega (
  arith,
  mask_above_2 a (a / 4) c (m * 4 + 3) refl (omega arith),
  mask_above_2 (a / 4) b (m * 4 + 3) m (omega arith) refl,
)

mask_above_8 : (a c m : ℕ) → c ≡ m * 256 + 255 → bit_and a c ≡ bit_and (a / 256) m * 256 + a % 256
mask_above_8 a c m p = omega (
  arith,
  mask_above_4 a (a / 16) c (m * 16 + 15) refl (omega arith),
  mask_above_4 (a / 16) (a / 256) (m * 16 + 15) m (omega arith) refl,
)

pub mask_bits_31 : (a : ℕ) → bit_and a 0x7FFFFFFF ≡ a % 2 ^ 31
mask_bits_31 a = omega (
  arith,
  mask_above_8 a 0x7FFFFFFF 0x7FFFFF refl,
  mask_above_8 (a / 256) 0x7FFFFF 0x7FFF refl,
  mask_above_8 (a / 256 / 256) 0x7FFF 0x7F refl,
  mask_127 (a / 256 / 256 / 256),
)

bit_or_comm_count : (n a b : ℕ) → a ≤ n → b ≤ n → bit_or a b ≡ bit_or b a
bit_or_comm_count zero zero zero p q = refl
bit_or_comm_count zero zero (suc b) p q = absurd (omega arith)
bit_or_comm_count zero (suc a) b p q = absurd (omega arith)
bit_or_comm_count (suc n) a b p q = omega (
  arith,
  bit_or_low a b,
  bit_or_low b a,
  bit_or_comm_count n (a / 2) (b / 2) (omega arith) (omega arith),
)

pub bit_or_comm : (a b : ℕ) → bit_or a b ≡ bit_or b a
bit_or_comm a b = bit_or_comm_count (a + b) a b (omega arith) (omega arith)
