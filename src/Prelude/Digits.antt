-- ===== src/Prelude/Digits.antt =====
-- Numbers as bytes, the highest first: the loops that read and push them.
use Prim.Native.Nat.{ℕ, zero, suc, ◌+◌, ◌*◌, ◌/◌, ◌%◌, ◌^◌, ◌<◌, bit_and, bit_or}
use mathlib.Core.Path.{◌≡◌, refl, ap, ◌∙◌}
use mathlib.Core.List.{List, [], ◌∷◌, ◌++◌}
use native.Mathlib.Omega.{arith}
use native.Mathlib.Nat.{pow-suc, div-div-eq-div-mul, mod-eq_of_lt, div-le_self}
use wave_x.Prelude.Lists.{length}
use wave_x.Prelude.Bits.{mask_255, or_8}

-- The loops `v = (v << 8) | in[pos + i]` over `n` bytes, `v` having `w` bits.
unfoldable pub read_number : ℕ → ℕ → ℕ → List ℕ → ℕ
read_number w zero v bs = v
read_number w (suc n) v [] = v
read_number w (suc n) v (b ∷ bs) = read_number w n (bit_or (v * 2 ^ 8 % 2 ^ w) b) bs

-- The loops that push `(v >> shift) & 0xFF` for the shifts `8 * (n - 1)`, ..., 8, 0.
unfoldable pub push_number : ℕ → ℕ → List ℕ
push_number zero v = []
push_number (suc n) v = bit_and (v / 256 ^ n) 0xFF ∷ push_number n v

-- One digit of a number in base 256.
digit_step : (v n : ℕ) → v / 256 ^ n ≡ v / 256 ^ suc n * 256 + v / 256 ^ n % 256
digit_step v n = omega (arith, div-div-eq-div-mul v (256 ^ n) 256, ap (λ p. v / p) (pow-suc 256 n))

-- The loops read back what the pushes wrote: after the digits above `n` come those below.
pub read_digits :
    (w n v acc : ℕ) (rest : List ℕ)
    → v < 2 ^ w
    → acc ≡ v / 256 ^ n
    → read_number w n acc (push_number n v ++ rest) ≡ v
unfolding read_number push_number
read_digits w zero v acc rest h e = omega (arith, e)
read_digits w (suc n) v acc rest h e =
    let x : ℕ = v / 256 ^ n in
    let small : acc * 256 % 2 ^ w ≡ acc * 256 =
      mod-eq_of_lt (omega (arith, e, digit_step v n, div-le_self v (256 ^ n))) in
    let joined : bit_or (acc * 2 ^ 8 % 2 ^ w) (bit_and x 0xFF) ≡ x =
      ap (λ a. bit_or a (bit_and x 0xFF)) small
      ∙ ap (λ b. bit_or (acc * 256) b) (mask_255 x)
      ∙ or_8 (acc * 256) (x % 256) (omega arith) (omega arith)
      ∙ omega (arith, e, digit_step v n) in
    read_digits w n v _ rest h joined

pub length-push_number : (n v : ℕ) → length (push_number n v) ≡ n
unfolding push_number
length-push_number zero v = refl
length-push_number (suc n) v = omega (arith, length-push_number n v)
