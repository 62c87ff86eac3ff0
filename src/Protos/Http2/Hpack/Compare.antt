-- ===== src/Protos/Http2/Hpack/Compare.antt =====
-- Comparisons of names and values of fields, and equality.
use wave_x.Prelude.{
  ℕ, subst, ◌≡◌, refl, Bool, true, false, not, ◌&&◌, List, [], ◌∷◌, ◌==◌, if◌then◌else◌, length,
  arith, map, ==→≡,
}
use mathlib.Core.Path.{ap₂}
use wave_x.Protos.Http1.{bytes_eq, is_equal, ascii_lower, same_letters}
use wave_x.Protos.Http2.Hpack.Encoder.{tolower}

both_true : (b c : Bool) → (if not b then false else c) ≡ true → (b ≡ true) × (c ≡ true)
both_true true c h = (refl, h)
both_true false c h = absurd (ground arith)

pub and_true : (b c : Bool) → (b && c) ≡ true → (b ≡ true) × (c ≡ true)
and_true true c h = (refl, h)
and_true false c h = absurd (ground arith)

same_letters→≡ :
    (a b : List ℕ)
    → length a ≡ length b
    → same_letters a b ≡ true
    → map ascii_lower a ≡ map ascii_lower b
same_letters→≡ [] [] e h = refl
same_letters→≡ [] (y ∷ ys) e h = absurd (omega arith)
same_letters→≡ (x ∷ xs) [] e h = absurd (omega arith)
same_letters→≡ (x ∷ xs) (y ∷ ys) e h =
    let (same, rest) = both_true (ascii_lower x == ascii_lower y) (same_letters xs ys) h in
    ap₂ ◌∷◌ (==→≡ _ _ same) (same_letters→≡ xs ys (omega arith) rest)

pub is_equal→≡ : (a b : List ℕ) → is_equal a b ≡ true → map ascii_lower a ≡ map ascii_lower b
unfolding is_equal
is_equal→≡ a b h =
    let (same, rest) = both_true (length a == length b) (same_letters a b) h in
    same_letters→≡ a b (==→≡ _ _ same) rest

-- A name without capital letters is its own comparison form.
lower_twice : (c : ℕ) → ascii_lower (tolower c) ≡ tolower c
lower_twice c = ground arith

pub map-lower_twice : (n : List ℕ) → map ascii_lower (map tolower n) ≡ map tolower n
map-lower_twice [] = refl
map-lower_twice (c ∷ cs) = ap₂ ◌∷◌ (lower_twice c) (map-lower_twice cs)

pub flipped : (b : Bool) → not b ≡ true → b ≡ false
flipped true h = absurd (ground arith)
flipped false h = refl

letters_self : (a : List ℕ) → same_letters a a ≡ true
letters_self [] = refl
letters_self (c ∷ cs) = ground (arith, letters_self cs)

≡→== : (a b : ℕ) → a ≡ b → (a == b) ≡ true
≡→== a b e = ground arith

pub is_equal_self : (a b : List ℕ) → a ≡ b → is_equal a b ≡ true
unfolding is_equal
is_equal_self a b e =
    subst (λ c. (if not (length a == length c) then false else same_letters a c) ≡ true) e
      (rw (≡→== (length a) (length a) refl) (letters_self a))

bytes_self : (a : List ℕ) → bytes_eq a a ≡ true
bytes_self [] = refl
bytes_self (c ∷ cs) = ground (arith, bytes_self cs)

pub bytes_eq_self : (a b : List ℕ) → a ≡ b → bytes_eq a b ≡ true
bytes_eq_self a b e = subst (λ c. bytes_eq a c ≡ true) e (bytes_self a)
