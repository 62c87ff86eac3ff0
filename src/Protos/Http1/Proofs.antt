-- ===== src/Protos/Http1/Proofs.antt =====
-- Comparisons of strings, and the names of the methods read back.
use wave_x.Prelude.{ℕ, ◌≡◌, refl, true, List, [], ◌∷◌, arith}
use wave_x.Protos.Http1.{bytes_eq, Method, to_string, from_string}

pub bytes_eq-same : (xs : List ℕ) → bytes_eq xs xs ≡ true
bytes_eq-same [] = refl
bytes_eq-same (x ∷ xs) = ground (arith, bytes_eq-same xs)

pub bytes_eq→≡ : (xs ys : List ℕ) → bytes_eq xs ys ≡ true → xs ≡ ys
bytes_eq→≡ [] [] h = refl
bytes_eq→≡ [] (y ∷ ys) h = absurd (ground arith)
bytes_eq→≡ (x ∷ xs) [] h = absurd (ground arith)
bytes_eq→≡ (x ∷ xs) (y ∷ ys) h = ground (arith, bytes_eq→≡ xs ys)

-- For every method of the enum, UNKNOWN included, `from_string` reads the name that `to_string` gives it
-- back as that method.
pub from_string-to_string : (m : Method) → from_string (to_string m) ≡ m
unfolding from_string to_string
from_string-to_string Method.get = refl
from_string-to_string Method.post = refl
from_string-to_string Method.put = refl
from_string-to_string Method.delete = refl
from_string-to_string Method.head = refl
from_string-to_string Method.options = refl
from_string-to_string Method.patch = refl
from_string-to_string Method.trace = refl
from_string-to_string Method.connect = refl
from_string-to_string Method.query = refl
from_string-to_string Method.unknown = refl
