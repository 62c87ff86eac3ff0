-- ===== src/Protos/Http1/Runs.antt =====
-- Runs of the helpers of HTTP/1 on concrete inputs.
use wave_x.Prelude.{◌≡◌, refl, chars, true}
use wave_x.Protos.Http1.{is_equal, to_chars, from_string, to_string, Method}
use wave_x.Protos.Http1.Proofs.{from_string-to_string}

letters_case : is_equal (chars "Content-Type") (chars "content-TYPE") ≡ true
unfolding is_equal
letters_case = refl

three_digits : to_chars 404 ≡ chars "404"
unfolding to_chars
three_digits = refl

from_string-to_string_example : from_string (to_string Method.patch) ≡ Method.patch
from_string-to_string_example = from_string-to_string Method.patch
