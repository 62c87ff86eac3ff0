-- ===== src/Protos/Http1.antt =====
-- include/wavex/protos/http/http1codec.hpp and Methods.hpp: the names of the request methods, header
-- fields and the comparison of their names. HTTP/2 uses these too. A `std::string` is a list of bytes.
pub mod Proofs
mod Runs
use wave_x.Prelude.{
  ℕ, zero, suc, ◌+◌, ◌/◌, ◌%◌, ◌≡◌, Bool, true, false, ◌&&◌, Option, none, some, List, [], ◌∷◌,
  ◌++◌, bit_or, leb, ltb, ◌==◌, if◌then◌else◌, chars, length, not, map,
}

-- `a == b` of two `std::string_view`s.
abbrev pub bytes_eq : List ℕ → List ℕ → Bool
bytes_eq [] [] = true
bytes_eq [] (y ∷ ys) = false
bytes_eq (x ∷ xs) [] = false
bytes_eq (x ∷ xs) (y ∷ ys) = (x == y) && bytes_eq xs ys

abbrev pub is_empty : List ℕ → Bool
is_empty [] = true
is_empty (x ∷ xs) = false

-- detail::ascii_lower
abbrev pub ascii_lower : ℕ → ℕ
ascii_lower c = if leb 65 c && leb c 90 then bit_or c 0x20 else c

-- The loop of detail::is_equal over two strings of one size.
abbrev pub same_letters : List ℕ → List ℕ → Bool
same_letters (x ∷ xs) (y ∷ ys) =
    if not (ascii_lower x == ascii_lower y) then false else same_letters xs ys
same_letters xs ys = true

-- detail::is_equal
unfoldable pub is_equal : List ℕ → List ℕ → Bool
is_equal a b = if not (length a == length b) then false else same_letters a b

-- `method` of Methods.hpp
pub data Method : Type 0 where
  get : Method
  post : Method
  put : Method
  delete : Method
  head : Method
  options : Method
  patch : Method
  trace : Method
  connect : Method
  query : Method
  unknown : Method

unfoldable pub to_string : Method → List ℕ
to_string Method.get = chars "GET"
to_string Method.post = chars "POST"
to_string Method.put = chars "PUT"
to_string Method.delete = chars "DELETE"
to_string Method.head = chars "HEAD"
to_string Method.options = chars "OPTIONS"
to_string Method.patch = chars "PATCH"
to_string Method.trace = chars "TRACE"
to_string Method.connect = chars "CONNECT"
to_string Method.query = chars "QUERY"
to_string Method.unknown = chars "UNKNOWN"

-- One arm of the switch in `from_string`: `m == name ? v : UNKNOWN`.
abbrev pub method_if : List ℕ → List ℕ → Method → Method
method_if m name v = if bytes_eq m name then v else Method.unknown

unfoldable pub from_string : List ℕ → Method
from_string [] = Method.unknown
from_string (c ∷ cs) =
    let m : List ℕ = c ∷ cs in
    if c == 71
    then method_if m (chars "GET") Method.get
    else if c == 80
    then (if bytes_eq m (chars "POST")
        then Method.post
        else if bytes_eq m (chars "PUT")
        then Method.put
        else if bytes_eq m (chars "PATCH")
        then Method.patch
        else Method.unknown)
    else if c == 68
    then method_if m (chars "DELETE") Method.delete
    else if c == 72
    then method_if m (chars "HEAD") Method.head
    else if c == 79
    then method_if m (chars "OPTIONS") Method.options
    else if c == 84
    then method_if m (chars "TRACE") Method.trace
    else if c == 67
    then method_if m (chars "CONNECT") Method.connect
    else if c == 81
    then method_if m (chars "QUERY") Method.query
    else Method.unknown

-- `header`: a field's name and value.
pub record Header : Type 0 where
  pub name : List ℕ
  pub value : List ℕ

-- message_base::get_header: the first field whose name is the same but for the letters' case.
unfoldable pub get_header : List Header → List ℕ → Option (List ℕ)
get_header [] name = none
get_header (h ∷ hs) name =
    let rest = get_header hs name in if is_equal (h.name) name then some (h.value) else rest

-- std::to_chars of an unsigned number: its decimal digits. The fuel is the number of digits at most.
abbrev pub digits_of : ℕ → ℕ → List ℕ → List ℕ
digits_of zero v acc = acc
digits_of (suc n) v acc =
    let more = digits_of n (v / 10) ((48 + v % 10) ∷ acc) in
    if ltb v 10 then (48 + v) ∷ acc else more

-- A number of at most 64 bits has 20 digits at most.
unfoldable pub to_chars : ℕ → List ℕ
to_chars v = digits_of 20 v []

unfoldable pub status_text_for : ℕ → List ℕ
status_text_for code =
    if code == 100
    then chars "Continue"
    else if code == 101
    then chars "Switching Protocols"
    else if code == 200
    then chars "OK"
    else if code == 201
    then chars "Created"
    else if code == 204
    then chars "No Content"
    else if code == 301
    then chars "Moved Permanently"
    else if code == 302
    then chars "Found"
    else if code == 303
    then chars "See Other"
    else if code == 304
    then chars "Not Modified"
    else if code == 307
    then chars "Temporary Redirect"
    else if code == 308
    then chars "Permanent Redirect"
    else if code == 400
    then chars "Bad Request"
    else if code == 401
    then chars "Unauthorized"
    else if code == 403
    then chars "Forbidden"
    else if code == 404
    then chars "Not Found"
    else if code == 405
    then chars "Method Not Allowed"
    else if code == 408
    then chars "Request Timeout"
    else if code == 413
    then chars "Payload Too Large"
    else if code == 426
    then chars "Upgrade Required"
    else if code == 429
    then chars "Too Many Requests"
    else if code == 500
    then chars "Internal Server Error"
    else if code == 501
    then chars "Not Implemented"
    else if code == 502
    then chars "Bad Gateway"
    else if code == 503
    then chars "Service Unavailable"
    else chars "Unknown"
