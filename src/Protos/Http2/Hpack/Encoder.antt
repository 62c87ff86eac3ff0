-- ===== src/Protos/Http2/Hpack/Encoder.antt =====
-- include/wavex/protos/http/http2codec.hpp, class hpack::encoder.
use wave_x.Prelude.{
  ℕ, ◌+◌, Bool, false, List, [], ◌∷◌, ◌++◌, ltb, ◌==◌, if◌then◌else◌, chars, map, ◌&&◌, leb,
}
use wave_x.Protos.Http1.{bytes_eq, is_empty, Method, Header, to_string, to_chars}
use wave_x.Protos.Http2.Hpack.StaticTable.{find_static}
use wave_x.Protos.Http2.Hpack.Integer.{encode_integer, encode_string}

-- std::tolower in the C locale.
abbrev pub tolower : ℕ → ℕ
tolower c = if leb 65 c && leb c 90 then c + 32 else c

-- `raw_name.starts_with(':')`
abbrev pub is_pseudo : List ℕ → Bool
is_pseudo [] = false
is_pseudo (c ∷ cs) = c == 58

-- Indexed Header Field.
abbrev pub indexed : ℕ → List ℕ
indexed idx = encode_integer idx 7 0x80

-- Literal without indexing, with the name of an index.
abbrev pub indexed_name : ℕ → List ℕ → List ℕ
indexed_name idx value = encode_integer idx 4 0x00 ++ encode_string value

-- Literal without indexing, with a name of its own.
abbrev pub literal_name : List ℕ → List ℕ → List ℕ
literal_name name value = encode_integer 0 4 0x00 ++ (encode_string name ++ encode_string value)

-- A field by what find_static has found.
abbrev pub encode_found : ℕ × Bool → List ℕ → List ℕ → List ℕ
encode_found (idx, exact) name value =
    if exact
    then indexed idx
    else if ltb 0 idx
    then indexed_name idx value
    else literal_name name value

abbrev pub encode_field : List ℕ → List ℕ → List ℕ
encode_field name value = encode_found (find_static name value) name value

-- The loop over the fields that are not pseudo-headers.
unfoldable pub encode_fields : List Header → List ℕ
encode_fields [] = []
encode_fields (h ∷ hs) =
    let rest = encode_fields hs in
    if is_pseudo h.name then rest else encode_field (map tolower h.name) h.value ++ rest

-- The block for :scheme, where an empty one is "https".
abbrev pub scheme_or_https : List ℕ → List ℕ
scheme_or_https scheme = if is_empty scheme then chars "https" else scheme

abbrev pub encode_exact_or : ℕ × Bool → ℕ → List ℕ → List ℕ
encode_exact_or (idx, exact) name_idx value =
    if exact then indexed idx else indexed_name name_idx value

abbrev pub encode_scheme : List ℕ → List ℕ
encode_scheme scheme =
    encode_exact_or (find_static (chars ":scheme") (scheme_or_https scheme)) 6
      (scheme_or_https scheme)

abbrev pub path_or_root : List ℕ → List ℕ
path_or_root target = if is_empty target then chars "/" else target

abbrev pub encode_path : List ℕ → List ℕ
encode_path target =
    let path = path_or_root target in
    if bytes_eq path (chars "/")
    then indexed 4
    else if bytes_eq path (chars "/index.html")
    then indexed 5
    else indexed_name 4 path

abbrev pub encode_authority : List ℕ → List ℕ
encode_authority authority = if is_empty authority then [] else indexed_name 1 authority

unfoldable pub encode_request_headers : Method → List ℕ → List ℕ → List ℕ → List Header → List ℕ
encode_request_headers m target scheme authority headers =
    encode_field (chars ":method") (to_string m)
    ++ (encode_scheme scheme
        ++ (encode_path target ++ (encode_authority authority ++ encode_fields headers)))

unfoldable pub encode_response_headers : ℕ → List Header → List ℕ
encode_response_headers status_code headers =
    let status_str = to_chars status_code in
    encode_exact_or (find_static (chars ":status") status_str) 8 status_str ++ encode_fields headers
