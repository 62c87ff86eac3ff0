-- ===== src/Protos/Http2/Hpack/Sent.antt =====
-- The header lists that the encoder writes are the ones that the decoder gives.
use wave_x.Prelude.{
  ℕ, zero, suc, ◌<◌, ◌^◌, ◌≡◌, refl, sym, subst, Bool, true, false, List, [], ◌∷◌, ◌++◌,
  if◌then◌else◌, length, arith, inl, inr, map, chars, lt→ltb,
}
use mathlib.Core.Path.{ap₂}
use wave_x.Protos.Http1.{Header, is_empty, Method, bytes_eq, to_string, to_chars, ascii_lower}
use wave_x.Protos.Http1.Proofs.{bytes_eq→≡}
use wave_x.Protos.Http2.Hpack.StaticTable.{static_table, find_static}
use wave_x.Protos.Http2.Hpack.Encoder.{
  indexed, indexed_name, encode_fields, encode_field, encode_found, is_pseudo, tolower,
  encode_exact_or, encode_request_headers, encode_response_headers, encode_scheme, scheme_or_https,
  path_or_root, encode_authority,
}
use wave_x.Protos.Http2.Hpack.Found.{entry_at, IsUsed, Says, find_static-Says}
use wave_x.Protos.Http2.Hpack.Compare.{map-lower_twice}
use wave_x.Protos.Http2.Hpack.FieldBack.{Encodes, by_index, by_name, by_literal}
use wave_x.Protos.Http2.Hpack.RoundTrip.{
  EncodesAll, no_fields, and_then, HasRoom, decode_header_block-EncodesAll,
}
use wave_x.Protos.Http2.Hpack.DynamicTable.{DynamicTable}
use wave_x.Protos.Http2.Hpack.Decoder.{field, list_size_of, decoded, decode_header_block}

-- The fields of a message that go into a block: the names in small letters, and no pseudo-header.
unfoldable pub sent_fields : List Header → List Header
sent_fields [] = []
sent_fields (h ∷ hs) =
    let rest = sent_fields hs in
    if is_pseudo h.name then rest else field (map tolower h.name) h.value ∷ rest

indexed_is :
    (idx : ℕ) (name value : List ℕ)
    → IsUsed idx
    → (entry_at idx).name ≡ name
    → (entry_at idx).value ≡ value
    → Encodes (indexed idx) (field name value)
indexed_is idx name value u n v = subst (Encodes (indexed idx)) (ap₂ field n v) (by_index idx u)

named_is :
    (idx : ℕ) (name value : List ℕ)
    → IsUsed idx
    → (entry_at idx).name ≡ name
    → Encodes (indexed_name idx value) (field name value)
named_is idx name value u n =
    subst (λ (m : List ℕ). Encodes (indexed_name idx value) (field m value)) n (by_name idx value u)

found_is :
    (found : ℕ × Bool) (name value : List ℕ)
    → Says name value found
    → Encodes (encode_found found name value) (field name value)
unfolding Says
found_is (idx, true) name value (u, n, v, differs) = indexed_is idx name value u n v
found_is (zero, false) name value says = by_literal name value
found_is (suc idx, false) name value (differs, inl (z, unnamed)) = absurd (omega arith)
found_is (suc idx, false) name value (differs, inr (u, n, unnamed)) =
    rw (lt→ltb 0 (suc idx) (omega arith)) (named_is (suc idx) name value u n)

encode_field-Encodes :
    (name value : List ℕ)
    → map ascii_lower name ≡ name
    → Encodes (encode_field name value) (field name value)
encode_field-Encodes name value low =
    found_is (find_static name value) name value (find_static-Says name value low)

encode_fields-EncodesAll : (hs : List Header) → EncodesAll (encode_fields hs) (sent_fields hs)
unfolding encode_fields sent_fields
encode_fields-EncodesAll [] = no_fields
encode_fields-EncodesAll (h ∷ hs) = go (is_pseudo h.name) (encode_fields-EncodesAll hs)
  where
    go :
        (pseudo : Bool)
        → EncodesAll (encode_fields hs) (sent_fields hs)
        → EncodesAll
            (if pseudo
              then encode_fields hs
              else encode_field (map tolower h.name) h.value ++ encode_fields hs)
            (if pseudo then sent_fields hs else field (map tolower h.name) h.value ∷ sent_fields hs)
    go true all = all
    go false all =
        and_then (encode_field (map tolower h.name) h.value) (encode_fields hs)
          (field (map tolower h.name) h.value) (sent_fields hs)
          (encode_field-Encodes (map tolower h.name) h.value (map-lower_twice h.name)) all

-- A field with an index for its name, in case that its value is not found.
exact_or_is :
    (found : ℕ × Bool) (idx : ℕ) (name value : List ℕ)
    → Says name value found
    → IsUsed idx
    → (entry_at idx).name ≡ name
    → Encodes (encode_exact_or found idx value) (field name value)
unfolding Says
exact_or_is (i, true) idx name value (u, n, v, differs) used e = indexed_is i name value u n v
exact_or_is (i, false) idx name value says used e = named_is idx name value used e

status-IsUsed : IsUsed 8
unfolding entry_at static_table
status-IsUsed = record {
  positive = omega arith;
  small = omega arith;
  has_name = refl;
  lower = refl;
}

status_name : (entry_at 8).name ≡ chars ":status"
unfolding entry_at static_table
status_name = refl

pub encode_response_headers-EncodesAll :
    (status_code : ℕ) (hs : List Header)
    → EncodesAll
        (encode_response_headers status_code hs)
        (field (chars ":status") (to_chars status_code) ∷ sent_fields hs)
unfolding encode_response_headers
encode_response_headers-EncodesAll status_code hs =
    let value = to_chars status_code in
    and_then _ (encode_fields hs) (field (chars ":status") value) (sent_fields hs)
      (exact_or_is (find_static (chars ":status") value) 8 (chars ":status") value
        (find_static-Says (chars ":status") value refl) status-IsUsed status_name)
      (encode_fields-EncodesAll hs)

scheme-IsUsed : IsUsed 6
unfolding entry_at static_table
scheme-IsUsed = record {
  positive = omega arith;
  small = omega arith;
  has_name = refl;
  lower = refl;
}

path-IsUsed : IsUsed 4
unfolding entry_at static_table
path-IsUsed = record { positive = omega arith; small = omega arith; has_name = refl; lower = refl }

index_path-IsUsed : IsUsed 5
unfolding entry_at static_table
index_path-IsUsed = record {
  positive = omega arith;
  small = omega arith;
  has_name = refl;
  lower = refl;
}

authority-IsUsed : IsUsed 1
unfolding entry_at static_table
authority-IsUsed = record {
  positive = omega arith;
  small = omega arith;
  has_name = refl;
  lower = refl;
}

path_is :
    (path : List ℕ)
    → Encodes
        (if bytes_eq path (chars "/")
          then indexed 4
          else if bytes_eq path (chars "/index.html")
          then indexed 5
          else indexed_name 4 path)
        (field (chars ":path") path)
unfolding entry_at static_table
path_is path = go (bytes_eq path (chars "/")) refl (bytes_eq path (chars "/index.html")) refl
  where
    go :
        (root : Bool)
        → bytes_eq path (chars "/") ≡ root
        → (index : Bool) → bytes_eq path (chars "/index.html") ≡ index
        → Encodes
            (if root then indexed 4 else if index then indexed 5 else indexed_name 4 path)
            (field (chars ":path") path)
    go true r index i =
        indexed_is 4 (chars ":path") path path-IsUsed refl (sym (bytes_eq→≡ path (chars "/") r))
    go false r true i =
        indexed_is 5 (chars ":path") path index_path-IsUsed refl
          (sym (bytes_eq→≡ path (chars "/index.html") i))
    go false r false i = named_is 4 (chars ":path") path path-IsUsed refl

-- The list that a request is sent as: the pseudo-headers in their order, the authority where there is one, and the
-- fields.
unfoldable pub sent_request : Method → List ℕ → List ℕ → List ℕ → List Header → List Header
sent_request m target scheme authority hs =
    field (chars ":method") (to_string m)
    ∷ field (chars ":scheme") (scheme_or_https scheme)
    ∷ field (chars ":path") (path_or_root target)
    ∷ ((if is_empty authority then [] else field (chars ":authority") authority ∷ [])
        ++ sent_fields hs)

with_authority :
    (authority : List ℕ) (hs : List Header)
    → EncodesAll (encode_authority authority ++ encode_fields hs) (
        (if is_empty authority then [] else field (chars ":authority") authority ∷ [])
        ++ sent_fields hs)
unfolding entry_at static_table
with_authority [] hs = encode_fields-EncodesAll hs
with_authority (a ∷ as_) hs =
    and_then (indexed_name 1 (a ∷ as_)) (encode_fields hs) _ (sent_fields hs)
      (named_is 1 (chars ":authority") (a ∷ as_) authority-IsUsed refl)
      (encode_fields-EncodesAll hs)

scheme_is :
    (scheme : List ℕ)
    → Encodes (encode_scheme scheme) (field (chars ":scheme") (scheme_or_https scheme))
unfolding entry_at static_table
scheme_is scheme =
    exact_or_is (find_static (chars ":scheme") (scheme_or_https scheme)) 6 (chars ":scheme")
      (scheme_or_https scheme) (find_static-Says (chars ":scheme") (scheme_or_https scheme) refl)
      scheme-IsUsed refl

pub encode_request_headers-EncodesAll :
    (m : Method) (target scheme authority : List ℕ) (hs : List Header)
    → EncodesAll
        (encode_request_headers m target scheme authority hs)
        (sent_request m target scheme authority hs)
unfolding encode_request_headers sent_request
encode_request_headers-EncodesAll m target scheme authority hs =
    and_then _ _ _ _ (encode_field-Encodes (chars ":method") (to_string m) refl) (
      and_then _ _ _ _ (scheme_is scheme)
        (and_then _ _ _ _ (path_is (path_or_root target)) (with_authority authority hs)))

-- A response's block, shorter than 2^64 bytes, is decoded into its status in decimal digits and its fields, the names
-- in small letters and without pseudo-headers, where the limit on the list leaves room for them; behind what was in
-- the list, and with the dynamic table as it was, whatever that is.
pub decode-encode_response_headers :
    (status_code max_list_size : ℕ) (hs out0 : List Header) (dt : DynamicTable)
    → length (encode_response_headers status_code hs) < 2 ^ 64
    → HasRoom max_list_size
        (list_size_of (field (chars ":status") (to_chars status_code) ∷ sent_fields hs))
    → decode_header_block max_list_size (encode_response_headers status_code hs) out0 dt
      ≡ decoded (out0 ++ (field (chars ":status") (to_chars status_code) ∷ sent_fields hs)) dt
decode-encode_response_headers status_code max hs out0 dt b r =
    decode_header_block-EncodesAll (encode_response_headers status_code hs) _ out0 max dt b
      (encode_response_headers-EncodesAll status_code hs) r

-- A request's block that is shorter than 2^64 bytes is decoded into its method, scheme ("https" for an empty one),
-- path ("/" for an empty one), authority, if there is one, and fields, the names in small letters and without
-- pseudo-headers, where the limit on the list is 0, which is none, or has room for them. They stand behind what was in
-- the list, and the dynamic table stays as it was.
pub decode-encode_request_headers :
    (m : Method) (target scheme authority : List ℕ) (max_list_size : ℕ) (hs out0 : List Header)
    (dt : DynamicTable)
    → length (encode_request_headers m target scheme authority hs) < 2 ^ 64
    → HasRoom max_list_size (list_size_of (sent_request m target scheme authority hs))
    → decode_header_block max_list_size
        (encode_request_headers m target scheme authority hs)
        out0
        dt
      ≡ decoded (out0 ++ sent_request m target scheme authority hs) dt
decode-encode_request_headers m target scheme authority max hs out0 dt b r =
    decode_header_block-EncodesAll (encode_request_headers m target scheme authority hs) _ out0 max
      dt b (encode_request_headers-EncodesAll m target scheme authority hs) r
