-- ===== src/Protos/Http2/Hpack/Integer.antt =====
-- include/wavex/protos/http/http2codec.hpp, namespace hpack: the integers with a prefix, and strings.
-- A cursor is an index into the whole input, since `cursor += str_len` wraps around on 64 bits.
use wave_x.Prelude.{
  ℕ, zero, suc, ◌+◌, ◌-◌, ◌*◌, ◌/◌, ◌%◌, ◌^◌, List, [], ◌∷◌, ◌++◌, bit_and, bit_or, ltb, leb, ◌==◌,
  Bool, if◌then◌else◌, length, take, drop, not, add64, u64_mod,
}
use wave_x.Protos.Http2.Hpack.Outcome.{Outcome, ok, refused, ◌>=>◌}
use wave_x.Protos.Http2.Hpack.Huffman.{decode as huffman_decode}

-- `static_cast<uint8_t>((1U << prefix_bits) - 1U)`
abbrev pub max_prefix : ℕ → ℕ
max_prefix prefix_bits = (2 ^ prefix_bits - 1) % 256

-- The loop of encode_integer and the byte after it. Nine rounds are enough for a 64-bit number.
unfoldable pub encode_more : ℕ → ℕ → List ℕ
encode_more zero value = value ∷ []
encode_more (suc n) value =
    let more = encode_more n (value / 128) in
    if leb 128 value then bit_or (value % 128) 0x80 ∷ more else value ∷ []

unfoldable pub encode_integer : ℕ → ℕ → ℕ → List ℕ
encode_integer value prefix_bits prefix_mask =
    if ltb value (max_prefix prefix_bits)
    then bit_or prefix_mask value ∷ []
    else bit_or prefix_mask (max_prefix prefix_bits)
      ∷ encode_more 9 (value - max_prefix prefix_bits)

-- The loop of decode_integer over the bytes from `cursor` on: the number, and the cursor behind it.
unfoldable pub decode_more : List ℕ → ℕ → ℕ → ℕ → Outcome (ℕ × ℕ)
decode_more [] cursor m result = refused
decode_more (b ∷ bs) cursor m result =
    let result1 = add64 result (bit_and b 0x7F * 2 ^ m % u64_mod) in
    let rest = decode_more bs (suc cursor) (m + 7) result1 in
    if bit_and b 0x80 == 0
    then ok (result1, suc cursor)
    else if ltb 63 (m + 7)
    then refused
    else rest

abbrev pub decode_first : ℕ → ℕ → List ℕ → Outcome (ℕ × ℕ)
decode_first prefix_bits cursor [] = refused
decode_first prefix_bits cursor (first ∷ bs) =
    let result = bit_and first (max_prefix prefix_bits) in
    if ltb result (max_prefix prefix_bits)
    then ok (result, suc cursor)
    else decode_more bs (suc cursor) 0 result

unfoldable pub decode_integer : List ℕ → ℕ → ℕ → Outcome (ℕ × ℕ)
decode_integer input cursor prefix_bits = decode_first prefix_bits cursor (drop cursor input)

unfoldable pub encode_string : List ℕ → List ℕ
encode_string str = encode_integer (length str) 7 0x00 ++ str

-- The byte at the cursor, which the callers have compared with the size.
abbrev pub first_or_zero : List ℕ → ℕ
first_or_zero [] = 0
first_or_zero (b ∷ bs) = b

-- A raw string goes to the output as it is.
abbrev pub decode_raw : Outcome (List ℕ) → ℕ → Outcome (List ℕ × ℕ)
decode_raw raw cursor = raw >=> λ s. ok (s, cursor)

-- The string of `str_len` bytes at `cursor`, where both sums wrap around.
abbrev pub string_at : List ℕ → Bool → ℕ × ℕ → Outcome (List ℕ × ℕ)
string_at input is_huffman (str_len, cursor) =
    let raw = take str_len (drop cursor input) in
    let behind = add64 cursor str_len in
    if ltb (length input) behind
    then refused
    else if is_huffman
    then decode_raw (huffman_decode raw) behind
    else ok (raw, behind)

unfoldable pub decode_string : List ℕ → ℕ → Outcome (List ℕ × ℕ)
decode_string input cursor =
    if leb (length input) cursor
    then refused
    else decode_integer input cursor 7
      >=> string_at input (not (bit_and (first_or_zero (drop cursor input)) 0x80 == 0))
