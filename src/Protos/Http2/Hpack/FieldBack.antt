-- ===== src/Protos/Http2/Hpack/FieldBack.antt =====
-- One field, encoded in any of the three ways that the encoder has, is decoded by one round.
use wave_x.Prelude.{
  ℕ, ◌+◌, ◌^◌, ◌≤◌, ◌<◌, ◌≡◌, refl, sym, ap, ◌∙◌, true, false, List, ◌++◌, ◌==◌, length, drop,
  arith, bit_and, bit_or, append_assoc, length-append, drop_sum, drop-length_append, lt→ltb,
}
use wave_x.Prelude.Bits.{or_7, flag_128, flag_64, flag_32, bit_or-zero, bit_or_comm}
use wave_x.Protos.Http1.{Header}
use wave_x.Protos.Http2.Hpack.Outcome.{Outcome, ok, ◌>=>◌}
use wave_x.Protos.Http2.Hpack.Integer.{encode_integer, encode_string, first_or_zero}
use wave_x.Protos.Http2.Hpack.IntegerBack.{decode-encode_integer, decode-encode_string}
use wave_x.Protos.Http2.Hpack.StaticTable.{static_table}
use wave_x.Protos.Http2.Hpack.Encoder.{indexed, indexed_name, literal_name}
use wave_x.Protos.Http2.Hpack.Found.{entry_at, IsUsed}
use wave_x.Protos.Http2.Hpack.DynamicTable.{DynamicTable}
use wave_x.Protos.Http2.Hpack.Decoder.{
  Block, emit, field, lookup_index, indexed_case, plain_case, literal_of, decode_round,
}

-- The three ways to encode a field.
pub data Encodes : List ℕ → Header → Type 0 where
  by_index :
      (idx : ℕ)
      → IsUsed idx
      → Encodes (indexed idx) (field (entry_at idx).name (entry_at idx).value)
  by_name :
      (idx : ℕ) (value : List ℕ)
      → IsUsed idx
      → Encodes (indexed_name idx value) (field (entry_at idx).name value)
  by_literal : (name value : List ℕ) → Encodes (literal_name name value) (field name value)

-- The bytes behind a front part that is known.
pub behind :
    (block front rest : List ℕ) (cursor : ℕ)
    → drop cursor block ≡ front ++ rest
    → drop (cursor + length front) block ≡ rest
behind block front rest cursor e =
    sym (drop_sum cursor (length front) (cursor + length front) block refl)
    ∙ ap (drop (length front)) e
    ∙ drop-length_append front rest

not_zero : (n : ℕ) → 1 ≤ n → (n == 0) ≡ false
not_zero n h = ground arith

lookup_used :
    (idx : ℕ) (dt : DynamicTable)
    → IsUsed idx
    → lookup_index idx dt ≡ field (entry_at idx).name (entry_at idx).value
unfolding lookup_index entry_at static_table
lookup_used idx dt u =
    let positive : (idx == 0) ≡ false = not_zero idx u.positive in
    rw (positive, lt→ltb idx 62 u.small) refl

-- The flags of the first byte.
index_flag :
    (idx : ℕ) (rest : List ℕ)
    → idx < 62
    → (bit_and (first_or_zero (indexed idx ++ rest)) 0x80 == 0) ≡ false
unfolding encode_integer
index_flag idx rest h = ground (arith, or_7 0x80 idx refl (omega arith), flag_128 (0x80 + idx))

literal_flag_128 :
    (idx : ℕ) (rest : List ℕ)
    → (bit_and (first_or_zero (encode_integer idx 4 0 ++ rest)) 0x80 == 0) ≡ true
unfolding encode_integer
literal_flag_128 idx rest = ground (
  arith,
  bit_or_comm 0 idx,
  bit_or-zero idx,
  flag_128 idx,
  flag_128 (bit_or 0 idx),
  flag_128 (bit_or 0 15),
)

literal_flag_64 :
    (idx : ℕ) (rest : List ℕ)
    → (bit_and (first_or_zero (encode_integer idx 4 0 ++ rest)) 0x40 == 0) ≡ true
unfolding encode_integer
literal_flag_64 idx rest = ground (
  arith,
  bit_or_comm 0 idx,
  bit_or-zero idx,
  flag_64 idx,
  flag_64 (bit_or 0 idx),
  flag_64 (bit_or 0 15),
)

literal_flag_32 :
    (idx : ℕ) (rest : List ℕ)
    → (bit_and (first_or_zero (encode_integer idx 4 0 ++ rest)) 0x20 == 0) ≡ true
unfolding encode_integer
literal_flag_32 idx rest = ground (
  arith,
  bit_or_comm 0 idx,
  bit_or-zero idx,
  flag_32 idx,
  flag_32 (bit_or 0 idx),
  flag_32 (bit_or 0 15),
)

indexed_back :
    (block rest : List ℕ) (idx : ℕ) (s : Block)
    → IsUsed idx
    → drop s.cursor block ≡ indexed idx ++ rest
    → indexed_case block s
      ≡ ok (
          emit (field (entry_at idx).name (entry_at idx).value) (s.cursor + length (indexed idx)) s)
indexed_back block rest idx s u e =
    rw
      (
        decode-encode_integer block rest s.cursor idx 7 0x80 (omega arith) (omega arith) refl
            (omega (arith, u.small)) e,
        lookup_used idx s.dt u,
        u.has_name,
      )
      refl

named_back :
    (block rest value : List ℕ) (idx : ℕ) (s : Block)
    → length block < 2 ^ 64
    → IsUsed idx
    → drop s.cursor block ≡ indexed_name idx value ++ rest
    → literal_of block 4 s
      ≡ ok (field (entry_at idx).name value, s.cursor + length (indexed_name idx value))
named_back block rest value idx s b u e =
    let head : List ℕ = encode_integer idx 4 0 in
    let e1 : drop s.cursor block ≡ head ++ (encode_string value ++ rest) =
      e ∙ append_assoc head (encode_string value) rest in
    rw
      (
        decode-encode_integer block (encode_string value ++ rest) s.cursor idx 4 0 (omega arith)
            (omega arith) refl (omega (arith, u.small)) e1,
        lookup_used idx s.dt u,
        u.has_name,
        not_zero idx u.positive,
        decode-encode_string block rest value (s.cursor + length head) b
            (behind block head _ s.cursor e1),
      )
      (ap (λ (c : ℕ). ok (field (entry_at idx).name value, c))
        (omega (arith, length-append {0} head (encode_string value))))

literal_back :
    (block rest name value : List ℕ) (s : Block)
    → length block < 2 ^ 64
    → drop s.cursor block ≡ literal_name name value ++ rest
    → literal_of block 4 s ≡ ok (field name value, s.cursor + length (literal_name name value))
literal_back block rest name value s b e =
    let head : List ℕ = encode_integer 0 4 0 in
    let e1 : drop s.cursor block ≡ head ++ (encode_string name ++ (encode_string value ++ rest)) =
      e
      ∙ append_assoc head (encode_string name ++ encode_string value) rest
      ∙ ap (λ (l : List ℕ). head ++ l)
          (append_assoc (encode_string name) (encode_string value) rest) in
    let e2 = behind block head _ s.cursor e1 in
    rw
      (
        decode-encode_integer block (encode_string name ++ (encode_string value ++ rest)) s.cursor 0
            4 0 (omega arith) (omega arith) refl (omega arith) e1,
        decode-encode_string block (encode_string value ++ rest) name (s.cursor + length head) b e2,
        decode-encode_string block rest value (s.cursor + length head + length (encode_string name))
            b (behind block (encode_string name) _ (s.cursor + length head) e2),
      )
      (ap (λ (c : ℕ). ok (field name value, c))
        (omega (
          arith,
          length-append {0} head (encode_string name ++ encode_string value),
          length-append {0} (encode_string name) (encode_string value),
        )))

plain_round :
    (block rest1 : List ℕ) (idx : ℕ) (s : Block)
    → drop s.cursor block ≡ encode_integer idx 4 0 ++ rest1
    → decode_round block (first_or_zero (drop s.cursor block)) s ≡ plain_case block s
unfolding decode_round
plain_round block rest1 idx s e =
    rw (e, literal_flag_128 idx rest1, literal_flag_64 idx rest1, literal_flag_32 idx rest1) refl

index_round :
    (block rest : List ℕ) (idx : ℕ) (s : Block)
    → IsUsed idx
    → drop s.cursor block ≡ indexed idx ++ rest
    → decode_round block (first_or_zero (drop s.cursor block)) s ≡ indexed_case block s
unfolding decode_round
index_round block rest idx s u e = rw (e, index_flag idx rest u.small) refl

-- One round decodes a field that was encoded.
pub decode_round-Encodes :
    (block bytes rest : List ℕ) (h : Header) (s : Block)
    → length block < 2 ^ 64
    → Encodes bytes h
    → drop s.cursor block ≡ bytes ++ rest
    → decode_round block (first_or_zero (drop s.cursor block)) s
      ≡ ok (emit h (s.cursor + length bytes) s)
unfolding decode_round
decode_round-Encodes block bytes rest h s b (by_index idx u) e =
    index_round block rest idx s u e ∙ indexed_back block rest idx s u e
decode_round-Encodes block bytes rest h s b (by_name idx value u) e =
    plain_round block (encode_string value ++ rest) idx s
      (e ∙ append_assoc (encode_integer idx 4 0) (encode_string value) rest)
    ∙ ap (λ (r : Outcome (Header × ℕ)). r >=> λ (h, cursor). ok (emit h cursor s))
        (named_back block rest value idx s b u e)
decode_round-Encodes block bytes rest h s b (by_literal name value) e =
    plain_round block ((encode_string name ++ encode_string value) ++ rest) 0 s
      (e ∙ append_assoc (encode_integer 0 4 0) (encode_string name ++ encode_string value) rest)
    ∙ ap (λ (r : Outcome (Header × ℕ)). r >=> λ (h, cursor). ok (emit h cursor s))
        (literal_back block rest name value s b e)
