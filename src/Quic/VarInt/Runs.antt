-- ===== src/Quic/VarInt/Runs.antt =====
-- Runs of the codec, and the theorems at concrete numbers.
use wave_x.Prelude.{
  ℕ, ◌+◌, ◌^◌, ◌≤◌, ◌<◌, ◌≡◌, refl, ◌⊎◌, none, some, List, [], ◌∷◌, ◌++◌, length, drop, replicate,
  arith, ◌%◌,
}
use wave_x.Quic.VarInt.{encoded_size, encode, encode_into, store_bytes, decode}
use wave_x.Quic.VarInt.Codec.{decode-encode}
use wave_x.Quic.VarInt.Bounds.{length-encode, Takes, decode-Takes, encode_into_lem}

-- The examples of RFC 9000, appendix A.1.
abbrev example_8 : List ℕ
example_8 = 0xc2 ∷ 0x19 ∷ 0x7c ∷ 0x5e ∷ 0xff ∷ 0x14 ∷ 0xe8 ∷ 0x8c ∷ []

encode_rfc : encode 151_288_809_941_952_652 ≡ example_8
unfolding encode
encode_rfc = refl

decode_rfc : decode example_8 ≡ some (151_288_809_941_952_652, [])
unfolding decode
decode_rfc = refl

-- A number that does not fit is cut to its low 62 bits.
decode_cut : decode (encode (5 + 2 ^ 62)) ≡ some (5, [])
unfolding decode encode
decode_cut = refl

decode_padded : decode (0x40 ∷ 0x25 ∷ 7 ∷ []) ≡ some (0x25, 7 ∷ [])
unfolding decode
decode_padded = refl

decode_short : decode (0x80 ∷ 1 ∷ 2 ∷ []) ≡ none
unfolding decode
decode_short = refl

decode-encode_example : decode (encode 300 ++ (9 ∷ [])) ≡ some (300 % 2 ^ 62, 9 ∷ [])
decode-encode_example = decode-encode 300 (9 ∷ []) (omega arith)

length-encode_example :
    (length (encode 70_000) ≡ encoded_size 70_000)
    × (1 ≤ encoded_size 70_000)
    × (encoded_size 70_000 ≤ 8)
length-encode_example = length-encode 70_000

decode-Takes_example : Takes (0x40 ∷ 0x25 ∷ 7 ∷ []) 0x25 (7 ∷ [])
decode-Takes_example = decode-Takes (0x40 ∷ 0x25 ∷ 7 ∷ []) 0x25 (7 ∷ []) (omega arith) decode_padded

abbrev zeros : List ℕ
zeros = replicate 4 0

encode_into_lem_example :
    ((encoded_size 300 ≤ 4)
      × (encode_into 300 zeros 4 ≡ (encoded_size 300, encode 300 ++ drop (encoded_size 300) zeros)))
    ⊎ ((4 < encoded_size 300) × (encode_into 300 zeros 4 ≡ (0, zeros)))
encode_into_lem_example = encode_into_lem 300 zeros 4 (omega arith)

encode_into_run : encode_into 300 zeros 4 ≡ (2, 0x41 ∷ 0x2c ∷ 0 ∷ 0 ∷ [])
unfolding encode_into encoded_size store_bytes
encode_into_run = refl
