-- ===== src/Protos/Http2/Hpack/Huffman.antt =====
-- include/wavex/protos/http/http2codec.hpp, namespace huffman: the table of codes and decode. The table
-- is the code's, whatever RFC 7541 says. A shift of a 32-bit number by 32 bits or more is undefined in
-- C++, so the model has a result for it.
use wave_x.Prelude.{
  ℕ, zero, suc, ◌+◌, ◌-◌, ◌*◌, ◌/◌, ◌%◌, ◌^◌, List, [], ◌∷◌, ◌++◌, bit_and, bit_or, ltb, leb, ◌==◌,
  if◌then◌else◌, take, not,
}
use wave_x.Protos.Http2.Hpack.Outcome.{Outcome, ok, refused, undefined}

pub record HuffCode : Type 0 where
  pub code : ℕ
  pub bits : ℕ

abbrev pub huff_code : ℕ → ℕ → HuffCode
huff_code c b = record { code = c; bits = b }

-- TABLE. It is declared with 257 entries and has 256 initializers, so the last entry is zero.
unfoldable pub table : List HuffCode
table =
    huff_code 0x1ff8 13
    ∷ huff_code 0x7fffd8 23
    ∷ huff_code 0xfffffe2 28
    ∷ huff_code 0xfffffe3 28
    ∷ huff_code 0xfffffe4 28
    ∷ huff_code 0xfffffe5 28
    ∷ huff_code 0xfffffe6 28
    ∷ huff_code 0xfffffe7 28
    ∷ huff_code 0xfffffe8 28
    ∷ huff_code 0xffffea 24
    ∷ huff_code 0x3ffffffc 30
    ∷ huff_code 0xfffffe9 28
    ∷ huff_code 0xfffffea 28
    ∷ huff_code 0x3ffffffd 30
    ∷ huff_code 0xfffffeb 28
    ∷ huff_code 0xfffffec 28
    ∷ huff_code 0xfffffed 28
    ∷ huff_code 0xfffffee 28
    ∷ huff_code 0xfffffef 28
    ∷ huff_code 0xffffff0 28
    ∷ huff_code 0xffffff1 28
    ∷ huff_code 0xffffff2 28
    ∷ huff_code 0x3ffffffe 30
    ∷ huff_code 0xffffff3 28
    ∷ huff_code 0xffffff4 28
    ∷ huff_code 0xffffff5 28
    ∷ huff_code 0xffffff6 28
    ∷ huff_code 0xffffff7 28
    ∷ huff_code 0xffffff8 28
    ∷ huff_code 0xffffff9 28
    ∷ huff_code 0xffffffa 28
    ∷ huff_code 0xffffffb 28
    ∷ huff_code 0x14 6
    ∷ huff_code 0x3f8 10
    ∷ huff_code 0x3f9 10
    ∷ huff_code 0xffa 12
    ∷ huff_code 0x1ff9 13
    ∷ huff_code 0x15 6
    ∷ huff_code 0xf8 8
    ∷ huff_code 0x7fa 11
    ∷ huff_code 0x3fa 10
    ∷ huff_code 0x3fb 10
    ∷ huff_code 0xf9 8
    ∷ huff_code 0x7fb 11
    ∷ huff_code 0xfa 8
    ∷ huff_code 0x16 6
    ∷ huff_code 0x17 6
    ∷ huff_code 0x18 6
    ∷ huff_code 0x0 5
    ∷ huff_code 0x1 5
    ∷ huff_code 0x2 5
    ∷ huff_code 0x19 6
    ∷ huff_code 0x1a 6
    ∷ huff_code 0x1b 6
    ∷ huff_code 0x1c 6
    ∷ huff_code 0x1d 6
    ∷ huff_code 0x1e 6
    ∷ huff_code 0x1f 6
    ∷ huff_code 0x5c 7
    ∷ huff_code 0xfb 8
    ∷ huff_code 0x7ffc 15
    ∷ huff_code 0x20 6
    ∷ huff_code 0xffb 12
    ∷ huff_code 0x3fc 10
    ∷ huff_code 0x1ffa 13
    ∷ huff_code 0x21 6
    ∷ huff_code 0x5d 7
    ∷ huff_code 0x5e 7
    ∷ huff_code 0x5f 7
    ∷ huff_code 0x60 7
    ∷ huff_code 0x61 7
    ∷ huff_code 0x62 7
    ∷ huff_code 0x63 7
    ∷ huff_code 0x64 7
    ∷ huff_code 0x65 7
    ∷ huff_code 0x66 7
    ∷ huff_code 0x67 7
    ∷ huff_code 0x68 7
    ∷ huff_code 0x69 7
    ∷ huff_code 0x6a 7
    ∷ huff_code 0x6b 7
    ∷ huff_code 0x6c 7
    ∷ huff_code 0x6d 7
    ∷ huff_code 0x6e 7
    ∷ huff_code 0x6f 7
    ∷ huff_code 0x70 7
    ∷ huff_code 0x71 7
    ∷ huff_code 0x72 7
    ∷ huff_code 0xfc 8
    ∷ huff_code 0x73 7
    ∷ huff_code 0xfd 8
    ∷ huff_code 0x1ffb 13
    ∷ huff_code 0x7fff0 19
    ∷ huff_code 0x1ffc 13
    ∷ huff_code 0x3ffc 14
    ∷ huff_code 0x22 6
    ∷ huff_code 0x7ffd 15
    ∷ huff_code 0x3 5
    ∷ huff_code 0x23 6
    ∷ huff_code 0x4 5
    ∷ huff_code 0x24 6
    ∷ huff_code 0x5 5
    ∷ huff_code 0x25 6
    ∷ huff_code 0x26 6
    ∷ huff_code 0x27 6
    ∷ huff_code 0x6 5
    ∷ huff_code 0x74 7
    ∷ huff_code 0x75 7
    ∷ huff_code 0x28 6
    ∷ huff_code 0x29 6
    ∷ huff_code 0x2a 6
    ∷ huff_code 0x7 5
    ∷ huff_code 0x2b 6
    ∷ huff_code 0x76 7
    ∷ huff_code 0x2c 6
    ∷ huff_code 0x8 5
    ∷ huff_code 0x9 5
    ∷ huff_code 0x2d 6
    ∷ huff_code 0x77 7
    ∷ huff_code 0x78 7
    ∷ huff_code 0x79 7
    ∷ huff_code 0x7a 7
    ∷ huff_code 0x7b 7
    ∷ huff_code 0x7ffe 15
    ∷ huff_code 0x7fc 11
    ∷ huff_code 0x3ffd 14
    ∷ huff_code 0x1ffd 13
    ∷ huff_code 0xffffffc 28
    ∷ huff_code 0xfffe6 20
    ∷ huff_code 0x3fffd2 22
    ∷ huff_code 0xfffe7 20
    ∷ huff_code 0xfffe8 20
    ∷ huff_code 0x3fffd3 22
    ∷ huff_code 0x3fffd4 22
    ∷ huff_code 0xffffffd 28
    ∷ huff_code 0x7fffd9 23
    ∷ huff_code 0x3fffd5 22
    ∷ huff_code 0x7fffda 23
    ∷ huff_code 0x7fffdb 23
    ∷ huff_code 0x7fffdc 23
    ∷ huff_code 0x7fffdd 23
    ∷ huff_code 0x7fffde 23
    ∷ huff_code 0xffffeb 24
    ∷ huff_code 0x7fffdf 23
    ∷ huff_code 0xffffec 24
    ∷ huff_code 0xffffed 24
    ∷ huff_code 0x3fffd6 22
    ∷ huff_code 0x7fffe0 23
    ∷ huff_code 0x1fffdc 21
    ∷ huff_code 0x3fffd7 22
    ∷ huff_code 0x7fffe1 23
    ∷ huff_code 0x7fffe2 23
    ∷ huff_code 0x7fffe3 23
    ∷ huff_code 0x7fffe4 23
    ∷ huff_code 0x1fffdd 21
    ∷ huff_code 0x7fffe5 23
    ∷ huff_code 0x7fffe6 23
    ∷ huff_code 0x7fffe7 23
    ∷ huff_code 0x7fffe8 23
    ∷ huff_code 0x7ffffff 30
    ∷ huff_code 0x3fffe 18
    ∷ huff_code 0x7fffe9 23
    ∷ huff_code 0xfffe9 20
    ∷ huff_code 0x3fffd8 22
    ∷ huff_code 0x7fffea 23
    ∷ huff_code 0x3fffd9 22
    ∷ huff_code 0x3fffda 22
    ∷ huff_code 0x7fffeb 23
    ∷ huff_code 0x7fffec 23
    ∷ huff_code 0x7fffed 23
    ∷ huff_code 0x7fffee 23
    ∷ huff_code 0x7fffef 23
    ∷ huff_code 0x7ffff0 23
    ∷ huff_code 0x3fffdb 22
    ∷ huff_code 0x3fffdc 22
    ∷ huff_code 0x7ffff1 23
    ∷ huff_code 0x7ffff2 23
    ∷ huff_code 0x1fffde 21
    ∷ huff_code 0x7ffff3 23
    ∷ huff_code 0x7ffff4 23
    ∷ huff_code 0x7ffff5 23
    ∷ huff_code 0x7ffff6 23
    ∷ huff_code 0x7ffff7 23
    ∷ huff_code 0x7ffff8 23
    ∷ huff_code 0x7ffff9 23
    ∷ huff_code 0x7ffffa 23
    ∷ huff_code 0x7ffffb 23
    ∷ huff_code 0x1fffdf 21
    ∷ huff_code 0x7ffffc 23
    ∷ huff_code 0xfffea 20
    ∷ huff_code 0x3fffdd 22
    ∷ huff_code 0x1fffe0 21
    ∷ huff_code 0x1fffe1 21
    ∷ huff_code 0x3fffde 22
    ∷ huff_code 0x7ffffd 23
    ∷ huff_code 0x3fffdf 22
    ∷ huff_code 0x7ffffe 23
    ∷ huff_code 0xffffff0 24
    ∷ huff_code 0xffffff1 24
    ∷ huff_code 0x3fffe0 22
    ∷ huff_code 0x1fffe2 21
    ∷ huff_code 0x1fffe3 21
    ∷ huff_code 0x3fffe1 22
    ∷ huff_code 0x1fffe4 21
    ∷ huff_code 0x7ffea 19
    ∷ huff_code 0x3fffe2 22
    ∷ huff_code 0x3fffe3 22
    ∷ huff_code 0x3fffe4 22
    ∷ huff_code 0x7ffeb 19
    ∷ huff_code 0x7ffec 19
    ∷ huff_code 0x3fffe5 22
    ∷ huff_code 0x3fffe6 22
    ∷ huff_code 0x3fffe7 22
    ∷ huff_code 0x3fffe8 22
    ∷ huff_code 0x3fffe9 22
    ∷ huff_code 0x3fffea 22
    ∷ huff_code 0x3fffeb 22
    ∷ huff_code 0x1fffe5 21
    ∷ huff_code 0x3fffec 22
    ∷ huff_code 0x3fffed 22
    ∷ huff_code 0x3fffee 22
    ∷ huff_code 0x3fffef 22
    ∷ huff_code 0x3ffff0 22
    ∷ huff_code 0x3ffff1 22
    ∷ huff_code 0x3ffff2 22
    ∷ huff_code 0x3ffff3 22
    ∷ huff_code 0x1fffe6 21
    ∷ huff_code 0x3ffff4 22
    ∷ huff_code 0x3ffff5 22
    ∷ huff_code 0x3ffff6 22
    ∷ huff_code 0x3ffff7 22
    ∷ huff_code 0x3ffff8 22
    ∷ huff_code 0x3ffff9 22
    ∷ huff_code 0x3ffffa 22
    ∷ huff_code 0x3ffffb 22
    ∷ huff_code 0x1fffe7 21
    ∷ huff_code 0x1fffe8 21
    ∷ huff_code 0x3ffffc 22
    ∷ huff_code 0x3ffffd 22
    ∷ huff_code 0x1fffe9 21
    ∷ huff_code 0x1fffea 21
    ∷ huff_code 0x1fffeb 21
    ∷ huff_code 0x1fffec 21
    ∷ huff_code 0x1fffed 21
    ∷ huff_code 0x1fffee 21
    ∷ huff_code 0x1fffef 21
    ∷ huff_code 0xfffeeb 24
    ∷ huff_code 0xfffeec 24
    ∷ huff_code 0xfffeed 24
    ∷ huff_code 0xfffeee 24
    ∷ huff_code 0x7fffec 24
    ∷ huff_code 0x7fffed 24
    ∷ huff_code 0x7fffee 24
    ∷ huff_code 0x7ffff0 24
    ∷ huff_code 0x7ffff1 24
    ∷ huff_code 0x3fffffe 30
    ∷ huff_code 0 0
    ∷ []

-- What the search for a symbol finds: the symbol with the length of its code, nothing, or a shift that
-- is undefined.
pub data Found : Type 0 where
  symbol : ℕ → ℕ → Found
  no_symbol : Found
  bad_shift : Found

-- The search loop from the symbol `sym` on.
unfoldable pub search : List HuffCode → ℕ → ℕ → ℕ → Found
search [] sym current bits = no_symbol
search (e ∷ es) sym current bits =
    let rest = search es (suc sym) current bits in
    if leb e.bits bits
    then (if leb 32 (bits - e.bits)
        then bad_shift
        else if bit_and (current / 2 ^ (bits - e.bits)) (2 ^ e.bits - 1) == e.code
        then symbol sym e.bits
        else rest)
    else rest

-- The state of `decode`.
pub record Decoding : Type 0 where
  pub current : ℕ
  pub bits : ℕ
  pub out : List ℕ

-- The body of `while (bits >= 5)`, where `more` is the loop after a symbol.
abbrev pub match_step : (Decoding → Outcome Decoding) → Decoding → Found → Outcome Decoding
match_step more s bad_shift = undefined
match_step more s no_symbol = ok s
match_step more s (symbol sym e_bits) =
    let left = s.bits - e_bits in
    more (record {
      current = if left == 0 then 0 else bit_and s.current (2 ^ left - 1);
      bits = left;
      out = s.out ++ (sym ∷ []);
    })

-- The loop `while (bits >= 5)`. Every symbol takes a bit at least, so as many rounds as there are bits
-- are enough. Only the first 256 entries are searched.
unfoldable pub match_symbols : ℕ → Decoding → Outcome Decoding
match_symbols zero s = ok s
match_symbols (suc n) s =
    if ltb s.bits 5
    then ok s
    else match_step (match_symbols n) s (search (take 256 table) 0 s.current s.bits)

-- One byte of the input put in.
abbrev pub feed : ℕ → Decoding → Decoding
feed c s = record s { current = bit_or (s.current * 2 ^ 8 % 2 ^ 32) c; bits = (s.bits + 8) % 256 }

abbrev pub then_do : Outcome Decoding → (Decoding → Outcome (List ℕ)) → Outcome (List ℕ)
then_do undefined f = undefined
then_do refused f = refused
then_do (ok s) f = f s

-- The check of the padding.
abbrev pub check_padding : Decoding → Outcome (List ℕ)
check_padding s =
    let mask = 2 ^ s.bits - 1 in
    if ltb 0 s.bits
    then (if ltb 7 s.bits
        then refused
        else if not (bit_and s.current mask == mask)
        then refused
        else ok s.out)
    else ok s.out

-- The loop over the bytes, then the check.
unfoldable pub decode_from : List ℕ → Decoding → Outcome (List ℕ)
decode_from [] s = check_padding s
decode_from (c ∷ cs) s = let fed = feed c s in then_do (match_symbols fed.bits fed) (decode_from cs)

-- huffman::decode, onto an empty `out`.
unfoldable pub decode : List ℕ → Outcome (List ℕ)
decode input = decode_from input (record { current = 0; bits = 0; out = [] })
