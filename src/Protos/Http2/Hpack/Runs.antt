-- ===== src/Protos/Http2/Hpack/Runs.antt =====
-- Runs of HPACK on concrete inputs.
use wave_x.Prelude.{◌≡◌, refl, chars, true, [], ◌∷◌, false}
use wave_x.Protos.Http2.Hpack.Outcome.{ok, undefined}
use wave_x.Protos.Http2.Hpack.Huffman.{
  table, search, match_symbols, decode_from, decode as huffman_decode,
}
use wave_x.Protos.Http2.Hpack.StaticTable.{static_table, find_from, find_static}
use wave_x.Protos.Http1.{is_equal}

found_exactly : find_static (chars ":status") (chars "404") ≡ (13, true)
unfolding static_table find_from find_static is_equal
found_exactly = refl

found_by_name : find_static (chars ":method") (chars "PUT") ≡ (2, false)
unfolding static_table find_from find_static is_equal
found_by_name = refl

-- RFC 7541, C.4.1: the authority of the first request.
www_example_com :
    huffman_decode
      (0xf1 ∷ 0xe3 ∷ 0xc2 ∷ 0xe5 ∷ 0xf2 ∷ 0x3a ∷ 0x6b ∷ 0xa0 ∷ 0xab ∷ 0x90 ∷ 0xf4 ∷ 0xff ∷ [])
    ≡ ok (chars "www.example.com")
unfolding table search match_symbols decode_from huffman_decode
www_example_com = refl

-- Five bytes of ones match no code, and the sixth shift is undefined.
all_ones : huffman_decode (0xff ∷ 0xff ∷ 0xff ∷ 0xff ∷ 0xff ∷ []) ≡ undefined
unfolding table search match_symbols decode_from huffman_decode
all_ones = refl
