-- ===== src/Protos/WebSocket/Codec/Runs.antt =====
-- Frames at work, and the theorems at concrete ones.
use wave_x.Prelude.{ℕ, ◌+◌, ◌≡◌, refl, true, false, none, some, List, [], ◌∷◌, ◌++◌, length, arith}
use wave_x.Prelude.Digits.{push_number}
use wave_x.Protos.WebSocket.Codec.{
  text, close, complete, FrameHeader, parse_header, encode_frame, encode_length, apply_mask,
  frame_size, parse_length, parse_key,
}
use wave_x.Protos.WebSocket.Codec.RoundTrip.{
  header_of, parse_header-encode_frame, apply_mask_twice, apply_mask-append,
}
use wave_x.Protos.WebSocket.Codec.Bounds.{Within, length-encode_frame, parse_header-Within}

abbrev hi : List ℕ
hi = 104 ∷ 105 ∷ []

-- RFC 6455 has such a frame among its examples.
frame_bytes :
    encode_frame text hi true (some 0x37fa213d)
    ≡ 0x81 ∷ 0x82 ∷ 0x37 ∷ 0xfa ∷ 0x21 ∷ 0x3d ∷ 0x5f ∷ 0x93 ∷ []
unfolding encode_frame encode_length push_number apply_mask
frame_bytes = refl

parse_header-encode_frame_example :
    parse_header (encode_frame text hi true (some 5) ++ (1 ∷ []))
    ≡ complete (header_of text hi true (some 5))
parse_header-encode_frame_example =
    parse_header-encode_frame text hi true (some 5) (1 ∷ []) (omega arith) (omega arith)

apply_mask_twice_example : apply_mask (apply_mask hi 77 0) 77 0 ≡ hi
apply_mask_twice_example = apply_mask_twice hi 77 0

apply_mask-append_example :
    apply_mask (hi ++ hi) 77 3 ≡ apply_mask hi 77 3 ++ apply_mask hi 77 (3 + length hi)
apply_mask-append_example = apply_mask-append hi hi 77 3

length-encode_frame_example :
    length (encode_frame close hi true none) ≡ frame_size (length hi) false
length-encode_frame_example = length-encode_frame close hi true none

abbrev short_header : FrameHeader
short_header = header_of text hi true none

parse_header-Within_example : Within (0x81 ∷ 2 ∷ 104 ∷ []) short_header
unfolding parse_header parse_length parse_key frame_size
parse_header-Within_example =
    parse_header-Within (0x81 ∷ 2 ∷ 104 ∷ []) short_header
      (omega arith, (omega arith, (omega arith, tt))) refl
