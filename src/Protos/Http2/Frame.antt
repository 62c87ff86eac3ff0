-- ===== src/Protos/Http2/Frame.antt =====
-- include/wavex/protos/http/http2codec.hpp: the frame header, its flags, and parse_frame. An
-- enumeration that the code casts from a byte or a word is that number, so a value without a name is
-- kept, as in the code.
pub mod RoundTrip
pub mod Takes
use wave_x.Prelude.{
  ℕ, ◌+◌, ◌-◌, ◌*◌, ◌/◌, ◌%◌, ◌^◌, Bool, Option, none, some, List, [], ◌∷◌, ◌++◌, bit_and, bit_or,
  ltb, ◌==◌, if◌then◌else◌, length, take, drop,
}

-- The kinds of frame that this code writes or tells apart.
abbrev pub data_frame : ℕ
data_frame = 0x0

abbrev pub headers_frame : ℕ
headers_frame = 0x1

abbrev pub rst_stream_frame : ℕ
rst_stream_frame = 0x3

abbrev pub settings_frame : ℕ
settings_frame = 0x4

abbrev pub ping_frame : ℕ
ping_frame = 0x6

abbrev pub goaway_frame : ℕ
goaway_frame = 0x7

abbrev pub window_update_frame : ℕ
window_update_frame = 0x8

-- namespace flags
abbrev pub end_stream_flag : ℕ
end_stream_flag = 0x01

abbrev pub ack_flag : ℕ
ack_flag = 0x01

abbrev pub end_headers_flag : ℕ
end_headers_flag = 0x04

abbrev pub padded_flag : ℕ
padded_flag = 0x08

abbrev pub priority_flag : ℕ
priority_flag = 0x20

-- frame_header: `payload_length` is its `length`, `kind` its `type`.
pub record FrameHeader : Type 0 where
  pub payload_length : ℕ
  pub stream_id : ℕ
  pub kind : ℕ
  pub flags : ℕ

abbrev pub has_flag : FrameHeader → ℕ → Bool
has_flag hdr f = bit_and (hdr.flags) f == f

-- HEADER_SIZE
abbrev pub header_size : ℕ
header_size = 9

unfoldable pub pack_frame_header : FrameHeader → List ℕ
pack_frame_header hdr =
    let sid = bit_and hdr.stream_id 0x7FFFFFFF in
    bit_and (hdr.payload_length / 2 ^ 16) 0xFF
    ∷ bit_and (hdr.payload_length / 2 ^ 8) 0xFF
    ∷ bit_and hdr.payload_length 0xFF
    ∷ hdr.kind
    ∷ hdr.flags
    ∷ bit_and (sid / 2 ^ 24) 0xFF
    ∷ bit_and (sid / 2 ^ 16) 0xFF
    ∷ bit_and (sid / 2 ^ 8) 0xFF
    ∷ bit_and sid 0xFF
    ∷ []

unfoldable pub unpack_frame_header : List ℕ → Option FrameHeader
unpack_frame_header (p0 ∷ p1 ∷ p2 ∷ p3 ∷ p4 ∷ p5 ∷ p6 ∷ p7 ∷ p8 ∷ rest) = some (record {
  payload_length = bit_or (bit_or (p0 * 2 ^ 16) (p1 * 2 ^ 8)) p2;
  kind = p3;
  flags = p4;
  stream_id = bit_or (bit_or (bit_or (bit_and p5 0x7F * 2 ^ 24) (p6 * 2 ^ 16)) (p7 * 2 ^ 8)) p8;
})
unpack_frame_header buf = none

-- parser::result
pub data Result : Type 0 where
  success incomplete error headers_too_large : Result

-- What parse_frame returns: the header, the payload and `bytes_consumed`, or why there is no frame.
pub data FrameRead : Type 0 where
  framed : FrameHeader → List ℕ → ℕ → FrameRead
  unframed : Result → FrameRead

abbrev pub parse_payload : List ℕ → Option FrameHeader → FrameRead
parse_payload buffer none = unframed error
parse_payload buffer (some hdr) =
    let total_frame_len = header_size + hdr.payload_length in
    if ltb (length buffer) total_frame_len
    then unframed incomplete
    else framed hdr (take hdr.payload_length (drop header_size buffer)) total_frame_len

unfoldable pub parse_frame : List ℕ → FrameRead
parse_frame buffer =
    if ltb (length buffer) header_size
    then unframed incomplete
    else parse_payload buffer (unpack_frame_header buffer)
