-- ===== src/Protos/Http2/Encoder.antt =====
-- include/wavex/protos/http/http2codec.hpp, class encoder: messages and control frames as bytes.
pub mod Control
use wave_x.Prelude.{
  ℕ, zero, suc, ◌+◌, ◌-◌, ◌*◌, ◌/◌, ◌%◌, ◌^◌, Bool, true, false, List, [], ◌∷◌, ◌++◌, bit_and,
  bit_or, ◌==◌, if◌then◌else◌, length, take, drop, min, chars,
}
use wave_x.Prelude.Digits.{push_number}
use wave_x.Protos.Http1.{is_empty}
use wave_x.Protos.Http2.Frame.{
  FrameHeader, pack_frame_header, data_frame, headers_frame, rst_stream_frame, settings_frame,
  ping_frame, goaway_frame, window_update_frame, end_stream_flag, ack_flag, end_headers_flag,
}
use wave_x.Protos.Http2.Message.{Request, Response}
use wave_x.Protos.Http2.Hpack.Encoder.{encode_request_headers, encode_response_headers}

-- The header that each function fills in: the length is cast to 32 bits.
abbrev pub frame_header : ℕ → ℕ → ℕ → ℕ → FrameHeader
frame_header length kind flags stream_id = record {
  payload_length = length % 2 ^ 32;
  kind = kind;
  flags = flags;
  stream_id = stream_id;
}

-- A frame: its header, packed, and its payload.
abbrev pub frame_bytes : ℕ → ℕ → ℕ → List ℕ → List ℕ
frame_bytes kind flags stream_id payload =
    pack_frame_header (frame_header (length payload) kind flags stream_id) ++ payload

-- MAX_FRAME_SIZE
abbrev pub max_frame_size : ℕ
max_frame_size = 16384

-- The loop over the body from `offset` on, of which `rest` is left. Every round takes a byte at least, so as
-- many rounds as bytes are enough.
unfoldable pub data_frames : ℕ → ℕ → List ℕ → List ℕ
data_frames zero stream_id rest = []
data_frames (suc n) stream_id [] = []
data_frames (suc n) stream_id (b ∷ bs) =
    let rest : List ℕ = b ∷ bs in
    let chunk_len = min (length rest) max_frame_size in
    frame_bytes data_frame (if chunk_len == length rest then end_stream_flag else 0) stream_id
      (take chunk_len rest)
    ++ data_frames n stream_id (drop chunk_len rest)

-- The flags of the HEADERS frame: END_STREAM where there is no body.
abbrev pub headers_flags : Bool → ℕ
headers_flags end_stream =
    if end_stream then bit_or end_headers_flag end_stream_flag else end_headers_flag

-- The frames of a message, without DATA frames for an empty body.
abbrev pub message_frames : List ℕ → ℕ → List ℕ → List ℕ
message_frames header_block stream_id body =
    frame_bytes headers_frame (headers_flags (is_empty body)) stream_id header_block
    ++ data_frames (length body) stream_id body

-- serialize_into: what it appends.
unfoldable pub serialize_into : Response → List ℕ
serialize_into res =
    message_frames (encode_response_headers res.status_code res.headers) res.stream_id res.body

abbrev pub serialize : Response → List ℕ
serialize res = serialize_into res

unfoldable pub serialize_headers : Response → Bool → List ℕ
serialize_headers res end_stream =
    frame_bytes headers_frame (headers_flags end_stream) res.stream_id
      (encode_response_headers res.status_code res.headers)

unfoldable pub serialize_request : Request → List ℕ
serialize_request req =
    message_frames
      (encode_request_headers req.method_type req.target req.scheme req.authority req.headers)
      req.stream_id req.body

-- The loop of serialize_settings.
unfoldable pub settings_payload : List (ℕ × ℕ) → List ℕ
settings_payload [] = []
settings_payload ((param, val) ∷ rest) =
    push_number 2 param ++ (push_number 4 val ++ settings_payload rest)

unfoldable pub serialize_settings : List (ℕ × ℕ) → List ℕ
serialize_settings settings =
    pack_frame_header (frame_header (length settings * 6) settings_frame 0 0)
    ++ settings_payload settings

unfoldable pub serialize_settings_ack : List ℕ
serialize_settings_ack = pack_frame_header (frame_header 0 settings_frame ack_flag 0)

unfoldable pub serialize_ping : ℕ → Bool → List ℕ
serialize_ping opaque_data ack =
    pack_frame_header (frame_header 8 ping_frame (if ack then ack_flag else 0) 0)
    ++ push_number 8 opaque_data

unfoldable pub serialize_window_update : ℕ → ℕ → List ℕ
serialize_window_update stream_id window_size_increment =
    pack_frame_header (frame_header 4 window_update_frame 0 stream_id)
    ++ push_number 4 (bit_and window_size_increment 0x7FFFFFFF)

unfoldable pub serialize_goaway : ℕ → ℕ → List ℕ → List ℕ
serialize_goaway last_stream_id err debug_data =
    pack_frame_header (frame_header (8 + length debug_data) goaway_frame 0 0)
    ++ (push_number 4 (bit_and last_stream_id 0x7FFFFFFF) ++ (push_number 4 err ++ debug_data))

unfoldable pub serialize_rst_stream : ℕ → ℕ → List ℕ
serialize_rst_stream stream_id err =
    pack_frame_header (frame_header 4 rst_stream_frame 0 stream_id) ++ push_number 4 err

unfoldable pub serialize_data_frame : ℕ → List ℕ → Bool → List ℕ
serialize_data_frame stream_id data_bytes end_stream =
    frame_bytes data_frame (if end_stream then end_stream_flag else 0) stream_id data_bytes

unfoldable pub format_terminal_chunk : List ℕ
format_terminal_chunk = 0 ∷ 0 ∷ 0 ∷ 0 ∷ 1 ∷ 0 ∷ 0 ∷ 0 ∷ 1 ∷ []

unfoldable pub format_chunk : List ℕ → List ℕ
format_chunk data_bytes =
    if is_empty data_bytes then format_terminal_chunk else serialize_data_frame 1 data_bytes false

-- format_chunk_to: the buffer afterwards.
unfoldable pub format_chunk_to : List ℕ → List ℕ → List ℕ
format_chunk_to out data_bytes =
    if is_empty data_bytes
    then out ++ format_terminal_chunk
    else out ++ frame_bytes data_frame 0 1 data_bytes
