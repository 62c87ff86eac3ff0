-- ===== src/Protos/Http2/Encoder/Control.antt =====
-- Every function that writes a control frame writes one whole frame.
use wave_x.Prelude.{
  ℕ, ◌+◌, ◌*◌, ◌^◌, ◌<◌, ◌≡◌, refl, ap, ◌∙◌, Bool, List, [], ◌∷◌, ◌++◌, bit_and, if◌then◌else◌,
  length, arith, length-append, append_assoc,
}
use wave_x.Prelude.Digits.{push_number, length-push_number}
use wave_x.Protos.Http2.Frame.{
  pack_frame_header, framed, parse_frame, settings_frame, ping_frame, goaway_frame,
  window_update_frame, rst_stream_frame, ack_flag, header_size,
}
use wave_x.Protos.Http2.Frame.RoundTrip.{parse_frame-pack_frame_header}
use wave_x.Protos.Http2.Encoder.{
  frame_header, settings_payload, serialize_settings, serialize_ping, serialize_window_update,
  serialize_goaway, serialize_rst_stream,
}

-- A frame whose payload has the length of its header.
written :
    (size kind flags stream_id : ℕ) (payload rest : List ℕ)
    → length payload ≡ size
    → size < 2 ^ 24
    → stream_id < 2 ^ 31
    → parse_frame ((pack_frame_header (frame_header size kind flags stream_id) ++ payload) ++ rest)
      ≡ framed (frame_header size kind flags stream_id) payload (header_size + size)
written size kind flags stream_id payload rest e h k =
    let hdr = frame_header size kind flags stream_id in
    ap parse_frame (append_assoc (pack_frame_header hdr) payload rest)
    ∙ parse_frame-pack_frame_header hdr payload rest
        (record { length_bits = omega arith; stream_bits = k }) (omega (arith, e))
    ∙ ap (λ (n : ℕ). framed hdr payload (header_size + n)) e

length-settings_payload :
    (settings : List (ℕ × ℕ)) → length (settings_payload settings) ≡ length settings * 6
unfolding settings_payload
length-settings_payload [] = refl
length-settings_payload ((param, val) ∷ rest) = omega (
  arith,
  length-append {0} (push_number 2 param) (push_number 4 val ++ settings_payload rest),
  length-append {0} (push_number 4 val) (settings_payload rest),
  length-push_number 2 param,
  length-push_number 4 val,
  length-settings_payload rest,
)

-- The bytes of SETTINGS, PING, WINDOW_UPDATE, GOAWAY and RST_STREAM frames, with anything behind them, are read as one
-- frame of that kind, with the flags and the stream that the function gives it and a payload of 6 bytes for a setting,
-- 8, 4, 8 and the debug data, and 4 bytes; streams are below 2^31 and the two payloads without a fixed size shorter
-- than 2^24.
pub control_frames_whole :
    (settings : List (ℕ × ℕ)) (opaque_data stream_id increment last_stream_id err : ℕ) (ack : Bool)
    (debug_data rest : List ℕ)
    → length settings * 6 < 2 ^ 24
    → 8 + length debug_data < 2 ^ 24
    → stream_id < 2 ^ 31
    → (parse_frame (serialize_settings settings ++ rest)
        ≡ framed
            (frame_header (length settings * 6) settings_frame 0 0)
            (settings_payload settings)
            (header_size + length settings * 6))
      × (parse_frame (serialize_ping opaque_data ack ++ rest)
          ≡ framed
              (frame_header 8 ping_frame (if ack then ack_flag else 0) 0)
              (push_number 8 opaque_data)
              17)
      × (parse_frame (serialize_window_update stream_id increment ++ rest)
          ≡ framed
              (frame_header 4 window_update_frame 0 stream_id)
              (push_number 4 (bit_and increment 0x7FFFFFFF))
              13)
      × (parse_frame (serialize_goaway last_stream_id err debug_data ++ rest)
          ≡ framed
              (frame_header (8 + length debug_data) goaway_frame 0 0)
              (push_number 4 (bit_and last_stream_id 0x7FFFFFFF)
                ++ (push_number 4 err ++ debug_data))
              (header_size + (8 + length debug_data)))
      × (parse_frame (serialize_rst_stream stream_id err ++ rest)
          ≡ framed (frame_header 4 rst_stream_frame 0 stream_id) (push_number 4 err) 13)
unfolding serialize_settings serialize_ping serialize_window_update serialize_goaway
    serialize_rst_stream
control_frames_whole settings opaque_data stream_id increment last_stream_id err ack debug_data rest
      h k b =
    (
      written (length settings * 6) settings_frame 0 0 (settings_payload settings) rest
          (length-settings_payload settings) h (omega arith),
      written 8 ping_frame (if ack then ack_flag else 0) 0 (push_number 8 opaque_data) rest
          (length-push_number 8 opaque_data) (omega arith) (omega arith),
      written 4 window_update_frame 0 stream_id (push_number 4 (bit_and increment 0x7FFFFFFF)) rest
          (length-push_number 4 (bit_and increment 0x7FFFFFFF)) (omega arith) b,
      written (8 + length debug_data) goaway_frame 0 0
          (push_number 4 (bit_and last_stream_id 0x7FFFFFFF) ++ (push_number 4 err ++ debug_data))
          rest
          (omega (
            arith,
            length-append {0} (push_number 4 (bit_and last_stream_id 0x7FFFFFFF))
                (push_number 4 err ++ debug_data),
            length-append {0} (push_number 4 err) debug_data,
            length-push_number 4 (bit_and last_stream_id 0x7FFFFFFF),
            length-push_number 4 err,
          ))
          k (omega arith),
      written 4 rst_stream_frame 0 stream_id (push_number 4 err) rest (length-push_number 4 err)
          (omega arith) b,
    )
