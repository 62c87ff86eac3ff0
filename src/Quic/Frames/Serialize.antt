-- ===== src/Quic/Frames/Serialize.antt =====
-- `serialize_frame`: the bytes that it appends to `out`.
use wave_x.Prelude.{ℕ, Bool, List, [], ◌∷◌, ◌++◌, bit_or, if◌then◌else◌, length, replicate}
use wave_x.Quic.VarInt
use wave_x.Quic.Frames.Types.{
  AckRange, AckFrame, StreamFrame, ConnectionCloseFrame, Frame, padding, ping, ack, reset_stream,
  stop_sending, crypto, new_token, stream, max_data, max_stream_data, max_streams, data_blocked,
  stream_data_blocked, streams_blocked, connection_close, handshake_done, datagram, FrameType,
  frame_code,
}

abbrev pub serialize_type : FrameType → List ℕ
serialize_type t = VarInt.encode (frame_code t)

-- A length and the bytes it counts.
abbrev pub serialize_bytes : List ℕ → List ℕ
serialize_bytes bytes = VarInt.encode (length bytes) ++ bytes

-- `f.ranges.empty() ? 0 : f.ranges[0].ack_range_len`
unfoldable pub first_range : List AckRange → ℕ
first_range [] = 0
first_range (r ∷ rs) = r.ack_range_len

-- The loop from the second range on.
unfoldable pub serialize_ranges : List AckRange → List ℕ
serialize_ranges [] = []
serialize_ranges (r ∷ rs) =
    VarInt.encode r.gap ++ (VarInt.encode r.ack_range_len ++ serialize_ranges rs)

unfoldable pub further_ranges : List AckRange → List AckRange
further_ranges [] = []
further_ranges (r ∷ rs) = rs

unfoldable pub serialize_ack : AckFrame → List ℕ
unfolding first_range further_ranges serialize_ranges
serialize_ack f =
    serialize_type FrameType.ack
    ++ (VarInt.encode f.largest_acknowledged
        ++ (VarInt.encode f.ack_delay
            ++ (VarInt.encode (length (further_ranges f.ranges))
                ++ (VarInt.encode (first_range f.ranges)
                    ++ serialize_ranges (further_ranges f.ranges)))))

abbrev pub or_flag : Bool → ℕ → ℕ → ℕ
or_flag b flag t = if b then bit_or t flag else t

unfoldable pub stream_type : StreamFrame → ℕ
stream_type f = or_flag f.fin 0x01 (or_flag f.has_length 0x02 (or_flag f.has_offset 0x04 0x08))

unfoldable pub serialize_stream : StreamFrame → List ℕ
serialize_stream f =
    stream_type f
    ∷ (VarInt.encode f.stream_id
        ++ ((if f.has_offset then VarInt.encode f.offset else [])
            ++ ((if f.has_length then VarInt.encode (length f.bytes) else []) ++ f.bytes)))

unfoldable pub serialize_close : ConnectionCloseFrame → List ℕ
serialize_close f =
    serialize_type
      (if f.is_application then FrameType.connection_close_app else FrameType.connection_close_quic)
    ++ (VarInt.encode f.error_code
        ++ ((if f.is_application then [] else VarInt.encode f.frame_type)
            ++ serialize_bytes f.reason_phrase))

unfoldable pub serialize_frame : Frame → List ℕ
serialize_frame (padding n) = replicate n 0
serialize_frame ping = serialize_type FrameType.ping
serialize_frame (ack f) = serialize_ack f
serialize_frame (reset_stream f) =
    serialize_type FrameType.reset_stream
    ++ (VarInt.encode f.stream_id ++ (VarInt.encode f.error_code ++ VarInt.encode f.final_size))
serialize_frame (stop_sending f) =
    serialize_type FrameType.stop_sending
    ++ (VarInt.encode f.stream_id ++ VarInt.encode f.error_code)
serialize_frame (crypto f) =
    serialize_type FrameType.crypto ++ (VarInt.encode f.offset ++ serialize_bytes f.bytes)
serialize_frame (new_token token) = serialize_type FrameType.new_token ++ serialize_bytes token
serialize_frame (stream f) = serialize_stream f
serialize_frame (max_data n) = serialize_type FrameType.max_data ++ VarInt.encode n
serialize_frame (max_stream_data f) =
    serialize_type FrameType.max_stream_data
    ++ (VarInt.encode f.stream_id ++ VarInt.encode f.max_stream_data)
serialize_frame (max_streams f) =
    serialize_type
      (if f.bidirectional then FrameType.max_streams_bidi else FrameType.max_streams_uni)
    ++ VarInt.encode f.max_streams
serialize_frame (data_blocked n) = serialize_type FrameType.data_blocked ++ VarInt.encode n
serialize_frame (stream_data_blocked f) =
    serialize_type FrameType.stream_data_blocked
    ++ (VarInt.encode f.stream_id ++ VarInt.encode f.stream_data_limit)
serialize_frame (streams_blocked f) =
    serialize_type
      (if f.bidirectional then FrameType.streams_blocked_bidi else FrameType.streams_blocked_uni)
    ++ VarInt.encode f.stream_limit
serialize_frame (connection_close f) = serialize_close f
serialize_frame handshake_done = serialize_type FrameType.handshake_done
serialize_frame (datagram bytes) =
    serialize_type FrameType.datagram_with_length ++ serialize_bytes bytes

-- One frame after the other into the same packet, as the callers do.
unfoldable pub serialize_frames : List Frame → List ℕ
serialize_frames [] = []
serialize_frames (f ∷ fs) = serialize_frame f ++ serialize_frames fs
