-- ===== src/Quic/Frames/Runs.antt =====
-- Packets of frames, and the theorems at concrete ones.
use wave_x.Prelude.{
  ◌≤◌, ◌≡◌, refl, Bool, true, false, some, List, [], ◌∷◌, ◌++◌, length, arith, inl, inr,
}
use wave_x.Quic.VarInt
use wave_x.Quic.Frames.Types.{Frame, padding, ping, ack, stream}
use wave_x.Quic.Frames.Serialize.{
  serialize_frame, serialize_frames, serialize_ack, serialize_stream, stream_type,
}
use wave_x.Quic.Frames.Parse.{parse_frame, parse_frames, parse_typed}
use wave_x.Quic.Frames.Progress.{parse_frames_total}
use wave_x.Quic.Frames.Back.{Fits}
use wave_x.Quic.Frames.RoundTrip.{
  PacketFits, parse_frame-serialize_frame, parse_frames-serialize_frames,
}

abbrev hello : Frame
hello = stream (record {
  bytes = 104 ∷ 105 ∷ [];
  stream_id = 4;
  offset = 0;
  fin = true;
  has_offset = false;
  has_length = true;
})

abbrev acked : Frame
acked = ack (record {
  ranges = record { gap = 0; ack_range_len = 2 } ∷ record { gap = 1; ack_range_len = 0 } ∷ [];
  largest_acknowledged = 300;
  ack_delay = 25;
  ecn = false;
})

abbrev packet : List Frame
packet = acked ∷ hello ∷ padding 3 ∷ ping ∷ []

packet_bytes :
    serialize_frames packet
    ≡ 2 ∷ 0x41 ∷ 0x2c ∷ 25 ∷ 1 ∷ 2 ∷ 1 ∷ 0 ∷ 0x0b ∷ 4 ∷ 2 ∷ 104 ∷ 105 ∷ 0 ∷ 0 ∷ 0 ∷ 1 ∷ []
unfolding serialize_frames serialize_frame VarInt.encode serialize_ack serialize_stream stream_type
packet_bytes = refl

-- Frames that were read before a failure stay in the list.
parse_partial : parse_frames (1 ∷ 0x3f ∷ []) [] ≡ some (false, ping ∷ [])
unfolding parse_frames parse_frame parse_typed VarInt.decode
parse_partial = refl

parse_frames_total_example :
    (done : Bool) × (fs : List Frame) × (parse_frames (1 ∷ 0x3f ∷ []) (ping ∷ [])
      ≡ some (done, (ping ∷ []) ++ fs))
    × (length fs ≤ 2)
parse_frames_total_example = parse_frames_total (1 ∷ 0x3f ∷ []) (ping ∷ [])

acked-Fits : Fits acked
acked-Fits = ((refl, omega arith, omega arith, omega arith), omega arith, omega arith, refl)

hello-Fits : Fits hello
hello-Fits = (omega arith, omega arith, omega arith, inr refl)

packet-PacketFits : PacketFits packet
packet-PacketFits = (acked-Fits, tt, (hello-Fits, inl refl, (omega arith, tt, (tt, tt, tt))))

parse_frame-serialize_frame_example :
    parse_frame (serialize_frame hello ++ (1 ∷ [])) ≡ some (hello ∷ [], 1 ∷ [])
parse_frame-serialize_frame_example =
    parse_frame-serialize_frame hello (1 ∷ []) hello-Fits (inl refl)

parse_frames-serialize_frames_example :
    parse_frames (serialize_frames packet) [] ≡ some (true, packet)
parse_frames-serialize_frames_example = parse_frames-serialize_frames packet [] packet-PacketFits
