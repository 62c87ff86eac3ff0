-- ===== src/Quic/Recovery.antt =====
-- src/Network/QUIC/QuicConnection.cpp: on_ack_received, with detect_lost_packets, for the packets of one space, up to
-- where it begins to send: `settle_acked` and `find_lost_packets` end before the calls of retransmit_frame, the timer
-- and flush_stream_send_queues, which may put further packets into the space. The fields of an ACK frame are QUIC's
-- variable-length integers, so that sums of two do not wrap around.
pub mod Ranges
pub mod Acked
pub mod Lost
pub mod Settled
mod Runs
use wave_x.Prelude.{
  ℕ, ◌+◌, ◌-◌, ◌*◌, ◌/◌, ◌%◌, u64_mod, Bool, true, false, ◌&&◌, ◌||◌, not, List, [], ◌∷◌, ◌++◌, ltb,
  leb, ◌==◌, if◌then◌else◌, max, map,
}
use wave_x.Quic.Frames.Types.{AckRange, AckFrame, Frame}
use wave_x.Quic.Packet.{PacketType}
use wave_x.Quic.Congestion.{
  CongestionController, on_packet_acked, on_congestion_event, update_rtt_stats,
}
use wave_x.Quic.Sending.{SentPacket, is_nil}

-- The packets in flight of one space, and what the connection keeps of its acknowledgements.
pub record Space : Type 0 where
  pub sent_packets : List SentPacket
  pub controller : CongestionController
  pub largest_acked_packet : ℕ
  pub has_largest_acked : Bool
  pub pto_count : ℕ

pub record AckedRange : Type 0 where
  pub min_pn : ℕ
  pub max_pn : ℕ

-- `(largest >= len) ? (largest - len) : 0`
abbrev pub range_start : ℕ → ℕ → ℕ
range_start largest len = if leb len largest then largest - len else 0

-- The ranges after the first, below `smallest`.
unfoldable pub ranges_below : ℕ → List AckRange → List AckedRange
ranges_below smallest [] = []
ranges_below smallest (r ∷ rs) =
    let largest = smallest - r.gap - 2 in
    let start = range_start largest r.ack_range_len in
    let rest = ranges_below start rs in
    if ltb smallest (r.gap + 2) then [] else record { min_pn = start; max_pn = largest } ∷ rest

unfoldable pub ranges_from : ℕ → List AckRange → List AckedRange
ranges_from largest [] = record { min_pn = range_start largest 0; max_pn = largest } ∷ []
ranges_from largest (r ∷ rs) =
    let smallest = range_start largest r.ack_range_len in
    record { min_pn = smallest; max_pn = largest } ∷ ranges_below smallest rs

unfoldable pub acked_ranges : AckFrame → List AckedRange
acked_ranges ack = ranges_from ack.largest_acknowledged ack.ranges

unfoldable pub is_acked : List AckedRange → ℕ → Bool
is_acked [] pn = false
is_acked (r ∷ rs) pn = if leb r.min_pn pn && leb pn r.max_pn then true else is_acked rs pn

-- The state of the loop over the packets of the space in on_ack_received.
pub record Acking : Type 0 where
  pub controller : CongestionController
  pub newly_acked_any : Bool
  pub remaining : List SentPacket

unfoldable pub ack_packet : ℕ → AckFrame → List AckedRange → SentPacket → Acking → Acking
ack_packet now ack ranges pkt a =
    let c = on_packet_acked pkt.bytes_sent a.controller in
    let sampled = update_rtt_stats (now - pkt.time_sent) (ack.ack_delay * 8 % u64_mod) c in
    if is_acked ranges pkt.packet_number
    then record a {
      newly_acked_any = true;
      controller = if pkt.packet_number == ack.largest_acknowledged then sampled else c;
    }
    else record a { remaining = a.remaining ++ (pkt ∷ []) }

unfoldable pub ack_packets : ℕ → AckFrame → List AckedRange → List SentPacket → Acking → Acking
ack_packets now ack ranges [] a = a
ack_packets now ack ranges (pkt ∷ pkts) a =
    ack_packets now ack ranges pkts (ack_packet now ack ranges pkt a)

pub record LostFrame : Type 0 where
  pub frame : Frame
  pub packet_type : PacketType

-- kPacketThreshold
abbrev pub packet_threshold : ℕ
packet_threshold = 3

unfoldable pub is_lost : ℕ → ℕ → ℕ → SentPacket → Bool
is_lost now largest_acked time_threshold pkt =
    let packet_loss = leb (pkt.packet_number + packet_threshold) largest_acked in
    let time_loss = leb (pkt.time_sent + time_threshold) now in packet_loss || time_loss

-- The state of the loop in detect_lost_packets.
pub record Detecting : Type 0 where
  pub controller : CongestionController
  pub remaining : List SentPacket
  pub lost_frames : List LostFrame

abbrev pub frames_of : SentPacket → List LostFrame
frames_of pkt =
    map (λ (f : Frame). record { frame = f; packet_type = pkt.packet_type })
      pkt.retransmittable_frames

unfoldable pub detect_packet : ℕ → ℕ → ℕ → SentPacket → Detecting → Detecting
detect_packet now largest_acked time_threshold pkt d =
    let kept = record d { remaining = d.remaining ++ (pkt ∷ []) } in
    if ltb largest_acked pkt.packet_number
    then kept
    else if is_lost now largest_acked time_threshold pkt
    then record d {
      controller = on_congestion_event pkt.time_sent now d.controller;
      lost_frames = d.lost_frames ++ frames_of pkt;
    }
    else kept

unfoldable pub detect_packets : ℕ → ℕ → ℕ → List SentPacket → Detecting → Detecting
detect_packets now largest_acked time_threshold [] d = d
detect_packets now largest_acked time_threshold (pkt ∷ pkts) d =
    detect_packets now largest_acked time_threshold pkts
      (detect_packet now largest_acked time_threshold pkt d)

abbrev pub time_threshold : CongestionController → ℕ
time_threshold c = max c.rtt_stats.smoothed_rtt c.rtt_stats.latest_rtt * 9 / 8

-- detect_lost_packets up to the calls of retransmit_frame.
unfoldable pub find_lost_packets : ℕ → ℕ → List SentPacket → CongestionController → Detecting
find_lost_packets now largest_acked pkts c =
    detect_packets now largest_acked (time_threshold c) pkts
      (record { controller = c; remaining = []; lost_frames = [] })

-- The space, the frames that are given to retransmit_frame next, and whether the code goes on to that, the timer and
-- the queues of the streams.
pub record AckResult : Type 0 where
  pub space : Space
  pub lost_frames : List LostFrame
  pub flushes : Bool

-- What follows the loop over the packets; `acked_now` and `lost_now` are the two readings of the clock.
abbrev pub after_acks : ℕ → AckFrame → Acking → Space → AckResult
after_acks lost_now ack a s =
    let higher = not s.has_largest_acked || ltb s.largest_acked_packet ack.largest_acknowledged in
    let d = find_lost_packets lost_now ack.largest_acknowledged a.remaining a.controller in
    if a.newly_acked_any
    then record {
      space = record {
        sent_packets = d.remaining;
        controller = d.controller;
        largest_acked_packet = if higher then ack.largest_acknowledged else s.largest_acked_packet;
        has_largest_acked = true;
        pto_count = 0;
      };
      lost_frames = d.lost_frames;
      flushes = true;
    }
    else record {
      space = record s { sent_packets = a.remaining; controller = a.controller };
      lost_frames = [];
      flushes = false;
    }

-- on_ack_received up to where it begins to send.
unfoldable pub settle_acked : ℕ → ℕ → AckFrame → Space → AckResult
settle_acked acked_now lost_now ack s =
    let a =
      ack_packets acked_now ack (acked_ranges ack) s.sent_packets
        (record { controller = s.controller; newly_acked_any = false; remaining = [] }) in
    if is_nil s.sent_packets
    then record { space = s; lost_frames = []; flushes = false }
    else after_acks lost_now ack a s
