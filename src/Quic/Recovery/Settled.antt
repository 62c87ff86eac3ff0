-- ===== src/Quic/Recovery/Settled.antt =====
-- What an ACK frame does with the packets in flight: each is acknowledged, lost with its frames, or kept.
use wave_x.Prelude.{ℕ, ◌+◌, ◌-◌, ◌≡◌, ◌↔◌, ◌≤◌, ◌<◌, ◌*◌, max, true, not, [], if◌then◌else◌}
use wave_x.Quic.Frames.Types.{AckFrame}
use wave_x.Quic.Congestion.{RttStats}
use wave_x.Quic.Recovery.Ranges.{IsAckedBy}
use wave_x.Quic.Recovery.Lost.{keep, all_frames, is_given_up}
use wave_x.Quic.Recovery.{Space, acked_ranges, is_acked, AckResult}
use wave_x.Quic.Recovery.Acked.{acked_bytes, any_acked, is_unacked}

-- Eight times a time threshold is nine times the larger of the smoothed and the latest round-trip time, rounded down.
abbrev pub IsThreshold : ℕ → RttStats → Type 0
IsThreshold threshold r =
    (8 * threshold ≤ 9 * max r.smoothed_rtt r.latest_rtt)
    × (9 * max r.smoothed_rtt r.latest_rtt < 8 * threshold + 8)

-- What an acknowledgement makes of the packets of a space.
pub record IsSettled (lost_now : ℕ) (ack : AckFrame) (s : Space) (r : AckResult) : Type 0 where
  pub acknowledges : (pn : ℕ) → (is_acked (acked_ranges ack) pn ≡ true) ↔ IsAckedBy ack pn
  pub threshold : ℕ
  pub nine_eighths : IsThreshold threshold r.space.controller.rtt_stats
  pub flushed : r.flushes ≡ any_acked (acked_ranges ack) s.sent_packets
  pub flight :
      r.space.controller.bytes_in_flight
      ≡ s.controller.bytes_in_flight - acked_bytes (acked_ranges ack) s.sent_packets
  pub kept : r.space.sent_packets ≡ (
      if r.flushes
      then keep
          (λ p. not (is_given_up lost_now ack.largest_acknowledged threshold p))
          (keep (is_unacked (acked_ranges ack)) s.sent_packets)
      else keep (is_unacked (acked_ranges ack)) s.sent_packets)
  pub lost : r.lost_frames ≡ (
      if r.flushes
      then all_frames (
          keep
            (is_given_up lost_now ack.largest_acknowledged threshold)
            (keep (is_unacked (acked_ranges ack)) s.sent_packets))
      else [])
  pub largest : r.space.largest_acked_packet ≡ (
      if r.flushes
      then if s.has_largest_acked
        then max s.largest_acked_packet ack.largest_acknowledged
        else ack.largest_acknowledged
      else s.largest_acked_packet)
