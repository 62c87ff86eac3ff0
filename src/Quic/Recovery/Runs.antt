-- ===== src/Quic/Recovery/Runs.antt =====
-- Acknowledgements of concrete packets.
use wave_x.Prelude.{ℕ, ◌≡◌, refl, false, [], ◌∷◌, map}
use wave_x.Quic.Congestion.{new_controller, on_packet_acked, on_congestion_event, update_rtt_stats}
use wave_x.Quic.Frames.Types.{AckFrame, ping}
use wave_x.Quic.Packet.{one_rtt}
use wave_x.Quic.Sending.{SentPacket, sent_packet}
use wave_x.Quic.Recovery.{
  Space, settle_acked, acked_ranges, ranges_from, ranges_below, is_acked, ack_packet, ack_packets,
  is_lost, detect_packet, detect_packets, find_lost_packets,
}

abbrev packet : ℕ → SentPacket
packet pn = sent_packet pn 100 one_rtt (ping ∷ []) 50

-- Packets 1 to 6 are in flight.
abbrev in_flight : Space
in_flight = record {
  sent_packets = map packet (1 ∷ 2 ∷ 3 ∷ 4 ∷ 5 ∷ 6 ∷ []);
  controller = record new_controller { bytes_in_flight = 600 };
  largest_acked_packet = 0;
  has_largest_acked = false;
  pto_count = 2;
}

-- Packets 5 and 3 are acknowledged.
abbrev two_ranges : AckFrame
two_ranges = record {
  ranges = record { gap = 0; ack_range_len = 0 } ∷ record { gap = 0; ack_range_len = 0 } ∷ [];
  largest_acknowledged = 5;
  ack_delay = 0;
  ecn = false;
}

-- 1 and 2 are three numbers below 5 and given up, 4 waits, and 6 is above.
left_in_flight :
    map
      (λ (p : SentPacket). p.packet_number)
      (settle_acked 60 60 two_ranges in_flight).space.sent_packets
    ≡ 4 ∷ 6 ∷ []
unfolding settle_acked acked_ranges ranges_from ranges_below is_acked ack_packet ack_packets is_lost
    detect_packet detect_packets find_lost_packets update_rtt_stats on_packet_acked
left_in_flight = refl

-- The bytes of the two that were given up stay in flight.
bytes_left : (settle_acked 60 60 two_ranges in_flight).space.controller.bytes_in_flight ≡ 400
unfolding settle_acked acked_ranges ranges_from ranges_below is_acked ack_packet ack_packets is_lost
    detect_packet detect_packets find_lost_packets update_rtt_stats on_packet_acked
    on_congestion_event
bytes_left = refl
