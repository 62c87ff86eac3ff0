-- ===== src/Quic/Congestion.antt =====
-- include/wavex/Network/QUIC/CongestionControl.hpp: round-trip times and the congestion window. Times are
-- microseconds on the steady clock, as natural numbers; `min_rtt` starts at the largest of them.
pub mod Window
mod Runs
use wave_x.Prelude.{
  ℕ, ◌+◌, ◌-◌, ◌*◌, ◌/◌, ◌%◌, ◌^◌, Bool, true, false, not, List, ltb, leb, if◌then◌else◌, max,
  u64_mod, add64,
}

pub record RttStats : Type 0 where
  pub latest_rtt : ℕ
  pub min_rtt : ℕ
  pub smoothed_rtt : ℕ
  pub rttvar : ℕ
  pub first_rtt_sample : Bool

abbrev pub new_rtt_stats : RttStats
new_rtt_stats = record {
  latest_rtt = 0;
  min_rtt = 2 ^ 63 - 1;
  smoothed_rtt = 333000;
  rttvar = 166500;
  first_rtt_sample = true;
}

-- RttStats::update_rtt. `ack_delay` is the 64-bit word of a signed duration, so that from 2^63 on it is negative, and is
-- added then. Sums of durations stay below 2^63: their overflow is undefined in the code.
unfoldable pub update_rtt : ℕ → ℕ → RttStats → RttStats
update_rtt latest ack_delay s =
    let min_rtt = if ltb latest s.min_rtt then latest else s.min_rtt in
    let adjusted_rtt =
      if leb (2 ^ 63) ack_delay
      then latest + (u64_mod - ack_delay)
      else if leb (min_rtt + ack_delay) latest
      then latest - ack_delay
      else latest in
    let diff =
      if ltb adjusted_rtt s.smoothed_rtt
      then s.smoothed_rtt - adjusted_rtt
      else adjusted_rtt - s.smoothed_rtt in
    if s.first_rtt_sample
    then record {
      latest_rtt = latest;
      min_rtt = latest;
      smoothed_rtt = latest;
      rttvar = latest / 2;
      first_rtt_sample = false;
    }
    else record {
      latest_rtt = latest;
      min_rtt = min_rtt;
      smoothed_rtt = (s.smoothed_rtt * 7 + adjusted_rtt) / 8;
      rttvar = (s.rttvar * 3 + diff) / 4;
      first_rtt_sample = false;
    }

abbrev pub max_datagram_size : ℕ
max_datagram_size = 1200

abbrev pub minimum_window : ℕ
minimum_window = 2 * max_datagram_size

pub record CongestionController : Type 0 where
  pub recovery_start_time : ℕ
  pub bytes_in_flight : ℕ
  pub congestion_window : ℕ
  pub ssthresh : ℕ
  pub rtt_stats : RttStats
  pub in_recovery : Bool

abbrev pub new_controller : CongestionController
new_controller = record {
  recovery_start_time = 0;
  bytes_in_flight = 0;
  congestion_window = 14720;
  ssthresh = 2 ^ 64 - 1;
  rtt_stats = new_rtt_stats;
  in_recovery = false;
}

unfoldable pub can_send : CongestionController → Bool
can_send c = ltb c.bytes_in_flight c.congestion_window

unfoldable pub on_packet_sent : ℕ → Bool → CongestionController → CongestionController
on_packet_sent bytes in_flight c =
    if in_flight then record c { bytes_in_flight = add64 c.bytes_in_flight bytes } else c

unfoldable pub on_packet_acked : ℕ → CongestionController → CongestionController
on_packet_acked bytes c =
    let c' = record c {
      bytes_in_flight = if leb bytes c.bytes_in_flight then c.bytes_in_flight - bytes else 0;
    } in
    if c.in_recovery
    then c'
    else if ltb c.congestion_window c.ssthresh
    then record c' { congestion_window = add64 c.congestion_window bytes }
    else record c' {
      congestion_window =
          add64 c.congestion_window (max_datagram_size * bytes % u64_mod / c.congestion_window);
    }

unfoldable pub on_congestion_event : ℕ → ℕ → CongestionController → CongestionController
on_congestion_event sent_time event_time c =
    let ssthresh = max (c.congestion_window / 2) minimum_window in
    if leb sent_time c.recovery_start_time then c else record c {
      recovery_start_time = event_time;
      in_recovery = true;
      ssthresh = ssthresh;
      congestion_window = ssthresh;
    }

unfoldable pub exit_recovery : CongestionController → CongestionController
exit_recovery c = record c { in_recovery = false }

unfoldable pub update_rtt_stats : ℕ → ℕ → CongestionController → CongestionController
unfolding update_rtt
update_rtt_stats rtt_sample ack_delay c = record c {
  rtt_stats = update_rtt rtt_sample ack_delay c.rtt_stats;
}
