-- ===== src/Quic/Congestion/Runs.antt =====
-- The window over a short history, and the theorems there.
use wave_x.Prelude.{◌+◌, ◌≤◌, ◌≡◌, refl, true, List, [], ◌∷◌, arith}
use wave_x.Quic.Congestion.{
  CongestionController, new_controller, on_packet_sent, on_packet_acked, on_congestion_event,
  minimum_window,
}
use wave_x.Quic.Congestion.Window.{
  Report, sent, acked, congested, report_all, acked_bytes, window_bounds, recovery_freezes,
}

abbrev history : List Report
history = sent 1200 true ∷ sent 1200 true ∷ acked 1200 ∷ congested 5 9 ∷ acked 1200 ∷ []

window_run : (report_all history new_controller).congestion_window ≡ 7960
unfolding report_all on_packet_sent on_packet_acked on_congestion_event
window_run = refl

window_bounds_example :
    (minimum_window ≤ (report_all history new_controller).congestion_window)
    × ((report_all history new_controller).congestion_window ≤ 14720 + acked_bytes history)
unfolding acked_bytes
window_bounds_example = window_bounds history new_controller (omega arith) (omega arith)

abbrev recovering : CongestionController
recovering = record new_controller { in_recovery = true; congestion_window = 7360; ssthresh = 7360 }

recovery_freezes_example :
    ((report_all history recovering).in_recovery ≡ true)
    × ((report_all history recovering).congestion_window ≤ 7360)
recovery_freezes_example =
    recovery_freezes history recovering (tt, (tt, (tt, (tt, (tt, tt))))) refl (omega arith)
