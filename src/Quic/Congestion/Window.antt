-- ===== src/Quic/Congestion/Window.antt =====
-- The window over any history of packets that are sent, acknowledged and lost.
use wave_x.Prelude.{
  ℕ, ◌+◌, ◌*◌, ◌/◌, ◌%◌, ◌^◌, ◌≤◌, ◌<◌, ◌≡◌, Bool, true, List, [], ◌∷◌, All, arith, u64_mod,
}
use native.Mathlib.Nat.{div-mul-le_self, mul-le-mul_left}
use wave_x.Quic.Congestion.{
  CongestionController, on_packet_sent, on_packet_acked, on_congestion_event, exit_recovery,
  minimum_window,
}

-- What the connection reports to the controller.
pub data Report : Type 0 where
  sent : ℕ → Bool → Report
  acked : ℕ → Report
  congested : ℕ → ℕ → Report
  exits : Report

unfoldable pub report : Report → CongestionController → CongestionController
report (sent bytes in_flight) c = on_packet_sent bytes in_flight c
report (acked bytes) c = on_packet_acked bytes c
report (congested sent_time event_time) c = on_congestion_event sent_time event_time c
report exits c = exit_recovery c

unfoldable pub report_all : List Report → CongestionController → CongestionController
unfolding report
report_all [] c = c
report_all (r ∷ rs) c = report_all rs (report r c)

-- The bytes that a history acknowledges.
unfoldable pub acked_bytes : List Report → ℕ
acked_bytes [] = 0
acked_bytes (acked bytes ∷ rs) = bytes + acked_bytes rs
acked_bytes (sent bytes in_flight ∷ rs) = acked_bytes rs
acked_bytes (congested sent_time event_time ∷ rs) = acked_bytes rs
acked_bytes (exits ∷ rs) = acked_bytes rs

-- In congestion avoidance the window grows by at most what was acknowledged.
growth : (n w b : ℕ) → n ≤ 1200 * b → 2400 ≤ w → n / w ≤ b
growth n w b h k = omega (arith, div-mul-le_self n w, mul-le-mul_left (n / w) k)

abbrev IsBetween : ℕ → ℕ → CongestionController → Type 0
IsBetween low high c = (low ≤ c.congestion_window) × (c.congestion_window ≤ high)

report_window :
    (r : Report) (c : CongestionController)
    → minimum_window ≤ c.congestion_window
    → c.congestion_window + 1200 * acked_bytes (r ∷ []) < 2 ^ 64
    → IsBetween minimum_window (c.congestion_window + acked_bytes (r ∷ [])) (report r c)
unfolding report acked_bytes on_packet_sent on_packet_acked on_congestion_event exit_recovery
report_window (sent bytes in_flight) c l h = ground arith
report_window (acked bytes) c l h =
    ground (arith, growth (1200 * bytes % u64_mod) c.congestion_window bytes (omega arith) l)
report_window (congested sent_time event_time) c l h = ground arith
report_window exits c l h = ground arith

acked_bytes_cons :
    (r : Report) (rs : List Report) → acked_bytes (r ∷ rs) ≡ acked_bytes (r ∷ []) + acked_bytes rs
unfolding acked_bytes
acked_bytes_cons (sent bytes in_flight) rs = omega arith
acked_bytes_cons (acked bytes) rs = omega arith
acked_bytes_cons (congested sent_time event_time) rs = omega arith
acked_bytes_cons exits rs = omega arith

-- Over any history from the minimum window at least, the window stays at the minimum at least, and grows by at most the bytes that are
-- acknowledged, as long as these are too few for the arithmetic of 64 bits to wrap.
pub window_bounds :
    (rs : List Report) (c : CongestionController)
    → minimum_window ≤ c.congestion_window
    → c.congestion_window + 1200 * acked_bytes rs < 2 ^ 64
    → (minimum_window ≤ (report_all rs c).congestion_window)
      × ((report_all rs c).congestion_window ≤ c.congestion_window + acked_bytes rs)
unfolding report_all
window_bounds [] c l h = (l, omega arith)
window_bounds (r ∷ rs) c l h =
    let split = acked_bytes_cons r rs in
    let (low, high) = report_window r c l (omega (arith, split)) in
    let (low', high') = window_bounds rs (report r c) low (omega (arith, split, high)) in
    (low', omega (arith, split, high, high'))

-- No report ends a recovery.
abbrev pub KeepsRecovery : Report → Type 0
KeepsRecovery exits = ⊥
KeepsRecovery _ = Unit

recovery_step :
    (r : Report) (c : CongestionController)
    → KeepsRecovery r
    → c.in_recovery ≡ true
    → minimum_window ≤ c.congestion_window
    → ((report r c).in_recovery ≡ true)
      × (minimum_window ≤ (report r c).congestion_window)
      × ((report r c).congestion_window ≤ c.congestion_window)
unfolding report on_packet_sent on_packet_acked on_congestion_event
recovery_step (sent bytes in_flight) c k h l = ground arith
recovery_step (acked bytes) c k h l = ground arith
recovery_step (congested sent_time event_time) c k h l = ground arith
recovery_step exits c k h l = absurd k

-- In recovery, with at least the minimum window, recovery lasts and the window only falls, whatever is sent, acknowledged or lost, unless
-- `exit_recovery` is called.
pub recovery_freezes :
    (rs : List Report) (c : CongestionController)
    → All KeepsRecovery rs
    → c.in_recovery ≡ true
    → minimum_window ≤ c.congestion_window
    → ((report_all rs c).in_recovery ≡ true)
      × ((report_all rs c).congestion_window ≤ c.congestion_window)
unfolding report_all
recovery_freezes [] c k h l = (h, omega arith)
recovery_freezes (r ∷ rs) c (k, ks) h l =
    let (h', l', b) = recovery_step r c k h l in
    let (h'', b') = recovery_freezes rs (report r c) ks h' l' in (h'', omega arith)
