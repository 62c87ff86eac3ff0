-- ===== src/Quic/Recovery/Lost.antt =====
-- Which packets are given up as lost, and what their detection does with the packets in flight.
use wave_x.Prelude.{
  ℕ, ◌+◌, ◌≡◌, refl, sym, subst, Bool, true, false, not, ◌&&◌, ◌||◌, List, [], ◌∷◌, ◌++◌, ltb, leb,
  ◌∙◌, if◌then◌else◌, append-nil, append_assoc, arith,
}
use wave_x.Quic.Congestion.{CongestionController, on_congestion_event}
use wave_x.Quic.Sending.{SentPacket}
use wave_x.Quic.Recovery.{LostFrame, is_lost, Detecting, frames_of, detect_packet, detect_packets}

-- The elements that pass a test.
unfoldable pub keep {ℓ} : {A : Type ℓ} → (A → Bool) → List A → List A
keep p [] = []
keep p (x ∷ xs) = let rest = keep p xs in if p x then x ∷ rest else rest

unfoldable pub all_frames : List SentPacket → List LostFrame
all_frames [] = []
all_frames (p ∷ ps) = frames_of p ++ all_frames ps

-- Given up: not above the largest acknowledged number, and three numbers below it or sent a threshold ago.
abbrev pub is_given_up : ℕ → ℕ → ℕ → SentPacket → Bool
is_given_up now largest threshold p =
    leb p.packet_number largest
    && (leb (p.packet_number + 3) largest || leb (p.time_sent + threshold) now)

-- The test as the loop makes it.
abbrev given_up_test : ℕ → ℕ → ℕ → SentPacket → Bool
given_up_test now largest threshold p =
    if ltb largest p.packet_number then false else is_lost now largest threshold p

given_up_lem :
    (now largest threshold : ℕ) (p : SentPacket)
    → given_up_test now largest threshold p ≡ is_given_up now largest threshold p
unfolding is_lost
given_up_lem now largest threshold p = ground arith

event_flight :
    (t e : ℕ) (c : CongestionController)
    → (on_congestion_event t e c).bytes_in_flight ≡ c.bytes_in_flight
unfolding on_congestion_event
event_flight t e c = ground arith

event_rtt :
    (t e : ℕ) (c : CongestionController) → (on_congestion_event t e c).rtt_stats ≡ c.rtt_stats
unfolding on_congestion_event
event_rtt t e c = go (leb t c.recovery_start_time) _ _ refl refl
  where
    go :
        (b : Bool) (x y : CongestionController)
        → x.rtt_stats ≡ c.rtt_stats
        → y.rtt_stats ≡ c.rtt_stats
        → (if b then x else y).rtt_stats ≡ c.rtt_stats
    go true x y p q = p
    go false x y p q = q

-- What a round does before it, for a packet that is given up or not.
abbrev StepOf :
    ℕ → ℕ → ℕ → SentPacket → Detecting → List SentPacket → List SentPacket → Bool → Type 0
StepOf now largest threshold p d kept lost given_up =
    ((detect_packet now largest threshold p d).remaining ++ kept
      ≡ d.remaining ++ (if not (given_up) then p ∷ kept else kept))
    × ((detect_packet now largest threshold p d).lost_frames ++ all_frames lost
        ≡ d.lost_frames ++ all_frames (if given_up then p ∷ lost else lost))
    × ((detect_packet now largest threshold p d).controller.bytes_in_flight
        ≡ d.controller.bytes_in_flight)
    × ((detect_packet now largest threshold p d).controller.rtt_stats ≡ d.controller.rtt_stats)

detect_packet_step :
    (now largest threshold : ℕ) (p : SentPacket) (d : Detecting) (kept lost : List SentPacket)
    → StepOf now largest threshold p d kept lost (given_up_test now largest threshold p)
unfolding detect_packet all_frames
detect_packet_step now largest threshold p d kept lost =
    go (ltb largest p.packet_number) (is_lost now largest threshold p)
  where
    stay : Detecting
    stay = record d { remaining = d.remaining ++ (p ∷ []) }

    gone : Detecting
    gone = record d {
      controller = on_congestion_event p.time_sent now d.controller;
      lost_frames = d.lost_frames ++ frames_of p;
    }

    go :
        (a b : Bool)
        → ((if a then stay else if b then gone else stay).remaining ++ kept
            ≡ d.remaining ++ (if not (if a then false else b) then p ∷ kept else kept))
          × ((if a then stay else if b then gone else stay).lost_frames ++ all_frames lost
              ≡ d.lost_frames ++ all_frames (if (if a then false else b) then p ∷ lost else lost))
          × ((if a then stay else if b then gone else stay).controller.bytes_in_flight
              ≡ d.controller.bytes_in_flight)
          × ((if a then stay else if b then gone else stay).controller.rtt_stats
              ≡ d.controller.rtt_stats)
    go true b = (append_assoc d.remaining (p ∷ []) kept, refl, refl, refl)
    go false true = (
      refl,
      append_assoc d.lost_frames (frames_of p) (all_frames lost),
      event_flight p.time_sent now d.controller,
      event_rtt p.time_sent now d.controller,
    )
    go false false = (append_assoc d.remaining (p ∷ []) kept, refl, refl, refl)

-- What detection does with a list of packets.
pub record Detected (now largest threshold : ℕ) (ps : List SentPacket) (d e : Detecting)
    : Type 0 where
  pub kept : e.remaining ≡ d.remaining ++ keep (λ p. not (is_given_up now largest threshold p)) ps
  pub lost :
      e.lost_frames ≡ d.lost_frames ++ all_frames (keep (is_given_up now largest threshold) ps)
  pub flight : e.controller.bytes_in_flight ≡ d.controller.bytes_in_flight
  pub rtt : e.controller.rtt_stats ≡ d.controller.rtt_stats

pub detect_packets-Detected :
    (now largest threshold : ℕ) (ps : List SentPacket) (d : Detecting)
    → Detected now largest threshold ps d (detect_packets now largest threshold ps d)
unfolding detect_packets keep all_frames
detect_packets-Detected now largest threshold [] d = record {
  kept = sym (append-nil d.remaining);
  lost = sym (append-nil d.lost_frames);
  flight = refl;
  rtt = refl;
}
detect_packets-Detected now largest threshold (p ∷ ps) d =
    let rest =
      detect_packets-Detected now largest threshold ps (detect_packet now largest threshold p d) in
    let (k, l, f, r) =
      subst
        (StepOf now largest threshold p d (keep (λ q. not (is_given_up now largest threshold q)) ps)
          (keep (is_given_up now largest threshold) ps))
        (given_up_lem now largest threshold p)
        (detect_packet_step now largest threshold p d
          (keep (λ q. not (is_given_up now largest threshold q)) ps)
          (keep (is_given_up now largest threshold) ps)) in
    record {
      kept = rest.kept ∙ k;
      lost = rest.lost ∙ l;
      flight = rest.flight ∙ f;
      rtt = rest.rtt ∙ r;
    }
