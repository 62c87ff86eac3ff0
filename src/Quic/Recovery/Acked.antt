-- ===== src/Quic/Recovery/Acked.antt =====
-- The loop over the packets in flight that an ACK frame acknowledges or not.
use wave_x.Prelude.{
  ℕ, ◌+◌, ◌-◌, ◌≡◌, refl, sym, ap, ◌∙◌, Bool, true, false, not, List, [], ◌∷◌, ◌++◌, if◌then◌else◌,
  append-nil, append_assoc, arith,
}
use wave_x.Quic.Frames.Types.{AckFrame}
use wave_x.Quic.Congestion.{CongestionController, on_packet_acked, update_rtt_stats}
use wave_x.Quic.Recovery.Lost.{keep}
use wave_x.Quic.Sending.{SentPacket}
use wave_x.Quic.Recovery.{AckedRange, is_acked, Acking, ack_packet, ack_packets}

unfoldable pub acked_bytes : List AckedRange → List SentPacket → ℕ
acked_bytes ranges [] = 0
acked_bytes ranges (p ∷ ps) =
    let rest = acked_bytes ranges ps in
    if is_acked ranges p.packet_number then p.bytes_sent + rest else rest

unfoldable pub any_acked : List AckedRange → List SentPacket → Bool
any_acked ranges [] = false
any_acked ranges (p ∷ ps) =
    let rest = any_acked ranges ps in if is_acked ranges p.packet_number then true else rest

abbrev pub is_unacked : List AckedRange → SentPacket → Bool
is_unacked ranges p = not (is_acked ranges p.packet_number)

acked_flight :
    (bytes : ℕ) (c : CongestionController)
    → (on_packet_acked bytes c).bytes_in_flight ≡ c.bytes_in_flight - bytes
unfolding on_packet_acked
acked_flight bytes c = ground arith

rtt_flight :
    (t e : ℕ) (c : CongestionController)
    → (update_rtt_stats t e c).bytes_in_flight ≡ c.bytes_in_flight
unfolding update_rtt_stats
rtt_flight t e c = refl

-- A list that grows in one branch, before more of the elements.
grown {ℓ κ} :
    {S : Type ℓ} {A : Type κ} (f : S → List A) (b : Bool) (x y : S) (bs front back : List A)
    → f x ≡ front
    → f y ≡ front ++ bs
    → f (if b then x else y) ++ back ≡ front ++ (if not b then bs ++ back else back)
grown f true x y bs front back e g = ap (λ l. l ++ back) e
grown f false x y bs front back e g = ap (λ l. l ++ back) g ∙ append_assoc front bs back

pub ack_packets_kept :
    (now : ℕ) (ack : AckFrame) (ranges : List AckedRange) (ps : List SentPacket) (a : Acking)
    → (ack_packets now ack ranges ps a).remaining ≡ a.remaining ++ keep (is_unacked ranges) ps
unfolding ack_packets ack_packet keep
ack_packets_kept now ack ranges [] a = sym (append-nil a.remaining)
ack_packets_kept now ack ranges (p ∷ ps) a =
    ack_packets_kept now ack ranges ps (ack_packet now ack ranges p a)
    ∙ grown (λ (d : Acking). d.remaining) (is_acked ranges p.packet_number) _ _ (p ∷ []) a.remaining
        (keep (is_unacked ranges) ps) refl refl

ack_packet_flight :
    (now : ℕ) (ack : AckFrame) (ranges : List AckedRange) (p : SentPacket) (a : Acking)
    → (ack_packet now ack ranges p a).controller.bytes_in_flight
      ≡ a.controller.bytes_in_flight - (if is_acked ranges p.packet_number then p.bytes_sent else 0)
unfolding ack_packet update_rtt_stats
ack_packet_flight now ack ranges p a = ground (arith, acked_flight p.bytes_sent a.controller)

pub ack_packets_flight :
    (now : ℕ) (ack : AckFrame) (ranges : List AckedRange) (ps : List SentPacket) (a : Acking)
    → (ack_packets now ack ranges ps a).controller.bytes_in_flight
      ≡ a.controller.bytes_in_flight - acked_bytes ranges ps
unfolding ack_packets acked_bytes
ack_packets_flight now ack ranges [] a = omega arith
ack_packets_flight now ack ranges (p ∷ ps) a = ground (
  arith,
  ack_packets_flight now ack ranges ps (ack_packet now ack ranges p a),
  ack_packet_flight now ack ranges p a,
)

itself_flag : (b : Bool) → b ≡ (if b then true else false)
itself_flag true = refl
itself_flag false = refl

either_flag :
    (b : Bool) (x y : Acking) (m n : Bool)
    → x.newly_acked_any ≡ true
    → y.newly_acked_any ≡ m
    → (if (if b then x else y).newly_acked_any then true else n)
      ≡ (if m then true else if b then true else n)
either_flag true x y true n e f = ap (λ c. if c then true else n) e
either_flag true x y false n e f = ap (λ c. if c then true else n) e
either_flag false x y m n e f = ap (λ c. if c then true else n) f

pub ack_packets_any :
    (now : ℕ) (ack : AckFrame) (ranges : List AckedRange) (ps : List SentPacket) (a : Acking)
    → (ack_packets now ack ranges ps a).newly_acked_any
      ≡ (if a.newly_acked_any then true else any_acked ranges ps)
unfolding ack_packets ack_packet any_acked
ack_packets_any now ack ranges [] a = itself_flag a.newly_acked_any
ack_packets_any now ack ranges (p ∷ ps) a =
    ack_packets_any now ack ranges ps (ack_packet now ack ranges p a)
    ∙ either_flag (is_acked ranges p.packet_number) _ _ a.newly_acked_any (any_acked ranges ps) refl
        refl
