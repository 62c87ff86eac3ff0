-- ===== src/Quic/Sending/Drain.antt =====
-- Where flow control leaves room and packets can be protected, the queue of a stream is sent to its end.
use wave_x.Prelude.{
  ℕ, zero, suc, ◌+◌, ◌≤◌, ◌<◌, ◌≡◌, ◌≢◌, refl, ap, ◌∙◌, Bool, true, false, not, ◌&&◌, ◌||◌, Option,
  none, some, List, [], ◌∷◌, ◌==◌, if◌then◌else◌, length, arith, length-append, drop_all,
}
use wave_x.Quic.Packet.{PacketHeader}
use wave_x.Quic.Sending.{
  Sender, is_nil, credit, chunk_length, RoundEnd, stops, goes_on, send_chunk, send_round,
  next_round, send_loop, send_queue,
}
use wave_x.Quic.Sending.Flush.{Sent, RoundGood, again, send_round-Good, whole_chunk}

-- Nothing is left to send.
pub record IsDone (s : Sender) : Type 0 where
  pub empty : s.queue ≡ []
  pub no_fin : s.fin_pending ≡ false

-- Both limits have room for the whole queue.
pub record HasRoom (s : Sender) : Type 0 where
  pub in_total : length s.queue ≤ credit s.max_data s.data_sent
  pub of_stream : length s.queue ≤ credit s.max_stream_data s.stream_sent

-- A round stops only where nothing is left.
data Drains : RoundEnd → Type 0 where
  done : (s : Sender) → IsDone s → Drains (stops s)
  more : (s : Sender) → Drains (goes_on s)

open_guards {ℓ} :
    (P : RoundEnd → Type ℓ) (a b c : Bool) (x y : RoundEnd)
    → (a ≡ true → P x)
    → b ≡ false
    → c ≡ false
    → P y
    → P (if a then x else if b then x else if c then x else y)
open_guards P true b c x y p q r w = p refl
open_guards P false true c x y p q r w = absurd (ground arith)
open_guards P false false true x y p q r w = absurd (ground arith)
open_guards P false false false x y p q r w = w

chunk_length_positive : (s : Sender) → HasRoom s → 0 < length s.queue → 0 < chunk_length s
unfolding chunk_length
chunk_length_positive s room h = grind (arith, room.in_total, room.of_stream)

nothing_left :
    (queue : List ℕ) (fin : Bool) → is_nil queue && not fin ≡ true → (queue ≡ []) × (fin ≡ false)
nothing_left [] false h = (refl, refl)
nothing_left [] true h = absurd (ground arith)
nothing_left (b ∷ bs) fin h = absurd (ground arith)

not_blocked :
    (queue : List ℕ) (m n : ℕ)
    → length queue ≤ m
    → length queue ≤ n
    → not (is_nil queue) && ((m == 0) || (n == 0)) ≡ false
not_blocked [] m n h i = refl
not_blocked (b ∷ bs) m n h i = ground arith

not_stuck :
    (queue : List ℕ) (k : ℕ) → (0 < length queue → 0 < k) → (k == 0) && not (is_nil queue) ≡ false
not_stuck [] zero h = refl
not_stuck [] (suc k) h = ground arith
not_stuck (b ∷ bs) k h = grind (arith, h (omega arith))

HasRoom-Sent : (sid : ℕ) (s u : Sender) → Sent sid s u → HasRoom s → HasRoom u
HasRoom-Sent sid s u one room = record {
  in_total =
      smaller u.max_data u.data_sent (length u.queue) s.max_data s.data_sent (length one.bytes)
        (length s.queue) sizes one.data_limit one.in_total room.in_total;
  of_stream =
      smaller u.max_stream_data u.stream_sent (length u.queue) s.max_stream_data s.stream_sent
        (length one.bytes) (length s.queue) sizes one.stream_limit one.of_stream room.of_stream;
}
  where
    sizes : length s.queue ≡ length one.bytes + length u.queue
    sizes = ap length one.front ∙ length-append one.bytes u.queue

    smaller : (m n q a b k l : ℕ) → l ≡ k + q → m ≡ a → n ≡ b + k → l ≤ credit a b → q ≤ credit m n
    smaller m n q a b k l e f g h = ground arith

ends : (b : Bool) (u : Sender) → (b ≡ true → IsDone u) → Drains (if b then stops u else goes_on u)
ends true u h = done u (h refl)
ends false u h = more u

fin_sent :
    (k : ℕ) (f pending : Bool)
    → (k == 0) && f ≡ true
    → (f ≡ true) × ((if f then false else pending) ≡ false)
fin_sent k true pending h = (refl, refl)
fin_sent k false pending h = absurd (ground arith)

module _ (protect : PacketHeader → List ℕ → Option (List ℕ)) (now sid : ℕ) (key_phase : Bool)
    (peer_cid : List ℕ) where
  send_chunk-Drains :
      (k : ℕ) (f : Bool) (s : Sender) (o : Option (List ℕ))
      → o ≢ none
      → (f ≡ true → k ≡ length s.queue)
      → Drains (send_chunk protect now sid key_phase peer_cid k f s o)
  send_chunk-Drains k f s none e whole = absurd (e refl)
  send_chunk-Drains k f s (some packet) e whole = ends ((k == 0) && f) _ (λ h. record {
    empty = drop_all k s.queue (omega (arith, whole (fin_sent k f s.fin_pending h).0));
    no_fin = (fin_sent k f s.fin_pending h).1;
  })

  module _ (protects : (hdr : PacketHeader) (payload : List ℕ) → protect hdr payload ≢ none) where
    send_round-Drains :
        (s : Sender) → HasRoom s → Drains (send_round protect now sid key_phase peer_cid s)
    unfolding send_round
    send_round-Drains s room =
        open_guards Drains _ _ _ _ _ (λ a. done s (left a))
          (not_blocked s.queue (credit s.max_data s.data_sent)
            (credit s.max_stream_data s.stream_sent) room.in_total room.of_stream)
          (not_stuck s.queue (chunk_length s) (chunk_length_positive s room))
          (send_chunk-Drains (chunk_length s) ((chunk_length s == length s.queue) && s.fin_pending)
            s _ (protects _ _) (whole_chunk (chunk_length s) (length s.queue) s.fin_pending))
      where
        left : is_nil s.queue && not s.fin_pending ≡ true → IsDone s
        left a = record {
          empty = (nothing_left s.queue s.fin_pending a).0;
          no_fin = (nothing_left s.queue s.fin_pending a).1;
        }

    send_loop-IsDone :
        (n : ℕ) (s : Sender)
        → HasRoom s
        → length s.queue < n
        → (t : Sender) × (send_loop protect now sid key_phase peer_cid n s ≡ some t) × IsDone t
    unfolding send_loop
    send_loop-IsDone zero s room h = absurd (omega arith)
    send_loop-IsDone (suc n) s room h =
        go (send_round protect now sid key_phase peer_cid s) (send_round-Drains s room)
          (send_round-Good protect now sid key_phase peer_cid s) (send_loop-IsDone n)
      where
        go :
            (r : RoundEnd)
            → Drains r
            → RoundGood sid s r
            → ((u : Sender)
                → HasRoom u
                → length u.queue < n
                → (t : Sender) × (send_loop protect now sid key_phase peer_cid n u ≡ some t)
                  × IsDone t)
            → (t : Sender) × (next_round protect now sid key_phase peer_cid
                  (send_loop protect now sid key_phase peer_cid n)
                  r
                ≡ some t)
              × IsDone t
        go (stops _) (done u d) good rec = (u, refl, d)
        go (goes_on _) (more _) (again u one less) rec =
            rec u (HasRoom-Sent sid s u one room) (omega (arith, less, h))

    -- Where both flow control limits have room for all that is queued and packets can be protected, sending from the
    -- queue of a stream leaves nothing: the queue is empty and no FIN is pending.
    pub send_queue-IsDone :
        (s : Sender)
        → HasRoom s
        → (t : Sender) × (send_queue protect now sid key_phase peer_cid s ≡ some t) × IsDone t
    unfolding send_queue
    send_queue-IsDone s room = send_loop-IsDone (suc (suc (length s.queue))) s room (omega arith)
