-- ===== src/Quic/Sending/Flush.antt =====
-- What is sent of a stream's queue: its front, in order, within the flow control limits.
use wave_x.Prelude.{
  ℕ, zero, suc, ◌+◌, ◌≤◌, ◌<◌, ◌≡◌, ◌⊎◌, refl, sym, ap, ◌∙◌, subst, Bool, true, false, not, ◌&&◌,
  Option, none, some, List, [], ◌∷◌, ◌++◌, ltb, ◌==◌, if◌then◌else◌, length, take, drop, max, arith,
  inl, inr, append-nil, append_assoc, length-append, length-take, length-drop, take-append-drop,
  drop_all,
}
use wave_x.Quic.Frames.Types.{stream}
use wave_x.Quic.Packet.{PacketHeader, one_rtt}
use wave_x.Quic.Congestion.{on_packet_sent}
use wave_x.Quic.Sending.{
  SentPacket, sent_packet, Sender, is_nil, max_stream_frame_payload, credit, chunk_length, RoundEnd,
  stops, goes_on, chunk_frame, send_chunk, send_round, next_round, send_loop, send_queue,
}

-- A packet that carries the bytes `b` of the stream from the offset `o` on.
pub record IsChunk (sid o : ℕ) (b : List ℕ) (p : SentPacket) : Type 0 where
  pub fin : Bool
  pub frame :
      p.retransmittable_frames
      ≡ stream (record {
        bytes = b;
        stream_id = sid;
        offset = o;
        fin = fin;
        has_offset = ltb 0 o;
        has_length = true;
      })
        ∷ []
  pub small : length b ≤ max_stream_frame_payload

-- Packets that carry bytes one after the other, from an offset on.
pub data Chunks (sid : ℕ) : ℕ → List ℕ → List SentPacket → Type 0 where
  no_chunk : (o : ℕ) → Chunks sid o [] []
  chunk_then :
      (o : ℕ) (b bs : List ℕ) (p : SentPacket) (ps : List SentPacket)
      → IsChunk sid o b p
      → Chunks sid (o + length b) bs ps
      → Chunks sid o (b ++ bs) (p ∷ ps)

-- What was sent between two states of a queue.
pub record Flushed (sid : ℕ) (s t : Sender) : Type 0 where
  pub moved : List ℕ
  pub packets : List SentPacket
  pub front : s.queue ≡ moved ++ t.queue
  pub offset : t.cur_offset ≡ s.cur_offset + length moved
  pub in_total : t.data_sent ≡ s.data_sent + length moved
  pub of_stream : t.stream_sent ≡ s.stream_sent + length moved
  pub total_within : t.data_sent ≤ max s.data_sent s.max_data
  pub stream_within : t.stream_sent ≤ max s.stream_sent s.max_stream_data
  pub tracked : t.sent_packets ≡ s.sent_packets ++ packets
  pub chunks : Chunks sid s.cur_offset moved packets
  pub fin_last : (t.fin_pending ≡ s.fin_pending) ⊎ ((t.queue ≡ []) × (t.fin_pending ≡ false))

-- One chunk.
pub record Sent (sid : ℕ) (s u : Sender) : Type 0 where
  pub bytes : List ℕ
  pub packet : SentPacket
  pub front : s.queue ≡ bytes ++ u.queue
  pub offset : u.cur_offset ≡ s.cur_offset + length bytes
  pub in_total : u.data_sent ≡ s.data_sent + length bytes
  pub of_stream : u.stream_sent ≡ s.stream_sent + length bytes
  pub total_credit : length bytes ≤ credit s.max_data s.data_sent
  pub stream_credit : length bytes ≤ credit s.max_stream_data s.stream_sent
  pub data_limit : u.max_data ≡ s.max_data
  pub stream_limit : u.max_stream_data ≡ s.max_stream_data
  pub tracked : u.sent_packets ≡ s.sent_packets ++ (packet ∷ [])
  pub chunk : IsChunk sid s.cur_offset bytes packet
  pub fin_last : (u.fin_pending ≡ s.fin_pending) ⊎ ((u.queue ≡ []) × (u.fin_pending ≡ false))

pub data RoundGood (sid : ℕ) (s : Sender) : RoundEnd → Type 0 where
  idle : (pn : ℕ) → RoundGood sid s (stops (record s { next_pn = pn }))
  last : (u : Sender) → Sent sid s u → RoundGood sid s (stops u)
  again :
      (u : Sender) → Sent sid s u → length u.queue < length s.queue → RoundGood sid s (goes_on u)

idle-Flushed : (sid pn : ℕ) (s : Sender) → Flushed sid s (record s { next_pn = pn })
idle-Flushed sid pn s = record {
  moved = [];
  packets = [];
  front = refl;
  offset = omega arith;
  in_total = omega arith;
  of_stream = omega arith;
  total_within = omega arith;
  stream_within = omega arith;
  tracked = sym (append-nil s.sent_packets);
  chunks = no_chunk s.cur_offset;
  fin_last = inl refl;
}

credit_bound : (limit sent n : ℕ) → n ≤ credit limit sent → sent + n ≤ max sent limit
credit_bound limit sent n h = ground arith

behind_nothing : (a b : List ℕ) → [] ≡ a ++ b → b ≡ []
behind_nothing [] b e = sym e
behind_nothing (x ∷ a) b e = absurd (omega (arith, ap length e))

fin-Flushed :
    (sid : ℕ) (s u t : Sender)
    → Sent sid s u
    → Flushed sid u t
    → (t.fin_pending ≡ s.fin_pending) ⊎ ((t.queue ≡ []) × (t.fin_pending ≡ false))
fin-Flushed sid s u t one rest = go one.fin_last rest.fin_last
  where
    go :
        (u.fin_pending ≡ s.fin_pending) ⊎ ((u.queue ≡ []) × (u.fin_pending ≡ false))
        → (t.fin_pending ≡ u.fin_pending) ⊎ ((t.queue ≡ []) × (t.fin_pending ≡ false))
        → (t.fin_pending ≡ s.fin_pending) ⊎ ((t.queue ≡ []) × (t.fin_pending ≡ false))
    go a (inr d) = inr d
    go (inl a) (inl b) = inl (b ∙ a)
    go (inr (q, f)) (inl b) = inr (behind_nothing rest.moved t.queue (sym q ∙ rest.front), b ∙ f)

Sent-Flushed : (sid : ℕ) (s u t : Sender) → Sent sid s u → Flushed sid u t → Flushed sid s t
Sent-Flushed sid s u t one rest = record {
  moved = one.bytes ++ rest.moved;
  packets = one.packet ∷ rest.packets;
  front =
      one.front
      ∙ ap (λ (l : List ℕ). one.bytes ++ l) rest.front
      ∙ sym (append_assoc one.bytes rest.moved t.queue);
  offset = omega (arith, one.offset, rest.offset, length-append one.bytes rest.moved);
  in_total = omega (arith, one.in_total, rest.in_total, length-append one.bytes rest.moved);
  of_stream = omega (arith, one.of_stream, rest.of_stream, length-append one.bytes rest.moved);
  total_within = omega (
    arith,
    rest.total_within,
    one.in_total,
    one.data_limit,
    credit_bound s.max_data s.data_sent (length one.bytes) one.total_credit,
  );
  stream_within = omega (
    arith,
    rest.stream_within,
    one.of_stream,
    one.stream_limit,
    credit_bound s.max_stream_data s.stream_sent (length one.bytes) one.stream_credit,
  );
  tracked =
      rest.tracked
      ∙ ap (λ (l : List SentPacket). l ++ rest.packets) one.tracked
      ∙ append_assoc s.sent_packets (one.packet ∷ []) rest.packets;
  chunks =
      chunk_then s.cur_offset one.bytes rest.moved one.packet rest.packets one.chunk
        (subst (λ (o : ℕ). Chunks sid o rest.moved rest.packets) one.offset rest.chunks);
  fin_last = fin-Flushed sid s u t one rest;
}

chunk_length_whole : (s : Sender) → chunk_length s ≤ length s.queue
unfolding chunk_length
chunk_length_whole s = ground arith

chunk_length_small : (s : Sender) → chunk_length s ≤ max_stream_frame_payload
unfolding chunk_length
chunk_length_small s = ground arith

chunk_length_total : (s : Sender) → chunk_length s ≤ credit s.max_data s.data_sent
unfolding chunk_length
chunk_length_total s = ground arith

chunk_length_stream : (s : Sender) → chunk_length s ≤ credit s.max_stream_data s.stream_sent
unfolding chunk_length
chunk_length_stream s = ground arith

-- A round that goes on has sent a byte.
moves_on :
    (k : ℕ) (queue : List ℕ) (fin : Bool)
    → is_nil queue && not fin ≡ false
    → (k == 0) && not (is_nil queue) ≡ false
    → (k == 0) && ((k == length queue) && fin) ≡ false
    → 0 < k
moves_on (suc k) queue fin a c d = omega arith
moves_on zero [] false a c d = absurd (ground arith)
moves_on zero [] true a c d = absurd (ground arith)
moves_on zero (b ∷ bs) fin a c d = absurd (ground arith)

pub whole_chunk : (k n : ℕ) (fin : Bool) → (k == n) && fin ≡ true → k ≡ n
whole_chunk k n true e = ground arith
whole_chunk k n false e = ground arith

guards {ℓ} :
    (P : RoundEnd → Type ℓ) (a b c : Bool) (x y : RoundEnd)
    → P x
    → (a ≡ false → c ≡ false → P y)
    → P (if a then x else if b then x else if c then x else y)
guards P true b c x y p q = p
guards P false true c x y p q = p
guards P false false true x y p q = p
guards P false false false x y p q = q refl refl

module _ (protect : PacketHeader → List ℕ → Option (List ℕ)) (now sid : ℕ) (key_phase : Bool)
    (peer_cid : List ℕ) where
  chunk-Sent :
      (k : ℕ) (f : Bool) (s : Sender) (packet : List ℕ) (u : Sender)
      → k ≡ chunk_length s
      → (f ≡ true → k ≡ length s.queue)
      → u.queue ≡ drop k s.queue
      → u.cur_offset ≡ s.cur_offset + k
      → u.data_sent ≡ s.data_sent + k
      → u.stream_sent ≡ s.stream_sent + k
      → u.fin_pending ≡ (if f then false else s.fin_pending)
      → u.max_data ≡ s.max_data
      → u.max_stream_data ≡ s.max_stream_data
      → u.sent_packets
        ≡ s.sent_packets
          ++ (sent_packet s.next_pn
                (length packet)
                one_rtt
                (stream (chunk_frame protect now sid key_phase peer_cid k f s) ∷ [])
                now
              ∷ [])
      → Sent sid s u
  chunk-Sent k f s packet u e whole q o d st fp md ms eq = record {
    bytes = take k s.queue;
    packet =
        sent_packet s.next_pn (length packet) one_rtt
          (stream (chunk_frame protect now sid key_phase peer_cid k f s) ∷ []) now;
    front = sym (take-append-drop k s.queue) ∙ ap (λ (l : List ℕ). take k s.queue ++ l) (sym q);
    offset = omega (arith, o, size);
    in_total = omega (arith, d, size);
    of_stream = omega (arith, st, size);
    total_credit = omega (arith, size, e, chunk_length_total s);
    stream_credit = omega (arith, size, e, chunk_length_stream s);
    data_limit = md;
    stream_limit = ms;
    tracked = eq;
    chunk = record { fin = f; frame = refl; small = omega (arith, size, e, chunk_length_small s) };
    fin_last = final f whole fp;
  }
    where
      size : length (take k s.queue) ≡ k
      size = omega (arith, length-take k s.queue, e, chunk_length_whole s)

      final :
          (g : Bool)
          → (g ≡ true → k ≡ length s.queue)
          → u.fin_pending ≡ (if g then false else s.fin_pending)
          → (u.fin_pending ≡ s.fin_pending) ⊎ ((u.queue ≡ []) × (u.fin_pending ≡ false))
      final true w p = inr (q ∙ drop_all k s.queue (omega (arith, w refl)), p)
      final false w p = inl p

  send_chunk-Good :
      (k : ℕ) (f : Bool) (s : Sender) (o : Option (List ℕ))
      → k ≡ chunk_length s
      → (f ≡ true → k ≡ length s.queue)
      → ((k == 0) && f ≡ false → 0 < k)
      → RoundGood sid s (send_chunk protect now sid key_phase peer_cid k f s o)
  send_chunk-Good k f s none e whole more = idle (suc s.next_pn)
  send_chunk-Good k f s (some packet) e whole more = go ((k == 0) && f) refl
    where
      u : Sender
      u = record s {
        next_pn = suc s.next_pn;
        sent_packets =
            s.sent_packets
            ++ (sent_packet s.next_pn (length packet) one_rtt
                  (stream (chunk_frame protect now sid key_phase peer_cid k f s) ∷ []) now
                ∷ []);
        controller = on_packet_sent (length packet) true s.controller;
        pending_outbound_datagrams = s.pending_outbound_datagrams ++ (packet ∷ []);
        cur_offset = s.cur_offset + k;
        data_sent = s.data_sent + k;
        stream_sent = s.stream_sent + k;
        queue = drop k s.queue;
        fin_pending = if f then false else s.fin_pending;
      }

      one : Sent sid s u
      one = chunk-Sent k f s packet u e whole refl refl refl refl refl refl refl refl

      go : (b : Bool) → ((k == 0) && f) ≡ b → RoundGood sid s (if b then stops u else goes_on u)
      go true p = last u one
      go false p =
          again u one (omega (arith, length-drop k s.queue, more p, e, chunk_length_whole s))

  pub send_round-Good :
      (s : Sender) → RoundGood sid s (send_round protect now sid key_phase peer_cid s)
  unfolding send_round
  send_round-Good s = guards (RoundGood sid s) _ _ _ _ _ (idle s.next_pn) (λ a c.
      send_chunk-Good (chunk_length s) ((chunk_length s == length s.queue) && s.fin_pending) s _
        refl (whole_chunk (chunk_length s) (length s.queue) s.fin_pending)
        (moves_on (chunk_length s) s.queue s.fin_pending a c))

  send_loop-Flushed :
      (n : ℕ) (s : Sender)
      → length s.queue < n
      → (t : Sender) × (send_loop protect now sid key_phase peer_cid n s ≡ some t) × Flushed sid s t
  unfolding send_loop
  send_loop-Flushed zero s h = absurd (omega arith)
  send_loop-Flushed (suc n) s h =
      go (send_round protect now sid key_phase peer_cid s) (send_round-Good s) (send_loop-Flushed n)
    where
      go :
          (r : RoundEnd)
          → RoundGood sid s r
          → ((u : Sender)
              → length u.queue < n
              → (t : Sender) × (send_loop protect now sid key_phase peer_cid n u ≡ some t)
                × Flushed sid u t)
          → (t : Sender) × (next_round protect now sid key_phase peer_cid
                (send_loop protect now sid key_phase peer_cid n)
                r
              ≡ some t)
            × Flushed sid s t
      go (stops _) (idle pn) rec = (record s { next_pn = pn }, refl, idle-Flushed sid pn s)
      go (stops _) (last u one) rec =
          (u, refl, Sent-Flushed sid s u u one (idle-Flushed sid u.next_pn u))
      go (goes_on _) (again u one less) rec =
          let (t, e, rest) = rec u (omega (arith, less, h)) in
          (t, e, Sent-Flushed sid s u t one rest)

  -- Sending from the queue of a stream ends: what left the queue is its front, each byte once and in order, in packets
  -- of at most 1150 bytes of the stream at consecutive offsets, all of them tracked in that order. The offset and the
  -- counts of sent bytes grow by what was sent and pass no flow control limit, and the FIN is no longer pending
  -- only where the queue is empty.
  pub send_queue-Flushed :
      (s : Sender)
      → (t : Sender) × (send_queue protect now sid key_phase peer_cid s ≡ some t) × Flushed sid s t
  unfolding send_queue
  send_queue-Flushed s = send_loop-Flushed (suc (suc (length s.queue))) s (omega arith)
