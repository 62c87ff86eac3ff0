-- ===== src/Quic/Stream/Delivery.antt =====
-- What a reader of a stream is given, over any history of arrivals and reads.
use wave_x.Prelude.{
  ℕ, ◌+◌, ◌^◌, ◌<◌, ◌≡◌, refl, sym, ap, ◌∙◌, inl, inr, Bool, true, false, List, [], ◌∷◌, ◌++◌,
  length, take, drop, arith, append-nil, append_assoc, All, Bool-cases, take_all,
  take-length_append, take-append-drop, drop_all,
}
use wave_x.Utils.StreamBuffer
use wave_x.Utils.StreamBuffer.Contents.{contents, contents-read}
use wave_x.Quic.Stream.Defs.{QuicStream, eof, new_stream, push_inbound, read_some}
use wave_x.Quic.Stream.Reassembly.{IsSlice, Receives, push_inbound-Receives}

-- A read gives bytes in the order of the stream.
pub read_some-Receives :
    (sent given : List ℕ) (n : ℕ) (s : QuicStream)
    → Receives sent given s
    → Receives sent (given ++ (read_some n s).bytes) (read_some n s).after
unfolding read_some
read_some-Receives sent given n s r = elim (Bool-cases (StreamBuffer.empty s.in_buffer)) [
  | inl none_left ↦ rw (none_left, append-nil) r
  | inr some_left ↦
      let (e, f, v) = contents-read s.in_buffer n r.holds.valid in
      rw some_left (record {
        holds = record {
          valid = v;
          within = r.holds.within;
          front =
              append_assoc given _ _
              ∙ ap (◌++◌ given) (rw (e, f) (take-append-drop n (contents s.in_buffer)))
              ∙ r.holds.front;
        };
        pending = r.pending;
        final = r.final;
        finished = r.finished;
        no_error = r.no_error;
        still_open = r.still_open;
      })
]

-- What can happen to the stream: a STREAM frame arrives, or the application reads into `n` bytes.
pub data Event : Type 0 where
  arrives : ℕ → List ℕ → Bool → Event
  reads : ℕ → Event

-- A stream and what its reader has been given so far.
pub record Session : Type 0 where
  pub stream : QuicStream
  pub given : List ℕ

unfoldable pub step : Session → Event → Session
step c (arrives offset bytes fin) = record c { stream = (push_inbound offset bytes fin c.stream).0 }
step c (reads n) =
    let r = read_some n c.stream in record { stream = r.after; given = c.given ++ r.bytes }

unfoldable pub run : Session → List Event → Session
unfolding step
run c [] = c
run c (e ∷ es) = run (step c e) es

abbrev pub start : ℕ → Session
start id = record { stream = new_stream id; given = [] }

-- Each frame carries a piece of `sent`, and one with FIN its last piece.
abbrev pub IsTrue : List ℕ → Event → Type 0
IsTrue sent (arrives offset bytes fin) =
    IsSlice sent offset bytes × (fin ≡ true → offset + length bytes ≡ length sent)
IsTrue sent (reads n) = Unit

step-Receives :
    (sent : List ℕ) (e : Event) (c : Session)
    → length sent < 2 ^ 64
    → IsTrue sent e
    → Receives sent c.given c.stream
    → Receives sent (step c e).given (step c e).stream
unfolding step
step-Receives sent (arrives offset bytes fin) c b (h, f) r =
    push_inbound-Receives sent c.given b offset bytes fin c.stream h f r
step-Receives sent (reads n) c b h r = read_some-Receives sent c.given n c.stream r

run-Receives :
    (sent : List ℕ) (es : List Event) (c : Session)
    → length sent < 2 ^ 64
    → All (IsTrue sent) es
    → Receives sent c.given c.stream
    → Receives sent (run c es).given (run c es).stream
unfolding run
run-Receives sent [] c b h r = r
run-Receives sent (e ∷ es) c b (h, hs) r =
    run-Receives sent es (step c e) b hs (step-Receives sent e c b h r)

pub start-Receives : (sent : List ℕ) (id : ℕ) → Receives sent [] (new_stream id)
start-Receives sent id = record {
  holds = record { valid = omega arith; within = omega arith; front = refl };
  pending = tt;
  final = inl refl;
  finished = λ e. cc;
  no_error = refl;
  still_open = refl;
}

front_of :
    (sent given rest : List ℕ) (n : ℕ)
    → given ++ rest ≡ take n sent
    → given ≡ take (length given) sent
front_of sent given rest n e =
    sym (take-length_append given (rest ++ drop n sent))
    ∙ ap (take (length given)) (
        sym (append_assoc given rest (drop n sent))
        ∙ ap (λ l. l ++ drop n sent) e
        ∙ take-append-drop n sent)

-- An open stream reports the end only with nothing left and after the end was received.
read_some-eof :
    (n : ℕ) (s : QuicStream)
    → s.is_open ≡ true
    → (read_some n s).error ≡ eof
    → (contents s.in_buffer ≡ []) × (s.fin_received ≡ true)
unfolding read_some StreamBuffer.empty
read_some-eof n s o e = ground (arith, drop_all s.in_buffer.read_offset s.in_buffer.buffer)

-- Whatever pieces of a byte stream of less than 2^64 bytes arrive, in whatever order, overlapping, repeated or dropped, and
-- whenever the application reads: what it has been given is the front of that byte stream, and no
-- final size error is raised.
pub given_front :
    (sent : List ℕ) (id : ℕ) (es : List Event)
    → length sent < 2 ^ 64
    → All (IsTrue sent) es
    → let c = run (start id) es in
      (c.given ≡ take (length c.given) sent) × (c.stream.final_size_error ≡ false)
given_front sent id es b h =
    let r = run-Receives sent es (start id) b h (start-Receives sent id) in
    (front_of sent _ _ _ r.holds.front, r.no_error)

-- Where all that arrives are slices of one byte stream of less than 2^64 bytes, with the end marked where
-- it ends: the reader is told of the end only when it has been given the whole byte stream.
pub eof_complete :
    (sent : List ℕ) (id n : ℕ) (es : List Event)
    → length sent < 2 ^ 64
    → All (IsTrue sent) es
    → (read_some n (run (start id) es).stream).error ≡ eof
    → (run (start id) es).given ≡ sent
eof_complete sent id n es b h e =
    let r = run-Receives sent es (start id) b h (start-Receives sent id) in
    let (none_left, fin) = read_some-eof n _ r.still_open e in
    sym (append-nil _)
    ∙ ap (◌++◌ (run (start id) es).given) (sym none_left)
    ∙ r.holds.front
    ∙ take_all _ sent (omega (arith, r.finished fin))
