-- ===== src/Quic/Stream/Runs.antt =====
-- Streams at work, and the theorems at concrete histories.
use wave_x.Prelude.{
  ℕ, ◌+◌, ◌≤◌, ◌≡◌, refl, true, false, not, List, [], ◌∷◌, length, take, arith, All,
}
use wave_x.Quic.Stream.Defs.{
  QuicStream, eof, new_stream, read_some, push_inbound, push_valid, push_duplicate, push_gap,
  absorb, wake, shutdown_send, shutdown_both, insert_chunk, pending_bytes, drain, append_bytes,
}
use wave_x.Utils.StreamBuffer
use wave_x.Quic.Stream.Reassembly.{IsSlice, push_inbound-le}
use wave_x.Quic.Stream.Delivery.{
  Event, arrives, reads, start, run, IsTrue, given_front, eof_complete, start-Receives,
}
use wave_x.Quic.Stream.Lifecycle.{
  Call, pushes, shuts, starts_read, registered, overwritten, closes, cancels, callbacks, fins,
  count, apply_all, callbacks_once, fin_once,
}

abbrev sent : List ℕ
sent = 10 ∷ 11 ∷ 12 ∷ 13 ∷ 14 ∷ []

-- The end comes first, then an overlap, then the beginning, with reads between.
abbrev history : List Event
history =
    arrives 3 (13 ∷ 14 ∷ []) true
    ∷ reads 8
    ∷ arrives 1 (11 ∷ 12 ∷ 13 ∷ []) false
    ∷ arrives 0 (10 ∷ 11 ∷ []) false
    ∷ reads 2
    ∷ reads 8
    ∷ []

tail-IsSlice : IsSlice sent 3 (13 ∷ 14 ∷ [])
tail-IsSlice = record { fits = omega arith; same = refl }

middle-IsSlice : IsSlice sent 1 (11 ∷ 12 ∷ 13 ∷ [])
middle-IsSlice = record { fits = omega arith; same = refl }

head-IsSlice : IsSlice sent 0 (10 ∷ 11 ∷ [])
head-IsSlice = record { fits = omega arith; same = refl }

history-IsTrue : All (IsTrue sent) history
history-IsTrue = (
  (tail-IsSlice, λ e. refl),
  (tt, ((middle-IsSlice, λ e. cc), ((head-IsSlice, λ e. cc), (tt, (tt, tt))))),
)

given_run : (run (start 4) history).given ≡ sent
unfolding run push_inbound push_valid push_duplicate push_gap absorb wake read_some
    StreamBuffer.empty StreamBuffer.read StreamBuffer.append StreamBuffer.size insert_chunk
    pending_bytes drain append_bytes
given_run = refl

eof_run : (read_some 8 (run (start 4) history).stream).error ≡ eof
unfolding run push_inbound push_valid push_duplicate push_gap absorb wake read_some
    StreamBuffer.empty StreamBuffer.read StreamBuffer.append StreamBuffer.size insert_chunk
    pending_bytes drain append_bytes
eof_run = refl

given_front_example :
    let c = run (start 4) history in
    (c.given ≡ take (length c.given) sent) × (c.stream.final_size_error ≡ false)
given_front_example = given_front sent 4 history (omega arith) history-IsTrue

eof_complete_example : (run (start 4) history).given ≡ sent
eof_complete_example = eof_complete sent 4 8 history (omega arith) history-IsTrue eof_run

push_inbound-le_example : 0 + 2 ≤ (push_inbound 0 (10 ∷ 11 ∷ []) false (new_stream 4)).0.recv_offset
push_inbound-le_example =
    push_inbound-le sent [] (omega arith) 0 (10 ∷ 11 ∷ []) false (new_stream 4) head-IsSlice
      (λ e. cc) (start-Receives sent 4) (omega arith)

abbrev waiting : QuicStream
waiting = record (new_stream 4) { pending_read = true }

abbrev calls : List Call
calls =
    starts_read 8
    ∷ pushes 1 (11 ∷ []) false
    ∷ pushes 0 (10 ∷ []) false
    ∷ starts_read 8
    ∷ shuts shutdown_send
    ∷ shuts shutdown_both
    ∷ cancels
    ∷ closes
    ∷ []

callbacks_once_example :
    callbacks (apply_all calls waiting).1
      + count (apply_all calls waiting).0.pending_read
      + overwritten calls waiting
    ≡ count waiting.pending_read + registered calls waiting
callbacks_once_example = callbacks_once calls waiting

fin_once_example :
    fins (apply_all calls waiting).1 + count (not (apply_all calls waiting).0.fin_sent) ≤ 1
fin_once_example = fin_once calls waiting (tt, (tt, (tt, (tt, (tt, (tt, (tt, (tt, tt))))))))
