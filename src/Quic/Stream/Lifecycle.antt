-- ===== src/Quic/Stream/Lifecycle.antt =====
-- Pending reads and the end of the sending side, over any history of calls of a stream.
use wave_x.Prelude.{
  ℕ, suc, ◌+◌, ◌≤◌, ◌≡◌, Bool, true, false, List, [], ◌∷◌, ◌++◌, arith, inl, inr, Option-cases,
  length, not, ◌≤◌, All, ◌&&◌, refl, ap,
}
use wave_x.Quic.Stream.Defs.{
  QuicStream, Effect, read_callback, queue_stream_data, close_stream, ShutdownType,
  notify_finished_if_needed, cancel, shutdown, close, push_inbound, push_valid, push_duplicate,
  push_gap, wake, absorb, write_outbound, validate_final_size, ErrorCode, ok, eof,
  operation_aborted, connection_reset, not_connected, ReadStart, completes, waits, async_read_some,
  finish_read, read_some, unread,
}

-- How often the pending read is called, and how often the end of the stream is queued.
unfoldable pub callbacks : List Effect → ℕ
callbacks [] = 0
callbacks (read_callback e n ∷ es) = suc (callbacks es)
callbacks (queue_stream_data i b f ∷ es) = callbacks es
callbacks (close_stream i ∷ es) = callbacks es

unfoldable pub fins : List Effect → ℕ
fins [] = 0
fins (read_callback e n ∷ es) = fins es
fins (queue_stream_data i b true ∷ es) = suc (fins es)
fins (queue_stream_data i b false ∷ es) = fins es
fins (close_stream i ∷ es) = fins es

-- The calls that change a stream. A pending read that was called and posted comes back as `finishes`.
pub data Call : Type 0 where
  pushes : ℕ → List ℕ → Bool → Call
  shuts : ShutdownType → Call
  writes : List ℕ → Bool → Call
  closes cancels : Call
  reads starts_read : ℕ → Call
  finishes : ErrorCode → ℕ → Call
  unreads : List ℕ → Call

unfoldable pub apply : Call → QuicStream → QuicStream × List Effect
apply (pushes offset bytes fin) s = push_inbound offset bytes fin s
apply (shuts type) s = shutdown type s
apply (writes bytes fin) s = let r = write_outbound bytes fin s in (r.1, r.2)
apply closes s = close s
apply cancels s = cancel s
apply (reads n) s = ((read_some n s).after, [])
apply (starts_read n) s = ((async_read_some n s).0, [])
apply (finishes ec n) s = ((finish_read ec n s).after, [])
apply (unreads bytes) s = (unread bytes s, [])

unfoldable pub apply_all : List Call → QuicStream → QuicStream × List Effect
unfolding apply
apply_all [] s = (s, [])
apply_all (c ∷ cs) s =
    let (s', es) = apply c s in let (s'', es') = apply_all cs s' in (s'', es ++ es')

callbacks-append : (xs ys : List Effect) → callbacks (xs ++ ys) ≡ callbacks xs + callbacks ys
unfolding callbacks
callbacks-append [] ys = omega arith
callbacks-append (read_callback e n ∷ xs) ys = omega (arith, callbacks-append xs ys)
callbacks-append (queue_stream_data i b f ∷ xs) ys = callbacks-append xs ys
callbacks-append (close_stream i ∷ xs) ys = callbacks-append xs ys

fins-append : (xs ys : List Effect) → fins (xs ++ ys) ≡ fins xs + fins ys
unfolding fins
fins-append [] ys = omega arith
fins-append (read_callback e n ∷ xs) ys = fins-append xs ys
fins-append (queue_stream_data i b true ∷ xs) ys = omega (arith, fins-append xs ys)
fins-append (queue_stream_data i b false ∷ xs) ys = fins-append xs ys
fins-append (close_stream i ∷ xs) ys = fins-append xs ys

abbrev pub count : Bool → ℕ
count true = 1
count false = 0

-- Whether a call registers a pending read, and whether it takes the place of one that waits.
abbrev is_waits : ReadStart → Bool
is_waits waits = true
is_waits (completes ec bytes) = false

unfoldable pub registers : Call → QuicStream → Bool
registers (starts_read n) s = is_waits (async_read_some n s).1
registers _ s = false

unfoldable pub overwrites : Call → QuicStream → Bool
overwrites c s = registers c s && s.pending_read

-- How many calls of a history register a pending read, and how many of them overwrite one.
unfoldable pub registered : List Call → QuicStream → ℕ
registered [] s = 0
registered (c ∷ cs) s = count (registers c s) + registered cs (apply c s).0

unfoldable pub overwritten : List Call → QuicStream → ℕ
overwritten [] s = 0
overwritten (c ∷ cs) s = count (overwrites c s) + overwritten cs (apply c s).0

-- Reads that wait are called as often as they stop waiting.
abbrev Balanced : QuicStream → QuicStream × List Effect → Type 0
Balanced s (s', es) = callbacks es + count s'.pending_read ≡ count s.pending_read

push_valid-Balanced :
    (offset : ℕ) (bytes : List ℕ) (s : QuicStream) → Balanced s (push_valid offset bytes s)
unfolding push_valid push_duplicate push_gap wake absorb callbacks
push_valid-Balanced offset bytes s = ground arith

notify-quiet : (s : QuicStream) → callbacks (notify_finished_if_needed s) ≡ 0
unfolding notify_finished_if_needed callbacks
notify-quiet s = ground arith

push_inbound-Balanced :
    (offset : ℕ) (bytes : List ℕ) (fin : Bool) (s : QuicStream)
    → Balanced s (push_inbound offset bytes fin s)
unfolding push_inbound
push_inbound-Balanced offset bytes fin s =
    elim (Option-cases (validate_final_size offset (length bytes) fin s)) [
      | inl e ↦ rw (e, push_inbound) (unfold callbacks in omega arith)
      | inr (f, e) ↦
          let s' = record s { final_size = f } in
          rw (e, push_inbound)
            (omega (
              arith,
              callbacks-append (push_valid offset bytes s').1
                  (notify_finished_if_needed (push_valid offset bytes s').0),
              notify-quiet (push_valid offset bytes s').0,
              push_valid-Balanced offset bytes s',
            ))
    ]

read_some_pending : (n : ℕ) (s : QuicStream) → (read_some n s).after.pending_read ≡ s.pending_read
unfolding read_some
read_some_pending n s = ground arith

finish_read_pending :
    (ec : ErrorCode) (n : ℕ) (s : QuicStream)
    → (finish_read ec n s).after.pending_read ≡ s.pending_read
unfolding finish_read
finish_read_pending ok n s = ground arith
finish_read_pending eof n s = refl
finish_read_pending operation_aborted n s = refl
finish_read_pending connection_reset n s = refl
finish_read_pending not_connected n s = refl

-- What waits after a call, and what was called or overwritten, waited before or was registered by it.
apply_balance :
    (c : Call) (s : QuicStream)
    → callbacks (apply c s).1 + count (apply c s).0.pending_read + count (overwrites c s)
      ≡ count s.pending_read + count (registers c s)
unfolding apply shutdown close cancel write_outbound callbacks notify_finished_if_needed
    async_read_some registers overwrites unread
apply_balance (pushes offset bytes fin) s = omega (arith, push_inbound-Balanced offset bytes fin s)
apply_balance (shuts type) s = ground arith
apply_balance (writes bytes fin) s = ground arith
apply_balance closes s = ground arith
apply_balance cancels s = ground arith
apply_balance (reads n) s = omega (arith, ap count (read_some_pending n s))
apply_balance (starts_read n) s = ground arith
apply_balance (finishes ec n) s = omega (arith, ap count (finish_read_pending ec n s))
apply_balance (unreads bytes) s = omega arith

-- Over any history of calls, reads that start among them, the number of calls of pending reads, of pending reads that
-- were overwritten by the start of another, and of those that still wait (0 or 1) is that of the pending reads that
-- waited at the start and of those that were registered since. So where no read starts while another waits, as many are
-- called as were registered or waited and wait no more.
pub callbacks_once :
    (cs : List Call) (s : QuicStream)
    → callbacks (apply_all cs s).1 + count (apply_all cs s).0.pending_read + overwritten cs s
      ≡ count s.pending_read + registered cs s
unfolding apply_all registered overwritten
callbacks_once [] s = unfold callbacks in omega arith
callbacks_once (c ∷ cs) s = omega (
  arith,
  callbacks-append (apply c s).1 (apply_all cs (apply c s).0).1,
  apply_balance c s,
  callbacks_once cs (apply c s).0,
)

-- The sending side ends only by `shutdown` and `close`.
abbrev pub EndsByClosing : Call → Type 0
EndsByClosing (writes bytes fin) = fin ≡ false
EndsByClosing _ = Unit

abbrev Spent : QuicStream → QuicStream × List Effect → Type 0
Spent s (s', es) = fins es + count (not s'.fin_sent) ≤ count (not s.fin_sent)

push_valid-Spent :
    (offset : ℕ) (bytes : List ℕ) (s : QuicStream) → Spent s (push_valid offset bytes s)
unfolding push_valid push_duplicate push_gap wake absorb fins
push_valid-Spent offset bytes s = ground arith

notify-endless : (s : QuicStream) → fins (notify_finished_if_needed s) ≡ 0
unfolding notify_finished_if_needed fins
notify-endless s = ground arith

push_inbound-Spent :
    (offset : ℕ) (bytes : List ℕ) (fin : Bool) (s : QuicStream)
    → Spent s (push_inbound offset bytes fin s)
unfolding push_inbound
push_inbound-Spent offset bytes fin s =
    elim (Option-cases (validate_final_size offset (length bytes) fin s)) [
      | inl e ↦ rw (e, push_inbound) (unfold fins in omega arith)
      | inr (f, e) ↦
          let s' = record s { final_size = f } in
          rw (e, push_inbound)
            (omega (
              arith,
              fins-append (push_valid offset bytes s').1
                  (notify_finished_if_needed (push_valid offset bytes s').0),
              notify-endless (push_valid offset bytes s').0,
              push_valid-Spent offset bytes s',
            ))
    ]

finish_read_fin :
    (ec : ErrorCode) (n : ℕ) (s : QuicStream) → (finish_read ec n s).after.fin_sent ≡ s.fin_sent
unfolding finish_read
finish_read_fin ok n s = ground arith
finish_read_fin eof n s = refl
finish_read_fin operation_aborted n s = refl
finish_read_fin connection_reset n s = refl
finish_read_fin not_connected n s = refl

apply-Spent : (c : Call) (s : QuicStream) → EndsByClosing c → Spent s (apply c s)
unfolding apply shutdown close cancel write_outbound fins notify_finished_if_needed read_some
    async_read_some unread
apply-Spent (pushes offset bytes fin) s h = push_inbound-Spent offset bytes fin s
apply-Spent (shuts type) s h = ground arith
apply-Spent (writes bytes fin) s h = ground arith
apply-Spent closes s h = ground arith
apply-Spent cancels s h = ground arith
apply-Spent (reads n) s h = ground arith
apply-Spent (starts_read n) s h = ground arith
apply-Spent (finishes ec n) s h = omega (arith, ap (λ b. count (not b)) (finish_read_fin ec n s))
apply-Spent (unreads bytes) s h = ground arith

-- Where no write carries the end of the stream itself: however often the stream is shut down and closed, the end of the stream is queued at most once, and
-- not at all if it was sent before.
pub fin_once :
    (cs : List Call) (s : QuicStream)
    → All EndsByClosing cs
    → fins (apply_all cs s).1 + count (not (apply_all cs s).0.fin_sent) ≤ count (not s.fin_sent)
unfolding apply_all
fin_once [] s h = unfold fins in omega arith
fin_once (c ∷ cs) s (h, hs) = omega (
  arith,
  fins-append (apply c s).1 (apply_all cs (apply c s).0).1,
  apply-Spent c s h,
  fin_once cs (apply c s).0 hs,
)
