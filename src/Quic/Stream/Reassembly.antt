-- ===== src/Quic/Stream/Reassembly.antt =====
-- What a receiving stream keeps true while slices of the sender's byte stream arrive in any order.
use wave_x.Prelude.{
  ℕ, ◌+◌, ◌-◌, ◌^◌, ◌≤◌, ◌<◌, ◌≡◌, refl, sym, ap, ◌∙◌, subst, ◌⊎◌, inl, inr, Bool, true, false,
  Option, none, some, List, [], ◌∷◌, ◌++◌, ltb, if◌then◌else◌, length, take, drop, add64, arith,
  length-drop, append_assoc, drop_sum, take_sum, drop-take, All, lt→ltb, not_lt→ltb, Bool-cases,
}
use native.Mathlib.Decide.{dec_lt}
use native.Mathlib.Nat.{le_trans}
use wave_x.Utils.StreamBuffer.Contents.{IsValid, contents, contents-append}
use wave_x.Quic.Stream.Defs.{
  StreamChunk, QuicStream, Inbound, append_bytes, drain, insert_chunk, push_duplicate, absorb, wake,
  push_in_order, push_gap, push_valid, push_inbound, validate_final_size, is_complete,
}

-- `bytes` stand at `offset` in the stream that the sender sends.
pub record IsSlice (sent : List ℕ) (offset : ℕ) (bytes : List ℕ) : Type 0 where
  pub fits : offset + length bytes ≤ length sent
  pub same : take (length bytes) (drop offset sent) ≡ bytes

abbrev pub ChunkOf : List ℕ → StreamChunk → Type 0
ChunkOf sent c = IsSlice sent c.offset c.bytes

-- The front of a slice may be cut off.
IsSlice-drop :
    (sent : List ℕ) (offset n : ℕ) (bytes : List ℕ)
    → n ≤ length bytes
    → IsSlice sent offset bytes
    → IsSlice sent (offset + n) (drop n bytes)
IsSlice-drop sent offset n bytes h s =
    let m : length (drop n bytes) ≡ length bytes - n = length-drop n bytes in
    record {
      fits = omega (arith, m, s.fits);
      same =
          ap (take (length (drop n bytes))) (sym (drop_sum offset n (offset + n) sent refl))
          ∙ sym (
              drop-take n (length (drop n bytes)) (length bytes) (drop offset sent)
                (omega (arith, m)))
          ∙ ap (drop n) s.same;
    }

-- What the application has been given, and then what waits for it, is the front of the stream up to
-- the offset received so far.
pub record Holds (sent given : List ℕ) (i : Inbound) : Type 0 where
  pub valid : IsValid i.buffer
  pub within : i.received ≤ length sent
  pub front : given ++ contents i.buffer ≡ take i.received sent

append_bytes-Holds :
    (sent given : List ℕ) (bytes : List ℕ) (i : Inbound)
    → length sent < 2 ^ 64
    → IsSlice sent i.received bytes
    → Holds sent given i
    → Holds sent given (append_bytes bytes i)
      × ((append_bytes bytes i).received ≡ i.received + length bytes)
unfolding append_bytes
append_bytes-Holds sent given [] i b s h = (h, omega arith)
append_bytes-Holds sent given (c ∷ cs) i b s h =
    let (e, v) = contents-append i.buffer (c ∷ cs) h.valid in
    let w : add64 i.received (length (c ∷ cs)) ≡ i.received + length (c ∷ cs) =
      omega (arith, s.fits) in
    (
      record {
        valid = v;
        within = omega (arith, w, s.fits);
        front =
            ap (◌++◌ given) e
            ∙ sym (append_assoc given (contents i.buffer) (c ∷ cs))
            ∙ ap (λ l. l ++ (c ∷ cs)) h.front
            ∙ ap (◌++◌ (take i.received sent)) (sym s.same)
            ∙ take_sum i.received (length (c ∷ cs)) (add64 i.received (length (c ∷ cs))) sent
                (sym w);
      },
      w,
    )

-- A chunk that does not lie ahead: what it adds is appended.
behind-Holds :
    (sent given : List ℕ) (c : StreamChunk) (i : Inbound)
    → length sent < 2 ^ 64
    → ChunkOf sent c
    → c.offset ≤ i.received
    → Holds sent given i
    → let i' =
        if ltb i.received (add64 c.offset (length c.bytes))
        then append_bytes (drop (i.received - c.offset) c.bytes) i
        else i in
      Holds sent given i' × (i.received ≤ i'.received)
behind-Holds sent given c i b s l h = elim (dec_lt i.received (c.offset + length c.bytes)) [
  | yes more ↦
      let (g, e) =
        append_bytes-Holds sent given (drop (i.received - c.offset) c.bytes) i b (rest more) h in
      ground (arith, s.fits, g, e)
  | no old ↦ ground (arith, s.fits, h)
]
  where
    rest :
        i.received < c.offset + length c.bytes
        → IsSlice sent i.received (drop (i.received - c.offset) c.bytes)
    rest more =
        subst (λ o. IsSlice sent o (drop (i.received - c.offset) c.bytes)) (omega arith)
          (IsSlice-drop sent c.offset (i.received - c.offset) c.bytes (omega arith) s)

drain-Holds :
    (sent given : List ℕ) (cs : List StreamChunk) (i : Inbound)
    → length sent < 2 ^ 64
    → All (ChunkOf sent) cs
    → Holds sent given i
    → Holds sent given (drain cs i).0
      × All (ChunkOf sent) (drain cs i).1
      × (i.received ≤ (drain cs i).0.received)
unfolding drain
drain-Holds sent given [] i b a h = (h, tt, omega arith)
drain-Holds sent given (c ∷ cs) i b (ha, a) h = elim (dec_lt i.received c.offset) [
  | yes gap ↦ rw (lt→ltb _ _ gap) (h, (ha, a), omega arith)
  | no near ↦
      let (g, l) = behind-Holds sent given c i b ha (omega arith) h in
      let (g', p, l') = drain-Holds sent given cs _ b a g in
      rw (not_lt→ltb _ _ near) (g', p, le_trans l l')
]

insert_chunk-ChunkOf :
    (sent : List ℕ) (c : StreamChunk) (cs : List StreamChunk)
    → ChunkOf sent c
    → All (ChunkOf sent) cs
    → All (ChunkOf sent) (insert_chunk c cs)
unfolding insert_chunk
insert_chunk-ChunkOf sent c [] h a = (h, tt)
insert_chunk-ChunkOf sent c (d ∷ ds) h (hd, a) =
    ground (arith, insert_chunk-ChunkOf sent c ds h a, h, hd, a)

-- The state of a stream that receives `sent`, of which the application has been given `given`.
abbrev pub inbound : QuicStream → Inbound
inbound s = record { received = s.recv_offset; buffer = s.in_buffer }

pub record Receives (sent given : List ℕ) (s : QuicStream) : Type 0 where
  pub holds : Holds sent given (inbound s)
  pub pending : All (ChunkOf sent) s.pending_inbound
  pub final : (s.final_size ≡ none) ⊎ (s.final_size ≡ some (length sent))
  pub finished : s.fin_received ≡ true → s.recv_offset ≡ length sent
  pub no_error : s.final_size_error ≡ false
  pub still_open : s.is_open ≡ true

module _ (sent given : List ℕ) (b : length sent < 2 ^ 64) where
  push_duplicate-Receives :
      (s : QuicStream) → Receives sent given s → Receives sent given (push_duplicate s).0
  unfolding push_duplicate
  push_duplicate-Receives s r = elim (Bool-cases (is_complete s)) [
    | inl done ↦ ground (arith, r.holds, r.pending, r.final, r.finished, r.no_error, r.still_open)
    | inr open' ↦ rw (open') r
  ]

  push_gap-Receives :
      (offset : ℕ) (bytes : List ℕ) (s : QuicStream)
      → IsSlice sent offset bytes
      → Receives sent given s
      → Receives sent given (push_gap offset bytes s)
  unfolding push_gap
  push_gap-Receives offset bytes s h r = ground (
    arith,
    r.holds,
    r.pending,
    r.final,
    r.finished,
    r.no_error,
    r.still_open,
    insert_chunk-ChunkOf sent (record { offset = offset; bytes = bytes }) s.pending_inbound h
        r.pending,
  )

  absorb-Receives :
      (bytes : List ℕ) (s : QuicStream)
      → IsSlice sent s.recv_offset bytes
      → Receives sent given s
      → Receives sent given (absorb bytes s)
  unfolding absorb
  absorb-Receives bytes s h r =
      let (g, e) = append_bytes-Holds sent given bytes (inbound s) b h r.holds in
      let (g', p, l) =
        drain-Holds sent given s.pending_inbound (append_bytes bytes (inbound s)) b r.pending g in
      record {
        holds = g';
        pending = p;
        final = r.final;
        finished = λ f. ground (arith, g'.within, l, e, r.final);
        no_error = r.no_error;
        still_open = r.still_open;
      }

  absorb-le :
      (bytes : List ℕ) (s : QuicStream)
      → IsSlice sent s.recv_offset bytes
      → Receives sent given s
      → s.recv_offset + length bytes ≤ (absorb bytes s).recv_offset
  unfolding absorb
  absorb-le bytes s h r =
      let (g, e) = append_bytes-Holds sent given bytes (inbound s) b h r.holds in
      omega (
        arith,
        e,
        (drain-Holds sent given s.pending_inbound (append_bytes bytes (inbound s)) b r.pending g).2,
      )

  wake-Receives : (s : QuicStream) → Receives sent given s → Receives sent given (wake s).0
  unfolding wake
  wake-Receives s r =
      ground (arith, r.holds, r.pending, r.final, r.finished, r.no_error, r.still_open)

  push_valid-Receives :
      (offset : ℕ) (bytes : List ℕ) (s : QuicStream)
      → IsSlice sent offset bytes
      → Receives sent given s
      → Receives sent given (push_valid offset bytes s).0
  unfolding push_valid
  push_valid-Receives offset bytes s h r = ground (
    arith,
    h.fits,
    push_duplicate-Receives s r,
    push_gap-Receives offset bytes s h r,
    λ (near : offset ≤ s.recv_offset) (more : s.recv_offset ≤ offset + length bytes).
        in_order near more,
  )
    where
      in_order :
          offset ≤ s.recv_offset
          → s.recv_offset ≤ offset + length bytes
          → Receives sent given (push_in_order (drop (s.recv_offset - offset) bytes) s).0
      in_order near more = wake-Receives _ (
          absorb-Receives (drop (s.recv_offset - offset) bytes) s
            (subst (λ o. IsSlice sent o (drop (s.recv_offset - offset) bytes)) (omega arith)
              (IsSlice-drop sent offset (s.recv_offset - offset) bytes (omega arith) h))
            r)

  -- A piece that does not lie ahead of the offset is received up to its end.
  pub push_valid-le :
      (offset : ℕ) (bytes : List ℕ) (s : QuicStream)
      → IsSlice sent offset bytes
      → Receives sent given s
      → offset ≤ s.recv_offset
      → offset + length bytes ≤ (push_valid offset bytes s).0.recv_offset
  unfolding push_valid push_duplicate wake
  push_valid-le offset bytes s h r near =
      ground (arith, h.fits, λ (more : s.recv_offset ≤ offset + length bytes). in_order more)
    where
      in_order :
          s.recv_offset ≤ offset + length bytes
          → offset + length bytes ≤ (absorb (drop (s.recv_offset - offset) bytes) s).recv_offset
      in_order more = omega (
        arith,
        length-drop (s.recv_offset - offset) bytes,
        absorb-le (drop (s.recv_offset - offset) bytes) s
            (subst (λ o. IsSlice sent o (drop (s.recv_offset - offset) bytes)) (omega arith)
              (IsSlice-drop sent offset (s.recv_offset - offset) bytes (omega arith) h))
            r,
      )

  -- A sender that is true to one byte stream raises no final size error.
  validate_final_size-Receives :
      (offset : ℕ) (bytes : List ℕ) (fin : Bool) (s : QuicStream)
      → IsSlice sent offset bytes
      → (fin ≡ true → offset + length bytes ≡ length sent)
      → Receives sent given s
      → (f : Option ℕ) × (validate_final_size offset (length bytes) fin s ≡ some f)
        × ((f ≡ none) ⊎ (f ≡ some (length sent)))
  unfolding validate_final_size
  validate_final_size-Receives offset bytes fin s h e r = elim r.final [
    | inr known ↦ (some (length sent), ground (arith, h.fits, e), inr refl)
    | inl unknown ↦ elim (Bool-cases fin) [
      | inl last ↦ (some (length sent), ground (arith, h.fits, e, r.holds.within), inr refl)
      | inr more ↦ (none, ground (arith), inl refl)
    ]
  ]

  -- A piece of the stream, wherever it stands, keeps all this, and is no final size error.
  pub push_inbound-Receives :
      (offset : ℕ) (bytes : List ℕ) (fin : Bool) (s : QuicStream)
      → IsSlice sent offset bytes
      → (fin ≡ true → offset + length bytes ≡ length sent)
      → Receives sent given s
      → Receives sent given (push_inbound offset bytes fin s).0
  unfolding push_inbound
  push_inbound-Receives offset bytes fin s h e r =
      let (f, v, k) = validate_final_size-Receives offset bytes fin s h e r in
      rw (v, push_inbound)
        (push_valid-Receives offset bytes (record s { final_size = f }) h
          (record {
            holds = r.holds;
            pending = r.pending;
            final = k;
            finished = r.finished;
            no_error = r.no_error;
            still_open = r.still_open;
          }))

  -- A piece of the sender's byte stream that does not lie ahead of what was received is taken in up to its
  -- end, at once, in a stream that keeps the invariant.
  pub push_inbound-le :
      (offset : ℕ) (bytes : List ℕ) (fin : Bool) (s : QuicStream)
      → IsSlice sent offset bytes
      → (fin ≡ true → offset + length bytes ≡ length sent)
      → Receives sent given s
      → offset ≤ s.recv_offset
      → offset + length bytes ≤ (push_inbound offset bytes fin s).0.recv_offset
  unfolding push_inbound
  push_inbound-le offset bytes fin s h e r near =
      let (f, v, k) = validate_final_size-Receives offset bytes fin s h e r in
      rw (v, push_inbound)
        (push_valid-le offset bytes (record s { final_size = f }) h
          (record {
            holds = r.holds;
            pending = r.pending;
            final = k;
            finished = r.finished;
            no_error = r.no_error;
            still_open = r.still_open;
          })
          near)
