-- ===== src/Protos/WebSocket/Session/Progress.antt =====
-- Every round of `read` that goes on takes bytes, so it ends on all input.
use wave_x.Prelude.{
  ℕ, zero, suc, ◌+◌, ◌≤◌, ◌<◌, ◌≡◌, refl, Bool, false, not, ◌&&◌, List, [], ◌∷◌, ◌++◌, ltb, leb,
  if◌then◌else◌, length, drop, inl, inr, arith, Bool-cases, Option-cases, length-drop, leb→le,
}
use wave_x.Protos.WebSocket.Codec.{
  Opcode, continuation, text, binary, close, ping, pong, FrameHeader, ParseResult, complete,
  incomplete, error, is_control, parse_header,
}
use wave_x.Protos.WebSocket.Text.{parse_close_payload, is_valid_utf8}
use wave_x.Protos.WebSocket.Session.{
  Connection, enqueue, failed, Round, returns, again, fills, take_close, take_data, take_frame,
  is_refused, judge, round, rounds, read, Fill, arrived, broken, fill_failed,
}
use wave_x.Protos.WebSocket.Codec.Bounds.{parse_header_size}

-- A round that goes on leaves fewer bytes than there were.
Shrinks : ℕ → Round → Type 0
Shrinks n (returns c r) = Unit
Shrinks n (fills c) = Unit
Shrinks n (again c) = length c.rbuf < n

enqueue_rbuf :
    (key : ℕ) (op : Opcode) (payload : List ℕ) (b : Bool) (c : Connection)
    → (enqueue key op payload b c).1.rbuf ≡ c.rbuf
unfolding enqueue
enqueue_rbuf key op payload b c = ground arith

take_close-Shrinks :
    (n key : ℕ) (payload : List ℕ) (c : Connection) → Shrinks n (take_close key payload c)
unfolding take_close Shrinks
take_close-Shrinks n key payload c = elim (Option-cases (parse_close_payload payload)) [
  | inl e ↦ rw (take_close, e) tt
  | inr ((code, reason), e) ↦ elim (Bool-cases (c.validate_utf8 && not (is_valid_utf8 reason))) [
    | inl b ↦ rw (take_close, e, b) tt
    | inr b ↦ rw (take_close, e, b) tt
  ]
]

take_data-Shrinks :
    (n key : ℕ) (h : FrameHeader) (payload : List ℕ) (c : Connection)
    → length c.rbuf < n
    → Shrinks n (take_data key h payload c)
unfolding take_data Shrinks
take_data-Shrinks n key h payload c l = ground arith

pong_rbuf :
    (n key : ℕ) (payload : List ℕ) (c : Connection)
    → length c.rbuf < n
    → Shrinks n (again (if c.close_sent then c else (enqueue key pong payload false c).1))
unfolding Shrinks
pong_rbuf n key payload c l = ground (arith, enqueue_rbuf key pong payload false c)

take_frame-Shrinks :
    (n key : ℕ) (h : FrameHeader) (payload : List ℕ) (c : Connection)
    → length c.rbuf < n
    → Shrinks n (take_frame key h payload c)
unfolding take_frame Shrinks
take_frame-Shrinks n key h payload c l = go h.op refl
  where
    go : (op : Opcode) → h.op ≡ op → Shrinks n (take_frame key h payload c)
    go ping e = rw (take_frame, e) (pong_rbuf n key payload c l)
    go pong e = rw (take_frame, e) l
    go close e = rw (take_frame, e) (take_close-Shrinks n key payload c)
    go text e = rw (take_frame, e) (take_data-Shrinks n key h payload c l)
    go binary e = rw (take_frame, e) (take_data-Shrinks n key h payload c l)
    go continuation e = rw (take_frame, e) (take_data-Shrinks n key h payload c l)

judge-Shrinks :
    (key : ℕ) (h : FrameHeader) (c : Connection)
    → 2 ≤ h.header_size
    → Shrinks (length c.rbuf) (judge key h c)
unfolding judge Shrinks
judge-Shrinks key h c two = elim (Bool-cases (is_refused h c)) [
  | inl r ↦ rw (judge, r) tt
  | inr r ↦
      elim (Bool-cases
        (not (is_control h.op) && ltb c.max_message_size (length c.message + h.payload_length))) [
          | inl big ↦ rw (judge, r, big) tt
          | inr fits ↦ elim (Bool-cases (leb (h.header_size + h.payload_length) (length c.rbuf))) [
            | inr short ↦ rw (judge, r, fits, short) tt
            | inl there ↦
                rw (judge, r, fits, there)
                  (take_frame-Shrinks (length c.rbuf) key h _
                    (record c { rbuf = drop (h.header_size + h.payload_length) c.rbuf })
                    (omega (
                      arith,
                      leb→le _ _ there,
                      length-drop {0} (h.header_size + h.payload_length) c.rbuf,
                    )))
          ]
        ]
]

round-Shrinks : (key : ℕ) (c : Connection) → Shrinks (length c.rbuf) (round key c)
unfolding round Shrinks
round-Shrinks key c = elim (Bool-cases c.read_closed) [
  | inl e ↦ rw (round, e) tt
  | inr e ↦ go (parse_header c.rbuf) refl e
]
  where
    go :
        (r : ParseResult)
        → parse_header c.rbuf ≡ r
        → c.read_closed ≡ false
        → Shrinks (length c.rbuf) (round key c)
    go error e o = rw (round, o, e) tt
    go incomplete e o = rw (round, o, e) tt
    go (complete h) e o = rw (round, o, e) (judge-Shrinks key h c (parse_header_size c.rbuf h e))

-- The rounds returned, or wait for more bytes.
pub IsDone : Round → Type 0
IsDone (returns c r) = Unit
IsDone (fills c) = Unit
IsDone (again c) = ⊥

rounds-IsDone :
    (keys : ℕ → ℕ) (fuel : ℕ) (c : Connection) → length c.rbuf < fuel → IsDone (rounds keys fuel c)
unfolding rounds IsDone Shrinks
rounds-IsDone keys zero c l = absurd (omega arith)
rounds-IsDone keys (suc fuel) c l =
    go (round (keys fuel) c) (round-Shrinks (keys fuel) c) (λ d k. rounds-IsDone keys fuel d k)
  where
    go :
        (r : Round)
        → Shrinks (length c.rbuf) r
        → ((d : Connection) → length d.rbuf < fuel → IsDone (rounds keys fuel d))
        → IsDone (elim r as (λ _. Round) [
          | returns c' s ↦ returns c' s
          | fills c' ↦ fills c'
          | again c' ↦ rounds keys fuel c'
        ])
    go (returns c' s) i later = tt
    go (fills c') i later = tt
    go (again c') i later = later c' (omega arith)

-- The fuel that `read` gives to its rounds is enough: whatever bytes are there and arrive, `read` returns or
-- waits for the transport.
pub read-IsDone : (keys : ℕ → ℕ) (fs : List Fill) (c : Connection) → IsDone (read keys fs c)
unfolding read IsDone
read-IsDone keys [] c = rounds-IsDone keys (length c.rbuf + 1) c (omega arith)
read-IsDone keys (f ∷ fs) c =
    go (rounds keys (length c.rbuf + 1) c) f
      (rounds-IsDone keys (length c.rbuf + 1) c (omega arith)) (λ d. read-IsDone keys fs d)
  where
    go :
        (r : Round) (f : Fill)
        → IsDone r
        → ((d : Connection) → IsDone (read keys fs d))
        → IsDone (elim r as (λ _. Round) [
          | returns c' s ↦ returns c' s
          | again c' ↦ again c'
          | fills c' ↦ elim f [
            | arrived b bs ↦ read keys fs (record c' { rbuf = c'.rbuf ++ (b ∷ bs) })
            | broken e ↦ returns (fill_failed c') (failed e)
          ]
        ])
    go (returns c' s) f i later = tt
    go (again c') f i later = i
    go (fills c') (arrived b bs) i later = later (record c' { rbuf = c'.rbuf ++ (b ∷ bs) })
    go (fills c') (broken e) i later = tt
