-- ===== src/Protos/WebSocket/Session/Reading.antt =====
-- What `read` returns, and that it goes on until it returns or waits.
use wave_x.Prelude.{
  ℕ, zero, suc, ◌+◌, ◌≤◌, ◌≡◌, refl, Bool, true, false, not, ◌&&◌, List, [], ◌∷◌, ◌++◌, ltb, leb,
  if◌then◌else◌, length, take, drop, inl, inr, arith, Bool-cases, Option-cases, length-append,
  length-take,
}
use wave_x.Protos.WebSocket.Codec.{
  Opcode, continuation, text, binary, close, ping, pong, FrameHeader, ParseResult, complete,
  incomplete, error, is_control, apply_mask, parse_header,
}
use wave_x.Protos.WebSocket.Codec.Bounds.{length-apply_mask}
use wave_x.Protos.WebSocket.Text.{parse_close_payload}
use wave_x.Protos.WebSocket.Session.{
  Connection, enqueue, fail, delivered, failed, Round, returns, again, fills, take_close, take_data,
  take_frame, is_refused, judge, round, rounds, read, Fill, arrived, broken, fill_failed,
}

-- What a round or a read may end in, for messages of at most `m` bytes: a message that is not longer, or
-- an error with the session closed for reading.
pub IsSound : ℕ → Round → Type 0
IsSound m (returns c (delivered bytes kind)) = length bytes ≤ m
IsSound m (returns c (failed e)) = c.read_closed ≡ true
IsSound m (again c) = c.max_message_size ≡ m
IsSound m (fills c) = c.max_message_size ≡ m

enqueue_limit :
    (key : ℕ) (op : Opcode) (payload : List ℕ) (b : Bool) (c : Connection)
    → (enqueue key op payload b c).1.max_message_size ≡ c.max_message_size
unfolding enqueue
enqueue_limit key op payload b c = ground arith

take_close-IsSound :
    (m key : ℕ) (payload : List ℕ) (c : Connection) → IsSound m (take_close key payload c)
unfolding take_close IsSound fail
take_close-IsSound m key payload c = elim (Option-cases (parse_close_payload payload)) [
  | inl e ↦ rw (take_close, e) refl
  | inr ((code, reason), e) ↦ rw (take_close, e) (ground arith)
]

take_data-IsSound :
    (m key : ℕ) (h : FrameHeader) (payload : List ℕ) (c : Connection)
    → c.max_message_size ≡ m
    → length c.message + length payload ≤ m
    → IsSound m (take_data key h payload c)
unfolding take_data IsSound fail
take_data-IsSound m key h payload c l f = ground (arith, length-append {0} c.message payload)

pong_limit :
    (m key : ℕ) (payload : List ℕ) (c : Connection)
    → c.max_message_size ≡ m
    → IsSound m (again (if c.close_sent then c else (enqueue key pong payload false c).1))
unfolding IsSound
pong_limit m key payload c l = ground (arith, enqueue_limit key pong payload false c)

take_frame-IsSound :
    (m key : ℕ) (h : FrameHeader) (payload : List ℕ) (c : Connection)
    → c.max_message_size ≡ m
    → (is_control h.op ≡ false → length c.message + length payload ≤ m)
    → IsSound m (take_frame key h payload c)
unfolding take_frame is_control IsSound
take_frame-IsSound m key h payload c l f = go h.op refl
  where
    go : (op : Opcode) → h.op ≡ op → IsSound m (take_frame key h payload c)
    go ping e = rw (take_frame, e) (pong_limit m key payload c l)
    go pong e = rw (take_frame, e) l
    go close e = rw (take_frame, e) (take_close-IsSound m key payload c)
    go text e = rw (take_frame, e) (take_data-IsSound m key h payload c l (f (rw e refl)))
    go binary e = rw (take_frame, e) (take_data-IsSound m key h payload c l (f (rw e refl)))
    go continuation e = rw (take_frame, e) (take_data-IsSound m key h payload c l (f (rw e refl)))

payload_of : FrameHeader → Connection → List ℕ
payload_of h c =
    let wire = take h.payload_length (drop h.header_size c.rbuf) in
    if h.masked then apply_mask wire h.masking_key 0 else wire

payload_of_le : (h : FrameHeader) (c : Connection) → length (payload_of h c) ≤ h.payload_length
unfolding payload_of
payload_of_le h c =
    let wire = take h.payload_length (drop h.header_size c.rbuf) in
    ground (
      arith,
      length-take {0} h.payload_length (drop h.header_size c.rbuf),
      length-apply_mask wire h.masking_key 0,
    )

judge-IsSound :
    (m key : ℕ) (h : FrameHeader) (c : Connection)
    → c.max_message_size ≡ m
    → IsSound m (judge key h c)
unfolding judge IsSound fail payload_of
judge-IsSound m key h c l = elim (Bool-cases (is_refused h c)) [
  | inl r ↦ rw (judge, r) refl
  | inr r ↦
      elim (Bool-cases
        (not (is_control h.op) && ltb c.max_message_size (length c.message + h.payload_length))) [
          | inl big ↦ rw (judge, r, big) refl
          | inr fits ↦ elim (Bool-cases (leb (h.header_size + h.payload_length) (length c.rbuf))) [
            | inr short ↦ rw (judge, r, fits, short) l
            | inl there ↦
                rw (judge, r, fits, there)
                  (take_frame-IsSound m key h (payload_of h c)
                    (record c { rbuf = drop (h.header_size + h.payload_length) c.rbuf }) l
                    (λ d. ground (arith, payload_of_le h c)))
          ]
        ]
]

round-IsSound : (m key : ℕ) (c : Connection) → c.max_message_size ≡ m → IsSound m (round key c)
unfolding round IsSound fail
round-IsSound m key c l = elim (Bool-cases c.read_closed) [
  | inl e ↦ rw (round, e) refl
  | inr e ↦ go (parse_header c.rbuf) refl e
]
  where
    go :
        (r : ParseResult)
        → parse_header c.rbuf ≡ r
        → c.read_closed ≡ false
        → IsSound m (round key c)
    go error e o = rw (round, o, e) refl
    go incomplete e o = rw (round, o, e) l
    go (complete h) e o = rw (round, o, e) (judge-IsSound m key h c l)

rounds-IsSound :
    (m : ℕ) (keys : ℕ → ℕ) (fuel : ℕ) (c : Connection)
    → c.max_message_size ≡ m
    → IsSound m (rounds keys fuel c)
unfolding rounds IsSound
rounds-IsSound m keys zero c l = l
rounds-IsSound m keys (suc fuel) c l =
    go (round (keys fuel) c) (round-IsSound m (keys fuel) c l)
      (λ d k. rounds-IsSound m keys fuel d k)
  where
    go :
        (r : Round)
        → IsSound m r
        → ((d : Connection) → d.max_message_size ≡ m → IsSound m (rounds keys fuel d))
        → IsSound m (elim r as (λ _. Round) [
          | returns c' s ↦ returns c' s
          | fills c' ↦ fills c'
          | again c' ↦ rounds keys fuel c'
        ])
    go (returns c' s) i later = i
    go (fills c') i later = i
    go (again c') i later = later c' i

read_limit :
    (m : ℕ) (keys : ℕ → ℕ) (fs : List Fill) (c : Connection)
    → c.max_message_size ≡ m
    → IsSound m (read keys fs c)
unfolding read IsSound
read_limit m keys [] c l = rounds-IsSound m keys (length c.rbuf + 1) c l
read_limit m keys (f ∷ fs) c l =
    go (rounds keys (length c.rbuf + 1) c) f (rounds-IsSound m keys (length c.rbuf + 1) c l)
      (λ d k. read_limit m keys fs d k)
  where
    go :
        (r : Round) (f : Fill)
        → IsSound m r
        → ((d : Connection) → d.max_message_size ≡ m → IsSound m (read keys fs d))
        → IsSound m (elim r as (λ _. Round) [
          | returns c' s ↦ returns c' s
          | again c' ↦ again c'
          | fills c' ↦ elim f [
            | arrived b bs ↦ read keys fs (record c' { rbuf = c'.rbuf ++ (b ∷ bs) })
            | broken e ↦ returns (fill_failed c') (failed e)
          ]
        ])
    go (returns c' s) f i later = i
    go (again c') f i later = i
    go (fills c') (arrived b bs) i later = later (record c' { rbuf = c'.rbuf ++ (b ∷ bs) }) i
    go (fills c') (broken e) i later = refl

-- Whatever bytes arrive, in whatever pieces: a message that `read` returns is no longer than
-- `max_message_size`, and after any error that it returns the session is closed for reading.
pub read-IsSound :
    (keys : ℕ → ℕ) (fs : List Fill) (c : Connection) → IsSound c.max_message_size (read keys fs c)
read-IsSound keys fs c = read_limit c.max_message_size keys fs c refl
