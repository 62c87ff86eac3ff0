-- ===== src/Protos/WebSocket/Session/Sending.antt =====
-- What the sending side keeps true over any history of sends and of the writer's steps.
use wave_x.Prelude.{
  ℕ, ◌+◌, ◌≡◌, refl, Bool, true, false, none, some, List, [], ◌∷◌, if◌then◌else◌, length, ◌⊎◌, inl,
  inr, arith, Bool-cases, length-append,
}
use wave_x.Protos.WebSocket.Codec.{
  Opcode, text, binary, ping, pong, close, frame_size, encode_frame,
}
use wave_x.Protos.WebSocket.Codec.Bounds.{length-encode_frame}
use wave_x.Protos.WebSocket.Text.{close_payload}
use wave_x.Protos.WebSocket.Session.{
  Role, server, client, Connection, mask_for, masks, enqueue, send_text, send_binary, send_ping,
  send_pong, send_close, drain_take, drain_written, abort,
}

-- What can happen on the sending side: calls of the application or of `read`, the steps of the writer, and
-- `abort`.
pub data Act : Type 0 where
  texts : ℕ → List ℕ → Act
  binaries : ℕ → List ℕ → Act
  pings : ℕ → List ℕ → Act
  pongs : ℕ → List ℕ → Act
  closes : ℕ → ℕ → List ℕ → Act
  takes : Act
  written : Bool → Act
  aborts : Act

-- Whether a frame was queued, and the session afterwards.
unfoldable pub act : Act → Connection → Bool × Connection
act (texts key bytes) c = send_text key bytes c
act (binaries key bytes) c = send_binary key bytes c
act (pings key bytes) c = send_ping key bytes c
act (pongs key bytes) c = send_pong key bytes c
act (closes key code reason) c = send_close key code reason c
act takes c = (false, drain_take c)
act (written failed) c = (false, drain_written failed c)
act aborts c = (false, abort c)

unfoldable pub act_all : List Act → Connection → Connection
unfolding act
act_all [] c = c
act_all (a ∷ xs) c = act_all xs (act a c).1

-- `buffered` counts the bytes that are queued and those that are being written, until a write fails.
abbrev pub IsCounted : Connection → Type 0
IsCounted c = (c.write_failed ≡ true) ⊎ (c.buffered ≡ length c.outbox + length c.writing)

wire_size :
    (role : Role) (key : ℕ) (op : Opcode) (payload : List ℕ)
    → length (encode_frame op payload true (mask_for role key))
      ≡ frame_size (length payload) (masks role)
wire_size server key op payload = length-encode_frame op payload true none
wire_size client key op payload = length-encode_frame op payload true (some key)

enqueue-IsCounted :
    (key : ℕ) (op : Opcode) (payload : List ℕ) (is_close : Bool) (c : Connection)
    → IsCounted c
    → IsCounted (enqueue key op payload is_close c).1
unfolding enqueue
enqueue-IsCounted key op payload is_close c h = ground (
  arith,
  wire_size c.role key op payload,
  length-append {0} c.outbox (encode_frame op payload true (mask_for c.role key)),
)

act-IsCounted : (a : Act) (c : Connection) → IsCounted c → IsCounted (act a c).1
unfolding act send_ping send_pong send_close drain_take drain_written abort
act-IsCounted (texts key bytes) c h = enqueue-IsCounted key text bytes false c h
act-IsCounted (binaries key bytes) c h = enqueue-IsCounted key binary bytes false c h
act-IsCounted (pings key bytes) c h = ground (arith, enqueue-IsCounted key ping bytes false c h)
act-IsCounted (pongs key bytes) c h = ground (arith, enqueue-IsCounted key pong bytes false c h)
act-IsCounted (closes key code reason) c h =
    ground (arith, enqueue-IsCounted key close (close_payload code reason) true c h)
act-IsCounted takes c h = ground arith
act-IsCounted (written failed) c h = ground arith
act-IsCounted aborts c h = inl refl

-- From a session where this holds: until a write fails or the session is aborted, `buffered_amount` is the number of bytes that are queued
-- or being written, whatever is sent and however the writer's steps fall in between.
pub act_all-IsCounted : (xs : List Act) (c : Connection) → IsCounted c → IsCounted (act_all xs c)
unfolding act_all
act_all-IsCounted [] c h = h
act_all-IsCounted (a ∷ xs) c h = act_all-IsCounted xs (act a c).1 (act-IsCounted a c h)

-- The frames that are queued over a history, in order: `true` for a close frame.
abbrev is_close_act : Act → Bool
is_close_act (closes key code reason) = true
is_close_act _ = false

unfoldable pub queued : List Act → Connection → List Bool
unfolding act
queued [] c = []
queued (a ∷ xs) c =
    let later = queued xs (act a c).1 in if (act a c).0 then is_close_act a ∷ later else later

-- A close frame is the last of the frames.
pub ClosesLast : List Bool → Type 0
ClosesLast [] = Unit
ClosesLast (true ∷ later) = later ≡ []
ClosesLast (false ∷ later) = ClosesLast later

-- Once `close_sent` is set nothing is queued, and it stays set.
act_closed :
    (a : Act) (c : Connection)
    → c.close_sent ≡ true
    → ((act a c).0 ≡ false) × ((act a c).1.close_sent ≡ true)
unfolding act enqueue send_ping send_pong send_close drain_take drain_written abort
act_closed (texts key bytes) c h = ground arith
act_closed (binaries key bytes) c h = ground arith
act_closed (pings key bytes) c h = ground arith
act_closed (pongs key bytes) c h = ground arith
act_closed (closes key code reason) c h = ground arith
act_closed takes c h = ground arith
act_closed (written failed) c h = ground arith
act_closed aborts c h = ground arith

queued_closed : (xs : List Act) (c : Connection) → c.close_sent ≡ true → queued xs c ≡ []
unfolding queued
queued_closed [] c h = refl
queued_closed (a ∷ xs) c h =
    let (none_queued, kept) = act_closed a c h in rw none_queued (queued_closed xs (act a c).1 kept)

close_act :
    (a : Act) (c : Connection)
    → (act a c).0 ≡ true
    → is_close_act a ≡ true
    → (act a c).1.close_sent ≡ true
unfolding act enqueue send_close
close_act (texts key bytes) c h k = cc
close_act (binaries key bytes) c h k = cc
close_act (pings key bytes) c h k = cc
close_act (pongs key bytes) c h k = cc
close_act (closes key code reason) c h k = ground arith
close_act takes c h k = cc
close_act (written failed) c h k = cc
close_act aborts c h k = cc

-- Nothing follows a close frame: in any history at most one is queued, and it is the last frame.
pub queued-ClosesLast : (xs : List Act) (c : Connection) → ClosesLast (queued xs c)
unfolding queued ClosesLast
queued-ClosesLast [] c = tt
queued-ClosesLast (a ∷ xs) c = elim (Bool-cases (act a c).0) [
  | inr refused ↦ rw refused (queued-ClosesLast xs (act a c).1)
  | inl accepted ↦ elim (Bool-cases (is_close_act a)) [
    | inl k ↦ rw (accepted, k) (queued_closed xs (act a c).1 (close_act a c accepted k))
    | inr k ↦ rw (accepted, k) (queued-ClosesLast xs (act a c).1)
  ]
]
