-- ===== src/Protos/WebSocket/Session.antt =====
-- `connection`: the session's state, sending, the writer, and reading. `rbuf` is what lies from
-- `rbuf_consumed_` on, so that moving it to the front of its buffer, which `fill` does, is no change. The
-- masking key of a frame, drawn by `random_u32`, is an argument. The atomic flags and the fields under
-- `write_mtx_` change in steps of whole operations. Sizes are those of strings in memory, so that no sum of
-- them wraps. The timers and the transport are outside: `fill` is given what the read returned.
pub mod Sending
pub mod Reading
pub mod Progress
pub mod Delivery
mod Runs
use wave_x.Prelude.{
  ℕ, zero, suc, ◌+◌, ◌-◌, Bool, true, false, not, ◌&&◌, ◌||◌, Option, none, some, List, [], ◌∷◌,
  ◌++◌, min, ltb, leb, ◌==◌, if◌then◌else◌, length, take, drop,
}
use wave_x.Protos.WebSocket.Codec.{
  Opcode, continuation, text, binary, close, ping, pong, is_control, FrameHeader, complete,
  incomplete, error, parse_header, frame_size, encode_frame, apply_mask,
}
use wave_x.Protos.WebSocket.Text.{
  is_valid_close_code, no_status, abnormal, close_payload, parse_close_payload, is_valid_utf8,
}

pub data Role : Type 0 where
  server client : Role

-- `error`, and the error codes of the transport.
pub data Error : Type 0 where
  closed protocol_error message_too_big invalid_utf8 read_timeout io_error : Error

pub record Connection : Type 0 where
  pub max_message_size : ℕ
  pub max_buffered_amount : ℕ
  pub validate_utf8 : Bool
  pub role : Role
  pub rbuf : List ℕ
  pub message : List ℕ
  pub message_type : Opcode
  pub in_message : Bool
  pub close_reason : List ℕ
  pub close_code : ℕ
  pub outbox : List ℕ
  pub writing : List ℕ
  pub buffered : ℕ
  pub writer_active : Bool
  pub write_failed : Bool
  pub close_sent : Bool
  pub close_received : Bool
  pub read_closed : Bool

abbrev pub new_connection : Role → List ℕ → ℕ → ℕ → Connection
new_connection role leftover max_message_size max_buffered_amount = record {
  max_message_size = max_message_size;
  max_buffered_amount = max_buffered_amount;
  validate_utf8 = true;
  role = role;
  rbuf = leftover;
  message = [];
  message_type = text;
  in_message = false;
  close_reason = [];
  close_code = no_status;
  outbox = [];
  writing = [];
  buffered = 0;
  writer_active = false;
  write_failed = false;
  close_sent = false;
  close_received = false;
  read_closed = false;
}

abbrev pub mask_for : Role → ℕ → Option ℕ
mask_for server key = none
mask_for client key = some key

abbrev pub masks : Role → Bool
masks server = false
masks client = true

-- Whether the frame is queued, and the session afterwards. A writer starts where `writer_active` turns on.
unfoldable pub enqueue : ℕ → Opcode → List ℕ → Bool → Connection → Bool × Connection
enqueue key op payload is_close c =
    let wire_size = frame_size (length payload) (masks c.role) in
    if c.write_failed || c.close_sent
    then (false, c)
    else if not (is_control op) && ltb c.max_buffered_amount (c.buffered + wire_size)
    then (false, c)
    else (
      true,
      record c {
        close_sent = c.close_sent || is_close;
        buffered = c.buffered + wire_size;
        outbox = c.outbox ++ encode_frame op payload true (mask_for c.role key);
        writer_active = true;
      },
    )

abbrev pub send_text : ℕ → List ℕ → Connection → Bool × Connection
send_text key bytes c = enqueue key text bytes false c

abbrev pub send_binary : ℕ → List ℕ → Connection → Bool × Connection
send_binary key bytes c = enqueue key binary bytes false c

unfoldable pub send_ping : ℕ → List ℕ → Connection → Bool × Connection
send_ping key payload c =
    if ltb 125 (length payload) then (false, c) else enqueue key ping payload false c

unfoldable pub send_pong : ℕ → List ℕ → Connection → Bool × Connection
send_pong key payload c =
    if ltb 125 (length payload) then (false, c) else enqueue key pong payload false c

-- connection::close
unfoldable pub send_close : ℕ → ℕ → List ℕ → Connection → Bool × Connection
send_close key code reason c =
    if not (is_valid_close_code code) && not (code == no_status)
    then (false, c)
    else enqueue key close (close_payload code reason) true c

-- The writer swaps the outbox with `writing`, which it left empty, or stops where there is nothing to write.
unfoldable pub drain_take : Connection → Connection
drain_take c =
    if length c.outbox == 0
    then record c { writer_active = false }
    else record c { writing = c.outbox; outbox = c.writing }

-- The writer after a write, which failed or not.
unfoldable pub drain_written : Bool → Connection → Connection
drain_written failed c =
    let c' = record c { buffered = c.buffered - min c.buffered (length c.writing); writing = [] } in
    if failed
    then record c' { write_failed = true; outbox = []; buffered = 0; writer_active = false }
    else c'

unfoldable pub abort : Connection → Connection
abort c = record c { read_closed = true; write_failed = true; outbox = []; buffered = 0 }

unfoldable pub fail : ℕ → ℕ → Connection → Connection
fail key code c = record (send_close key code [] c).1 {
  close_code = code;
  read_closed = true;
  in_message = false;
  message = [];
}

-- What `read` returns: a message with its type, or an error.
pub data Result : Type 0 where
  delivered : List ℕ → Opcode → Result
  failed : Error → Result

-- One round of the loop in `read`: it returns, goes round again, or waits for more bytes.
pub data Round : Type 0 where
  returns : Connection → Result → Round
  again : Connection → Round
  fills : Connection → Round

-- A close frame.
unfoldable pub take_close : ℕ → List ℕ → Connection → Round
take_close key payload c = elim (parse_close_payload payload) [
  | none ↦ returns (fail key 1002 c) (failed protocol_error)
  | some (code, reason) ↦
      if c.validate_utf8 && not (is_valid_utf8 reason)
      then returns (fail key 1007 c) (failed invalid_utf8)
      else returns
          (record (send_close key code []
            (record c { close_reason = reason; close_code = code; close_received = true })).1 {
              read_closed = true;
            })
          (failed closed)
]

abbrev pub is_continuation : Opcode → Bool
is_continuation continuation = true
is_continuation _ = false

abbrev pub is_text : Opcode → Bool
is_text text = true
is_text _ = false

-- A piece of a message.
unfoldable pub take_data : ℕ → FrameHeader → List ℕ → Connection → Round
take_data key h payload c =
    let first = not (is_continuation h.op) in
    let kind = if first then h.op else c.message_type in
    let whole = (if first then [] else c.message) ++ payload in
    if h.fin
    then (let c' = record c { in_message = false; message = []; message_type = kind } in
        if is_text kind && (c.validate_utf8 && not (is_valid_utf8 whole))
        then returns (fail key 1007 c') (failed invalid_utf8)
        else returns c' (delivered whole kind))
    else again
        (record c { in_message = c.in_message || first; message = whole; message_type = kind })

-- A frame whose payload is there.
unfoldable pub take_frame : ℕ → FrameHeader → List ℕ → Connection → Round
take_frame key h payload c = elim h.op [
  | ping ↦ again (if c.close_sent then c else (enqueue key pong payload false c).1)
  | pong ↦ again c
  | close ↦ take_close key payload c
  | _ ↦ take_data key h payload c
]

-- `h.masked != (role_ == role::server)`
abbrev pub wrong_direction : Role → Bool → Bool
wrong_direction server masked = not masked
wrong_direction client masked = masked

-- Everything that is judged from the header.
unfoldable pub is_refused : FrameHeader → Connection → Bool
is_refused h c =
    let control = is_control h.op in
    let continues = is_continuation h.op in
    h.rsv1
    || (h.rsv2
        || (h.rsv3
            || (wrong_direction c.role h.masked
                || ((control && (not h.fin || ltb 125 h.payload_length))
                    || ((not control && (continues && not c.in_message))
                        || (not control && (not continues && c.in_message)))))))

unfoldable pub judge : ℕ → FrameHeader → Connection → Round
judge key h c =
    if is_refused h c
    then returns (fail key 1002 c) (failed protocol_error)
    else if not (is_control h.op) && ltb c.max_message_size (length c.message + h.payload_length)
    then returns (fail key 1009 c) (failed message_too_big)
    else if leb (h.header_size + h.payload_length) (length c.rbuf)
    then (let wire = take h.payload_length (drop h.header_size c.rbuf) in
        take_frame key h (if h.masked then apply_mask wire h.masking_key 0 else wire)
          (record c { rbuf = drop (h.header_size + h.payload_length) c.rbuf }))
    else fills c

unfoldable pub round : ℕ → Connection → Round
round key c = if c.read_closed then returns c (failed closed) else elim (parse_header c.rbuf) [
  | error ↦ returns (fail key 1002 c) (failed protocol_error)
  | incomplete ↦ fills c
  | complete h ↦ judge key h c
]

-- The rounds until one returns or waits. The fuel also picks the key that a round draws.
unfoldable pub rounds : (ℕ → ℕ) → ℕ → Connection → Round
rounds keys zero c = again c
rounds keys (suc fuel) c = elim (round (keys fuel) c) [
  | returns c' r ↦ returns c' r
  | fills c' ↦ fills c'
  | again c' ↦ rounds keys fuel c'
]

-- What the transport's read gave: bytes, one at least, or an error (end of the stream included).
pub data Fill : Type 0 where
  arrived : ℕ → List ℕ → Fill
  broken : Error → Fill

abbrev pub fill_failed : Connection → Connection
fill_failed c = record c {
  read_closed = true;
  close_code = if c.close_received then c.close_code else abnormal;
}

-- `read`, given what the transport's reads will return; `fills` where it still waits after all of them.
unfoldable pub read : (ℕ → ℕ) → List Fill → Connection → Round
read keys [] c = rounds keys (length c.rbuf + 1) c
read keys (f ∷ fs) c = elim (rounds keys (length c.rbuf + 1) c) [
  | returns c' r ↦ returns c' r
  | again c' ↦ again c'
  | fills c' ↦ elim f [
    | arrived b bs ↦ read keys fs (record c' { rbuf = c'.rbuf ++ (b ∷ bs) })
    | broken e ↦ returns (fill_failed c') (failed e)
  ]
]
