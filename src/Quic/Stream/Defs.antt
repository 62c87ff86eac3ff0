-- ===== src/Quic/Stream/Defs.antt =====
-- The state of a stream and its methods.
use wave_x.Prelude.{
  ℕ, ◌+◌, ◌-◌, ◌*◌, Bool, true, false, not, ◌&&◌, ◌||◌, Option, none, some, List, [], ◌∷◌, ◌++◌,
  leb, ltb, ◌==◌, if◌then◌else◌, length, drop, add64,
}
use wave_x.Utils.StreamBuffer
use wave_x.Utils.StreamBuffer.{StreamBuffer}

pub record StreamChunk : Type 0 where
  pub offset : ℕ
  pub bytes : List ℕ

-- The error codes that a stream gives.
pub data ErrorCode : Type 0 where
  ok eof operation_aborted connection_reset not_connected : ErrorCode

pub data Effect : Type 0 where
  read_callback : ErrorCode → ℕ → Effect
  queue_stream_data : ℕ → List ℕ → Bool → Effect
  close_stream : ℕ → Effect

pub data ShutdownType : Type 0 where
  shutdown_receive shutdown_send shutdown_both : ShutdownType

pub record QuicStream : Type 0 where
  pub stream_id : ℕ
  pub recv_offset : ℕ
  pub connected : Bool
  pub in_buffer : StreamBuffer
  pub pending_inbound : List StreamChunk
  pub pending_read : Bool
  pub final_size : Option ℕ
  pub is_open : Bool
  pub fin_received : Bool
  pub fin_sent : Bool
  pub final_size_error : Bool

abbrev pub new_stream : ℕ → QuicStream
new_stream id = record {
  stream_id = id;
  recv_offset = 0;
  connected = true;
  in_buffer = StreamBuffer.new;
  pending_inbound = [];
  pending_read = false;
  final_size = none;
  is_open = true;
  fin_received = false;
  fin_sent = false;
  final_size_error = false;
}

unfoldable pub is_finished : QuicStream → Bool
is_finished s = (s.fin_sent || not s.is_open) && (s.fin_received || not s.is_open)

unfoldable pub notify_finished_if_needed : QuicStream → List Effect
unfolding is_finished
notify_finished_if_needed s =
    if is_finished s && s.connected then close_stream s.stream_id ∷ [] else []

-- `conn->queue_stream_data(stream_id_, "", true)` where the connection still lives.
abbrev pub queue_fin : QuicStream → List Effect
queue_fin s = if s.connected then queue_stream_data s.stream_id [] true ∷ [] else []

unfoldable pub cancel : QuicStream → QuicStream × List Effect
cancel s =
    if s.pending_read
    then (record s { pending_read = false }, read_callback operation_aborted 0 ∷ [])
    else (s, [])

abbrev shuts_send : ShutdownType → Bool
shuts_send shutdown_receive = false
shuts_send shutdown_send = true
shuts_send shutdown_both = true

abbrev shuts_receive : ShutdownType → Bool
shuts_receive shutdown_receive = true
shuts_receive shutdown_send = false
shuts_receive shutdown_both = true

unfoldable pub shutdown : ShutdownType → QuicStream → QuicStream × List Effect
unfolding notify_finished_if_needed
shutdown type s =
    let need_fin = shuts_send type && not s.fin_sent in
    let s' = record s {
      fin_sent = s.fin_sent || shuts_send type;
      fin_received = s.fin_received || shuts_receive type;
    } in
    (s', (if need_fin then queue_fin s' else []) ++ notify_finished_if_needed s')

unfoldable pub close : QuicStream → QuicStream × List Effect
unfolding notify_finished_if_needed
close s =
    let s' = record s { is_open = false; fin_sent = true; pending_read = false } in
    if s.is_open
    then (
      s',
      (if s.fin_sent then [] else queue_fin s')
          ++ ((if s.pending_read then read_callback connection_reset 0 ∷ [] else [])
              ++ notify_finished_if_needed s'),
    )
    else (s, [])

unfoldable pub available : QuicStream → ℕ
available s = StreamBuffer.size s.in_buffer

pub record ReadResult : Type 0 where
  pub bytes : List ℕ
  pub error : ErrorCode
  pub after : QuicStream

-- `read_some` into a buffer of `n` bytes.
unfoldable pub read_some : ℕ → QuicStream → ReadResult
read_some n s =
    if StreamBuffer.empty s.in_buffer
    then record {
      bytes = [];
      error = if s.fin_received || not s.is_open then eof else ok;
      after = s;
    }
    else let (bytes, in_buffer) = StreamBuffer.read s.in_buffer n in
      record { bytes = bytes; error = ok; after = record s { in_buffer = in_buffer } }

-- How async_read_some on a stream that still exists starts: it completes at once, with bytes or with an error, or a
-- pending read is registered, in the place of one that waited.
pub data ReadStart : Type 0 where
  completes : ErrorCode → List ℕ → ReadStart
  waits : ReadStart

-- async_read_some into buffers of `n` bytes in all.
unfoldable pub async_read_some : ℕ → QuicStream → QuicStream × ReadStart
async_read_some n s =
    let (bytes, in_buffer) = StreamBuffer.read s.in_buffer n in
    if not s.is_open && StreamBuffer.empty s.in_buffer
    then (s, completes eof [])
    else if not (StreamBuffer.empty s.in_buffer)
    then (record s { in_buffer = in_buffer }, completes ok bytes)
    else if s.fin_received
    then (s, completes eof [])
    else (record s { pending_read = true }, waits)

-- What a pending read that was called with `ec` does, after it was posted: the bytes and the error for its handler.
unfoldable pub finish_read : ErrorCode → ℕ → QuicStream → ReadResult
finish_read ok n s =
    if StreamBuffer.empty s.in_buffer
    then record { bytes = []; error = if s.fin_received then eof else ok; after = s }
    else let (bytes, in_buffer) = StreamBuffer.read s.in_buffer n in
      record { bytes = bytes; error = ok; after = record s { in_buffer = in_buffer } }
finish_read ec n s = record { bytes = []; error = ec; after = s }

unfoldable pub unread : List ℕ → QuicStream → QuicStream
unread bytes s = record s { in_buffer = StreamBuffer.prepend s.in_buffer bytes }

-- `push_inbound`, step 1: the final size afterwards, or `none` for a final size error.
unfoldable pub validate_final_size : ℕ → ℕ → Bool → QuicStream → Option (Option ℕ)
validate_final_size offset size fin s =
    let end = add64 offset size in
    elim s.final_size [
      | some final ↦
          if fin
          then (if final == end then some (some final) else none)
          else if ltb final end
          then none
          else some (some final)
      | none ↦ if fin then (if ltb end s.recv_offset then none else some (some end)) else some none
    ]

-- What `append_bytes` writes.
pub record Inbound : Type 0 where
  pub received : ℕ
  pub buffer : StreamBuffer

unfoldable pub append_bytes : List ℕ → Inbound → Inbound
append_bytes [] i = i
append_bytes (c ∷ cs) i = record {
  received = add64 i.received (length (c ∷ cs));
  buffer = StreamBuffer.append i.buffer (c ∷ cs);
}

-- The loop that drains contiguous chunks from `pending_inbound_`, and the chunks that it leaves.
unfoldable pub drain : List StreamChunk → Inbound → Inbound × List StreamChunk
drain [] i = (i, [])
drain (c ∷ cs) i =
    let i' =
      if ltb i.received (add64 c.offset (length c.bytes))
      then append_bytes (drop (i.received - c.offset) c.bytes) i
      else i in
    let rest = drain cs i' in if ltb i.received c.offset then (i, c ∷ cs) else rest

-- `std::lower_bound` by the offset, and what is done at the place that it finds.
unfoldable pub insert_chunk : StreamChunk → List StreamChunk → List StreamChunk
insert_chunk c [] = c ∷ []
insert_chunk c (d ∷ ds) =
    let rest = insert_chunk c ds in
    if ltb d.offset c.offset
    then d ∷ rest
    else if d.offset == c.offset
    then (if leb (length c.bytes) (length d.bytes) then d ∷ ds else c ∷ ds)
    else c ∷ d ∷ ds

unfoldable pub pending_bytes : List StreamChunk → ℕ
pending_bytes [] = 0
pending_bytes (c ∷ cs) = length c.bytes + pending_bytes cs

-- `*final_size_` is there and reached.
abbrev pub is_complete : QuicStream → Bool
is_complete s = elim s.final_size [ none ↦ false | some final ↦ leb final s.recv_offset ]

-- Step 2 where the whole chunk is behind `recv_offset_`.
unfoldable pub push_duplicate : QuicStream → QuicStream × List Effect
push_duplicate s =
    if is_complete s
    then if s.pending_read && StreamBuffer.empty s.in_buffer
      then (record s { fin_received = true; pending_read = false }, read_callback eof 0 ∷ [])
      else (record s { fin_received = true }, [])
    else (s, [])

-- Where the chunk continues the stream: append, drain the chunks that are contiguous now, and see
-- whether the end is reached.
unfoldable pub absorb : List ℕ → QuicStream → QuicStream
absorb bytes s =
    let (i, pending) =
      drain s.pending_inbound
        (append_bytes bytes (record { received = s.recv_offset; buffer = s.in_buffer })) in
    let s' = record s {
      recv_offset = i.received;
      in_buffer = i.buffer;
      pending_inbound = pending;
    } in
    record s' { fin_received = s.fin_received || is_complete s' }

-- Then wake the pending read, if there is something for it.
unfoldable pub wake : QuicStream → QuicStream × List Effect
wake s =
    let n = StreamBuffer.size s.in_buffer in
    if s.pending_read && (ltb 0 n || s.fin_received)
    then (
      record s { pending_read = false },
      read_callback (if n == 0 && s.fin_received then eof else ok) n ∷ [],
    )
    else (s, [])

abbrev pub push_in_order : List ℕ → QuicStream → QuicStream × List Effect
push_in_order bytes s = wake (absorb bytes s)

-- Where there is a gap: the chunk is kept, up to 16 MiB of them.
unfoldable pub push_gap : ℕ → List ℕ → QuicStream → QuicStream
unfolding pending_bytes insert_chunk
push_gap offset bytes s =
    if leb (pending_bytes s.pending_inbound + length bytes) (16 * 1024 * 1024)
    then record s {
      pending_inbound = insert_chunk (record { offset = offset; bytes = bytes }) s.pending_inbound;
    }
    else s

-- Step 2.
unfoldable pub push_valid : ℕ → List ℕ → QuicStream → QuicStream × List Effect
push_valid offset bytes s =
    if leb (add64 offset (length bytes)) s.recv_offset
    then push_duplicate s
    else if leb offset s.recv_offset
    then push_in_order (drop (s.recv_offset - offset) bytes) s
    else (push_gap offset bytes s, [])

-- push_inbound(offset, data, fin)
unfoldable pub push_inbound : ℕ → List ℕ → Bool → QuicStream → QuicStream × List Effect
unfolding validate_final_size notify_finished_if_needed
push_inbound offset bytes fin s = elim (validate_final_size offset (length bytes) fin s) [
  | none ↦ (record s { final_size_error = true }, [])
  | some final_size ↦
      let (s', effects) = push_valid offset bytes (record s { final_size = final_size }) in
      (s', effects ++ notify_finished_if_needed s')
]

unfoldable pub write_outbound : List ℕ → Bool → QuicStream → ErrorCode × QuicStream × List Effect
unfolding notify_finished_if_needed
write_outbound bytes fin s =
    let s' = record s { fin_sent = s.fin_sent || fin } in
    if s.connected
    then (
      ok,
      s',
      queue_stream_data s.stream_id bytes fin ∷ (if fin then notify_finished_if_needed s' else []),
    )
    else (not_connected, s, [])
