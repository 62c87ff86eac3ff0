-- ===== src/Quic/Frames/Parse.antt =====
-- `parse_frames`. One round of its loop is `parse_frame`: the frames that it puts into `out_frames`
-- (one or none) and the payload after it, or `none` for PARSE_FAIL. A length read from the payload
-- has 62 bits, so `cursor + len` cannot wrap, and the comparison is with what is left.
use wave_x.Prelude.{
  ℕ, zero, suc, ◌+◌, ◌%◌, ◌^◌, Bool, true, false, not, ◌&&◌, ◌||◌, Option, none, some, List, [],
  ◌∷◌, ◌++◌, bit_and, leb, ltb, ◌==◌, if◌then◌else◌, length, take, drop, ◌>>=◌,
}
use wave_x.Quic.VarInt
use wave_x.Quic.Frames.Types.{
  AckRange, Frame, padding, ping, ack, reset_stream, stop_sending, crypto, new_token, stream,
  max_data, max_stream_data, max_streams, data_blocked, stream_data_blocked, streams_blocked,
  connection_close, handshake_done, datagram,
}

-- The frames of one round, and what is left of the payload.
abbrev pub Parsed : Type 0
Parsed = Option (List Frame × List ℕ)

-- `if (cursor + len > payload.size()) PARSE_FAIL; payload.substr(cursor, len); cursor += len`
unfoldable pub take_bytes : ℕ → List ℕ → Option (List ℕ × List ℕ)
take_bytes len rest = if ltb (length rest) len then none else some (take len rest, drop len rest)

unfoldable pub decode_bytes : List ℕ → Option (List ℕ × List ℕ)
decode_bytes rest = do (len, rest) ← VarInt.decode rest; take_bytes len rest

abbrev pub has_flag : ℕ → ℕ → Bool
has_flag peek flag = not (bit_and peek flag == 0)

-- A field that is there only under a flag, and 0 otherwise.
unfoldable pub decode_if : Bool → List ℕ → Option (ℕ × List ℕ)
decode_if true rest = VarInt.decode rest
decode_if false rest = some (0, rest)

-- STREAM (0x08 - 0x0f), behind its type byte.
unfoldable pub parse_stream : ℕ → List ℕ → Parsed
parse_stream peek rest = do
  (stream_id, rest) ← VarInt.decode rest
  (offset, rest) ← decode_if (has_flag peek 0x04) rest
  (len, rest) ← (if has_flag peek 0x02 then VarInt.decode rest else some (length rest, rest))
  (bytes, rest) ← take_bytes len rest
  some (
    stream (record {
      bytes = bytes;
      stream_id = stream_id;
      offset = offset;
      fin = has_flag peek 0x01;
      has_offset = has_flag peek 0x04;
      has_length = has_flag peek 0x02;
    })
        ∷ [],
    rest,
  )

-- The zero bytes that follow a PADDING frame's type: their number and the rest.
unfoldable pub skip_zeros : ℕ → List ℕ → ℕ × List ℕ
skip_zeros pad_len [] = (pad_len, [])
skip_zeros pad_len (b ∷ bs) =
    let more = skip_zeros ((pad_len + 1) % 2 ^ 32) bs in if b == 0 then more else (pad_len, b ∷ bs)

unfoldable pub parse_padding : List ℕ → Parsed
unfolding skip_zeros
parse_padding rest = let (pad_len, rest') = skip_zeros 1 rest in some (padding pad_len ∷ [], rest')

-- `for (i = 0; i < range_count; ++i)`
unfoldable pub parse_ranges : ℕ → List ℕ → Option (List AckRange × List ℕ)
parse_ranges zero rest = some ([], rest)
parse_ranges (suc n) rest = do
  (gap, rest) ← VarInt.decode rest
  (len, rest) ← VarInt.decode rest
  (ranges, rest) ← parse_ranges n rest
  some (record { gap = gap; ack_range_len = len } ∷ ranges, rest)

-- The three ECN counts, which are read and dropped; the last one read comes with the rest.
unfoldable pub skip_ecn : Bool → List ℕ → Option (ℕ × List ℕ)
skip_ecn false rest = some (0, rest)
skip_ecn true rest = do
  (ect0, rest) ← VarInt.decode rest
  (ect1, rest) ← VarInt.decode rest
  VarInt.decode rest

unfoldable pub parse_ack : Bool → List ℕ → Parsed
unfolding parse_ranges
parse_ack ecn rest = do
  (largest, rest) ← VarInt.decode rest
  (ack_delay, rest) ← VarInt.decode rest
  (range_count, rest) ← VarInt.decode rest
  (first_range, rest) ← VarInt.decode rest
  (ranges, rest) ← parse_ranges range_count rest
  (ce, rest) ← skip_ecn ecn rest
  some (
    ack (record {
      ranges = record { gap = 0; ack_range_len = first_range } ∷ ranges;
      largest_acknowledged = largest;
      ack_delay = ack_delay;
      ecn = ecn;
    })
        ∷ [],
    rest,
  )

unfoldable pub parse_reset_stream : List ℕ → Parsed
parse_reset_stream rest = do
  (stream_id, rest) ← VarInt.decode rest
  (error_code, rest) ← VarInt.decode rest
  (final_size, rest) ← VarInt.decode rest
  some (
    reset_stream
          (record { stream_id = stream_id; error_code = error_code; final_size = final_size })
        ∷ [],
    rest,
  )

unfoldable pub parse_stop_sending : List ℕ → Parsed
parse_stop_sending rest = do
  (stream_id, rest) ← VarInt.decode rest
  (error_code, rest) ← VarInt.decode rest
  some (stop_sending (record { stream_id = stream_id; error_code = error_code }) ∷ [], rest)

unfoldable pub parse_crypto : List ℕ → Parsed
parse_crypto rest = do
  (offset, rest) ← VarInt.decode rest
  (bytes, rest) ← decode_bytes rest
  some (crypto (record { bytes = bytes; offset = offset }) ∷ [], rest)

unfoldable pub parse_max_stream_data : List ℕ → Parsed
parse_max_stream_data rest = do
  (stream_id, rest) ← VarInt.decode rest
  (limit, rest) ← VarInt.decode rest
  some (max_stream_data (record { stream_id = stream_id; max_stream_data = limit }) ∷ [], rest)

unfoldable pub parse_stream_data_blocked : List ℕ → Parsed
parse_stream_data_blocked rest = do
  (stream_id, rest) ← VarInt.decode rest
  (limit, rest) ← VarInt.decode rest
  some
      (stream_data_blocked (record { stream_id = stream_id; stream_data_limit = limit }) ∷ [], rest)

unfoldable pub parse_close : Bool → List ℕ → Parsed
parse_close is_application rest = do
  (error_code, rest) ← VarInt.decode rest
  (frame_type, rest) ← decode_if (not is_application) rest
  (reason, rest) ← decode_bytes rest
  some (
    connection_close (record {
      reason_phrase = reason;
      error_code = error_code;
      frame_type = frame_type;
      is_application = is_application;
    })
        ∷ [],
    rest,
  )

-- `cursor += n`, where that many bytes are left.
unfoldable pub skip_bytes : ℕ → List ℕ → Parsed
skip_bytes n rest = if ltb (length rest) n then none else some ([], drop n rest)

-- The length of a connection id, the id and the token of 16 bytes, which are dropped.
unfoldable pub skip_connection_id : List ℕ → Parsed
skip_connection_id [] = none
skip_connection_id (cid_len ∷ rest) =
    if ltb cid_len 1 || ltb 20 cid_len then none else skip_bytes (cid_len + 16) rest

unfoldable pub skip_new_connection_id : List ℕ → Parsed
skip_new_connection_id rest = do
  (seq_num, rest) ← VarInt.decode rest
  (retire_prior_to, rest) ← VarInt.decode rest
  skip_connection_id rest

-- One frame behind its decoded type.
unfoldable pub parse_typed : ℕ → List ℕ → Parsed
parse_typed raw_type rest =
    if raw_type == 0x00
    then parse_padding rest
    else if raw_type == 0x01
    then some (ping ∷ [], rest)
    else if raw_type == 0x02 || raw_type == 0x03
    then parse_ack (raw_type == 0x03) rest
    else if raw_type == 0x04
    then parse_reset_stream rest
    else if raw_type == 0x05
    then parse_stop_sending rest
    else if raw_type == 0x06
    then parse_crypto rest
    else if raw_type == 0x07
    then (do (token, rest) ← decode_bytes rest; some (new_token token ∷ [], rest))
    else if raw_type == 0x10
    then (do (n, rest) ← VarInt.decode rest; some (max_data n ∷ [], rest))
    else if raw_type == 0x11
    then parse_max_stream_data rest
    else if raw_type == 0x12 || raw_type == 0x13
    then (do
      (n, rest) ← VarInt.decode rest
      some (max_streams (record { max_streams = n; bidirectional = raw_type == 0x12 }) ∷ [], rest))
    else if raw_type == 0x14
    then (do (n, rest) ← VarInt.decode rest; some (data_blocked n ∷ [], rest))
    else if raw_type == 0x15
    then parse_stream_data_blocked rest
    else if raw_type == 0x16 || raw_type == 0x17
    then (do
      (n, rest) ← VarInt.decode rest
      some (
        streams_blocked (record { stream_limit = n; bidirectional = raw_type == 0x16 }) ∷ [],
        rest,
      ))
    else if raw_type == 0x1c || raw_type == 0x1d
    then parse_close (raw_type == 0x1d) rest
    else if raw_type == 0x18
    then skip_new_connection_id rest
    else if raw_type == 0x19
    then (do (seq_num, rest) ← VarInt.decode rest; some ([], rest))
    else if raw_type == 0x1a || raw_type == 0x1b
    then skip_bytes 8 rest
    else if raw_type == 0x1e
    then some (handshake_done ∷ [], rest)
    else if raw_type == 0x30
    then some (datagram rest ∷ [], [])
    else if raw_type == 0x31
    then (do (bytes, rest) ← decode_bytes rest; some (datagram bytes ∷ [], rest))
    else none

-- One round of the loop.
unfoldable pub parse_frame : List ℕ → Parsed
parse_frame [] = none
parse_frame (peek ∷ rest) =
    if leb 0x08 peek && leb peek 0x0f
    then parse_stream peek rest
    else (do (raw_type, rest) ← VarInt.decode (peek ∷ rest); parse_typed raw_type rest)

-- The loop `while (cursor < payload.size())`, on fuel: the result, and `out_frames`, which keeps the
-- frames that were read before a failure. `none` stands for fuel that ran out, which is no answer of
-- the code.
unfoldable pub parse_loop : ℕ → List ℕ → List Frame → Option (Bool × List Frame)
parse_loop fuel [] out_frames = some (true, out_frames)
parse_loop zero (b ∷ bs) out_frames = none
parse_loop (suc fuel) (b ∷ bs) out_frames = elim (parse_frame (b ∷ bs)) [
  | none ↦ some (false, out_frames)
  | some (frames, rest) ↦ parse_loop fuel rest (out_frames ++ frames)
]

-- Each round takes a byte at least, so that as many rounds as bytes are enough.
unfoldable pub parse_frames : List ℕ → List Frame → Option (Bool × List Frame)
unfolding parse_loop
parse_frames payload out_frames = parse_loop (length payload) payload out_frames
