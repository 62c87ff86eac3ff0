-- ===== src/Quic/Frames/Back.antt =====
-- What `parse_frames` makes of the parts that `serialize_frame` writes, frame by frame.
use wave_x.Prelude.{
  ℕ, zero, suc, ◌+◌, ◌^◌, ◌≤◌, ◌<◌, ◌≡◌, refl, sym, ap, ◌∙◌, Bool, true, false, ◌&&◌, ◌⊎◌, ◌≢◌, inl,
  inr, Option, some, List, [], ◌∷◌, ◌++◌, leb, if◌then◌else◌, length, All, ◌>>=◌, append-nil,
  append_assoc, arith, length-append, take-length_append, drop-length_append, replicate,
}
use wave_x.Quic.VarInt
use wave_x.Quic.VarInt.Codec.{decode-encode_exact}
use wave_x.Quic.Frames.Types.{
  AckRange, AckFrame, StreamFrame, ConnectionCloseFrame, Frame, padding, ping, ack, reset_stream,
  stop_sending, crypto, new_token, stream, max_data, max_stream_data, max_streams, data_blocked,
  stream_data_blocked, streams_blocked, connection_close, handshake_done, datagram, FrameType,
  frame_code,
}
use wave_x.Quic.Frames.Serialize.{
  or_flag, serialize_type, serialize_ranges, serialize_ack, stream_type, serialize_stream,
  serialize_close, serialize_frame,
}
use wave_x.Quic.Frames.Parse.{
  has_flag, take_bytes, decode_bytes, decode_if, parse_stream, skip_zeros, parse_padding,
  parse_ranges, skip_ecn, parse_ack, parse_close, parse_typed, parse_frame,
}

abbrev pub IsU62 : ℕ → Type 0
IsU62 v = v < 2 ^ 62

-- A number that was written is read, and the next step goes on behind it.
module _ {B : Type 0} where
  pub read_back :
      (v : ℕ) (rest : List ℕ) (f : ℕ × List ℕ → Option B)
      → IsU62 v
      → (VarInt.decode (VarInt.encode v ++ rest) >>= f) ≡ f (v, rest)
  read_back v rest f h = ap (λ r. r >>= f) (decode-encode_exact v rest h)

pub typed :
    (t : FrameType) (body : List ℕ)
    → parse_frame (serialize_type t ++ body) ≡ parse_typed (frame_code t) body
unfolding parse_frame VarInt.encode
typed FrameType.ping body = read_back 0x01 body _ (omega arith)
typed t body = read_back (frame_code t) body (λ p. parse_typed p.0 p.1) (omega arith)

pub take_bytes_back :
    (bytes rest : List ℕ) → take_bytes (length bytes) (bytes ++ rest) ≡ some (bytes, rest)
unfolding take_bytes
take_bytes_back bytes rest = ground (
  arith,
  length-append {0} bytes rest,
  take-length_append bytes rest,
  drop-length_append bytes rest,
)

pub bytes_back :
    {B : Type 0} (bytes rest : List ℕ) (f : List ℕ × List ℕ → Option B)
    → IsU62 (length bytes)
    → (decode_bytes (VarInt.encode (length bytes) ++ (bytes ++ rest)) >>= f) ≡ f (bytes, rest)
unfolding decode_bytes
bytes_back bytes rest f h =
    ap (λ r. r >>= f) (read_back (length bytes) (bytes ++ rest) _ h ∙ take_bytes_back bytes rest)

abbrev pub RangeFits : AckRange → Type 0
RangeFits r = IsU62 r.gap × IsU62 r.ack_range_len

pub ranges_back :
    (rs : List AckRange) (rest : List ℕ)
    → All RangeFits rs
    → parse_ranges (length rs) (serialize_ranges rs ++ rest) ≡ some (rs, rest)
unfolding parse_ranges serialize_ranges
ranges_back [] rest h = refl
ranges_back (r ∷ rs) rest ((hg, hl), hs) =
    simp append_assoc
      (read_back r.gap _ _ hg ∙ read_back r.ack_range_len _ _ hl ∙ rw (ranges_back rs rest hs))

-- What a frame must satisfy to be written so that it can be read back: numbers of 62 bits; an
-- acknowledgement with a first range, whose gap is not written, and without the ECN mark, which is
-- not written either; an offset or a frame type that is not written is 0; and PADDING has a length,
-- which is kept in 32 bits.
abbrev pub AckFits : List AckRange → Type 0
AckFits [] = ⊥
AckFits (r ∷ rs) = (r.gap ≡ 0) × IsU62 r.ack_range_len × All RangeFits rs × IsU62 (length rs)

abbrev pub Fits : Frame → Type 0
Fits (padding n) = (1 ≤ n) × (n < 2 ^ 32)
Fits ping = Unit
Fits (ack f) = AckFits f.ranges × IsU62 f.largest_acknowledged × IsU62 f.ack_delay × (f.ecn ≡ false)
Fits (reset_stream f) = IsU62 f.stream_id × IsU62 f.error_code × IsU62 f.final_size
Fits (stop_sending f) = IsU62 f.stream_id × IsU62 f.error_code
Fits (crypto f) = IsU62 f.offset × IsU62 (length f.bytes)
Fits (new_token token) = IsU62 (length token)
Fits (stream f) =
    IsU62 f.stream_id
    × IsU62 f.offset
    × IsU62 (length f.bytes)
    × ((f.has_offset ≡ true) ⊎ (f.offset ≡ 0))
Fits (max_data n) = IsU62 n
Fits (max_stream_data f) = IsU62 f.stream_id × IsU62 f.max_stream_data
Fits (max_streams f) = IsU62 f.max_streams
Fits (data_blocked n) = IsU62 n
Fits (stream_data_blocked f) = IsU62 f.stream_id × IsU62 f.stream_data_limit
Fits (streams_blocked f) = IsU62 f.stream_limit
Fits (connection_close f) =
    IsU62 f.error_code
    × IsU62 f.frame_type
    × IsU62 (length f.reason_phrase)
    × ((f.is_application ≡ false) ⊎ (f.frame_type ≡ 0))
Fits handshake_done = Unit
Fits (datagram bytes) = IsU62 (length bytes)

abbrev pub NoZeroFirst : List ℕ → Type 0
NoZeroFirst [] = Unit
NoZeroFirst (b ∷ bs) = b ≢ 0

-- What may follow a frame in the packet: PADDING takes every zero byte, and a STREAM frame without a
-- length takes everything.
abbrev pub EndsBefore : Frame → List ℕ → Type 0
EndsBefore (padding n) rest = NoZeroFirst rest
EndsBefore (stream f) rest = (f.has_length ≡ true) ⊎ (rest ≡ [])
EndsBefore _ rest = Unit

pub ack_back :
    (f : AckFrame) (rest : List ℕ)
    → Fits (ack f)
    → parse_frame (serialize_frame (ack f) ++ rest) ≡ some (ack f ∷ [], rest)
unfolding parse_typed parse_ack skip_ecn serialize_frame serialize_ack
ack_back f rest h = go f.ranges refl h.0
  where
    go :
        (rs : List AckRange)
        → f.ranges ≡ rs
        → AckFits rs
        → parse_frame (serialize_frame (ack f) ++ rest) ≡ some (ack f ∷ [], rest)
    go [] e a = absurd a
    go (r ∷ rs) e (hg, hr, hrs, hl) =
        rw (e, h.3)
          (simp append_assoc (
            typed FrameType.ack _
            ∙ read_back f.largest_acknowledged _ _ h.1
            ∙ read_back f.ack_delay _ _ h.2
            ∙ read_back (length rs) _ _ hl
            ∙ read_back r.ack_range_len _ _ hr
            ∙ rw (ranges_back rs rest hrs) (ground arith)))

pub skip_zeros_back :
    (k n : ℕ) (rest : List ℕ)
    → k + n < 2 ^ 32
    → NoZeroFirst rest
    → skip_zeros k (replicate n 0 ++ rest) ≡ (k + n, rest)
unfolding skip_zeros
skip_zeros_back k zero [] h z = ground arith
skip_zeros_back k zero (b ∷ bs) h z = ground arith
skip_zeros_back k (suc n) rest h z = ground (arith, skip_zeros_back (k + 1) n rest)

pub padding_back :
    (n : ℕ) (rest : List ℕ)
    → Fits (padding n)
    → NoZeroFirst rest
    → parse_frame (serialize_frame (padding n) ++ rest) ≡ some (padding n ∷ [], rest)
unfolding parse_typed parse_padding parse_frame serialize_frame VarInt.encode
padding_back zero rest h z = absurd (omega arith)
padding_back (suc n) rest h z =
    read_back 0 (replicate n 0 ++ rest) (λ p. parse_typed p.0 p.1) (omega arith)
    ∙ rw (skip_zeros_back 1 n rest (omega arith) z) (ground arith)

-- The flags in the type byte of a STREAM frame are those of the frame.
pub stream_type_flags :
    (f : StreamFrame)
    → (has_flag (stream_type f) 0x04 ≡ f.has_offset)
      × (has_flag (stream_type f) 0x02 ≡ f.has_length)
      × (has_flag (stream_type f) 0x01 ≡ f.fin)
      × ((leb 0x08 (stream_type f) && leb (stream_type f) 0x0f) ≡ true)
unfolding stream_type
stream_type_flags f = go f.fin f.has_length f.has_offset
  where
    go :
        (a b c : Bool)
        → let t = or_flag a 0x01 (or_flag b 0x02 (or_flag c 0x04 0x08)) in
          (has_flag t 0x04 ≡ c)
          × (has_flag t 0x02 ≡ b)
          × (has_flag t 0x01 ≡ a)
          × ((leb 0x08 t && leb t 0x0f) ≡ true)
    go true true true = (refl, refl, refl, refl)
    go true true false = (refl, refl, refl, refl)
    go true false true = (refl, refl, refl, refl)
    go true false false = (refl, refl, refl, refl)
    go false true true = (refl, refl, refl, refl)
    go false true false = (refl, refl, refl, refl)
    go false false true = (refl, refl, refl, refl)
    go false false false = (refl, refl, refl, refl)

pub offset_back :
    {B : Type 0} (b : Bool) (v : ℕ) (rest : List ℕ) (f : ℕ × List ℕ → Option B)
    → IsU62 v
    → (b ≡ true) ⊎ (v ≡ 0)
    → (decode_if b ((if b then VarInt.encode v else []) ++ rest) >>= f) ≡ f (v, rest)
unfolding decode_if
offset_back true v rest f h e = read_back v rest f h
offset_back false v rest f h (inl e) = cc
offset_back false v rest f h (inr e) = ap (λ u. f (u, rest)) (sym e)

pub length_back :
    {B : Type 0} (b : Bool) (bytes rest : List ℕ) (f : ℕ × List ℕ → Option B)
    → IsU62 (length bytes)
    → (b ≡ true) ⊎ (rest ≡ [])
    → let body = (if b then VarInt.encode (length bytes) else []) ++ (bytes ++ rest) in
      ((if b then VarInt.decode body else some (length body, body)) >>= f)
      ≡ f (length bytes, bytes ++ rest)
length_back true bytes rest f h e = read_back (length bytes) (bytes ++ rest) f h
length_back false bytes rest f h (inl e) = cc
length_back false bytes rest f h (inr e) = rw (e, append-nil)

pub stream_back :
    (f : StreamFrame) (rest : List ℕ)
    → Fits (stream f)
    → EndsBefore (stream f) rest
    → parse_frame (serialize_frame (stream f) ++ rest) ≡ some (stream f ∷ [], rest)
unfolding parse_frame parse_stream serialize_frame serialize_stream
stream_back f rest (hs, ho, hb, z) e =
    let (c, b, a, t) = stream_type_flags f in
    rw (a, b, c, t)
      (simp append_assoc (
        read_back f.stream_id _ _ hs
        ∙ offset_back f.has_offset f.offset _ _ ho z
        ∙ length_back f.has_length f.bytes rest _ hb e
        ∙ rw (take_bytes_back f.bytes rest)))

pub close_back :
    (f : ConnectionCloseFrame) (rest : List ℕ)
    → Fits (connection_close f)
    → parse_frame (serialize_frame (connection_close f) ++ rest)
      ≡ some (connection_close f ∷ [], rest)
unfolding parse_typed parse_close decode_if serialize_frame serialize_close
close_back f rest (he, hf, hr, z) = go f.is_application z
  where
    go :
        (b : Bool)
        → (b ≡ false) ⊎ (f.frame_type ≡ 0)
        → parse_frame (serialize_close (record f { is_application = b }) ++ rest)
          ≡ some (connection_close (record f { is_application = b }) ∷ [], rest)
    go true (inl e) = cc
    go true (inr e) = simp append_assoc (
        typed FrameType.connection_close_app _
        ∙ read_back f.error_code _ _ he
        ∙ bytes_back f.reason_phrase rest _ hr
        ∙ ground arith)
    go false _ = simp append_assoc (
        typed FrameType.connection_close_quic _
        ∙ read_back f.error_code _ _ he
        ∙ read_back f.frame_type _ _ hf
        ∙ bytes_back f.reason_phrase rest _ hr)

pub max_streams_back :
    (n : ℕ) (b : Bool) (rest : List ℕ)
    → IsU62 n
    → let f = max_streams (record { max_streams = n; bidirectional = b }) in
      parse_frame (serialize_frame f ++ rest) ≡ some (f ∷ [], rest)
unfolding parse_typed serialize_frame
max_streams_back n true rest h =
    simp append_assoc (typed FrameType.max_streams_bidi _ ∙ read_back n rest _ h)
max_streams_back n false rest h =
    simp append_assoc (typed FrameType.max_streams_uni _ ∙ read_back n rest _ h)

pub streams_blocked_back :
    (n : ℕ) (b : Bool) (rest : List ℕ)
    → IsU62 n
    → let f = streams_blocked (record { stream_limit = n; bidirectional = b }) in
      parse_frame (serialize_frame f ++ rest) ≡ some (f ∷ [], rest)
unfolding parse_typed serialize_frame
streams_blocked_back n true rest h =
    simp append_assoc (typed FrameType.streams_blocked_bidi _ ∙ read_back n rest _ h)
streams_blocked_back n false rest h =
    simp append_assoc (typed FrameType.streams_blocked_uni _ ∙ read_back n rest _ h)
