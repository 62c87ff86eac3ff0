-- ===== src/Quic/Frames/RoundTrip.antt =====
-- `parse_frames` reads back what `serialize_frame` wrote: one frame, and packets of them.
use wave_x.Prelude.{
  ℕ, zero, suc, ◌≤◌, ◌≡◌, refl, ap, ◌∙◌, Bool, true, false, ◌⊎◌, inl, inr, some, List, [], ◌∷◌,
  ◌++◌, if◌then◌else◌, length, append-nil, append_assoc, arith,
}
use wave_x.Quic.VarInt
use wave_x.Quic.Frames.Types.{
  Frame, padding, ping, ack, reset_stream, stop_sending, crypto, new_token, stream, max_data,
  max_stream_data, max_streams, data_blocked, stream_data_blocked, streams_blocked,
  connection_close, handshake_done, datagram, FrameType,
}
use wave_x.Quic.Frames.Progress.{parse_frame_less}
use wave_x.Quic.Frames.Serialize.{
  serialize_type, serialize_ack, serialize_stream, serialize_close, serialize_frame,
  serialize_frames,
}
use wave_x.Quic.Frames.Parse.{
  parse_reset_stream, parse_stop_sending, parse_crypto, parse_max_stream_data,
  parse_stream_data_blocked, parse_typed, parse_frame, parse_loop, parse_frames,
}
use wave_x.Quic.Frames.Back.{
  typed, bytes_back, Fits, NoZeroFirst, EndsBefore, ack_back, padding_back, stream_type_flags,
  stream_back, close_back, max_streams_back, streams_blocked_back, read_back,
}

-- A frame is read back as it was written, and what follows it is left, under these conditions: its numbers and the
-- lengths of its bytes and of its list of ranges are below 2^62; the length of PADDING is at least 1 and below 2^32; an ACK has no ECN mark
-- and at least one range, the first of them with gap 0; a STREAM frame without an offset field has the offset 0; a
-- CONNECTION_CLOSE of the application has the frame type 0; PADDING is not followed by a zero byte, and a STREAM
-- frame without a length field is followed by nothing.
pub parse_frame-serialize_frame :
    (f : Frame) (rest : List ℕ)
    → Fits f
    → EndsBefore f rest
    → parse_frame (serialize_frame f ++ rest) ≡ some (f ∷ [], rest)
unfolding parse_typed parse_reset_stream parse_stop_sending parse_crypto parse_max_stream_data
    parse_stream_data_blocked serialize_frame
parse_frame-serialize_frame (padding n) rest h e = padding_back n rest h e
parse_frame-serialize_frame ping rest h e = typed FrameType.ping rest
parse_frame-serialize_frame (ack f) rest h e = ack_back f rest h
parse_frame-serialize_frame (reset_stream f) rest (ha, hb, hc) e = simp append_assoc (
    typed FrameType.reset_stream _
    ∙ read_back f.stream_id _ _ ha
    ∙ read_back f.error_code _ _ hb
    ∙ read_back f.final_size _ _ hc)
parse_frame-serialize_frame (stop_sending f) rest (ha, hb) e =
    simp append_assoc (
      typed FrameType.stop_sending _ ∙ read_back f.stream_id _ _ ha ∙ read_back f.error_code _ _ hb)
parse_frame-serialize_frame (crypto f) rest (ha, hb) e =
    simp append_assoc
      (typed FrameType.crypto _ ∙ read_back f.offset _ _ ha ∙ bytes_back f.bytes rest _ hb)
parse_frame-serialize_frame (new_token token) rest h e =
    simp append_assoc (typed FrameType.new_token _ ∙ bytes_back token rest _ h)
parse_frame-serialize_frame (stream f) rest h e = stream_back f rest h e
parse_frame-serialize_frame (max_data n) rest h e =
    simp append_assoc (typed FrameType.max_data _ ∙ read_back n rest _ h)
parse_frame-serialize_frame (max_stream_data f) rest (ha, hb) e = simp append_assoc (
    typed FrameType.max_stream_data _
    ∙ read_back f.stream_id _ _ ha
    ∙ read_back f.max_stream_data _ _ hb)
parse_frame-serialize_frame (max_streams f) rest h e =
    max_streams_back f.max_streams f.bidirectional rest h
parse_frame-serialize_frame (data_blocked n) rest h e =
    simp append_assoc (typed FrameType.data_blocked _ ∙ read_back n rest _ h)
parse_frame-serialize_frame (stream_data_blocked f) rest (ha, hb) e = simp append_assoc (
    typed FrameType.stream_data_blocked _
    ∙ read_back f.stream_id _ _ ha
    ∙ read_back f.stream_data_limit _ _ hb)
parse_frame-serialize_frame (streams_blocked f) rest h e =
    streams_blocked_back f.stream_limit f.bidirectional rest h
parse_frame-serialize_frame (connection_close f) rest h e = close_back f rest h
parse_frame-serialize_frame handshake_done rest h e = typed FrameType.handshake_done rest
parse_frame-serialize_frame (datagram bytes) rest h e =
    simp append_assoc (typed FrameType.datagram_with_length _ ∙ bytes_back bytes rest _ h)

-- Which frame may follow which in one packet.
abbrev pub CanFollow : Frame → List Frame → Type 0
CanFollow (padding n) (padding m ∷ fs) = ⊥
CanFollow (padding n) fs = Unit
CanFollow (stream f) fs = (f.has_length ≡ true) ⊎ (fs ≡ [])
CanFollow _ fs = Unit

abbrev pub PacketFits : List Frame → Type 0
PacketFits [] = Unit
PacketFits (f ∷ fs) = Fits f × CanFollow f fs × PacketFits fs

type_first : (t : FrameType) (xs ys : List ℕ) → NoZeroFirst ((serialize_type t ++ xs) ++ ys)
unfolding VarInt.encode
type_first FrameType.ping xs ys = λ z. omega arith
type_first t xs ys = λ z. omega arith

either_type :
    (b : Bool) (t u : FrameType) (xs ys : List ℕ)
    → NoZeroFirst ((serialize_type (if b then t else u) ++ xs) ++ ys)
unfolding VarInt.encode
either_type true t u xs ys = type_first t xs ys
either_type false t u xs ys = type_first u xs ys

-- Of the frames only PADDING begins with a zero byte.
NoZeroFirst-serialize_frames :
    (n : ℕ) (fs : List Frame) → CanFollow (padding n) fs → NoZeroFirst (serialize_frames fs)
unfolding serialize_frames serialize_frame serialize_ack serialize_stream serialize_close
    VarInt.encode
NoZeroFirst-serialize_frames n [] c = tt
NoZeroFirst-serialize_frames n (padding m ∷ fs) c = absurd c
NoZeroFirst-serialize_frames n (stream f ∷ fs) c = λ z. ground (arith, (stream_type_flags f).3)
NoZeroFirst-serialize_frames n (max_streams f ∷ fs) c =
    either_type f.bidirectional FrameType.max_streams_bidi FrameType.max_streams_uni _ _
NoZeroFirst-serialize_frames n (streams_blocked f ∷ fs) c =
    either_type f.bidirectional FrameType.streams_blocked_bidi FrameType.streams_blocked_uni _ _
NoZeroFirst-serialize_frames n (connection_close f ∷ fs) c =
    either_type f.is_application FrameType.connection_close_app FrameType.connection_close_quic _ _
NoZeroFirst-serialize_frames n (f ∷ fs) c = λ z. omega arith

EndsBefore-serialize_frames :
    (f : Frame) (fs : List Frame) → CanFollow f fs → EndsBefore f (serialize_frames fs)
EndsBefore-serialize_frames (padding n) fs c = NoZeroFirst-serialize_frames n fs c
EndsBefore-serialize_frames (stream f) fs (inl e) = inl e
EndsBefore-serialize_frames (stream f) fs (inr e) = inr (rw e (unfold serialize_frames in refl))
EndsBefore-serialize_frames f fs c = tt

parse_loop_step :
    (fuel : ℕ) (payload rest : List ℕ) (out fs : List Frame)
    → parse_frame payload ≡ some (fs, rest)
    → parse_loop (suc fuel) payload out ≡ parse_loop fuel rest (out ++ fs)
unfolding parse_loop
parse_loop_step fuel [] rest out fs e = unfold parse_frame in cc
parse_loop_step fuel (b ∷ bs) rest out fs e = rw (e, parse_loop)

first_back :
    (f : Frame) (fs : List Frame)
    → Fits f
    → CanFollow f fs
    → parse_frame (serialize_frames (f ∷ fs)) ≡ some (f ∷ [], serialize_frames fs)
first_back f fs hf hc =
    unfold serialize_frames in
    parse_frame-serialize_frame f (serialize_frames fs) hf (EndsBefore-serialize_frames f fs hc)

parse_loop-serialize_frames :
    (fs : List Frame) (fuel : ℕ) (out : List Frame)
    → PacketFits fs
    → length (serialize_frames fs) ≤ fuel
    → parse_loop fuel (serialize_frames fs) out ≡ some (true, out ++ fs)
parse_loop-serialize_frames [] fuel out h l = unfold serialize_frames parse_loop in rw append-nil
parse_loop-serialize_frames (f ∷ fs) zero out (hf, hc, hs) l =
    absurd (omega (arith, parse_frame_less _ _ (first_back f fs hf hc)))
parse_loop-serialize_frames (f ∷ fs) (suc fuel) out (hf, hc, hs) l =
    parse_loop_step fuel _ (serialize_frames fs) out (f ∷ []) (first_back f fs hf hc)
    ∙ parse_loop-serialize_frames fs fuel (out ++ (f ∷ [])) hs
        (omega (arith, parse_frame_less _ _ (first_back f fs hf hc)))
    ∙ ap (λ x. some (true, x)) (append_assoc out (f ∷ []) fs)

-- A packet of frames that fit, in an order in which each can be told from the next, is read back as
-- it was written, behind the frames that were there before.
pub parse_frames-serialize_frames :
    (fs : List Frame) (out : List Frame)
    → PacketFits fs
    → parse_frames (serialize_frames fs) out ≡ some (true, out ++ fs)
unfolding parse_frames
parse_frames-serialize_frames fs out h = parse_loop-serialize_frames fs _ out h (omega arith)
