-- ===== src/Quic/Frames/Progress.antt =====
-- Every round of `parse_frames` takes a byte at least, so its loop ends on every payload.
use wave_x.Prelude.{
  ◌%◌, ◌^◌, ℕ, zero, suc, ◌+◌, ◌≤◌, ◌<◌, ◌≡◌, refl, ap, subst, ◌∙◌, Bool, true, false, Option, none,
  some, List, [], ◌∷◌, ◌++◌, length, length-append, if◌then◌else◌, not, ◌&&◌, leb, append-nil, ◌==◌,
  ◌||◌, length-drop, append_assoc, arith, ◌>>=◌, Option-cases, inl, inr,
}
use wave_x.Quic.VarInt
use wave_x.Quic.VarInt.Bounds.{decode-length}
use wave_x.Quic.Frames.Types.{Frame}
use wave_x.Quic.Frames.Parse.{
  has_flag, take_bytes, decode_bytes, decode_if, parse_stream, skip_zeros, parse_padding,
  parse_ranges, skip_ecn, parse_ack, parse_reset_stream, parse_stop_sending, parse_crypto,
  parse_max_stream_data, parse_stream_data_blocked, parse_close, skip_bytes, skip_connection_id,
  skip_new_connection_id, parse_typed, parse_frame, parse_loop, parse_frames,
}

-- What holds of the value and of the rest, where a step succeeds.
abbrev Gives {ℓ} : {A : Type ℓ} → (A × List ℕ → Type 0) → Option (A × List ℕ) → Type ℓ
Gives {A = A} P r = (p : A × List ℕ) → r ≡ some p → P p

abbrev Leaves {ℓ} : {A : Type ℓ} → ℕ → Option (A × List ℕ) → Type ℓ
Leaves n = Gives (λ p. length p.1 ≤ n)

-- At most one frame, and no more bytes than there were.
abbrev Round : ℕ → List Frame × List ℕ → Type 0
Round n (fs, rest) = (length rest ≤ n) × (length fs ≤ 1)

some-Gives : {A : Type 0} (P : A × List ℕ → Type 0) (p : A × List ℕ) → P p → Gives P (some p)
some-Gives {A} P p h q e = subst P (ap value e) h
  where
    value : Option (A × List ℕ) → A × List ℕ
    value none = p
    value (some x) = x

bind-Gives :
    {A B : Type 0} {n : ℕ} {P : B × List ℕ → Type 0} (m : Option (A × List ℕ))
    (f : A × List ℕ → Option (B × List ℕ))
    → Leaves n m
    → ((p : A × List ℕ) → length p.1 ≤ n → Gives P (f p))
    → Gives P (m >>= f)
bind-Gives none f h k q e = cc
bind-Gives (some p) f h k q e = k p (h p refl) q e

decode-Leaves : {n : ℕ} (bs : List ℕ) → length bs ≤ n → Leaves n (VarInt.decode bs)
decode-Leaves bs h (v, rest) e = omega (arith, decode-length bs v rest e)

-- A number is read, and then something else.
read :
    {B : Type 0} {n : ℕ} {P : B × List ℕ → Type 0} (bs : List ℕ)
    (f : ℕ × List ℕ → Option (B × List ℕ))
    → length bs ≤ n
    → ((p : ℕ × List ℕ) → length p.1 ≤ n → Gives P (f p))
    → Gives P (VarInt.decode bs >>= f)
read bs f h k = bind-Gives (VarInt.decode bs) f (decode-Leaves bs h) k

-- A frame is emitted.
one : (n : ℕ) (f : Frame) (rest : List ℕ) → length rest ≤ n → Gives (Round n) (some (f ∷ [], rest))
one n f rest h = some-Gives (Round n) _ (h, omega arith)

-- Bytes are skipped.
none_of : (n : ℕ) (rest : List ℕ) → length rest ≤ n → Gives (Round n) (some ([], rest))
none_of n rest h = some-Gives (Round n) _ (h, omega arith)

take_bytes-Leaves : (n len : ℕ) (bs : List ℕ) → length bs ≤ n → Leaves n (take_bytes len bs)
unfolding take_bytes
take_bytes-Leaves n len bs h p e = ground (arith, length-drop len bs)

decode_bytes-Leaves : (n : ℕ) (bs : List ℕ) → length bs ≤ n → Leaves n (decode_bytes bs)
unfolding decode_bytes
decode_bytes-Leaves n bs h = read bs _ h λ a h. take_bytes-Leaves n a.0 a.1 h

decode_if-Leaves : (n : ℕ) (b : Bool) (bs : List ℕ) → length bs ≤ n → Leaves n (decode_if b bs)
unfolding decode_if
decode_if-Leaves n true bs h = decode-Leaves bs h
decode_if-Leaves n false bs h = some-Gives (λ p. length p.1 ≤ n) (0, bs) h

stream_length-Leaves :
    (n : ℕ) (b : Bool) (bs : List ℕ)
    → length bs ≤ n
    → Leaves n (if b then VarInt.decode bs else some (length bs, bs))
stream_length-Leaves n true bs h = decode-Leaves bs h
stream_length-Leaves n false bs h = some-Gives (λ p. length p.1 ≤ n) (length bs, bs) h

parse_ranges-Leaves : (n k : ℕ) (bs : List ℕ) → length bs ≤ n → Leaves n (parse_ranges k bs)
unfolding parse_ranges
parse_ranges-Leaves n zero bs h = some-Gives (λ p. length p.1 ≤ n) ([], bs) h
parse_ranges-Leaves n (suc k) bs h = read bs _ h λ a h. read a.1 _ h λ b h.
    bind-Gives (parse_ranges k b.1) _ (parse_ranges-Leaves n k b.1 h)
      λ c h. some-Gives (λ p. length p.1 ≤ n) _ h

skip_zeros-length : (k : ℕ) (bs : List ℕ) → length (skip_zeros k bs).1 ≤ length bs
unfolding skip_zeros
skip_zeros-length k [] = omega arith
skip_zeros-length k (b ∷ bs) = ground (arith, skip_zeros-length ((k + 1) % 2 ^ 32) bs)

skip_ecn-Leaves : (n : ℕ) (b : Bool) (bs : List ℕ) → length bs ≤ n → Leaves n (skip_ecn b bs)
unfolding skip_ecn
skip_ecn-Leaves n false bs h = some-Gives (λ p. length p.1 ≤ n) (0, bs) h
skip_ecn-Leaves n true bs h = read bs _ h λ a h. read a.1 _ h λ b h. decode-Leaves b.1 h

module _ (n : ℕ) (bs : List ℕ) (h : length bs ≤ n) where
  parse_stream-Round : (peek : ℕ) → Gives (Round n) (parse_stream peek bs)
  unfolding parse_stream
  parse_stream-Round peek = read bs _ h λ a h.
      bind-Gives (decode_if (has_flag peek 0x04) a.1) _ (decode_if-Leaves n _ a.1 h) λ b h.
        bind-Gives (if has_flag peek 0x02 then VarInt.decode b.1 else some (length b.1, b.1)) _
          (stream_length-Leaves n _ b.1 h)
          λ c h.
            bind-Gives (take_bytes c.0 c.1) _ (take_bytes-Leaves n c.0 c.1 h) λ d h. one n _ _ h

  parse_padding-Round : Gives (Round n) (parse_padding bs)
  unfolding parse_padding
  parse_padding-Round = one n _ _ (omega (arith, skip_zeros-length 1 bs))

  parse_stop_sending-Round : Gives (Round n) (parse_stop_sending bs)
  unfolding parse_stop_sending
  parse_stop_sending-Round = read bs _ h λ a h. read a.1 _ h λ b h. one n _ _ h

  parse_crypto-Round : Gives (Round n) (parse_crypto bs)
  unfolding parse_crypto
  parse_crypto-Round =
      read bs _ h
        λ a h. bind-Gives (decode_bytes a.1) _ (decode_bytes-Leaves n a.1 h) λ b h. one n _ _ h

  parse_max_stream_data-Round : Gives (Round n) (parse_max_stream_data bs)
  unfolding parse_max_stream_data
  parse_max_stream_data-Round = read bs _ h λ a h. read a.1 _ h λ b h. one n _ _ h

  parse_stream_data_blocked-Round : Gives (Round n) (parse_stream_data_blocked bs)
  unfolding parse_stream_data_blocked
  parse_stream_data_blocked-Round = read bs _ h λ a h. read a.1 _ h λ b h. one n _ _ h

  parse_close-Round : (b : Bool) → Gives (Round n) (parse_close b bs)
  unfolding parse_close
  parse_close-Round b = read bs _ h λ a h.
      bind-Gives (decode_if (not b) a.1) _ (decode_if-Leaves n _ a.1 h)
        λ c h. bind-Gives (decode_bytes c.1) _ (decode_bytes-Leaves n c.1 h) λ d h. one n _ _ h

  parse_ack-Round : (ecn : Bool) → Gives (Round n) (parse_ack ecn bs)
  unfolding parse_ack
  parse_ack-Round ecn = read bs _ h λ a h. read a.1 _ h λ b h. read b.1 _ h λ c h.
      read c.1 _ h λ d h.
        bind-Gives (parse_ranges c.0 d.1) _ (parse_ranges-Leaves n c.0 d.1 h)
          λ e h. bind-Gives (skip_ecn ecn e.1) _ (skip_ecn-Leaves n ecn e.1 h) λ f h. one n _ _ h

  skip_bytes-Round : (k : ℕ) → Gives (Round n) (skip_bytes k bs)
  unfolding skip_bytes
  skip_bytes-Round k p e = ground (arith, length-drop k bs)

parse_reset_stream-Round :
    (n : ℕ) (bs : List ℕ) → length bs ≤ n → Gives (Round n) (parse_reset_stream bs)
unfolding parse_reset_stream
parse_reset_stream-Round n bs h =
    read bs _ h λ a h. read a.1 _ h λ b h. read b.1 _ h λ c h. one n _ _ h

number-Round :
    (n : ℕ) (bs : List ℕ) (f : ℕ → Frame)
    → length bs ≤ n
    → Gives (Round n) (VarInt.decode bs >>= λ p. some (f p.0 ∷ [], p.1))
number-Round n bs f h = read bs _ h λ a h. one n _ _ h

bytes-Round :
    (n : ℕ) (bs : List ℕ) (f : List ℕ → Frame)
    → length bs ≤ n
    → Gives (Round n) (decode_bytes bs >>= λ p. some (f p.0 ∷ [], p.1))
bytes-Round n bs f h =
    bind-Gives (decode_bytes bs) _ (decode_bytes-Leaves n bs h) λ a h. one n _ _ h

skip_connection_id-Round :
    (n : ℕ) (bs : List ℕ) → length bs ≤ n → Gives (Round n) (skip_connection_id bs)
unfolding skip_connection_id
skip_connection_id-Round n [] h p e = cc
skip_connection_id-Round n (c ∷ bs) h p e =
    ground (arith, skip_bytes-Round n bs (omega arith) (c + 16) p)

skip_new_connection_id-Round :
    (n : ℕ) (bs : List ℕ) → length bs ≤ n → Gives (Round n) (skip_new_connection_id bs)
unfolding skip_new_connection_id
skip_new_connection_id-Round n bs h =
    read bs _ h λ a h. read a.1 _ h λ b h. skip_connection_id-Round n b.1 h

-- A ladder of tests has the property where every branch has it.
if-Gives :
    {A : Type 0} (P : A × List ℕ → Type 0) (b : Bool) {r s : Option (A × List ℕ)}
    → Gives P r
    → Gives P s
    → Gives P (if b then r else s)
if-Gives P true h k = h
if-Gives P false h k = k

parse_typed-Round : (n t : ℕ) (bs : List ℕ) → length bs ≤ n → Gives (Round n) (parse_typed t bs)
unfolding parse_typed
parse_typed-Round n t bs h = if-Gives (Round n) (t == 0x00) (parse_padding-Round n bs h) (
    if-Gives (Round n) (t == 0x01) (one n _ bs h) (
      if-Gives (Round n) (t == 0x02 || t == 0x03) (parse_ack-Round n bs h (t == 0x03)) (
        if-Gives (Round n) (t == 0x04) (parse_reset_stream-Round n bs h) (
          if-Gives (Round n) (t == 0x05) (parse_stop_sending-Round n bs h) (
            if-Gives (Round n) (t == 0x06) (parse_crypto-Round n bs h) (
              if-Gives (Round n) (t == 0x07) (bytes-Round n bs _ h) (
                if-Gives (Round n) (t == 0x10) (number-Round n bs _ h) (
                  if-Gives (Round n) (t == 0x11) (parse_max_stream_data-Round n bs h) (
                    if-Gives (Round n) (t == 0x12 || t == 0x13) (number-Round n bs _ h) (
                      if-Gives (Round n) (t == 0x14) (number-Round n bs _ h) (
                        if-Gives (Round n) (t == 0x15) (parse_stream_data_blocked-Round n bs h) (
                          if-Gives (Round n) (t == 0x16 || t == 0x17) (number-Round n bs _ h) (
                            if-Gives (Round n) (t == 0x1c || t == 0x1d)
                              (parse_close-Round n bs h (t == 0x1d))
                              (if-Gives (Round n) (t == 0x18) (skip_new_connection_id-Round n bs h)
                                (if-Gives (Round n) (t == 0x19) (read bs _ h λ a h. none_of n _ h) (
                                  if-Gives (Round n) (t == 0x1a || t == 0x1b)
                                    (skip_bytes-Round n bs h 8)
                                    (if-Gives (Round n) (t == 0x1e) (one n _ bs h) (
                                      if-Gives (Round n) (t == 0x30) (one n _ [] (omega arith)) (
                                        if-Gives (Round n) (t == 0x31) (bytes-Round n bs _ h)
                                          (λ p e. cc))))))))))))))))))))

-- One round of the loop takes a byte at least and emits one frame at most.
pub parse_frame-length :
    (b : ℕ) (bs : List ℕ) (p : List Frame × List ℕ)
    → parse_frame (b ∷ bs) ≡ some p
    → (length p.1 ≤ length bs) × (length p.0 ≤ 1)
unfolding parse_frame
parse_frame-length b bs =
    if-Gives (Round (length bs)) (leb 0x08 b && leb b 0x0f)
      (parse_stream-Round (length bs) bs (omega arith) b)
      (bind-Gives (VarInt.decode (b ∷ bs)) _
        (λ (v, rest) e. omega (arith, decode-length (b ∷ bs) v rest e))
        λ a h. parse_typed-Round (length bs) a.0 a.1 h)

pub parse_frame_less :
    (payload : List ℕ) (p : List Frame × List ℕ)
    → parse_frame payload ≡ some p
    → length p.1 < length payload
parse_frame_less [] p e = unfold parse_frame in cc
parse_frame_less (b ∷ bs) p e = omega (arith, (parse_frame-length b bs p e).0)

parse_loop_total :
    (fuel : ℕ) (payload : List ℕ) (out : List Frame)
    → length payload ≤ fuel
    → (done : Bool) × (fs : List Frame) × (parse_loop fuel payload out ≡ some (done, out ++ fs))
      × (length fs ≤ length payload)
unfolding parse_loop
parse_loop_total fuel [] out h = (true, [], rw append-nil, omega arith)
parse_loop_total zero (b ∷ bs) out h = absurd (omega arith)
parse_loop_total (suc fuel) (b ∷ bs) out h = elim (Option-cases (parse_frame (b ∷ bs))) [
  | inl e ↦ (false, [], rw (e, parse_loop, append-nil), omega arith)
  | inr ((fs, rest), e) ↦
      let (l, k) = parse_frame-length b bs (fs, rest) e in
      let (done, gs, r, m) = parse_loop_total fuel rest (out ++ fs) (omega arith) in
      (
        done,
        fs ++ gs,
        rw (e, parse_loop) (r ∙ ap (λ x. some (done, x)) (append_assoc out fs gs)),
        omega (arith, length-append fs gs, l, k, m),
      )
]

-- The loop ends on every payload, after at most as many rounds as there are bytes, whether the
-- payload is well formed or not. It only adds to `out_frames`, and no more frames than the payload
-- has bytes.
pub parse_frames_total :
    (payload : List ℕ) (out : List Frame)
    → (done : Bool) × (fs : List Frame) × (parse_frames payload out ≡ some (done, out ++ fs))
      × (length fs ≤ length payload)
unfolding parse_frames
parse_frames_total payload out = parse_loop_total (length payload) payload out (omega arith)
