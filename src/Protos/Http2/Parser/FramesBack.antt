-- ===== src/Protos/Http2/Parser/FramesBack.antt =====
-- The loop of the parser reads the frames of a message that was serialized.
use wave_x.Prelude.{
  ℕ, zero, suc, ◌+◌, ◌^◌, ◌≤◌, ◌<◌, ◌≡◌, refl, sym, ap, ◌∙◌, Bool, true, false, some, List, [], ◌∷◌,
  ◌++◌, ◌==◌, if◌then◌else◌, length, take, drop, min, arith, length-drop, length-append,
  length-take, append_assoc, append-nil, take-append-drop, drop-length_append, take_all, drop_all,
  Bool-cases, inl, inr, ==→≡, bit_and,
}
use mathlib.Core.Path.{ap₂}
use wave_x.Protos.Http1.{Header, is_empty}
use wave_x.Protos.Http2.Frame.{
  FrameHeader, has_flag, end_stream_flag, padded_flag, priority_flag, headers_frame, data_frame,
  framed, parse_frame, pack_frame_header, header_size,
}
use wave_x.Protos.Http2.Frame.RoundTrip.{
  parse_frame-pack_frame_header, length-pack_frame_header, HeaderFits,
}
use wave_x.Protos.Http2.Hpack.Decoder.{decoded, decode_header_block}
use wave_x.Protos.Http2.Encoder.{
  frame_header, frame_bytes, max_frame_size, data_frames, headers_flags, message_frames,
}
use wave_x.Protos.Http2.Parser.{
  Parsing, left, on_frame, parse_loop, pad_of, unpadded, default_max_header_list_size,
  header_block_of, data_of,
}

frame_header_fits :
    (payload : List ℕ) (kind flags stream_id : ℕ)
    → length payload < 2 ^ 24
    → stream_id < 2 ^ 31
    → HeaderFits (frame_header (length payload) kind flags stream_id)
frame_header_fits payload kind flags stream_id h k = record {
  length_bits = omega arith;
  stream_bits = k;
}

length-frame_bytes :
    (kind flags stream_id : ℕ) (payload : List ℕ)
    → length (frame_bytes kind flags stream_id payload) ≡ header_size + length payload
length-frame_bytes kind flags stream_id payload =
    let hdr = frame_header (length payload) kind flags stream_id in
    omega (arith, length-append {0} (pack_frame_header hdr) payload, length-pack_frame_header hdr)

not_empty : (hdr : FrameHeader) (bs : List ℕ) → is_empty (pack_frame_header hdr ++ bs) ≡ false
unfolding pack_frame_header
not_empty hdr bs = refl

-- One round at a frame.
round_at_frame :
    (n : ℕ) (is_request : Bool) (s : Parsing) (kind flags stream_id : ℕ) (payload rest : List ℕ)
    → length payload < 2 ^ 24
    → stream_id < 2 ^ 31
    → s.remaining ≡ frame_bytes kind flags stream_id payload ++ rest
    → parse_loop (suc n) is_request s
      ≡ on_frame (parse_loop n is_request) is_request s (
          framed
            (frame_header (length payload) kind flags stream_id)
            payload
            (header_size + length payload))
unfolding parse_loop
round_at_frame n is_request s kind flags stream_id payload rest h k e =
    let hdr = frame_header (length payload) kind flags stream_id in
    let e1 : s.remaining ≡ pack_frame_header hdr ++ (payload ++ rest) =
      e ∙ append_assoc (pack_frame_header hdr) payload rest in
    let there : is_empty s.remaining ≡ false = ap is_empty e1 ∙ not_empty hdr (payload ++ rest) in
    let read =
      ap parse_frame e1
      ∙ parse_frame-pack_frame_header hdr payload rest
          (frame_header_fits payload kind flags stream_id h k) (omega arith) in
    rw (there, read) refl

no_padding :
    (hdr : FrameHeader) (payload : List ℕ)
    → has_flag hdr padded_flag ≡ false
    → pad_of hdr payload ≡ some (0, 0)
no_padding hdr [] e = rw e refl
no_padding hdr (b ∷ bs) e = rw e refl

whole : (payload : List ℕ) → unpadded payload (0, 0) ≡ some payload
whole payload = ground (arith, take_all (length payload) payload)

data_of_whole :
    (hdr : FrameHeader) (payload : List ℕ)
    → has_flag hdr padded_flag ≡ false
    → data_of hdr payload ≡ some payload
data_of_whole hdr payload e = rw (no_padding hdr payload e) (whole payload)

header_block_whole :
    (hdr : FrameHeader) (payload : List ℕ)
    → has_flag hdr padded_flag ≡ false
    → has_flag hdr priority_flag ≡ false
    → header_block_of hdr payload ≡ some payload
header_block_whole hdr payload e k = rw (no_padding hdr payload e, k) (whole payload)

-- The state behind frames that were read.
abbrev after : Parsing → List ℕ → List ℕ → ℕ → Parsing
after s rest body taken = record s {
  remaining = rest;
  cursor = s.cursor + taken;
  body_accumulator = s.body_accumulator ++ body;
}

unpadded_flags :
    (last : Bool)
    → (bit_and (if last then end_stream_flag else 0) padded_flag == padded_flag) ≡ false
unpadded_flags true = refl
unpadded_flags false = refl

last_flag :
    (last : Bool)
    → (bit_and (if last then end_stream_flag else 0) end_stream_flag == end_stream_flag) ≡ last
last_flag true = refl
last_flag false = refl

-- A DATA frame of the message's stream.
data_round :
    (n : ℕ) (is_request last : Bool) (s : Parsing) (stream_id : ℕ) (payload rest : List ℕ)
    → length payload < 2 ^ 24
    → stream_id < 2 ^ 31
    → (stream_id == s.stream_id) ≡ true
    → s.remaining
      ≡ frame_bytes data_frame (if last then end_stream_flag else 0) stream_id payload ++ rest
    → parse_loop (suc n) is_request s ≡ (
        if last
        then left (after s rest payload (header_size + length payload))
        else parse_loop n is_request (after s rest payload (header_size + length payload)))
data_round n is_request last s stream_id payload rest h k same e =
    let flags = if last then end_stream_flag else 0 in
    let hdr = frame_header (length payload) data_frame flags stream_id in
    let front = frame_bytes data_frame flags stream_id payload in
    let left_over : drop (header_size + length payload) s.remaining ≡ rest =
      ap (λ (m : ℕ). drop m s.remaining)
        (sym (length-frame_bytes data_frame flags stream_id payload))
      ∙ ap (drop (length front)) e
      ∙ drop-length_append front rest in
    round_at_frame n is_request s data_frame flags stream_id payload rest h k e
    ∙ rw (same, left_over, data_of_whole hdr payload (unpadded_flags last), last_flag last) refl

data_frames_nil : (k stream_id : ℕ) → data_frames k stream_id [] ≡ []
unfolding data_frames
data_frames_nil zero stream_id = refl
data_frames_nil (suc k) stream_id = refl

after_twice :
    (s : Parsing) (mid rest one two : List ℕ) (t u v : ℕ)
    → t + u ≡ v
    → after (after s mid one t) rest two u ≡ after s rest (one ++ two) v
after_twice s mid rest one two t u v e =
    ap₂ (λ (b : List ℕ) (c : ℕ). record s { remaining = rest; cursor = c; body_accumulator = b })
      (append_assoc s.body_accumulator one two) (omega (arith, e))

if_true : {A : Type 0} (x y : A) (b : Bool) → b ≡ true → (if b then x else y) ≡ x
if_true x y b e = ap (λ c. if c then x else y) e

if_false : {A : Type 0} (x y : A) (b : Bool) → b ≡ false → (if b then x else y) ≡ y
if_false x y b e = ap (λ c. if c then x else y) e

less_than : (a b : ℕ) → a ≤ b → (a == b) ≡ false → a < b
less_than a b h e = ground arith

after_same :
    (s : Parsing) {r1 r2 b1 b2 : List ℕ} {t1 t2 : ℕ}
    → r1 ≡ r2
    → b1 ≡ b2
    → t1 ≡ t2
    → left (after s r1 b1 t1) ≡ left (after s r2 b2 t2)
after_same s p q r = λ i. left (after s (p i) (q i) (r i))

-- The DATA frames of a body that is not empty are read as the body, up to the frame with END_STREAM.
pub parse_loop-data_frames :
    (k n : ℕ) (is_request : Bool) (s : Parsing) (stream_id : ℕ) (body rest : List ℕ)
    → 1 ≤ length body
    → length body ≤ k
    → length body ≤ n
    → stream_id < 2 ^ 31
    → (stream_id == s.stream_id) ≡ true
    → s.remaining ≡ data_frames k stream_id body ++ rest
    → parse_loop n is_request s ≡ left (after s rest body (length (data_frames k stream_id body)))
unfolding data_frames
parse_loop-data_frames k n is_request s stream_id [] rest one h m b same e = absurd (omega arith)
parse_loop-data_frames zero n is_request s stream_id (x ∷ xs) rest one h m b same e =
    absurd (omega arith)
parse_loop-data_frames (suc k) zero is_request s stream_id (x ∷ xs) rest one h m b same e =
    absurd (omega arith)
parse_loop-data_frames (suc k) (suc n) is_request s stream_id (x ∷ xs) rest one h m b same e =
    let body : List ℕ = x ∷ xs in
    let chunk_len = min (length body) max_frame_size in
    let last = chunk_len == length body in
    let chunk = take chunk_len body in
    let others = data_frames k stream_id (drop chunk_len body) in
    let front = frame_bytes data_frame (if last then end_stream_flag else 0) stream_id chunk in
    let total = length (data_frames (suc k) stream_id (x ∷ xs)) in
    let sizes : header_size + length chunk + length others ≡ total = omega (
      arith,
      length-append front others,
      length-frame_bytes data_frame (if last then end_stream_flag else 0) stream_id chunk,
    ) in
    data_round n is_request last s stream_id chunk (others ++ rest)
      (omega (arith, length-take chunk_len body)) b same (e ∙ append_assoc front others rest)
    ∙ elim (Bool-cases last) [
      | inl t ↦
          let every : length body ≤ chunk_len = omega (arith, ==→≡ chunk_len (length body) t) in
          let no_others : others ≡ [] =
            ap (data_frames k stream_id) (drop_all chunk_len body every)
            ∙ data_frames_nil k stream_id in
          if_true _ _ last t
          ∙ after_same s (ap (λ (l : List ℕ). l ++ rest) no_others) (take_all chunk_len body every)
              (omega (arith, sizes, ap length no_others))
      | inr f ↦
          let fewer : chunk_len < length body = less_than chunk_len (length body) (omega arith) f in
          let s1 : Parsing = after s (others ++ rest) chunk (header_size + length chunk) in
          if_false _ _ last f
          ∙ parse_loop-data_frames k n is_request s1 stream_id (drop chunk_len body) rest
              (omega (arith, length-drop chunk_len body))
              (omega (arith, length-drop chunk_len body))
              (omega (arith, length-drop chunk_len body)) b same refl
          ∙ ap left (
              after_twice s (others ++ rest) rest chunk (drop chunk_len body)
                (header_size + length chunk) (length others) total sizes)
          ∙ after_same s refl (take-append-drop chunk_len body) refl
    ]

headers_not_padded : (e : Bool) → (bit_and (headers_flags e) padded_flag == padded_flag) ≡ false
headers_not_padded true = refl
headers_not_padded false = refl

headers_no_priority :
    (e : Bool) → (bit_and (headers_flags e) priority_flag == priority_flag) ≡ false
headers_no_priority true = refl
headers_no_priority false = refl

headers_end : (e : Bool) → (bit_and (headers_flags e) end_stream_flag == end_stream_flag) ≡ e
headers_end true = refl
headers_end false = refl

-- The HEADERS frame of a message.
headers_round :
    (n : ℕ) (is_request end_stream : Bool) (s : Parsing) (stream_id : ℕ) (block rest : List ℕ)
    (hs : List Header)
    → length block < 2 ^ 24
    → stream_id < 2 ^ 31
    → s.remaining ≡ frame_bytes headers_frame (headers_flags end_stream) stream_id block ++ rest
    → decode_header_block default_max_header_list_size block s.decoded_headers s.working_dt
      ≡ decoded hs s.working_dt
    → let s1 : Parsing = record s {
      remaining = rest;
      cursor = s.cursor + (header_size + length block);
      stream_id = stream_id;
      decoded_headers = hs;
      headers_received = true;
    } in
      parse_loop (suc n) is_request s ≡ (if end_stream then left s1 else parse_loop n is_request s1)
headers_round n is_request end_stream s stream_id block rest hs h k e d =
    let flags = headers_flags end_stream in
    let hdr = frame_header (length block) headers_frame flags stream_id in
    let front = frame_bytes headers_frame flags stream_id block in
    let left_over : drop (header_size + length block) s.remaining ≡ rest =
      ap (λ (m : ℕ). drop m s.remaining)
        (sym (length-frame_bytes headers_frame flags stream_id block))
      ∙ ap (drop (length front)) e
      ∙ drop-length_append front rest in
    round_at_frame n is_request s headers_frame flags stream_id block rest h k e
    ∙ rw
        (
          left_over,
          header_block_whole hdr block (headers_not_padded end_stream)
              (headers_no_priority end_stream),
          d,
          headers_end end_stream,
        )
        refl

length-data_frames :
    (k stream_id : ℕ) (body : List ℕ)
    → length body ≤ k
    → length body ≤ length (data_frames k stream_id body)
unfolding data_frames
length-data_frames zero stream_id body h = omega arith
length-data_frames (suc k) stream_id [] h = omega arith
length-data_frames (suc k) stream_id (x ∷ xs) h =
    let body : List ℕ = x ∷ xs in
    let chunk_len = min (length body) max_frame_size in
    let flags = if chunk_len == length body then end_stream_flag else 0 in
    omega (
      arith,
      length-append (frame_bytes data_frame flags stream_id (take chunk_len body))
          (data_frames k stream_id (drop chunk_len body)),
      length-frame_bytes data_frame flags stream_id (take chunk_len body),
      length-take chunk_len body,
      length-drop chunk_len body,
      length-data_frames k stream_id (drop chunk_len body)
          (omega (arith, length-drop chunk_len body)),
    )

equal : (a : ℕ) → (a == a) ≡ true
equal a = ground arith

ended :
    (s : Parsing) (stream_id : ℕ) (hs : List Header) (rest : List ℕ) {c1 c2 : ℕ} {b1 b2 : List ℕ}
    → c1 ≡ c2
    → b1 ≡ b2
    → left (record s {
      remaining = rest;
      cursor = c1;
      stream_id = stream_id;
      decoded_headers = hs;
      headers_received = true;
      body_accumulator = b1;
    })
      ≡ left (record s {
        remaining = rest;
        cursor = c2;
        stream_id = stream_id;
        decoded_headers = hs;
        headers_received = true;
        body_accumulator = b2;
      })
ended s stream_id hs rest p q = λ i. left (record s {
  remaining = rest;
  cursor = p i;
  stream_id = stream_id;
  decoded_headers = hs;
  headers_received = true;
  body_accumulator = q i;
})

-- The frames of a message, with anything behind them, are read as its headers and its body, and exactly they are
-- consumed.
pub parse_loop-message_frames :
    (n : ℕ) (is_request : Bool) (s : Parsing) (stream_id : ℕ) (block body rest : List ℕ)
    (hs : List Header)
    → length block < 2 ^ 24
    → stream_id < 2 ^ 31
    → s.body_accumulator ≡ []
    → length s.remaining ≤ n
    → s.remaining ≡ message_frames block stream_id body ++ rest
    → decode_header_block default_max_header_list_size block s.decoded_headers s.working_dt
      ≡ decoded hs s.working_dt
    → parse_loop (suc n) is_request s
      ≡ left (record s {
        remaining = rest;
        cursor = s.cursor + length (message_frames block stream_id body);
        stream_id = stream_id;
        decoded_headers = hs;
        headers_received = true;
        body_accumulator = body;
      })
parse_loop-message_frames n is_request s stream_id block [] rest hs h k none_yet m e d =
    let front = frame_bytes headers_frame (headers_flags true) stream_id block in
    let alone : front ++ data_frames 0 stream_id [] ≡ front =
      ap (λ (l : List ℕ). front ++ l) (data_frames_nil 0 stream_id) ∙ append-nil front in
    headers_round n is_request true s stream_id block rest hs h k
      (e ∙ ap (λ (l : List ℕ). l ++ rest) alone) d
    ∙ ended s stream_id hs rest
        (omega (
          arith,
          ap length alone,
          length-frame_bytes headers_frame (headers_flags true) stream_id block,
        ))
        none_yet
parse_loop-message_frames n is_request s stream_id block (x ∷ xs) rest hs h k none_yet m e d =
    let body : List ℕ = x ∷ xs in
    let front = frame_bytes headers_frame (headers_flags false) stream_id block in
    let others = data_frames (length body) stream_id body in
    let sizes : header_size + length block + length others
        ≡ length (message_frames block stream_id body) =
      omega (
        arith,
        length-append front others,
        length-frame_bytes headers_frame (headers_flags false) stream_id block,
      ) in
    let bytes : length s.remaining ≡ length (message_frames block stream_id body) + length rest =
      ap length e ∙ length-append (message_frames block stream_id body) rest in
    let s1 : Parsing = record s {
      remaining = others ++ rest;
      cursor = s.cursor + (header_size + length block);
      stream_id = stream_id;
      decoded_headers = hs;
      headers_received = true;
    } in
    headers_round n is_request false s stream_id block (others ++ rest) hs h k
      (e ∙ append_assoc front others rest) d
    ∙ parse_loop-data_frames (length body) n is_request s1 stream_id body rest (omega arith)
        (omega arith)
        (omega
          (arith, m, bytes, sizes, length-data_frames (length body) stream_id body (omega arith)))
        k (equal stream_id) refl
    ∙ ended s stream_id hs rest (omega (arith, sizes)) (ap (λ (l : List ℕ). l ++ body) none_yet)
