-- ===== src/Protos/Http2/Parser/RoundTrip.antt =====
-- A message that was serialized is parsed as it was.
use wave_x.Prelude.{
  ℕ, zero, suc, ◌+◌, ◌-◌, ◌*◌, ◌/◌, ◌%◌, ◌^◌, ◌≤◌, ◌<◌, ◌≡◌, refl, sym, ap, ◌∙◌, Bool, true, false,
  List, [], ◌∷◌, ◌++◌, leb, ◌==◌, ◌&&◌, if◌then◌else◌, length, arith, append_assoc, append-nil, map,
  chars, inr, lt→ltb, not_lt→ltb,
}
use mathlib.Core.Path.{ap₂}
use native.Mathlib.Decide.{dec_lt}
use native.Mathlib.Nat.{pow-suc}
use wave_x.Protos.Http1.{
  Header, Method, is_empty, bytes_eq, from_string, to_string, status_text_for, to_chars, digits_of,
}
use wave_x.Protos.Http1.Proofs.{from_string-to_string}
use wave_x.Protos.Http2.Frame.{pack_frame_header}
use wave_x.Protos.Http2.Message.{Request, Response}
use wave_x.Protos.Http2.Encoder.{message_frames, serialize_request, serialize_into, serialize}
use wave_x.Protos.Http2.Hpack.Encoder.{
  encode_request_headers, encode_response_headers, is_pseudo, tolower, scheme_or_https,
  path_or_root,
}
use wave_x.Protos.Http2.Hpack.DynamicTable.{DynamicTable}
use wave_x.Protos.Http2.Hpack.Decoder.{field, list_size_of}
use wave_x.Protos.Http2.Hpack.RoundTrip.{HasRoom}
use wave_x.Protos.Http2.Hpack.Sent.{
  sent_fields, sent_request, decode-encode_request_headers, decode-encode_response_headers,
}
use wave_x.Protos.Http2.Parser.{
  Parsing, parse_loop, parse_request, parse_response, parsed, connection_preface, preface_size,
  start_parsing, end_request, end_response, finish_request, Storage, new_storage, store_header,
  store_headers, store_response, digits_value, has_digit, parsed_code, default_max_header_list_size,
}
use wave_x.Protos.Http2.Frame.{success}
use wave_x.Protos.Http2.Parser.FramesBack.{parse_loop-message_frames}

false_behind : (a b c : Bool) → (a && (b && (c && false))) ≡ false
false_behind true true true = refl
false_behind true true false = refl
false_behind true false c = refl
false_behind false b c = refl

other_kind : (bs rest : List ℕ) (b0 b1 b2 : ℕ) → bs ≡ b0 ∷ b1 ∷ b2 ∷ 1 ∷ rest → preface_size bs ≡ 0
other_kind bs rest b0 b1 b2 e =
    ap preface_size e
    ∙ ap (λ (b : Bool). if b then length connection_preface else 0)
        (false_behind (b0 == 80) (b1 == 82) (b2 == 73))

-- Frames of a message are no connection preface: its fourth byte is no kind of frame that stands here.
no_preface :
    (block body more : List ℕ) (stream_id : ℕ)
    → preface_size (message_frames block stream_id body ++ more) ≡ 0
unfolding pack_frame_header
no_preface block body more stream_id =
    other_kind (message_frames block stream_id body ++ more) _ _ _ _ refl

tolower_pseudo : (n : List ℕ) → is_pseudo n ≡ false → is_pseudo (map tolower n) ≡ false
tolower_pseudo [] e = refl
tolower_pseudo (c ∷ cs) e = ground arith

other_name : (n ps : List ℕ) → is_pseudo n ≡ false → bytes_eq n (58 ∷ ps) ≡ false
other_name [] ps e = refl
other_name (c ∷ cs) ps e = ap (λ (b : Bool). b && bytes_eq cs ps) e

store_plain :
    (h : Header) (s : Storage)
    → is_pseudo h.name ≡ false
    → store_header h s ≡ record s { headers_storage = s.headers_storage ++ (h ∷ []) }
unfolding store_header
store_plain h s e =
    rw
      (
        other_name h.name (chars "method") e,
        other_name h.name (chars "path") e,
        other_name h.name (chars "scheme") e,
        other_name h.name (chars "authority") e,
        other_name h.name (chars "protocol") e,
      )
      refl

store_headers-sent_fields :
    (hs : List Header) (s : Storage)
    → store_headers (sent_fields hs) s
      ≡ record s { headers_storage = s.headers_storage ++ sent_fields hs }
unfolding store_headers sent_fields
store_headers-sent_fields [] s =
    ap (λ (l : List Header). record s { headers_storage = l }) (sym (append-nil s.headers_storage))
store_headers-sent_fields (h ∷ hs) s = go (is_pseudo h.name) refl (store_headers-sent_fields hs)
  where
    go :
        (pseudo : Bool)
        → is_pseudo h.name ≡ pseudo
        → ((t : Storage)
            → store_headers (sent_fields hs) t
              ≡ record t { headers_storage = t.headers_storage ++ sent_fields hs })
        → let sent =
            if pseudo
            then sent_fields hs
            else field (map tolower h.name) h.value ∷ sent_fields hs in
          store_headers sent s ≡ record s { headers_storage = s.headers_storage ++ sent }
    go true e ih = ih s
    go false e ih =
        let f : Header = field (map tolower h.name) h.value in
        ap (store_headers (sent_fields hs)) (store_plain f s (tolower_pseudo h.name e))
        ∙ ih (record s { headers_storage = s.headers_storage ++ (f ∷ []) })
        ∙ ap (λ (l : List Header). record s { headers_storage = l })
            (append_assoc s.headers_storage (f ∷ []) (sent_fields hs))

authority_part :
    (authority : List ℕ) (hs : List Header) (s : Storage)
    → s.authority_storage ≡ []
    → s.headers_storage ≡ []
    → store_headers
        ((if is_empty authority then [] else field (chars ":authority") authority ∷ [])
          ++ sent_fields hs)
        s
      ≡ record s { authority_storage = authority; headers_storage = sent_fields hs }
unfolding store_headers store_header
authority_part [] hs s a e =
    store_headers-sent_fields hs s
    ∙ ap₂
        (λ (b : List ℕ) (l : List Header). record s {
          authority_storage = b;
          headers_storage = l ++ sent_fields hs;
        })
        a e
authority_part (c ∷ cs) hs s a e =
    store_headers-sent_fields hs (record s { authority_storage = c ∷ cs })
    ∙ ap
        (λ (l : List Header). record s {
          authority_storage = c ∷ cs;
          headers_storage = l ++ sent_fields hs;
        })
        e

-- The storage that a sent request fills.
store_headers-sent_request :
    (req : Request) (m0 : Method)
    → store_headers
        (sent_request req.method_type req.target req.scheme req.authority req.headers)
        (new_storage m0)
      ≡ record {
        method_type = req.method_type;
        target_storage = path_or_root req.target;
        scheme_storage = scheme_or_https req.scheme;
        authority_storage = req.authority;
        protocol = [];
        headers_storage = sent_fields req.headers;
      }
unfolding store_headers store_header sent_request
store_headers-sent_request req m0 =
    authority_part req.authority req.headers
      (record (new_storage (from_string (to_string req.method_type))) {
        target_storage = path_or_root req.target;
        scheme_storage = scheme_or_https req.scheme;
      })
      refl refl
    ∙ ap
        (λ (m : Method). record {
          method_type = m;
          target_storage = path_or_root req.target;
          scheme_storage = scheme_or_https req.scheme;
          authority_storage = req.authority;
          protocol = [];
          headers_storage = sent_fields req.headers;
        })
        (from_string-to_string req.method_type)

scheme_kept :
    (scheme : List ℕ)
    → (if is_empty (scheme_or_https scheme) then chars "https" else scheme_or_https scheme)
      ≡ scheme_or_https scheme
scheme_kept [] = refl
scheme_kept (c ∷ cs) = refl

-- What the peer has of a request.
pub received : Request → Request
received req = record req {
  target = path_or_root req.target;
  scheme = scheme_or_https req.scheme;
  protocol = [];
  headers = sent_fields req.headers;
}

-- A request that was serialized, with anything behind it, is parsed as success, and exactly its bytes are consumed:
-- the same method, authority, body and stream; "/" for an empty target and "https" for an empty scheme; the fields
-- with their names in small letters and without pseudo-headers; whatever the message was before, and with the
-- caller's table as it was. The header block is shorter than 2^24 bytes, the stream's id below 2^31, and the header
-- list within 65536 octets.
pub parse-serialize_request :
    (req req0 : Request) (dt : DynamicTable) (more : List ℕ)
    → length
        (encode_request_headers req.method_type req.target req.scheme req.authority req.headers)
      < 2 ^ 24
    → req.stream_id < 2 ^ 31
    → list_size_of (sent_request req.method_type req.target req.scheme req.authority req.headers)
      ≤ 65536
    → parse_request (serialize_request req ++ more) req0 dt
      ≡ parsed success (received req) (length (serialize_request req)) dt
unfolding parse_request serialize_request finish_request received HasRoom
parse-serialize_request req req0 dt more b k r =
    let block =
      encode_request_headers req.method_type req.target req.scheme req.authority req.headers in
    let hs = sent_request req.method_type req.target req.scheme req.authority req.headers in
    let buffer = serialize_request req ++ more in
    let p : Parsing = record {
      remaining = more;
      cursor = 0 + length (serialize_request req);
      stream_id = req.stream_id;
      decoded_headers = hs;
      headers_received = true;
      body_accumulator = req.body;
      working_dt = dt;
    } in
    ap
      (λ (c : ℕ).
        end_request req0 dt
          (parse_loop (suc (length buffer)) true (start_parsing buffer c req0.stream_id dt)))
      (no_preface block req.body more req.stream_id)
    ∙ ap (end_request req0 dt) (
        parse_loop-message_frames (length buffer) true (start_parsing buffer 0 req0.stream_id dt)
          req.stream_id block req.body more hs b k refl (omega arith) refl
          (decode-encode_request_headers req.method_type req.target req.scheme req.authority
            default_max_header_list_size req.headers [] dt (omega arith) (inr r)))
    ∙ ap (finish_request req0 dt p) (store_headers-sent_request req req0.method_type)
    ∙ ap₂
        (λ (scheme : List ℕ) (n : ℕ).
          parsed success (record (received req) { scheme = scheme }) n dt)
        (scheme_kept req.scheme) (omega arith)

is_digit : (d : ℕ) → d < 10 → (leb 48 (48 + d) && leb (48 + d) 57) ≡ true
is_digit d h = ground arith

positive : (n v : ℕ) → v < 10 ^ n → 1 ≤ v → 1 ≤ n
positive zero v h p = absurd (omega arith)
positive (suc n) v h p = omega arith

digit_front :
    (d u : ℕ) (acc : List ℕ)
    → d < 10
    → digits_value ((48 + d) ∷ acc) u ≡ digits_value acc (u * 10 + d)
unfolding digits_value
digit_front d u acc h =
    rw (is_digit d h)
      (ap (digits_value acc) {x = u * 10 + (48 + d - 48)} {y = u * 10 + d} (omega arith))

-- The digits of a number are read back.
digits_value-digits_of :
    (n v : ℕ) (acc : List ℕ)
    → v < 10 ^ n
    → 1 ≤ n
    → (digits_value (digits_of n v acc) 0 ≡ digits_value acc v)
      × (has_digit (digits_of n v acc) ≡ true)
digits_value-digits_of zero v acc h p = absurd (omega arith)
digits_value-digits_of (suc n) v acc h p = elim (dec_lt v 10) [
  | yes q ↦ rw (lt→ltb v 10 q) (
    digit_front v 0 acc q ∙ ap (digits_value acc) {x = 0 * 10 + v} {y = v} (omega arith),
    is_digit v q,
  )
  | no q ↦
      let bound : v / 10 < 10 ^ n = omega (arith, pow-suc 10 n) in
      let some_left : 1 ≤ n = positive n (v / 10) bound (omega arith) in
      let (value, digit) =
        digits_value-digits_of n (v / 10) ((48 + v % 10) ∷ acc) bound some_left in
      rw (not_lt→ltb v 10 q) (
        value
            ∙ digit_front (v % 10) (v / 10) acc (omega arith)
            ∙ ap (digits_value acc) {x = v / 10 * 10 + v % 10} {y = v} (omega arith),
        digit,
      )
]

parsed_code_of :
    (cs : List ℕ) (v : ℕ)
    → digits_value cs 0 ≡ v
    → has_digit cs ≡ true
    → v < 2 ^ 32
    → parsed_code cs % 2 ^ 32 ≡ v
parsed_code_of cs v e d h = rw (e, d, lt→ltb v (2 ^ 64) (omega arith)) (omega arith)

parsed_code-to_chars : (v : ℕ) → v < 2 ^ 32 → parsed_code (to_chars v) % 2 ^ 32 ≡ v
unfolding to_chars digits_value
parsed_code-to_chars v h =
    let both = digits_value-digits_of 20 v [] (omega arith) (omega arith) in
    parsed_code_of (digits_of 20 v []) v (both.0) (both.1) h

store_response-sent_fields :
    (hs : List Header) (res : Response)
    → store_response (sent_fields hs) res ≡ record res { headers = res.headers ++ sent_fields hs }
unfolding store_response sent_fields
store_response-sent_fields [] res =
    ap (λ (l : List Header). record res { headers = l }) (sym (append-nil res.headers))
store_response-sent_fields (h ∷ hs) res = go (is_pseudo h.name) refl (store_response-sent_fields hs)
  where
    go :
        (pseudo : Bool)
        → is_pseudo h.name ≡ pseudo
        → ((r : Response)
            → store_response (sent_fields hs) r
              ≡ record r { headers = r.headers ++ sent_fields hs })
        → let sent =
            if pseudo
            then sent_fields hs
            else field (map tolower h.name) h.value ∷ sent_fields hs in
          store_response sent res ≡ record res { headers = res.headers ++ sent }
    go true e ih = ih res
    go false e ih =
        let f : Header = field (map tolower h.name) h.value in
        rw
          (
            store_response,
            other_name (map tolower h.name) (chars "status") (tolower_pseudo h.name e),
          )
          (ih (record res { headers = res.headers ++ (f ∷ []) })
            ∙ ap (λ (l : List Header). record res { headers = l })
                (append_assoc res.headers (f ∷ []) (sent_fields hs)))

-- What the peer has of a response.
pub received_response : Response → Response
received_response res = record res {
  status_text = status_text_for res.status_code;
  headers = sent_fields res.headers;
}

-- A response that was serialized, with anything behind it, is parsed as success, and exactly its bytes are consumed:
-- the same status code, with the standard text for it, body and stream, and the fields with their names in small
-- letters and without pseudo-headers; whatever the message was before, and with the caller's table as it was. The
-- header block is shorter than 2^24 bytes, the stream's id below 2^31, the code below 2^32, and the header list
-- within 65536 octets.
pub parse-serialize_response :
    (res res0 : Response) (dt : DynamicTable) (more : List ℕ)
    → length (encode_response_headers res.status_code res.headers) < 2 ^ 24
    → res.stream_id < 2 ^ 31
    → res.status_code < 2 ^ 32
    → list_size_of (field (chars ":status") (to_chars res.status_code) ∷ sent_fields res.headers)
      ≤ 65536
    → parse_response (serialize res ++ more) res0 dt
      ≡ parsed success (received_response res) (length (serialize res)) dt
unfolding parse_response serialize_into store_response received_response HasRoom
parse-serialize_response res res0 dt more b k c r =
    let block = encode_response_headers res.status_code res.headers in
    let hs : List Header =
      field (chars ":status") (to_chars res.status_code) ∷ sent_fields res.headers in
    let buffer = serialize res ++ more in
    ap (end_response res0 dt) (
      parse_loop-message_frames (length buffer) false (start_parsing buffer 0 res0.stream_id dt)
        res.stream_id block res.body more hs b k refl (omega arith) refl
        (decode-encode_response_headers res.status_code default_max_header_list_size res.headers []
          dt (omega arith) (inr r)))
    ∙ ap₂ (λ (m : Response) (n : ℕ). parsed success m n dt)
        (store_response-sent_fields res.headers _
          ∙ ap
              (λ (code : ℕ). record (received_response res) {
                status_code = code;
                status_text = status_text_for code;
              })
              (parsed_code-to_chars res.status_code c))
        (omega arith)
