-- ===== src/Protos/Http2/Parser.antt =====
-- include/wavex/protos/http/http2codec.hpp, class parser: parse_request and parse_response over the bytes that
-- have arrived. Their loops differ in two results alone, so the model has one loop with the kind of the message.
pub mod Commit
pub mod FramesBack
pub mod RoundTrip
use wave_x.Prelude.{
  ℕ, zero, suc, ◌+◌, ◌-◌, ◌*◌, ◌%◌, ◌^◌, Bool, true, false, Option, none, some, List, [], ◌∷◌, ◌++◌,
  ltb, leb, ◌==◌, ◌&&◌, ◌||◌, not, if◌then◌else◌, length, take, drop, chars, ◌>>=◌,
}
use wave_x.Protos.Http1.{Header, Method, is_empty, bytes_eq, from_string, status_text_for, connect}
use wave_x.Protos.Http2.Frame.{
  FrameHeader, has_flag, data_frame, headers_frame, settings_frame, end_stream_flag, padded_flag,
  priority_flag, Result, success, incomplete, error, headers_too_large, FrameRead, framed, unframed,
  parse_frame,
}
use wave_x.Protos.Http2.Message.{Request, Response}
use wave_x.Protos.Http2.Hpack.DynamicTable.{DynamicTable}
use wave_x.Protos.Http2.Hpack.Decoder.{
  BlockResult, decoded, failed, undefined_block, out_of_fuel, decode_header_block,
}

-- CONNECTION_PREFACE
abbrev pub connection_preface : List ℕ
connection_preface = chars "PRI * HTTP/2.0\r\n\r\nSM\r\n\r\n"

abbrev pub starts_with : List ℕ → List ℕ → Bool
starts_with bs [] = true
starts_with [] (p ∷ ps) = false
starts_with (b ∷ bs) (p ∷ ps) = (b == p) && starts_with bs ps

-- kDefaultMaxHeaderListSize
abbrev pub default_max_header_list_size : ℕ
default_max_header_list_size = 65536

-- The padding's length and the cursor behind it.
abbrev pub pad_of : FrameHeader → List ℕ → Option (ℕ × ℕ)
pad_of hdr [] = if has_flag hdr padded_flag then none else some (0, 0)
pad_of hdr (b ∷ bs) = some (if has_flag hdr padded_flag then (b, 1) else (0, 0))

abbrev pub skip_priority : FrameHeader → List ℕ → ℕ × ℕ → Option (ℕ × ℕ)
skip_priority hdr payload (pad_len, cursor) =
    if has_flag hdr priority_flag
    then (if ltb (length payload) (cursor + 5) then none else some (pad_len, cursor + 5))
    else some (pad_len, cursor)

-- What is left of a payload without its padding.
abbrev pub unpadded : List ℕ → ℕ × ℕ → Option (List ℕ)
unpadded payload (pad_len, cursor) =
    if ltb (length payload) (cursor + pad_len)
    then none
    else some (take (length payload - cursor - pad_len) (drop cursor payload))

abbrev pub header_block_of : FrameHeader → List ℕ → Option (List ℕ)
header_block_of hdr payload = pad_of hdr payload >>= skip_priority hdr payload >>= unpadded payload

abbrev pub data_of : FrameHeader → List ℕ → Option (List ℕ)
data_of hdr payload = pad_of hdr payload >>= unpadded payload

-- The variables of the loop: the bytes from the cursor on, and the stream id of the message.
pub record Parsing : Type 0 where
  pub remaining : List ℕ
  pub cursor : ℕ
  pub stream_id : ℕ
  pub decoded_headers : List Header
  pub headers_received : Bool
  pub body_accumulator : List ℕ
  pub working_dt : DynamicTable

-- How the loop ends: it is left, the function returns, it reaches undefined behaviour, or the fuel runs out.
pub data LoopEnd : Type 0 where
  left : Parsing → LoopEnd
  returns : Result → ℕ → LoopEnd
  undefined_loop : LoopEnd
  no_fuel : LoopEnd

-- A failure of parse_frame.
abbrev pub frame_failure : Bool → Bool → Result → Result
frame_failure is_request headers_received r =
    if is_request then r else if headers_received then incomplete else r

-- A failure of decode_header_block.
abbrev pub block_failure : Bool → Bool → Result
block_failure is_request limit_exceeded =
    if is_request && limit_exceeded then headers_too_large else error

abbrev pub with_headers : (Parsing → LoopEnd) → Bool → FrameHeader → Parsing → BlockResult → LoopEnd
with_headers more is_request hdr s (decoded hs dt) =
    let s1 : Parsing = record s {
      decoded_headers = hs;
      headers_received = true;
      working_dt = dt;
    } in
    let next = more s1 in if has_flag hdr end_stream_flag then left s1 else next
with_headers more is_request hdr s (failed limit) =
    returns (block_failure is_request limit) s.stream_id
with_headers more is_request hdr s undefined_block = undefined_loop
with_headers more is_request hdr s out_of_fuel = no_fuel

abbrev pub on_headers :
    (Parsing → LoopEnd) → Bool → FrameHeader → Parsing → Option (List ℕ) → LoopEnd
on_headers more is_request hdr s none = returns error s.stream_id
on_headers more is_request hdr s (some block) =
    with_headers more is_request hdr s
      (decode_header_block default_max_header_list_size block s.decoded_headers s.working_dt)

abbrev pub on_data : (Parsing → LoopEnd) → FrameHeader → Parsing → Option (List ℕ) → LoopEnd
on_data more hdr s none = returns error s.stream_id
on_data more hdr s (some bytes) =
    let s1 : Parsing = record s { body_accumulator = s.body_accumulator ++ bytes } in
    let next = more s1 in if has_flag hdr end_stream_flag then left s1 else next

-- The body of the loop after parse_frame.
abbrev pub on_frame : (Parsing → LoopEnd) → Bool → Parsing → FrameRead → LoopEnd
on_frame more is_request s (unframed r) =
    returns (frame_failure is_request s.headers_received r) s.stream_id
on_frame more is_request s (framed hdr payload frame_bytes) =
    let s1 : Parsing = record s {
      remaining = drop frame_bytes s.remaining;
      cursor = s.cursor + frame_bytes;
    } in
    if hdr.kind == settings_frame
    then more s1
    else if hdr.kind == headers_frame
    then on_headers more is_request hdr (record s1 { stream_id = hdr.stream_id })
        (header_block_of hdr payload)
    else if hdr.kind == data_frame
    then (if hdr.stream_id == s.stream_id
        then on_data more hdr s1 (data_of hdr payload)
        else more s1)
    else more s1

-- The loop. A frame has nine bytes at least, so as many rounds as bytes are enough.
unfoldable pub parse_loop : ℕ → Bool → Parsing → LoopEnd
parse_loop zero is_request s = no_fuel
parse_loop (suc n) is_request s =
    if is_empty s.remaining
    then left s
    else on_frame (parse_loop n is_request) is_request s (parse_frame s.remaining)

-- What a parse gives: the result, the message, `bytes_consumed` and the caller's table; undefined behaviour; or no
-- result within the fuel. After a failure the views into the strings that were cleared are not read.
pub data Parsed (M : Type 0) : Type 0 where
  parsed : Result → M → ℕ → DynamicTable → Parsed M
  undefined_parse : Parsed M
  parse_no_fuel : Parsed M

abbrev pub start_parsing : List ℕ → ℕ → ℕ → DynamicTable → Parsing
start_parsing buffer cursor stream_id dt = record {
  remaining = drop cursor buffer;
  cursor = cursor;
  stream_id = stream_id;
  decoded_headers = [];
  headers_received = false;
  body_accumulator = [];
  working_dt = dt;
}

-- The strings that the decoded headers go into.
pub record Storage : Type 0 where
  pub method_type : Method
  pub target_storage : List ℕ
  pub scheme_storage : List ℕ
  pub authority_storage : List ℕ
  pub protocol : List ℕ
  pub headers_storage : List Header

abbrev pub new_storage : Method → Storage
new_storage m = record {
  method_type = m;
  target_storage = [];
  scheme_storage = [];
  authority_storage = [];
  protocol = [];
  headers_storage = [];
}

-- The body of the loop over the decoded headers.
unfoldable pub store_header : Header → Storage → Storage
store_header h s =
    if bytes_eq h.name (chars ":method")
    then record s { method_type = from_string h.value }
    else if bytes_eq h.name (chars ":path")
    then record s { target_storage = h.value }
    else if bytes_eq h.name (chars ":scheme")
    then record s { scheme_storage = h.value }
    else if bytes_eq h.name (chars ":authority")
    then record s { authority_storage = h.value }
    else if bytes_eq h.name (chars ":protocol")
    then record s { protocol = h.value }
    else record s { headers_storage = s.headers_storage ++ (h ∷ []) }

unfoldable pub store_headers : List Header → Storage → Storage
store_headers [] s = s
store_headers (h ∷ hs) s = store_headers hs (store_header h s)

abbrev pub is_connect : Method → Bool
is_connect Method.connect = true
is_connect m = false

-- RFC 8441, 4: `:protocol` without what it needs.
abbrev pub bad_protocol : Storage → Bool
bad_protocol s =
    not (is_empty s.protocol)
    && (not (is_connect s.method_type)
        || (is_empty s.target_storage
            || (is_empty s.scheme_storage || is_empty s.authority_storage)))

abbrev pub cleared_request : Request → Request
cleared_request req = record req { headers = []; protocol = []; body = [] }

-- The end of parse_request, with the storage filled.
unfoldable pub finish_request : Request → DynamicTable → Parsing → Storage → Parsed Request
finish_request req dt p s =
    if bad_protocol s
    then parsed error
        (record (cleared_request req) {
          method_type = s.method_type;
          protocol = s.protocol;
          stream_id = p.stream_id;
        })
        0 dt
    else parsed success
        (record {
          method_type = s.method_type;
          target = s.target_storage;
          scheme = if is_empty s.scheme_storage then chars "https" else s.scheme_storage;
          authority = s.authority_storage;
          protocol = s.protocol;
          headers = s.headers_storage;
          body = p.body_accumulator;
          stream_id = p.stream_id;
        })
        p.cursor p.working_dt

abbrev pub end_request : Request → DynamicTable → LoopEnd → Parsed Request
end_request req dt (left p) =
    if not p.headers_received
    then parsed incomplete (record (cleared_request req) { stream_id = p.stream_id }) 0 dt
    else finish_request req dt p (store_headers p.decoded_headers (new_storage req.method_type))
end_request req dt (returns r stream_id) =
    parsed r (record (cleared_request req) { stream_id = stream_id }) 0 dt
end_request req dt undefined_loop = undefined_parse
end_request req dt no_fuel = parse_no_fuel

-- The cursor behind the connection preface, if there is one.
abbrev pub preface_size : List ℕ → ℕ
preface_size buffer = if starts_with buffer connection_preface then length connection_preface else 0

unfoldable pub parse_request : List ℕ → Request → DynamicTable → Parsed Request
parse_request buffer req dt = end_request req dt (
    parse_loop (suc (length buffer)) true
      (start_parsing buffer (preface_size buffer) req.stream_id dt))

-- std::from_chars of a `size_t`: the digits in front, if there are any and the number fits in 64 bits.
unfoldable pub digits_value : List ℕ → ℕ → ℕ
digits_value [] v = v
digits_value (c ∷ cs) v =
    let rest = digits_value cs (v * 10 + (c - 48)) in if leb 48 c && leb c 57 then rest else v

abbrev pub has_digit : List ℕ → Bool
has_digit [] = false
has_digit (c ∷ cs) = leb 48 c && leb c 57

abbrev pub parsed_code : List ℕ → ℕ
parsed_code value =
    let v = digits_value value 0 in if has_digit value && ltb v (2 ^ 64) then v else 200

-- The loop over the decoded headers of a response.
unfoldable pub store_response : List Header → Response → Response
store_response [] res = res
store_response (h ∷ hs) res =
    let code = parsed_code h.value % 2 ^ 32 in
    store_response hs (
      if bytes_eq h.name (chars ":status")
      then record res { status_code = code; status_text = status_text_for code }
      else record res { headers = res.headers ++ (h ∷ []) })

abbrev pub cleared_response : Response → Response
cleared_response res = record res { headers = []; body = [] }

abbrev pub end_response : Response → DynamicTable → LoopEnd → Parsed Response
end_response res dt (left p) =
    if not p.headers_received
    then parsed incomplete (record (cleared_response res) { stream_id = p.stream_id }) 0 dt
    else parsed success
        (store_response p.decoded_headers
          (record (cleared_response res) { body = p.body_accumulator; stream_id = p.stream_id }))
        p.cursor p.working_dt
end_response res dt (returns r stream_id) =
    parsed r (record (cleared_response res) { stream_id = stream_id }) 0 dt
end_response res dt undefined_loop = undefined_parse
end_response res dt no_fuel = parse_no_fuel

unfoldable pub parse_response : List ℕ → Response → DynamicTable → Parsed Response
parse_response buffer res dt =
    end_response res dt
      (parse_loop (suc (length buffer)) false (start_parsing buffer 0 res.stream_id dt))
