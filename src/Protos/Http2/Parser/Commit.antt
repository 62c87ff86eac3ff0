-- ===== src/Protos/Http2/Parser/Commit.antt =====
-- The parser comes to an end, stays within its buffer, and touches the caller's table on success alone.
use wave_x.Prelude.{
  ℕ, zero, suc, ◌+◌, ◌≤◌, ◌<◌, ◌≡◌, refl, Bool, true, false, not, Option, none, some, List, [], ◌∷◌,
  ◌++◌, ◌==◌, ◌&&◌, if◌then◌else◌, length, drop, arith, length-drop,
}
use wave_x.Protos.Http1.{Header, is_empty}
use wave_x.Protos.Http2.Frame.{
  FrameHeader, has_flag, end_stream_flag, settings_frame, headers_frame, data_frame, Result,
  success, incomplete, error, headers_too_large, FrameRead, framed, unframed, parse_frame,
}
use wave_x.Protos.Http2.Frame.Takes.{Takes, parse_frame-Takes}
use wave_x.Protos.Http2.Message.{Request, Response}
use wave_x.Protos.Http2.Hpack.DynamicTable.{DynamicTable}
use wave_x.Protos.Http2.Hpack.Capacity.{IsSized}
use wave_x.Protos.Http2.Hpack.Decoder.{BlockResult, decoded, failed, undefined_block, out_of_fuel}
use wave_x.Protos.Http2.Hpack.Limit.{IsSound, decode_header_block-IsSound}
use wave_x.Protos.Http2.Hpack.Stops.{Ends, decode_header_block-Ends}
use wave_x.Protos.Http2.Parser.{
  Parsing, LoopEnd, left, returns, undefined_loop, no_fuel, with_headers, on_headers, on_data,
  on_frame, parse_loop, default_max_header_list_size, header_block_of, data_of, Parsed, parsed,
  undefined_parse, parse_no_fuel, start_parsing, preface_size, parse_request, parse_response,
  end_request, end_response, finish_request, Storage, bad_protocol, store_headers, new_storage,
  cleared_request, cleared_response, starts_with, connection_preface,
}

-- Within `size` bytes of a buffer, with fewer than `n` left.
record Within (size n : ℕ) (s : Parsing) : Type 0 where
  inside : s.cursor + length s.remaining ≤ size
  fewer : length s.remaining < n
  sized : IsSized s.working_dt

-- The loop ends, and within the buffer.
data Good (size : ℕ) : LoopEnd → Type 0 where
  good_left : {s : Parsing} → s.cursor ≤ size → IsSized s.working_dt → Good size (left s)
  good_return : (r : Result) (stream_id : ℕ) → Good size (returns r stream_id)
  good_undefined : Good size undefined_loop

leaves : (size n : ℕ) (s : Parsing) → Within size n s → Good size (left s)
leaves size n s w = good_left (omega (arith, w.inside)) w.sized

if-Good :
    {size : ℕ} (b : Bool) {x y : LoopEnd}
    → Good size x
    → Good size y
    → Good size (if b then x else y)
if-Good true p q = p
if-Good false p q = q

module _ (size n : ℕ) (more : Parsing → LoopEnd)
    (next : (s : Parsing) → Within size n s → Good size (more s)) where
  leaves_or_next :
      (b : Bool) (s : Parsing)
      → Within size n s
      → Good size (let rest = more s in if b then left s else rest)
  leaves_or_next true s w = leaves size n s w
  leaves_or_next false s w = next s w

  with_headers-Good :
      (is_request : Bool) (hdr : FrameHeader) (s : Parsing) (out0 : List Header) (r : BlockResult)
      → Within size n s
      → IsSound out0 default_max_header_list_size r
      → Ends r
      → Good size (with_headers more is_request hdr s r)
  unfolding IsSound Ends
  with_headers-Good is_request hdr s out0 (decoded hs dt) w (listed, k) e =
      leaves_or_next (has_flag hdr end_stream_flag)
        (record s { decoded_headers = hs; headers_received = true; working_dt = dt })
        (record { inside = w.inside; fewer = w.fewer; sized = k })
  with_headers-Good is_request hdr s out0 (failed limit) w k e = good_return _ _
  with_headers-Good is_request hdr s out0 undefined_block w k e = good_undefined
  with_headers-Good is_request hdr s out0 out_of_fuel w k e = absurd e

  on_headers-Good :
      (is_request : Bool) (hdr : FrameHeader) (s : Parsing) (block : Option (List ℕ))
      → Within size n s
      → Good size (on_headers more is_request hdr s block)
  on_headers-Good is_request hdr s none w = good_return _ _
  on_headers-Good is_request hdr s (some block) w =
      with_headers-Good is_request hdr s s.decoded_headers _ w
        (decode_header_block-IsSound default_max_header_list_size block s.decoded_headers
          s.working_dt w.sized)
        (decode_header_block-Ends default_max_header_list_size block s.decoded_headers s.working_dt
          (λ z. absurd (omega arith)))

  on_data-Good :
      (hdr : FrameHeader) (s : Parsing) (bytes : Option (List ℕ))
      → Within size n s
      → Good size (on_data more hdr s bytes)
  on_data-Good hdr s none w = good_return _ _
  on_data-Good hdr s (some bytes) w =
      leaves_or_next (has_flag hdr end_stream_flag)
        (record s { body_accumulator = s.body_accumulator ++ bytes })
        (record { inside = w.inside; fewer = w.fewer; sized = w.sized })

  on_frame-Good :
      (is_request : Bool) (s : Parsing) (r : FrameRead)
      → Within size (suc n) s
      → Takes s.remaining r
      → Good size (on_frame more is_request s r)
  unfolding Takes
  on_frame-Good is_request s (unframed r) w t = good_return _ _
  on_frame-Good is_request s (framed hdr payload taken) w (nine, there) =
      let w1 : Within size n
          (record s { remaining = drop taken s.remaining; cursor = s.cursor + taken }) =
        record {
          inside = omega (arith, w.inside, nine, there, length-drop taken s.remaining);
          fewer = omega (arith, w.fewer, nine, there, length-drop taken s.remaining);
          sized = w.sized;
        } in
      if-Good (hdr.kind == settings_frame) (next _ w1) (
        if-Good (hdr.kind == headers_frame)
          (on_headers-Good is_request hdr
            (record s {
              remaining = drop taken s.remaining;
              cursor = s.cursor + taken;
              stream_id = hdr.stream_id;
            })
            (header_block_of hdr payload)
            (record { inside = w1.inside; fewer = w1.fewer; sized = w1.sized }))
          (if-Good (hdr.kind == data_frame)
            (if-Good (hdr.stream_id == s.stream_id) (on_data-Good hdr _ (data_of hdr payload) w1)
              (next _ w1))
            (next _ w1)))

parse_loop-Good :
    (size n : ℕ) (is_request : Bool) (s : Parsing)
    → Within size n s
    → Good size (parse_loop n is_request s)
unfolding parse_loop
parse_loop-Good size zero is_request s w = absurd (omega (arith, w.fewer))
parse_loop-Good size (suc n) is_request s w =
    if-Good (is_empty s.remaining) (leaves size (suc n) s w) (
      on_frame-Good size n (parse_loop n is_request) (parse_loop-Good size n is_request) is_request
        s (parse_frame s.remaining) w (parse_frame-Takes s.remaining))

start-Within :
    (buffer : List ℕ) (cursor stream_id : ℕ) (dt : DynamicTable)
    → cursor ≤ length buffer
    → IsSized dt
    → Within (length buffer) (suc (length buffer)) (start_parsing buffer cursor stream_id dt)
start-Within buffer cursor stream_id dt h k = record {
  inside = omega (arith, length-drop cursor buffer);
  fewer = omega (arith, length-drop cursor buffer);
  sized = k;
}

starts_with-length : (bs ps : List ℕ) → starts_with bs ps ≡ true → length ps ≤ length bs
starts_with-length bs [] h = omega arith
starts_with-length [] (p ∷ ps) h = absurd (ground arith)
starts_with-length (b ∷ bs) (p ∷ ps) h =
    omega (arith, starts_with-length bs ps (both (b == p) (starts_with bs ps) h))
  where
    both : (x y : Bool) → (x && y) ≡ true → y ≡ true
    both true y e = e
    both false y e = absurd (ground arith)

preface_fits : (buffer : List ℕ) → preface_size buffer ≤ length buffer
preface_fits buffer = go (starts_with buffer connection_preface) refl
  where
    go :
        (b : Bool)
        → starts_with buffer connection_preface ≡ b
        → (if b then length connection_preface else 0) ≤ length buffer
    go true e = starts_with-length buffer connection_preface e
    go false e = omega arith

-- What a parse of `size` bytes with the table `dt` may do: on success it consumes bytes of the buffer, and gives a table
-- within its capacity; on any other result it consumes nothing and leaves the table.
pub IsCommit : {M : Type 0} → ℕ → DynamicTable → Parsed M → Type 0
IsCommit size dt (parsed success m n t) = (n ≤ size) × IsSized t
IsCommit size dt (parsed r m n t) = (n ≡ 0) × (t ≡ dt)
IsCommit size dt undefined_parse = Unit
IsCommit size dt parse_no_fuel = ⊥

nothing_done :
    {M : Type 0} (size : ℕ) (dt : DynamicTable) (r : Result) (m : M)
    → IsSized dt
    → IsCommit size dt (parsed r m 0 dt)
unfolding IsCommit
nothing_done size dt success m k = (omega arith, k)
nothing_done size dt incomplete m k = (refl, refl)
nothing_done size dt error m k = (refl, refl)
nothing_done size dt headers_too_large m k = (refl, refl)

if-IsCommit :
    {M : Type 0} (size : ℕ) (dt : DynamicTable) (b : Bool) (x y : Parsed M)
    → IsCommit size dt x
    → IsCommit size dt y
    → IsCommit size dt (if b then x else y)
if-IsCommit size dt true x y p q = p
if-IsCommit size dt false x y p q = q

end_request-IsCommit :
    (size : ℕ) (req : Request) (dt : DynamicTable) (e : LoopEnd)
    → IsSized dt
    → Good size e
    → IsCommit size dt (end_request req dt e)
unfolding IsCommit finish_request
end_request-IsCommit size req dt (left p) k (good_left h sized) =
    let s : Storage = store_headers p.decoded_headers (new_storage req.method_type) in
    if-IsCommit size dt (not p.headers_received) _ _
      (nothing_done size dt incomplete (record (cleared_request req) { stream_id = p.stream_id }) k)
      (if-IsCommit size dt (bad_protocol s) _ _
        (nothing_done size dt error
          (record (cleared_request req) {
            method_type = s.method_type;
            protocol = s.protocol;
            stream_id = p.stream_id;
          })
          k)
        (h, sized))
end_request-IsCommit size req dt (returns r stream_id) k (good_return _ _) =
    nothing_done size dt r _ k
end_request-IsCommit size req dt undefined_loop k good_undefined = tt
end_request-IsCommit size req dt no_fuel k g = elim g [ ]

end_response-IsCommit :
    (size : ℕ) (res : Response) (dt : DynamicTable) (e : LoopEnd)
    → IsSized dt
    → Good size e
    → IsCommit size dt (end_response res dt e)
unfolding IsCommit
end_response-IsCommit size res dt (left p) k (good_left h sized) =
    if-IsCommit size dt (not p.headers_received) _ _
      (nothing_done size dt incomplete (record (cleared_response res) { stream_id = p.stream_id })
        k)
      (h, sized)
end_response-IsCommit size res dt (returns r stream_id) k (good_return _ _) =
    nothing_done size dt r _ k
end_response-IsCommit size res dt undefined_loop k good_undefined = tt
end_response-IsCommit size res dt no_fuel k g = elim g [ ]

-- Whatever the bytes are, parse_request comes to an end or to undefined behaviour. On success it has consumed bytes of
-- the buffer and the caller's table is within its capacity again; on every other result it has consumed nothing and the
-- caller's table is as it was, although header blocks before the failure have changed the working copy.
pub parse_request-IsCommit :
    (buffer : List ℕ) (req : Request) (dt : DynamicTable)
    → IsSized dt
    → IsCommit (length buffer) dt (parse_request buffer req dt)
unfolding parse_request
parse_request-IsCommit buffer req dt k = end_request-IsCommit (length buffer) req dt _ k (
    parse_loop-Good (length buffer) (suc (length buffer)) true _
      (start-Within buffer (preface_size buffer) req.stream_id dt (preface_fits buffer) k))

-- The same of parse_response.
pub parse_response-IsCommit :
    (buffer : List ℕ) (res : Response) (dt : DynamicTable)
    → IsSized dt
    → IsCommit (length buffer) dt (parse_response buffer res dt)
unfolding parse_response
parse_response-IsCommit buffer res dt k = end_response-IsCommit (length buffer) res dt _ k (
    parse_loop-Good (length buffer) (suc (length buffer)) false _
      (start-Within buffer 0 res.stream_id dt (omega arith) k))
