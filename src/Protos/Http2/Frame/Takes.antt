-- ===== src/Protos/Http2/Frame/Takes.antt =====
-- What parse_frame takes from the front of its buffer.
use wave_x.Prelude.{
  ℕ, ◌+◌, ◌≤◌, ◌≡◌, refl, Bool, true, false, Option, none, some, List, ltb, if◌then◌else◌, length,
  take, drop, arith,
}
use wave_x.Protos.Http2.Frame.{
  FrameHeader, unpack_frame_header, parse_frame, parse_payload, FrameRead, framed, unframed,
  incomplete, header_size,
}

-- A frame that is read has nine bytes at least and ends within the buffer.
unfoldable pub Takes : List ℕ → FrameRead → Type 0
Takes buffer (framed hdr payload n) = (header_size ≤ n) × (n ≤ length buffer)
Takes buffer (unframed r) = Unit

parse_payload-Takes :
    (buffer : List ℕ) (h : Option FrameHeader) → Takes buffer (parse_payload buffer h)
unfolding Takes
parse_payload-Takes buffer none = tt
parse_payload-Takes buffer (some hdr) =
    go (ltb (length buffer) (header_size + hdr.payload_length)) refl
  where
    go :
        (short : Bool)
        → ltb (length buffer) (header_size + hdr.payload_length) ≡ short
        → Takes buffer (
            if short
            then unframed incomplete
            else framed hdr
                (take hdr.payload_length (drop header_size buffer))
                (header_size + hdr.payload_length))
    go true e = tt
    go false e = (omega arith, ground (arith, e))

pub parse_frame-Takes : (buffer : List ℕ) → Takes buffer (parse_frame buffer)
unfolding parse_frame Takes
parse_frame-Takes buffer = go (ltb (length buffer) header_size)
  where
    go :
        (short : Bool)
        → Takes buffer (
            if short
            then unframed incomplete
            else parse_payload buffer (unpack_frame_header buffer))
    go true = tt
    go false = parse_payload-Takes buffer (unpack_frame_header buffer)
