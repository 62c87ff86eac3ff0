-- ===== src/Protos/Http2/Frame/RoundTrip.antt =====
-- Frames are read back as they were written, and a frame that has arrived stays.
use wave_x.Prelude.{
  ℕ, ◌+◌, ◌*◌, ◌/◌, ◌%◌, ◌^◌, ◌<◌, ◌≡◌, refl, sym, ap, ◌∙◌, false, some, List, ◌++◌, bit_and,
  bit_or, ltb, length, take, arith, length-append, not_lt→ltb, take-length_append,
}
use wave_x.Prelude.Bits.{mask_255, mask_127, or_8, or_shift_8, mask_bits_31}
use wave_x.Protos.Http2.Frame.{
  FrameHeader, pack_frame_header, unpack_frame_header, parse_frame, framed, header_size,
}

-- A header whose fields fit their bits: 24 of the length, 31 of the stream, 8 of the kind and the flags.
pub record HeaderFits (hdr : FrameHeader) : Type 0 where
  pub length_bits : hdr.payload_length < 2 ^ 24
  pub stream_bits : hdr.stream_id < 2 ^ 31

three_bytes :
    (a b c : ℕ)
    → b < 256
    → c < 256
    → bit_or (bit_or (a * 2 ^ 16) (b * 2 ^ 8)) c ≡ a * 65536 + b * 256 + c
three_bytes a b c p q =
    let top : bit_or (a * 2 ^ 16) (b * 2 ^ 8) ≡ (a * 256 + b) * 256 = omega (
      arith,
      or_shift_8 (a * 2 ^ 16) (b * 2 ^ 8) (a * 256) b (omega arith) (omega arith),
      or_8 (a * 256) b (omega arith) p,
    ) in
    ap (λ (u : ℕ). bit_or u c) top ∙ or_8 ((a * 256 + b) * 256) c (omega arith) q ∙ omega arith

four_bytes :
    (a b c d : ℕ)
    → b < 256
    → c < 256
    → d < 256
    → bit_or (bit_or (bit_or (a * 2 ^ 24) (b * 2 ^ 16)) (c * 2 ^ 8)) d
      ≡ a * 16777216 + b * 65536 + c * 256 + d
four_bytes a b c d p q r =
    let top : bit_or (a * 2 ^ 24) (b * 2 ^ 16) ≡ (a * 256 + b) * 2 ^ 16 = omega (
      arith,
      or_shift_8 (a * 2 ^ 24) (b * 2 ^ 16) (a * 65536) (b * 256) (omega arith) (omega arith),
      or_shift_8 (a * 65536) (b * 256) (a * 256) b (omega arith) (omega arith),
      or_8 (a * 256) b (omega arith) p,
    ) in
    ap (λ (u : ℕ). bit_or (bit_or u (c * 2 ^ 8)) d) top
    ∙ three_bytes (a * 256 + b) c d q r
    ∙ omega arith

length_back :
    (n : ℕ)
    → n < 2 ^ 24
    → bit_or
        (bit_or (bit_and (n / 2 ^ 16) 0xFF * 2 ^ 16) (bit_and (n / 2 ^ 8) 0xFF * 2 ^ 8))
        (bit_and n 0xFF)
      ≡ n
length_back n h =
    rw (mask_255 (n / 2 ^ 16), mask_255 (n / 2 ^ 8), mask_255 n)
      (three_bytes (n / 2 ^ 16 % 256) (n / 2 ^ 8 % 256) (n % 256) (omega arith) (omega arith)
        ∙ omega arith)

stream_back :
    (n : ℕ)
    → n < 2 ^ 31
    → let sid = bit_and n 0x7FFFFFFF in
      bit_or
        (bit_or
          (bit_or
            (bit_and (bit_and (sid / 2 ^ 24) 0xFF) 0x7F * 2 ^ 24)
            (bit_and (sid / 2 ^ 16) 0xFF * 2 ^ 16))
          (bit_and (sid / 2 ^ 8) 0xFF * 2 ^ 8))
        (bit_and sid 0xFF)
      ≡ n
stream_back n h =
    let whole : bit_and n 0x7FFFFFFF ≡ n = mask_bits_31 n ∙ omega arith in
    rw
      (
        whole,
        mask_255 (n / 2 ^ 24),
        mask_127 (n / 2 ^ 24 % 256),
        mask_255 (n / 2 ^ 16),
        mask_255 (n / 2 ^ 8),
        mask_255 n,
      )
      (four_bytes (n / 2 ^ 24 % 256 % 128) (n / 2 ^ 16 % 256) (n / 2 ^ 8 % 256) (n % 256)
          (omega arith) (omega arith) (omega arith)
        ∙ omega arith)

-- The nine bytes of a header whose length fits in 24 bits and whose stream id fits in 31, with anything behind
-- them, give the header back.
pub unpack-pack_frame_header :
    (hdr : FrameHeader) (rest : List ℕ)
    → HeaderFits hdr
    → unpack_frame_header (pack_frame_header hdr ++ rest) ≡ some hdr
unfolding unpack_frame_header pack_frame_header
unpack-pack_frame_header hdr rest fits =
    let l = length_back hdr.payload_length fits.length_bits in
    let s = stream_back hdr.stream_id fits.stream_bits in
    ap some (λ i. record hdr { payload_length = l i; stream_id = s i })

pub length-pack_frame_header : (hdr : FrameHeader) → length (pack_frame_header hdr) ≡ header_size
unfolding pack_frame_header
length-pack_frame_header hdr = refl

-- The nine bytes of a header and the payload of the length that it gives, with anything behind them, are read
-- as that header and payload, and exactly they are consumed.
pub parse_frame-pack_frame_header :
    (hdr : FrameHeader) (payload rest : List ℕ)
    → HeaderFits hdr
    → length payload ≡ hdr.payload_length
    → parse_frame (pack_frame_header hdr ++ (payload ++ rest))
      ≡ framed hdr payload (header_size + length payload)
unfolding parse_frame pack_frame_header
parse_frame-pack_frame_header hdr payload rest fits e =
    let body : take hdr.payload_length (payload ++ rest) ≡ payload =
      ap (λ n. take n (payload ++ rest)) (sym e) ∙ take-length_append payload rest in
    let there : ltb (length (pack_frame_header hdr ++ (payload ++ rest))) header_size ≡ false =
      not_lt→ltb _ _ (
        omega (
          arith,
          length-append {0} (pack_frame_header hdr) (payload ++ rest),
          length-pack_frame_header hdr,
        )) in
    let enough : ltb (length (pack_frame_header hdr ++ (payload ++ rest)))
          (header_size + hdr.payload_length)
        ≡ false =
      not_lt→ltb _ _ (
        omega (
          arith,
          e,
          length-append {0} (pack_frame_header hdr) (payload ++ rest),
          length-append {0} payload rest,
          length-pack_frame_header hdr,
        )) in
    rw (there, unpack-pack_frame_header hdr (payload ++ rest) fits, enough, e)
      (ap (λ b. framed hdr b (header_size + hdr.payload_length)) body)
