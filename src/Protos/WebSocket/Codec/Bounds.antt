-- ===== src/Protos/WebSocket/Codec/Bounds.antt =====
-- What the header parser accepts of any bytes, and how many bytes an encoded frame has.
use wave_x.Prelude.{
  ℕ, ◌+◌, ◌*◌, ◌^◌, ◌≤◌, ◌<◌, ◌≡◌, refl, Bool, not, Option, none, some, List, [], ◌∷◌, ◌++◌, ◌==◌,
  length, drop, bit_and, bit_or, get_or, arith, All, IsByte, length-append, length-drop,
}
use wave_x.Prelude.Bits.{mask_127, or_8}
use wave_x.Prelude.Digits.{read_number, push_number, length-push_number}
use wave_x.Protos.WebSocket.Codec.{
  Opcode, FrameHeader, ParseResult, complete, error, opcode_of, parse_key, parse_length,
  parse_header, frame_size, apply_mask, encode_length, encode_frame, max_payload_length,
}
use wave_x.Protos.WebSocket.Codec.RoundTrip.{is_masked}

pub length-apply_mask :
    (bs : List ℕ) (key offset : ℕ) → length (apply_mask bs key offset) ≡ length bs
unfolding apply_mask
length-apply_mask [] key offset = refl
length-apply_mask (b ∷ bs) key offset = omega (arith, length-apply_mask bs key (offset + 1))

-- An encoded frame has the size that `frame_size` announces.
pub length-encode_frame :
    (op : Opcode) (payload : List ℕ) (fin : Bool) (mask : Option ℕ)
    → length (encode_frame op payload fin mask) ≡ frame_size (length payload) (is_masked mask)
unfolding encode_frame frame_size encode_length
length-encode_frame op payload fin none = ground (
  arith,
  length-append {0} (encode_length 0x00 (length payload)) payload,
  length-push_number 2 (length payload),
  length-push_number 8 (length payload),
)
length-encode_frame op payload fin (some key) = ground (
  arith,
  length-append {0} (encode_length 0x80 (length payload))
      (push_number 4 key ++ apply_mask payload key 0),
  length-append {0} (push_number 4 key) (apply_mask payload key 0),
  length-apply_mask payload key 0,
  length-push_number 4 key,
  length-push_number 2 (length payload),
  length-push_number 8 (length payload),
)

-- What a complete header means for the bytes it was read from.
pub record Within (in_bytes : List ℕ) (h : FrameHeader) : Type 0 where
  pub there : h.header_size ≤ length in_bytes
  pub small : h.header_size ≤ 14
  pub some_bytes : 2 ≤ h.header_size
  pub length_fits : h.payload_length ≤ max_payload_length

parse_key-Within :
    (hdr : FrameHeader) (pos : ℕ) (in_bytes rest : List ℕ) (h : FrameHeader)
    → hdr.payload_length ≤ max_payload_length
    → 2 ≤ pos
    → pos ≤ 10
    → length in_bytes ≡ pos + length rest
    → parse_key hdr pos rest ≡ complete h
    → Within in_bytes h
unfolding parse_key
parse_key-Within hdr pos in_bytes rest h f two ten l e = ground arith

parse_length-Within :
    (hdr : FrameHeader) (len : ℕ) (in_bytes rest : List ℕ) (h : FrameHeader)
    → len < 128
    → length in_bytes ≡ 2 + length rest
    → bit_or (get_or rest 0 0 * 2 ^ 8) (get_or rest 1 0) < 2 ^ 16
    → parse_length hdr len rest ≡ complete h
    → Within in_bytes h
unfolding parse_length
parse_length-Within hdr len in_bytes rest h s l w e =
    let n = read_number 64 8 0 rest in
    let two : ℕ = bit_or (get_or rest 0 0 * 2 ^ 8) (get_or rest 1 0) in
    ground (
      arith,
      length-drop {0} 2 rest,
      length-drop {0} 8 rest,
      parse_key-Within (record hdr { payload_length = two }) 4 in_bytes (drop 2 rest) h,
      parse_key-Within (record hdr { payload_length = n }) 10 in_bytes (drop 8 rest) h,
      parse_key-Within (record hdr { payload_length = len }) 2 in_bytes rest h,
    )

two_bytes : (bs : List ℕ) → All IsByte bs → bit_or (get_or bs 0 0 * 2 ^ 8) (get_or bs 1 0) < 2 ^ 16
two_bytes [] a = omega arith
two_bytes (b ∷ []) (h, a) = omega (arith, or_8 (b * 256) 0 (omega arith) (omega arith))
two_bytes (b ∷ c ∷ bs) (h, (k, a)) = omega (arith, or_8 (b * 256) c (omega arith) k)

choose-Within :
    (o : Option Opcode) (make : Opcode → FrameHeader) (len : ℕ) (in_bytes rest : List ℕ)
    (h : FrameHeader)
    → len < 128
    → length in_bytes ≡ 2 + length rest
    → All IsByte rest
    → elim o as (λ _. ParseResult) [ none ↦ error | some op ↦ parse_length (make op) len rest ]
      ≡ complete h
    → Within in_bytes h
choose-Within none make len in_bytes rest h s l a e = cc
choose-Within (some op) make len in_bytes rest h s l a e =
    parse_length-Within (make op) len in_bytes rest h s l (two_bytes rest a) e

-- A complete header lies within the bytes that are there, takes from 2 to 14 of them, and announces a
-- payload of less than 2^63 bytes.
pub parse_header-Within :
    (in_bytes : List ℕ) (h : FrameHeader)
    → All IsByte in_bytes
    → parse_header in_bytes ≡ complete h
    → Within in_bytes h
unfolding parse_header
parse_header-Within [] h a e = cc
parse_header-Within (b0 ∷ []) h a e = cc
parse_header-Within (b0 ∷ b1 ∷ rest) h (p, (q, a)) e =
    choose-Within (opcode_of (bit_and b0 0x0F))
      (λ op. record {
        payload_length = 0;
        masking_key = 0;
        header_size = 0;
        op = op;
        fin = not (bit_and b0 128 == 0);
        rsv1 = not (bit_and b0 64 == 0);
        rsv2 = not (bit_and b0 32 == 0);
        rsv3 = not (bit_and b0 16 == 0);
        masked = not (bit_and b1 128 == 0);
      })
      (bit_and b1 0x7F) (b0 ∷ b1 ∷ rest) rest h (omega (arith, mask_127 b1)) (omega arith) a e

-- A header takes two bytes at least, whatever the bytes are.
parse_key_size :
    (hdr : FrameHeader) (pos : ℕ) (rest : List ℕ) (h : FrameHeader)
    → 2 ≤ pos
    → parse_key hdr pos rest ≡ complete h
    → 2 ≤ h.header_size
unfolding parse_key
parse_key_size hdr pos rest h two e = ground arith

choose_size :
    (o : Option Opcode) (make : Opcode → FrameHeader) (len : ℕ) (rest : List ℕ) (h : FrameHeader)
    → elim o as (λ _. ParseResult) [ none ↦ error | some op ↦ parse_length (make op) len rest ]
      ≡ complete h
    → 2 ≤ h.header_size
unfolding parse_length
choose_size none make len rest h e = cc
choose_size (some op) make len rest h e =
    let hdr = make op in
    let n = read_number 64 8 0 rest in
    let two : ℕ = bit_or (get_or rest 0 0 * 2 ^ 8) (get_or rest 1 0) in
    ground (
      arith,
      parse_key_size (record hdr { payload_length = two }) 4 (drop 2 rest) h,
      parse_key_size (record hdr { payload_length = n }) 10 (drop 8 rest) h,
      parse_key_size (record hdr { payload_length = len }) 2 rest h,
    )

pub parse_header_size :
    (bs : List ℕ) (h : FrameHeader) → parse_header bs ≡ complete h → 2 ≤ h.header_size
unfolding parse_header
parse_header_size [] h e = cc
parse_header_size (b0 ∷ []) h e = cc
parse_header_size (b0 ∷ b1 ∷ rest) h e =
    choose_size (opcode_of (bit_and b0 0x0F))
      (λ op. record {
        payload_length = 0;
        masking_key = 0;
        header_size = 0;
        op = op;
        fin = not (bit_and b0 128 == 0);
        rsv1 = not (bit_and b0 64 == 0);
        rsv2 = not (bit_and b0 32 == 0);
        rsv3 = not (bit_and b0 16 == 0);
        masked = not (bit_and b1 128 == 0);
      })
      (bit_and b1 0x7F) rest h e
