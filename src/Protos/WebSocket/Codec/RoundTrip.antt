-- ===== src/Protos/WebSocket/Codec/RoundTrip.antt =====
-- `parse_header` reads back the header that `encode_frame` wrote, and the mask comes off.
use wave_x.Prelude.{
  ℕ, ◌+◌, ◌-◌, ◌*◌, ◌/◌, ◌^◌, ◌≤◌, ◌<◌, ◌≡◌, refl, ap, ◌∙◌, Bool, true, false, not, Option, none,
  some, List, [], ◌∷◌, ◌++◌, ltb, leb, ◌==◌, if◌then◌else◌, length, bit_and, bit_or, bit_xor, arith,
  ◌⊎◌, inl, inr, append_assoc,
}
use native.Mathlib.Decide.{dec_lt}
use wave_x.Prelude.Bits.{flag_128, mask_127, mask_255, or_7, or_8, xor_twice}
use wave_x.Prelude.Digits.{push_number, read_digits}
use wave_x.Protos.WebSocket.Codec.{
  Opcode, continuation, text, binary, close, ping, pong, opcode_value, FrameHeader, complete,
  opcode_of, parse_key, parse_length, parse_header, frame_size, key_byte, apply_mask, encode_length,
  encode_frame,
}

-- The first byte carries the opcode and the flags.
first_byte :
    (op : Opcode) (fin : Bool)
    → let b = bit_or (if fin then 0x80 else 0x00) (opcode_value op) in
      (opcode_of (bit_and b 0x0F) ≡ some op)
      × (not (bit_and b 0x80 == 0) ≡ fin)
      × (not (bit_and b 0x40 == 0) ≡ false)
      × (not (bit_and b 0x20 == 0) ≡ false)
      × (not (bit_and b 0x10 == 0) ≡ false)
unfolding opcode_of
first_byte continuation true = (refl, refl, refl, refl, refl)
first_byte continuation false = (refl, refl, refl, refl, refl)
first_byte text true = (refl, refl, refl, refl, refl)
first_byte text false = (refl, refl, refl, refl, refl)
first_byte binary true = (refl, refl, refl, refl, refl)
first_byte binary false = (refl, refl, refl, refl, refl)
first_byte close true = (refl, refl, refl, refl, refl)
first_byte close false = (refl, refl, refl, refl, refl)
first_byte ping true = (refl, refl, refl, refl, refl)
first_byte ping false = (refl, refl, refl, refl, refl)
first_byte pong true = (refl, refl, refl, refl, refl)
first_byte pong false = (refl, refl, refl, refl, refl)

-- The second byte carries the mask bit and 7 bits of the length.
mask_flag :
    (len : ℕ)
    → len < 128
    → (not (bit_and (128 + len) 0x80 == 0) ≡ true) × (not (bit_and len 0x80 == 0) ≡ false)
mask_flag len h = ground (arith, flag_128 (128 + len), flag_128 len)

second_byte :
    (mask_bit s : ℕ)
    → (mask_bit ≡ 0) ⊎ (mask_bit ≡ 128)
    → s < 128
    → (not (bit_and (bit_or mask_bit s) 0x80 == 0) ≡ not (mask_bit == 0))
      × (bit_and (bit_or mask_bit s) 0x7F ≡ s)
second_byte mask_bit s m h =
    ground
      (arith, or_7 mask_bit s (omega arith) h, flag_128 (mask_bit + s), mask_127 (mask_bit + s))

-- The size of the length field.
abbrev pub length_size : ℕ → ℕ
length_size len = if ltb len 126 then 0 else if leb len 0xFFFF then 2 else 8

-- What the parser makes of each form of the length.
parse_short :
    (hdr : FrameHeader) (len : ℕ) (rest : List ℕ)
    → len < 126
    → parse_length hdr len rest ≡ parse_key (record hdr { payload_length = len }) 2 rest
unfolding parse_length
parse_short hdr len rest h = ground arith

parse_middle :
    (hdr : FrameHeader) (len : ℕ) (rest : List ℕ)
    → len ≤ 0xFFFF
    → parse_length hdr 126 (push_number 2 len ++ rest)
      ≡ parse_key (record hdr { payload_length = len }) 4 rest
unfolding parse_length push_number
parse_middle hdr len rest h =
    let high : ℕ = bit_and (len / 256) 0xFF in
    let low : ℕ = bit_and len 0xFF in
    let joined : bit_or (high * 2 ^ 8) low ≡ len =
      or_8 (high * 2 ^ 8) low (omega arith) (omega (arith, mask_255 len))
      ∙ omega (arith, mask_255 len, mask_255 (len / 256)) in
    ground (arith, joined)

parse_long :
    (hdr : FrameHeader) (len : ℕ) (rest : List ℕ)
    → len < 2 ^ 63
    → parse_length hdr 127 (push_number 8 len ++ rest)
      ≡ parse_key (record hdr { payload_length = len }) 10 rest
unfolding parse_length push_number
parse_long hdr len rest h =
    rw (read_digits 64 8 len 0 rest (omega arith) (omega arith)) (ground arith)

-- The length field of an encoded header, whichever form it has.
read_length :
    (hdr : FrameHeader) (mask_bit len : ℕ) (rest : List ℕ)
    → len < 2 ^ 63
    → (mask_bit ≡ 0) ⊎ (mask_bit ≡ 128)
    → (b : ℕ) × (more : List ℕ) × (encode_length mask_bit len ≡ b ∷ more)
      × (not (bit_and b 0x80 == 0) ≡ not (mask_bit == 0))
      × (parse_length hdr (bit_and b 0x7F) (more ++ rest)
          ≡ parse_key (record hdr { payload_length = len }) (2 + length_size len) rest)
unfolding encode_length
read_length hdr mask_bit len rest h m = elim (dec_lt len 126) [
  | yes a ↦
      let (flag, low) = second_byte mask_bit len m (omega arith) in
      (
        bit_or mask_bit len,
        [],
        ground arith,
        flag,
        rw low (parse_short hdr len rest a ∙ ground arith),
      )
  | no a ↦ elim (dec_lt 0xFFFF len) [
    | yes b ↦
        let (flag, low) = second_byte mask_bit 127 m (omega arith) in
        (
          bit_or mask_bit 127,
          push_number 8 len,
          ground arith,
          flag,
          rw low (parse_long hdr len rest h ∙ ground arith),
        )
    | no b ↦
        let (flag, low) = second_byte mask_bit 126 m (omega arith) in
        (
          bit_or mask_bit 126,
          push_number 2 len,
          ground arith,
          flag,
          rw low (parse_middle hdr len rest (omega arith) ∙ ground arith),
        )
  ]
]

read_key :
    (hdr : FrameHeader) (pos key : ℕ) (rest : List ℕ)
    → hdr.masked ≡ true
    → key < 2 ^ 32
    → parse_key hdr pos (push_number 4 key ++ rest)
      ≡ complete (record hdr { masking_key = key; header_size = pos + 4 })
unfolding parse_key push_number
read_key hdr pos key rest m h = rw (read_digits 32 4 key 0 rest h (omega arith)) (ground arith)

-- The bytes of a frame after its header, and the header that is to be read back.
abbrev pub key_of : Option ℕ → ℕ
key_of none = 0
key_of (some key) = key

abbrev pub is_masked : Option ℕ → Bool
is_masked none = false
is_masked (some key) = true

abbrev pub wire_payload : List ℕ → Option ℕ → List ℕ
wire_payload payload none = payload
wire_payload payload (some key) = apply_mask payload key 0

abbrev pub header_of : Opcode → List ℕ → Bool → Option ℕ → FrameHeader
header_of op payload fin mask = record {
  payload_length = length payload;
  masking_key = key_of mask;
  header_size = frame_size (length payload) (is_masked mask) - length payload;
  op = op;
  fin = fin;
  rsv1 = false;
  rsv2 = false;
  rsv3 = false;
  masked = is_masked mask;
}

-- The header before its length and its key are known.
abbrev blank : Opcode → Bool → Bool → FrameHeader
blank op fin masked = record {
  payload_length = 0;
  masking_key = 0;
  header_size = 0;
  op = op;
  fin = fin;
  rsv1 = false;
  rsv2 = false;
  rsv3 = false;
  masked = masked;
}

parse_two :
    (op : Opcode) (fin flag : Bool) (b1 : ℕ) (rest : List ℕ)
    → not (bit_and b1 0x80 == 0) ≡ flag
    → parse_header (bit_or (if fin then 0x80 else 0x00) (opcode_value op) ∷ b1 ∷ rest)
      ≡ parse_length (blank op fin flag) (bit_and b1 0x7F) rest
unfolding parse_header
parse_two op fin flag b1 rest e =
    let (o, f0, f1, f2, f3) = first_byte op fin in rw (parse_header, o, f0, f1, f2, f3, e) refl

-- A header that `encode_frame` wrote is read back field by field, whatever follows its frame.
pub parse_header-encode_frame :
    (op : Opcode) (payload : List ℕ) (fin : Bool) (mask : Option ℕ) (rest : List ℕ)
    → length payload < 2 ^ 63
    → key_of mask < 2 ^ 32
    → parse_header (encode_frame op payload fin mask ++ rest)
      ≡ complete (header_of op payload fin mask)
unfolding encode_frame frame_size parse_key
parse_header-encode_frame op payload fin none rest h k =
    let hdr = blank op fin false in
    let after = payload ++ rest in
    let (b, more, form, flag, back) = read_length hdr 0 (length payload) after h (inl refl) in
    rw (form, append_assoc more payload rest)
      (parse_two op fin false b (more ++ after) flag ∙ back ∙ ground arith)
parse_header-encode_frame op payload fin (some key) rest h k =
    let hdr = blank op fin true in
    let masked = apply_mask payload key 0 in
    let after = push_number 4 key ++ (masked ++ rest) in
    let (b, more, form, flag, back) = read_length hdr 128 (length payload) after h (inr refl) in
    rw
      (
        form,
        append_assoc more (push_number 4 key ++ masked) rest,
        append_assoc (push_number 4 key) masked rest,
      )
      (parse_two op fin true b (more ++ after) flag
        ∙ back
        ∙ read_key (record hdr { payload_length = length payload }) _ key (masked ++ rest) refl k
        ∙ ground arith)

-- Masking with one key twice gives the bytes back.
pub apply_mask_twice :
    (bs : List ℕ) (key offset : ℕ) → apply_mask (apply_mask bs key offset) key offset ≡ bs
unfolding apply_mask
apply_mask_twice [] key offset = refl
apply_mask_twice (b ∷ bs) key offset =
    rw (xor_twice b (key_byte key offset), apply_mask_twice bs key (offset + 1)) refl

-- Bytes that are masked piece by piece, each from the offset it has in the whole, are masked as a whole.
pub apply_mask-append :
    (xs bs : List ℕ) (key offset : ℕ)
    → apply_mask (xs ++ bs) key offset
      ≡ apply_mask xs key offset ++ apply_mask bs key (offset + length xs)
unfolding apply_mask
apply_mask-append [] bs key offset = ap (λ o. apply_mask bs key o) (omega arith)
apply_mask-append (a ∷ xs) bs key offset = rw (apply_mask-append xs bs key (offset + 1)) (
    ap
      (λ o.
        bit_xor a (key_byte key offset) ∷ (apply_mask xs key (offset + 1) ++ apply_mask bs key o))
      (omega arith))
