-- ===== src/Protos/WebSocket/Codec.antt =====
-- The frame codec and the payload of close frames.
pub mod RoundTrip
pub mod Bounds
mod Runs
use wave_x.Prelude.{
  ℕ, zero, suc, ◌+◌, ◌-◌, ◌*◌, ◌/◌, ◌%◌, ◌^◌, Bool, true, false, not, ◌&&◌, ◌||◌, Option, none,
  some, List, [], ◌∷◌, ◌++◌, ltb, leb, ◌==◌, if◌then◌else◌, length, take, drop, bit_and, bit_or,
  bit_xor, get_or,
}
use wave_x.Prelude.Digits.{read_number, push_number}

pub data Opcode : Type 0 where
  continuation text binary close ping pong : Opcode

abbrev pub opcode_value : Opcode → ℕ
opcode_value continuation = 0x0
opcode_value text = 0x1
opcode_value binary = 0x2
opcode_value close = 0x8
opcode_value ping = 0x9
opcode_value pong = 0xA

unfoldable pub is_control : Opcode → Bool
is_control op = not (bit_and (opcode_value op) 0x08 == 0)

pub record FrameHeader : Type 0 where
  pub payload_length : ℕ
  pub masking_key : ℕ
  pub header_size : ℕ
  pub op : Opcode
  pub fin : Bool
  pub rsv1 : Bool
  pub rsv2 : Bool
  pub rsv3 : Bool
  pub masked : Bool

-- `hdr` is read only where the result is `complete`, and comes with it.
pub data ParseResult : Type 0 where
  complete : FrameHeader → ParseResult
  incomplete : ParseResult
  error : ParseResult

abbrev pub max_payload_length : ℕ
max_payload_length = 2 ^ 63 - 1

-- The reserved opcodes are refused; the cast is on the others.
unfoldable pub opcode_of : ℕ → Option Opcode
opcode_of op =
    if (leb 0x3 op && leb op 0x7) || leb 0xB op
    then none
    else if op == 0x0
    then some continuation
    else if op == 0x1
    then some text
    else if op == 0x2
    then some binary
    else if op == 0x8
    then some close
    else if op == 0x9
    then some ping
    else some pong

-- The masking key, where the header is long enough, with `pos` the offset that is reached.
unfoldable pub parse_key : FrameHeader → ℕ → List ℕ → ParseResult
unfolding read_number
parse_key hdr pos rest =
    if hdr.masked
    then if ltb (length rest) 4
      then incomplete
      else complete (record hdr { masking_key = read_number 32 4 0 rest; header_size = pos + 4 })
    else complete (record hdr { masking_key = 0; header_size = pos })

-- The length after its 7 bits, then the key.
unfoldable pub parse_length : FrameHeader → ℕ → List ℕ → ParseResult
unfolding read_number parse_key
parse_length hdr len rest =
    if len == 126
    then if ltb (length rest) 2
      then incomplete
      else parse_key
          (record hdr { payload_length = bit_or (get_or rest 0 0 * 2 ^ 8) (get_or rest 1 0) }) 4
          (drop 2 rest)
    else if len == 127
    then if ltb (length rest) 8
      then incomplete
      else (let n = read_number 64 8 0 rest in
          if ltb max_payload_length n
          then error
          else parse_key (record hdr { payload_length = n }) 10 (drop 8 rest))
    else parse_key (record hdr { payload_length = len }) 2 rest

unfoldable pub parse_header : List ℕ → ParseResult
unfolding opcode_of parse_length
parse_header [] = incomplete
parse_header (b0 ∷ []) = incomplete
parse_header (b0 ∷ b1 ∷ rest) = elim (opcode_of (bit_and b0 0x0F)) [
  | none ↦ error
  | some op ↦
      parse_length
        (record {
          payload_length = 0;
          masking_key = 0;
          header_size = 0;
          op = op;
          fin = not (bit_and b0 0x80 == 0);
          rsv1 = not (bit_and b0 0x40 == 0);
          rsv2 = not (bit_and b0 0x20 == 0);
          rsv3 = not (bit_and b0 0x10 == 0);
          masked = not (bit_and b1 0x80 == 0);
        })
        (bit_and b1 0x7F) rest
]

unfoldable pub frame_size : ℕ → Bool → ℕ
frame_size payload masked =
    2
    + (if ltb payload 126 then 0 else if leb payload 0xFFFF then 2 else 8)
    + (if masked then 4 else 0)
    + payload

-- `k[i & 3]`
unfoldable pub key_byte : ℕ → ℕ → ℕ
key_byte key i =
    let j = bit_and i 3 in
    if j == 0
    then key / 2 ^ 24 % 256
    else if j == 1
    then key / 2 ^ 16 % 256
    else if j == 2
    then key / 2 ^ 8 % 256
    else key % 256

unfoldable pub apply_mask : List ℕ → ℕ → ℕ → List ℕ
unfolding key_byte
apply_mask [] key offset = []
apply_mask (b ∷ bs) key offset = bit_xor b (key_byte key offset) ∷ apply_mask bs key (offset + 1)

-- The length field, with the mask bit.
unfoldable pub encode_length : ℕ → ℕ → List ℕ
unfolding push_number
encode_length mask_bit len =
    if ltb len 126
    then bit_or mask_bit len ∷ []
    else if leb len 0xFFFF
    then bit_or mask_bit 126 ∷ push_number 2 len
    else bit_or mask_bit 127 ∷ push_number 8 len

-- The bytes that `encode_frame` appends to `out`.
unfoldable pub encode_frame : Opcode → List ℕ → Bool → Option ℕ → List ℕ
unfolding encode_length push_number apply_mask
encode_frame op payload fin mask =
    bit_or (if fin then 0x80 else 0x00) (opcode_value op) ∷ elim mask [
      | none ↦ encode_length 0x00 (length payload) ++ payload
      | some key ↦
          encode_length 0x80 (length payload) ++ (push_number 4 key ++ apply_mask payload key 0)
    ]
