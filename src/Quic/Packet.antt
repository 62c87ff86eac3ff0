-- ===== src/Quic/Packet.antt =====
-- include/wavex/Network/QUIC/QuicPacket.hpp and src/Network/QUIC/QuicPacket.cpp: packet headers, with the
-- connection ids of include/wavex/Network/QUIC/ConnectionId.hpp. A connection id is the list of its bytes,
-- and its constructor keeps 20 of them at most.
pub mod RoundTrip
mod Runs
use wave_x.Prelude.{
  ℕ, ◌+◌, ◌-◌, ◌*◌, ◌/◌, ◌%◌, ◌^◌, Bool, true, false, not, Option, none, some, List, [], ◌∷◌, ◌++◌,
  ltb, leb, ◌==◌, if◌then◌else◌, length, take, drop, bit_and, bit_or, ◌>>=◌,
}
use wave_x.Prelude.Digits.{push_number, read_number}
use wave_x.Quic.VarInt
use wave_x.Quic.Frames.Parse.{take_bytes}

pub data PacketType : Type 0 where
  initial zero_rtt handshake retry one_rtt version_negotiation : PacketType

abbrev pub type_value : PacketType → ℕ
type_value initial = 0x00
type_value zero_rtt = 0x01
type_value handshake = 0x02
type_value retry = 0x03
type_value one_rtt = 0x04
type_value version_negotiation = 0x05

-- The cast of two bits.
unfoldable pub type_of : ℕ → PacketType
type_of n =
    if n == 0 then initial else if n == 1 then zero_rtt else if n == 2 then handshake else retry

abbrev pub is_initial : PacketType → Bool
is_initial initial = true
is_initial _ = false

abbrev pub max_connection_id_len : ℕ
max_connection_id_len = 20

-- ConnectionId(src, len)
abbrev pub connection_id : List ℕ → List ℕ
connection_id src = take max_connection_id_len src

pub record PacketHeader : Type 0 where
  pub token : List ℕ
  pub size : ℕ
  pub packet_number : ℕ
  pub version : ℕ
  pub pn_offset : ℕ
  pub dcid : List ℕ
  pub scid : List ℕ
  pub kind : PacketType
  pub flags : ℕ
  pub packet_number_len : ℕ
  pub is_long : Bool
  pub key_phase : Bool

abbrev pub new_header : PacketHeader
new_header = record {
  token = [];
  size = 0;
  packet_number = 0;
  version = 1;
  pn_offset = 0;
  dcid = [];
  scid = [];
  kind = one_rtt;
  flags = 0;
  packet_number_len = 4;
  is_long = false;
  key_phase = false;
}

-- The token and its length, in an Initial packet.
unfoldable pub pack_token : PacketHeader → List ℕ
pack_token hdr = if is_initial hdr.kind then VarInt.encode (length hdr.token) ++ hdr.token else []

-- The bytes that `pack_packet_header` appends. `packet_number_len - 1` is of a `uint8_t` promoted to `int`,
-- whose low two bits are those of `packet_number_len + 3`.
unfoldable pub pack_long : PacketHeader → List ℕ
unfolding pack_token push_number
pack_long hdr =
    bit_or (bit_or 0xc0 (bit_and (type_value hdr.kind) 0x03 * 2 ^ 4))
      (bit_and (hdr.packet_number_len + 3) 0x03)
    ∷ (push_number 4 hdr.version
        ++ (length hdr.dcid
            ∷ (hdr.dcid
                ++ (length hdr.scid
                    ∷ (hdr.scid
                        ++ (pack_token hdr
                            ++ (VarInt.encode hdr.size
                                ++ push_number hdr.packet_number_len hdr.packet_number)))))))

unfoldable pub pack_short : PacketHeader → List ℕ
unfolding push_number
pack_short hdr =
    bit_or (if hdr.key_phase then bit_or 0x40 0x04 else 0x40)
      (bit_and (hdr.packet_number_len + 3) 0x03)
    ∷ (hdr.dcid ++ push_number hdr.packet_number_len hdr.packet_number)

unfoldable pub pack_packet_header : PacketHeader → List ℕ
unfolding pack_long pack_short
pack_packet_header hdr = if hdr.is_long then pack_long hdr else pack_short hdr

-- The packet number, where all of it is there; `offset` is the cursor.
unfoldable pub unpack_number : ℕ → List ℕ → PacketHeader → PacketHeader × ℕ
unfolding read_number
unpack_number offset rest hdr = (
  (let hdr' = record hdr { pn_offset = offset % 2 ^ 32 } in
      if leb hdr.packet_number_len (length rest)
      then record hdr' { packet_number = read_number 64 hdr.packet_number_len 0 rest }
      else hdr'),
  offset,
)

-- A connection id behind its length.
unfoldable pub unpack_id : List ℕ → Option (List ℕ × List ℕ)
unfolding take_bytes
unpack_id [] = none
unpack_id (len ∷ rest) = if ltb max_connection_id_len len then none else take_bytes len rest

unfoldable pub unpack_token : PacketType → List ℕ → List ℕ → Option (List ℕ × List ℕ)
unfolding take_bytes
unpack_token initial token rest = do (len, rest) ← VarInt.decode rest; take_bytes len rest
unpack_token _ token rest = some (token, rest)

-- The header, which is filled in from `hdr`, with its length; `none` is false.
unfoldable pub unpack_long : ℕ → List ℕ → PacketHeader → Option (PacketHeader × ℕ)
unfolding unpack_id unpack_token unpack_number read_number take_bytes
unpack_long first raw hdr = do
  (version, rest) ← take_bytes 4 raw
  (dcid, rest) ← unpack_id rest
  (scid, rest) ← unpack_id rest
  (token, rest) ← unpack_token (type_of (bit_and (first / 2 ^ 4) 0x03)) hdr.token rest
  (size, rest) ← VarInt.decode rest
  some (
      unpack_number (1 + length raw - length rest) rest (record hdr {
        token = token;
        size = size;
        version = read_number 32 4 0 version;
        dcid = connection_id dcid;
        scid = connection_id scid;
        kind = type_of (bit_and (first / 2 ^ 4) 0x03);
        packet_number_len = bit_and first 0x03 + 1;
        is_long = true;
      }))

unfoldable pub unpack_short : ℕ → List ℕ → ℕ → PacketHeader → Option (PacketHeader × ℕ)
unfolding unpack_number take_bytes
unpack_short first raw expected_dcid_len hdr = do
  (dcid, rest) ← take_bytes (if ltb 0 expected_dcid_len then expected_dcid_len else 8) raw
  some (
      unpack_number (1 + length raw - length rest) rest (record hdr {
        dcid = connection_id dcid;
        kind = one_rtt;
        packet_number_len = bit_and first 0x03 + 1;
        is_long = false;
        key_phase = not (bit_and first 0x04 == 0);
      }))

unfoldable pub unpack_packet_header : List ℕ → ℕ → PacketHeader → Option (PacketHeader × ℕ)
unfolding unpack_long unpack_short
unpack_packet_header [] expected_dcid_len hdr = none
unpack_packet_header (first ∷ raw) expected_dcid_len hdr =
    if not (bit_and first 0x80 == 0)
    then unpack_long first raw hdr
    else unpack_short first raw expected_dcid_len hdr
