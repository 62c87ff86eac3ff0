-- ===== src/Quic/Packet/Runs.antt =====
-- Packet headers at work, and the theorems at concrete ones.
use wave_x.Prelude.{◌+◌, ◌%◌, ◌^◌, ◌≡◌, refl, true, false, some, [], ◌∷◌, ◌++◌, arith}
use wave_x.Prelude.Digits.{push_number, read_number}
use wave_x.Quic.VarInt
use wave_x.Quic.Frames.Parse.{take_bytes}
use wave_x.Quic.Packet.{
  PacketHeader, new_header, initial, one_rtt, pack_packet_header, pack_long, pack_token,
  unpack_packet_header, unpack_long, unpack_id, unpack_token, unpack_number, type_of,
}
use wave_x.Quic.Packet.RoundTrip.{ShortFits, unpack-pack_short}

abbrev short_header : PacketHeader
short_header = record new_header {
  dcid = 1 ∷ 2 ∷ 3 ∷ [];
  packet_number = 700;
  packet_number_len = 2;
  key_phase = true;
}

short_header-ShortFits : ShortFits short_header 3
short_header-ShortFits = record {
  short = refl;
  positive = omega arith;
  id_length = refl;
  id_small = omega arith;
  number_length = (omega arith, omega arith);
  number_small = refl;
  number_bits = omega arith;
}

unpack-pack_short_example :
    unpack_packet_header (pack_packet_header short_header ++ (99 ∷ [])) 3 new_header
    ≡ some (
      record new_header {
        dcid = 1 ∷ 2 ∷ 3 ∷ [];
        kind = one_rtt;
        packet_number = 700;
        pn_offset = (1 + 3) % 2 ^ 32;
        packet_number_len = 2;
        is_long = false;
        key_phase = true;
      },
      1 + 3,
    )
unpack-pack_short_example =
    unpack-pack_short short_header new_header 3 (99 ∷ []) short_header-ShortFits

abbrev long_header : PacketHeader
long_header = record new_header {
  dcid = 1 ∷ 2 ∷ [];
  scid = 3 ∷ [];
  token = 7 ∷ [];
  size = 20;
  packet_number = 5;
  packet_number_len = 1;
  kind = initial;
  is_long = true;
}

long_bytes :
    pack_packet_header long_header ≡ 0xc0 ∷ 0 ∷ 0 ∷ 0 ∷ 1 ∷ 2 ∷ 1 ∷ 2 ∷ 1 ∷ 3 ∷ 1 ∷ 7 ∷ 20 ∷ 5 ∷ []
unfolding pack_packet_header pack_long pack_token push_number VarInt.encode
long_bytes = refl

long_back :
    unpack_packet_header (pack_packet_header long_header) 8 new_header
    ≡ some (record long_header { pn_offset = 13 }, 13)
unfolding pack_packet_header pack_long pack_token push_number VarInt.encode unpack_packet_header
    unpack_long unpack_id unpack_token unpack_number type_of take_bytes VarInt.decode
    VarInt.read_more read_number
long_back = refl
