-- ===== src/Quic/Packet/RoundTrip.antt =====
-- A header that was packed is unpacked as it was.
use wave_x.Prelude.{
  ℕ, zero, suc, ◌+◌, ◌-◌, ◌/◌, ◌%◌, ◌^◌, ◌≤◌, ◌<◌, ◌≡◌, refl, sym, ap, Bool, true, false, not, some,
  List, ◌++◌, ltb, leb, ◌==◌, if◌then◌else◌, length, bit_and, bit_or, arith, length-append,
  append_assoc, take_all, le→leb, lt→ltb,
}
use wave_x.Prelude.Digits.{push_number, read_digits, length-push_number}
use wave_x.Quic.Frames.Parse.{take_bytes}
use wave_x.Quic.Frames.Back.{take_bytes_back}
use wave_x.Quic.Packet.{
  one_rtt, connection_id, PacketHeader, pack_short, pack_packet_header, unpack_number, unpack_short,
  unpack_packet_header,
}

-- A short header that the code can tell apart: its connection id has the length that is expected.
pub record ShortFits (hdr : PacketHeader) (expected : ℕ) : Type 0 where
  pub short : hdr.is_long ≡ false
  pub positive : 1 ≤ expected
  pub id_length : length hdr.dcid ≡ expected
  pub id_small : expected ≤ 20
  pub number_length : (1 ≤ hdr.packet_number_len) × (hdr.packet_number_len ≤ 4)
  pub number_small : hdr.packet_number / 256 ^ hdr.packet_number_len ≡ 0
  pub number_bits : hdr.packet_number < 2 ^ 64

short_flags :
    (b : Bool) (n : ℕ)
    → 1 ≤ n
    → n ≤ 4
    → let first = bit_or (if b then bit_or 0x40 0x04 else 0x40) (bit_and (n + 3) 0x03) in
      (not (bit_and first 0x80 == 0) ≡ false)
      × (not (bit_and first 0x04 == 0) ≡ b)
      × (bit_and first 0x03 + 1 ≡ n)
short_flags true zero l h = absurd (omega arith)
short_flags true (suc zero) l h = (refl, refl, refl)
short_flags true (suc (suc zero)) l h = (refl, refl, refl)
short_flags true (suc (suc (suc zero))) l h = (refl, refl, refl)
short_flags true (suc (suc (suc (suc zero)))) l h = (refl, refl, refl)
short_flags true (suc (suc (suc (suc (suc n))))) l h = absurd (omega arith)
short_flags false zero l h = absurd (omega arith)
short_flags false (suc zero) l h = (refl, refl, refl)
short_flags false (suc (suc zero)) l h = (refl, refl, refl)
short_flags false (suc (suc (suc zero))) l h = (refl, refl, refl)
short_flags false (suc (suc (suc (suc zero)))) l h = (refl, refl, refl)
short_flags false (suc (suc (suc (suc (suc n))))) l h = absurd (omega arith)

-- Where the packet number is all there it is read back.
number_back :
    (offset : ℕ) (payload : List ℕ) (hdr : PacketHeader) (n : ℕ)
    → n < 2 ^ 64
    → n / 256 ^ hdr.packet_number_len ≡ 0
    → unpack_number offset (push_number hdr.packet_number_len n ++ payload) hdr
      ≡ (record hdr { pn_offset = offset % 2 ^ 32; packet_number = n }, offset)
unfolding unpack_number
number_back offset payload hdr n b z =
    let bytes = push_number hdr.packet_number_len n ++ payload in
    let there : leb hdr.packet_number_len (length bytes) ≡ true = le→leb _ _ (
      omega (
        arith,
        length-push_number hdr.packet_number_len n,
        length-append {0} (push_number hdr.packet_number_len n) payload,
      )) in
    rw (there, read_digits 64 hdr.packet_number_len n 0 payload b (sym z)) refl

-- A short header is read back from the front of a packet, whatever the header was before, and its length is the
-- offset of the packet number, under these conditions: its connection id has 1 to 20 bytes, as many as the receiver
-- expects, and its packet number is below 2^64 and fits in its length of 1 to 4 bytes.
pub unpack-pack_short :
    (hdr hdr0 : PacketHeader) (expected : ℕ) (payload : List ℕ)
    → ShortFits hdr expected
    → unpack_packet_header (pack_packet_header hdr ++ payload) expected hdr0
      ≡ some (
        record hdr0 {
          dcid = hdr.dcid;
          kind = one_rtt;
          packet_number = hdr.packet_number;
          pn_offset = (1 + expected) % 2 ^ 32;
          packet_number_len = hdr.packet_number_len;
          is_long = false;
          key_phase = hdr.key_phase;
        },
        1 + expected,
      )
unfolding unpack_packet_header pack_packet_header pack_short unpack_short
unpack-pack_short hdr hdr0 expected payload f =
    let n = hdr.packet_number_len in
    let (form, phase, len) = short_flags hdr.key_phase n f.number_length.0 f.number_length.1 in
    let after = push_number n hdr.packet_number ++ payload in
    let taken : take_bytes (if ltb 0 expected then expected else 8) (hdr.dcid ++ after)
        ≡ some (hdr.dcid, after) =
      rw (lt→ltb 0 expected (omega (arith, f.positive)), sym f.id_length)
        (take_bytes_back hdr.dcid after) in
    let whole : connection_id hdr.dcid ≡ hdr.dcid =
      take_all 20 hdr.dcid (omega (arith, f.id_length, f.id_small)) in
    let offset : 1 + length (hdr.dcid ++ after) - length after ≡ 1 + expected =
      omega (arith, f.id_length, length-append {0} hdr.dcid after) in
    let read_header = record hdr0 {
      dcid = hdr.dcid;
      kind = one_rtt;
      packet_number_len = n;
      is_long = false;
      key_phase = hdr.key_phase;
    } in
    rw
      (
        f.short,
        form,
        phase,
        len,
        append_assoc hdr.dcid (push_number n hdr.packet_number) payload,
        taken,
        whole,
        offset,
      )
      (ap some (
        number_back (1 + expected) payload read_header hdr.packet_number f.number_bits
          f.number_small))
