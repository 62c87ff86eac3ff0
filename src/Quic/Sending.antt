-- ===== src/Quic/Sending.antt =====
-- src/Network/QUIC/QuicConnection.cpp: flush_stream_send_queues for the queue of one stream, with
-- track_sent_packet, and SentPacket of include/wavex/Network/QUIC/CongestionControl.hpp. The queue is the contents
-- of a StreamBuffer. CryptoSuite::protect_packet, which calls OpenSSL, is a parameter: the packet, or none where it
-- fails. Credits and offsets are QUIC's variable-length integers, so that their sums do not wrap around.
pub mod Flush
pub mod Drain
mod Runs
use wave_x.Prelude.{
  ℕ, zero, suc, ◌+◌, ◌-◌, Bool, true, false, not, ◌&&◌, ◌||◌, Option, none, some, List, [], ◌∷◌,
  ◌++◌, ltb, ◌==◌, if◌then◌else◌, length, take, drop,
}
use wave_x.Quic.Frames.Types.{Frame, StreamFrame, stream}
use wave_x.Quic.Frames.Serialize.{serialize_frame}
use wave_x.Quic.Packet.{PacketHeader, PacketType, new_header, one_rtt}
use wave_x.Quic.Congestion.{CongestionController, on_packet_sent}

pub record SentPacket : Type 0 where
  pub time_sent : ℕ
  pub packet_number : ℕ
  pub bytes_sent : ℕ
  pub retransmittable_frames : List Frame
  pub packet_type : PacketType
  pub ack_eliciting : Bool
  pub in_flight : Bool

abbrev pub is_nil {ℓ} : {A : Type ℓ} → List A → Bool
is_nil [] = true
is_nil (x ∷ xs) = false

-- The constructor of SentPacket with frames.
abbrev pub sent_packet : ℕ → ℕ → PacketType → List Frame → ℕ → SentPacket
sent_packet pn bytes kind frames ts = record {
  time_sent = ts;
  packet_number = pn;
  bytes_sent = bytes;
  retransmittable_frames = frames;
  packet_type = kind;
  ack_eliciting = not (is_nil frames);
  in_flight = true;
}

-- The sending state of one stream and of its connection: `sent_packets` are those of the space of 1-RTT packets.
pub record Sender : Type 0 where
  pub queue : List ℕ
  pub fin_pending : Bool
  pub stream_sent : ℕ
  pub cur_offset : ℕ
  pub data_sent : ℕ
  pub max_data : ℕ
  pub max_stream_data : ℕ
  pub next_pn : ℕ
  pub sent_packets : List SentPacket
  pub controller : CongestionController
  pub pending_outbound_datagrams : List (List ℕ)

-- kMaxStreamFramePayload
abbrev pub max_stream_frame_payload : ℕ
max_stream_frame_payload = 1150

-- `(limit > sent) ? (limit - sent) : 0`
abbrev pub credit : ℕ → ℕ → ℕ
credit limit sent = if ltb sent limit then limit - sent else 0

-- One of the cuts of chunk_len.
abbrev pub cut : ℕ → ℕ → ℕ
cut chunk_len bound = if ltb bound chunk_len then bound else chunk_len

unfoldable pub chunk_length : Sender → ℕ
chunk_length s =
    cut (cut (cut (length s.queue) max_stream_frame_payload) (credit s.max_data s.data_sent))
      (credit s.max_stream_data s.stream_sent)

-- track_sent_packet of a 1-RTT packet, without the timer.
abbrev pub track_sent_packet : ℕ → ℕ → ℕ → List Frame → Sender → Sender
track_sent_packet now pn bytes frames s = record s {
  sent_packets = s.sent_packets ++ (sent_packet pn bytes one_rtt frames now ∷ []);
  controller = on_packet_sent bytes true s.controller;
}

-- How a round of the loop over a queue ends.
pub data RoundEnd : Type 0 where
  stops : Sender → RoundEnd
  goes_on : Sender → RoundEnd

module _ (protect : PacketHeader → List ℕ → Option (List ℕ)) (now sid : ℕ) (key_phase : Bool)
    (peer_cid : List ℕ) where
  abbrev pub chunk_frame : ℕ → Bool → Sender → StreamFrame
  chunk_frame chunk_len chunk_fin s = record {
    bytes = take chunk_len s.queue;
    stream_id = sid;
    offset = s.cur_offset;
    fin = chunk_fin;
    has_offset = ltb 0 s.cur_offset;
    has_length = true;
  }

  -- What follows protect_packet.
  abbrev pub send_chunk : ℕ → Bool → Sender → Option (List ℕ) → RoundEnd
  send_chunk chunk_len chunk_fin s none = stops (record s { next_pn = suc s.next_pn })
  send_chunk chunk_len chunk_fin s (some packet) =
      let t : Sender =
        track_sent_packet now s.next_pn (length packet)
          (stream (chunk_frame chunk_len chunk_fin s) ∷ [])
          (record s { next_pn = suc s.next_pn }) in
      let u : Sender = record t {
        pending_outbound_datagrams = s.pending_outbound_datagrams ++ (packet ∷ []);
        cur_offset = s.cur_offset + chunk_len;
        data_sent = s.data_sent + chunk_len;
        stream_sent = s.stream_sent + chunk_len;
        queue = drop chunk_len s.queue;
        fin_pending = if chunk_fin then false else s.fin_pending;
      } in
      if (chunk_len == 0) && chunk_fin then stops u else goes_on u

  -- One round of `while (!queue.empty() || fin_pending)`.
  unfoldable pub send_round : Sender → RoundEnd
  send_round s =
      let conn_credit = credit s.max_data s.data_sent in
      let stream_credit = credit s.max_stream_data s.stream_sent in
      let chunk_len = chunk_length s in
      let chunk_fin = (chunk_len == length s.queue) && s.fin_pending in
      let hdr : PacketHeader = record new_header {
        is_long = false;
        kind = one_rtt;
        key_phase = key_phase;
        dcid = peer_cid;
        packet_number = s.next_pn;
      } in
      let sent =
        send_chunk chunk_len chunk_fin s
          (protect hdr (serialize_frame (stream (chunk_frame chunk_len chunk_fin s)))) in
      if is_nil s.queue && not s.fin_pending
      then stops s
      else if not (is_nil s.queue) && ((conn_credit == 0) || (stream_credit == 0))
      then stops s
      else if (chunk_len == 0) && not (is_nil s.queue)
      then stops s
      else sent

  abbrev pub next_round : (Sender → Option Sender) → RoundEnd → Option Sender
  next_round more (stops s) = some s
  next_round more (goes_on s) = more s

  -- The loop on fuel.
  unfoldable pub send_loop : ℕ → Sender → Option Sender
  send_loop zero s = none
  send_loop (suc n) s = next_round (send_loop n) (send_round s)

  -- The loop with a round for every byte, one for a FIN alone and one that finds nothing left.
  unfoldable pub send_queue : Sender → Option Sender
  send_queue s = send_loop (suc (suc (length s.queue))) s
