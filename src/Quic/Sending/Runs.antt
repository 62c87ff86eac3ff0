-- ===== src/Quic/Sending/Runs.antt =====
-- Runs of the sending side of a QUIC stream on concrete queues.
use wave_x.Prelude.{
  ℕ, ◌≡◌, ◌≢◌, refl, arith, true, false, Option, none, some, List, [], replicate, length,
}
use wave_x.Quic.Congestion.{new_controller}
use wave_x.Quic.Packet.{PacketHeader}
use wave_x.Quic.Sending.{Sender, send_queue, send_loop, send_round, chunk_length}
use wave_x.Quic.Sending.Drain.{IsDone, send_queue-IsDone}
use wave_x.Quic.Sending.Flush.{Flushed, send_queue-Flushed}

-- A packet protection that leaves the payload as it is.
abbrev plain : PacketHeader → List ℕ → Option (List ℕ)
plain hdr payload = some payload

plain_protects : (hdr : PacketHeader) (payload : List ℕ) → plain hdr payload ≢ none
plain_protects hdr payload e = absurd (ground arith)

-- 1300 bytes and a FIN, of which flow control lets 1200 pass.
abbrev waiting : Sender
waiting = record {
  queue = replicate 1300 7;
  fin_pending = true;
  stream_sent = 0;
  cur_offset = 0;
  data_sent = 0;
  max_data = 1200;
  max_stream_data = 5000;
  next_pn = 4;
  sent_packets = [];
  controller = new_controller;
  pending_outbound_datagrams = [];
}

send_queue-Flushed_example :
    (t : Sender) × (send_queue plain 0 4 false [] waiting ≡ some t) × Flushed 4 waiting t
send_queue-Flushed_example = send_queue-Flushed plain 0 4 false [] waiting

-- The same with credit for all of it.
abbrev open_window : Sender
open_window = record waiting { max_data = 5000 }

send_queue-IsDone_example :
    (t : Sender) × (send_queue plain 0 4 false [] open_window ≡ some t) × IsDone t
send_queue-IsDone_example =
    send_queue-IsDone plain 0 4 false [] plain_protects open_window
      (record { in_total = omega arith; of_stream = omega arith })

abbrev queue_left : Option Sender → List ℕ
queue_left none = []
queue_left (some t) = t.queue

-- Two packets pass, and 100 bytes stay behind.
limited : length (queue_left (send_queue plain 0 4 false [] waiting)) ≡ 100
unfolding send_queue send_loop send_round chunk_length
limited = refl
