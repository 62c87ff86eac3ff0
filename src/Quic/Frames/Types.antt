-- ===== src/Quic/Frames/Types.antt =====
-- The frame structures and their variant.
use wave_x.Prelude.{ℕ, Bool, List}

pub record AckRange : Type 0 where
  pub gap : ℕ
  pub ack_range_len : ℕ

pub record AckFrame : Type 0 where
  pub ranges : List AckRange
  pub largest_acknowledged : ℕ
  pub ack_delay : ℕ
  pub ecn : Bool

pub record ResetStreamFrame : Type 0 where
  pub stream_id : ℕ
  pub error_code : ℕ
  pub final_size : ℕ

pub record StopSendingFrame : Type 0 where
  pub stream_id : ℕ
  pub error_code : ℕ

pub record CryptoFrame : Type 0 where
  pub bytes : List ℕ
  pub offset : ℕ

pub record StreamFrame : Type 0 where
  pub bytes : List ℕ
  pub stream_id : ℕ
  pub offset : ℕ
  pub fin : Bool
  pub has_offset : Bool
  pub has_length : Bool

pub record MaxStreamDataFrame : Type 0 where
  pub stream_id : ℕ
  pub max_stream_data : ℕ

pub record MaxStreamsFrame : Type 0 where
  pub max_streams : ℕ
  pub bidirectional : Bool

pub record StreamDataBlockedFrame : Type 0 where
  pub stream_id : ℕ
  pub stream_data_limit : ℕ

pub record StreamsBlockedFrame : Type 0 where
  pub stream_limit : ℕ
  pub bidirectional : Bool

pub record ConnectionCloseFrame : Type 0 where
  pub reason_phrase : List ℕ
  pub error_code : ℕ
  pub frame_type : ℕ
  pub is_application : Bool

-- The structures with one field or none are the arguments of their constructors.
pub data Frame : Type 0 where
  padding : ℕ → Frame
  ping : Frame
  ack : AckFrame → Frame
  reset_stream : ResetStreamFrame → Frame
  stop_sending : StopSendingFrame → Frame
  crypto : CryptoFrame → Frame
  new_token : List ℕ → Frame
  stream : StreamFrame → Frame
  max_data : ℕ → Frame
  max_stream_data : MaxStreamDataFrame → Frame
  max_streams : MaxStreamsFrame → Frame
  data_blocked : ℕ → Frame
  stream_data_blocked : StreamDataBlockedFrame → Frame
  streams_blocked : StreamsBlockedFrame → Frame
  connection_close : ConnectionCloseFrame → Frame
  handshake_done : Frame
  datagram : List ℕ → Frame

-- The frame types that are serialized by their names.
pub data FrameType : Type 0 where
  ping ack reset_stream stop_sending crypto new_token max_data max_stream_data : FrameType
  max_streams_bidi max_streams_uni data_blocked stream_data_blocked : FrameType
  streams_blocked_bidi streams_blocked_uni : FrameType
  connection_close_quic connection_close_app handshake_done datagram_with_length : FrameType

-- `static_cast<uint64_t>(FrameType::...)`
abbrev pub frame_code : FrameType → ℕ
frame_code FrameType.ping = 0x01
frame_code FrameType.ack = 0x02
frame_code FrameType.reset_stream = 0x04
frame_code FrameType.stop_sending = 0x05
frame_code FrameType.crypto = 0x06
frame_code FrameType.new_token = 0x07
frame_code FrameType.max_data = 0x10
frame_code FrameType.max_stream_data = 0x11
frame_code FrameType.max_streams_bidi = 0x12
frame_code FrameType.max_streams_uni = 0x13
frame_code FrameType.data_blocked = 0x14
frame_code FrameType.stream_data_blocked = 0x15
frame_code FrameType.streams_blocked_bidi = 0x16
frame_code FrameType.streams_blocked_uni = 0x17
frame_code FrameType.connection_close_quic = 0x1c
frame_code FrameType.connection_close_app = 0x1d
frame_code FrameType.handshake_done = 0x1e
frame_code FrameType.datagram_with_length = 0x31
