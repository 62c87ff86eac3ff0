-- ===== src/Quic.antt =====
-- The QUIC transport: include/wavex/Network/QUIC/ and src/Network/QUIC/.
pub mod VarInt
pub mod Frames
pub mod Stream
pub mod Congestion
pub mod Packet
pub mod Sending
pub mod Recovery
