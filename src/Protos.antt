-- ===== src/Protos.antt =====
-- include/wavex/protos/ and src/protos/: the application protocols.
pub mod WebSocket
pub mod Http1
pub mod Http2
