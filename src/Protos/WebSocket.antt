-- ===== src/Protos/WebSocket.antt =====
-- include/wavex/protos/websocket/WebSocket.hpp and src/protos/websocket/WebSocket.cpp: the frame codec,
-- the helpers of the opening handshake, and the session. Characters are bytes.
pub mod Codec
pub mod Text
pub mod Session
