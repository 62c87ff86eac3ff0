-- ===== src/Protos/Http2.antt =====
-- include/wavex/protos/http/http2codec.hpp: frames, HPACK, the parser and the encoder of HTTP/2.
pub mod Frame
pub mod Hpack
pub mod Message
pub mod Encoder
pub mod Parser
mod Runs
