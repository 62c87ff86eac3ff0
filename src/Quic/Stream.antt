-- ===== src/Quic/Stream.antt =====
-- include/wavex/Network/QUIC/QuicStream.hpp and src/Network/QUIC/QuicStream.cpp: one stream of a
-- connection. The stream is a record; a method returns the new record with what it asks of others, in
-- order: calls of its pending read, of the connection's `queue_stream_data` and of its `close_stream`.
-- `connected` tells whether the connection still lives (`conn_.lock()`). Each method holds the mutex of
-- the stream, so that methods do not interleave; a call of the pending read and of the connection comes
-- after the mutex is released, but in `cancel`.
pub mod Defs
pub mod Reassembly
pub mod Delivery
pub mod Lifecycle
mod Runs
