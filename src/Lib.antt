-- ===== src/Lib.antt =====
-- WaveX, an HTTP server and client library in C++: a model of the parts below, with their theorems.
--
-- The parts, from the bottom up, with the code they model (paths from the repository's root):
--
-- - Prelude: Boolean tests on native numbers, lists measured by them, bit operations as arithmetic,
--   numbers as bytes.
-- - Utils.StreamBuffer (include/wavex/Utils/StreamBuffer.hpp): the buffer between a transport and its
--   reader. `StreamBuffer/Contents` reads it as a queue of bytes.
-- - Quic.VarInt (src/Network/QUIC/VarInt.cpp): variable-length integers. `VarInt/Codec` and
--   `VarInt/Bounds` are about what is written and read.
-- - Quic.Frames (src/Network/QUIC/QuicFrames.cpp): `serialize_frame` and `parse_frames`, which stand on
--   VarInt. `Frames/Types`, `Serialize` and `Parse` hold the code, `Progress` the loop of
--   `parse_frames`, `Back` and `RoundTrip` both directions together.
-- - Quic.Stream (src/Network/QUIC/QuicStream.cpp): a stream of a connection, which keeps its bytes in a
--   StreamBuffer. `Stream/Defs` holds the methods, `Reassembly` the invariant of the receiving side,
--   `Delivery` histories of arrivals and reads, `Lifecycle` histories of all calls.
-- - Quic.Congestion (include/wavex/Network/QUIC/CongestionControl.hpp): round-trip times and the
--   congestion window; `Congestion/Window` is about histories of packets.
-- - Quic.Packet (src/Network/QUIC/QuicPacket.cpp): packet headers; `Packet/RoundTrip` is about short ones.
-- - Quic.Sending (src/Network/QUIC/QuicConnection.cpp): `flush_stream_send_queues` for one stream, which
--   stands on the frames, the packet headers and the congestion controller. `Sending/Flush` is about
--   what is sent, `Drain` about when the queue runs empty.
-- - Quic.Recovery (src/Network/QUIC/QuicConnection.cpp): `on_ack_received` and `detect_lost_packets` for
--   the packets of one space that Sending tracks, up to where they begin to send again, as `settle_acked`
--   and `find_lost_packets`. `Recovery/Ranges` and `Acked` are about acknowledged ranges and packets,
--   `Lost` about packets given up, `Settled` about what becomes of all of them.
-- - Protos.WebSocket (src/protos/websocket/WebSocket.cpp): `Codec` holds frames and masks, `Text` the
--   helpers for tokens, UTF-8, base64 and close payloads, `Session` the connection, which stands on both:
--   `Session/Sending` is about its writer, `Reading`, `Progress` and `Delivery` about `read`.
-- - Protos.Http1 (include/wavex/protos/http/http1codec.hpp, Methods.hpp): names of methods, status codes
--   and header fields, which HTTP/2 shares. The parser of HTTP/1 is not modelled.
-- - Protos.Http2 (include/wavex/protos/http/http2codec.hpp): `Frame` holds frame headers, `Hpack` the
--   compression of header lists, `Encoder` the serializers, and `Parser` parse_request and
--   parse_response, which stand on the first two. In `Hpack`, `Integer`, `Huffman`, `StaticTable`,
--   `DynamicTable`, `Encoder` and `Decoder` hold the code; `Capacity` is about the dynamic table, `Compare`
--   and `Found` about the static one, `IntegerBack`, `FieldBack`, `RoundTrip` and `Sent` about what is decoded after
--   it was encoded, `Rounds`, `Limit` and `Stops` about the loop of the decoder. `Parser/Commit` is about
--   the results of a parse, `FramesBack` and `RoundTrip` about messages that were serialized.
--
-- Correspondence. A function has the name of the C++ function. `uint64_t` and `std::size_t` are native
-- numbers; where an addition can wrap it is written `add64`, and a subtraction stands behind the
-- comparison that the code makes first. Bytes are numbers, and a `std::string_view` with a cursor is the
-- list of the bytes from the cursor on; the decoder of HPACK keeps its cursor as a number, since it can wrap
-- around there. A method that changes an object returns the new record; calls
-- that leave the object (a pending read, the connection) are values of a data type, in order. Methods
-- of one object hold its mutex, so that an interleaving of threads is a sequence of whole methods.
-- Failures are `none` (PARSE_FAIL), a flag of the state, or an error code, as in the code; undefined
-- behaviour of C++ that the code can reach has a result of its own.
--
-- Fuel. `parse_loop` runs on fuel, and `parse_frames` gives it the number of bytes of the payload: each
-- round takes a byte at least. The rounds of the WebSocket `read` have one more than the bytes that are
-- there, since a round that goes on takes two at least. The loops over tokens and over UTF-8 have as
-- many rounds as bytes. `decode_header_block` has a fuel from the limit on the list and the size of the
-- block: between two fields, of 32 octets at least, the cursor only grows. Without a limit it need not
-- stop, and its fuel means nothing then. The parser of HTTP/2 has a round for every byte and one more,
-- since a frame has nine. Sending from a queue has two rounds more than there are bytes: a round that goes
-- on takes a byte off the queue. The other loops follow a list or a count.
--
-- Not modelled: asio and its executors, OpenSSL, sockets, threads, the text of log lines, and memory
-- ownership (the `owned_*` pointers of frames, capacities of strings). The other parts of the library
-- (the rest of the QUIC connection, the rest of HTTP/1, the sessions of HTTP/2, HTTP/3, WebTransport, the router and the
-- server) are not modelled.
pub mod Prelude
pub mod Quic
pub mod Utils
pub mod Protos
