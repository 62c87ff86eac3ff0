-- ===== src/Protos/Http2/Hpack.antt =====
-- include/wavex/protos/http/http2codec.hpp, namespace hpack: the compression of header lists.
pub mod Outcome
pub mod Huffman
pub mod StaticTable
pub mod Integer
pub mod Encoder
pub mod Decoder
pub mod DynamicTable
pub mod Capacity
pub mod IntegerBack
pub mod Compare
pub mod Found
pub mod FieldBack
pub mod RoundTrip
pub mod Sent
pub mod Rounds
pub mod Limit
pub mod Stops
mod Runs
