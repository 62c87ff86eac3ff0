-- ===== src/Quic/Frames.antt =====
-- include/wavex/Network/QUIC/QuicFrames.hpp, src/Network/QUIC/QuicFrames.cpp and the frame types of
-- include/wavex/Network/QUIC/QuicConstants.hpp. The `owned_*` pointers, which only keep memory alive,
-- have no counterpart, nor has the text of the warnings.
pub mod Types
pub mod Serialize
pub mod Parse
pub mod Progress
pub mod Back
pub mod RoundTrip
mod Runs
