-- ===== src/Utils.antt =====
-- include/wavex/Utils/: containers and helpers.
pub mod StreamBuffer
