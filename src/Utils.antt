-- ===== src/Utils.antt =====
-- include/utils and src/utils.
pub mod RingBuffer
pub mod DataVector
pub mod Encoding
