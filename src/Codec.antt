-- ===== src/Codec.antt =====
-- core/serialize.h: the big-endian writer and the bounds-checked reader.
pub mod Writer
pub mod Reader
pub mod Value
pub mod RoundTrip
pub mod Failure
pub mod Progress
mod Tests
