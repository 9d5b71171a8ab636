-- ===== src/Bitstream.antt =====
-- src/bitstream/: the bit reader and the bit writer, most significant bit of a byte first.
pub mod Reader
pub mod Writer
pub mod Content
pub mod Put
pub mod Writes
pub mod Reads
pub mod RoundTrip
mod Tests
