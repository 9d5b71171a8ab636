-- ===== src/Util.antt =====
-- src/util/: the arithmetic of RFC 9043 and the CRC.
pub mod RfcMath
pub mod Crc32
mod Tests
