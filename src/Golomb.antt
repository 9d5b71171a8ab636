-- ===== src/Golomb.antt =====
-- src/entropy/golomb_rice_*.cpp: Golomb-Rice coding of sample differences.
pub mod Reader
pub mod Writer
pub mod Code
pub mod Signed
pub mod Context
pub mod SignExtend
pub mod Valid
pub mod Symbols
pub mod Run
mod Tests
