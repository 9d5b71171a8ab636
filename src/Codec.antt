-- ===== src/Codec.antt =====
-- src/codec/: the framing of slices.
pub mod Configuration
pub mod Descriptor
pub mod Symbols
pub mod SliceFooter
pub mod SliceHeader
pub mod PayloadLocator
pub mod Plane
mod Tests
