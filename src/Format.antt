-- ===== src/Format.antt =====
-- internal/format: the index and the trailer of a fat binary.
pub mod Types
pub mod Checksum
pub mod Buffer
pub mod Marshal
pub mod Unmarshal
pub mod Bounds
pub mod Trailer
pub mod Lookup
pub mod Escape
