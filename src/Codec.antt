-- ===== src/Codec.antt =====
-- internal/codec: how much memory and how many workers an encoder gets.
pub mod Admission
