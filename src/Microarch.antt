-- ===== src/Microarch.antt =====
-- internal/microarch: levels of CPU architectures, detected features, and the choice of a variant.
pub mod Level
pub mod Features
pub mod Requirements
pub mod Host
pub mod Policy
pub mod Evaluate
pub mod Detect
pub mod Select
