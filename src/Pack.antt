-- ===== src/Pack.antt =====
-- internal/pack: the plan for filling the cache with the payloads of a packed file, the checks on
-- executables, and the inspection of what an executable asks of the system it runs on.
pub mod Elf
pub mod Prewarm
pub mod Abi
