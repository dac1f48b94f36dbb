-- ===== src/Tests.antt =====
-- The theorems applied to concrete inputs, and runs of the code.
pub mod FormatRuns
pub mod MicroarchRuns
pub mod Sample
pub mod CgroupRuns
pub mod PackRuns
pub mod AbiRuns
