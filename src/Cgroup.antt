-- ===== src/Cgroup.antt =====
-- internal/cgroup: container limits, and the settings of the Go runtime that follow from them.
pub mod ByteSize
pub mod Floats
pub mod Memory
pub mod Environment
pub mod Tuning
pub mod Paths
pub mod Proc
pub mod Readers
pub mod Hierarchy
