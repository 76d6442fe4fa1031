-- ===== src/Tests.antt =====
-- The theorems at concrete inputs, and runs of the definitions.
pub mod Spread
pub mod Chunks
pub mod Stored
pub mod Copied
pub mod Restored
pub mod Disk
pub mod Counted
pub mod Args
pub mod Procs
pub mod Piped
pub mod Chained
pub mod Shared
