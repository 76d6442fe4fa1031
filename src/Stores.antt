-- ===== src/Stores.antt =====
-- The packages under stores/: registries of quotas and copies, stores, and readers of several.
pub mod Quota
pub mod Copies
pub mod Mem
pub mod Listing
pub mod MultiReader
pub mod Paths
pub mod Disk
pub mod Listed
pub mod Remote
pub mod Striping
