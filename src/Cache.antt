-- ===== src/Cache.antt =====
-- internal/cache/cache.go: the local file cache and the metadata of its files.
pub mod Meta
pub mod Entry
pub mod Paths
pub mod Recorded
pub mod Pending
pub mod Synced
pub mod Removal
pub mod RemoveEntry
pub mod Placement
pub mod Eviction
pub mod SizeLimit
pub mod Below
pub mod Kept
pub mod AgeSafety
pub mod SizeSafety
pub mod SizeOrder
mod Usage
pub mod Sample
mod Examples
