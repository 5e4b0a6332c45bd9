-- ===== src/Api.antt =====
-- internal/api: the server, its handlers, the watcher and the resync.
pub mod Upload
pub mod Registry
pub mod Download
pub mod Sample
pub mod Changes
pub mod Resync
pub mod Server
pub mod Watcher
pub mod Attributes
pub mod Listing
pub mod Cluster
pub mod Progress
pub mod Durable
