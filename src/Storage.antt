-- ===== src/Storage.antt =====
-- internal/storage: the artifact stores.
pub mod Backend
pub mod Disk
pub mod Paths
pub mod Local
pub mod ObjectStore
pub mod S3
