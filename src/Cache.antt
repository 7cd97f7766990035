-- ===== src/Cache.antt =====
-- internal/cache: the checksum cache in Redis.
pub mod Redis
pub mod Client
pub mod Keys
pub mod Contents
