-- ===== src/Proxy.antt =====
-- internal/proxy: routing, the cache hierarchy, upstream fetches with retries, and HTTP replies.
pub mod Retry
pub mod Attempts
pub mod Router
pub mod World
pub mod Serve
pub mod Tasks
pub mod Http
pub mod Concurrent
