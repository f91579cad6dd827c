-- ===== src/Cache.antt =====
-- internal/cache: versions as text, and the four scripts that run inside the cache server.
pub mod Version
pub mod Redis
pub mod Register
pub mod Script
pub mod Trace
pub mod Lease
mod Model
mod Tests
