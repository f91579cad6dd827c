-- ===== src/Engine.antt =====
-- internal/engine: which cached entries a request may be served, and how long a waiter waits.
pub mod Freshness
pub mod Wait
mod Tests
