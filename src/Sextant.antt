-- ===== src/Sextant.antt =====
-- pkg/sextant: a verifier that samples keys, compares the cache with the origin, and reports the
-- entries that stay behind for longer than the propagation bound.
pub mod Difference
pub mod Classify
pub mod RecentKeys
pub mod Slo
pub mod Verifier
mod Tests
