-- ===== src/Storage.antt =====
-- internal/storage: the hybrid logical clock of a shard, and the router over the shards.
pub mod Hlc
pub mod Shard
mod Tests
