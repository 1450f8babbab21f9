-- ===== src/Core.antt =====
-- src/core: entries, the LRU order, the TTL index, the shards and the engine.
pub mod Entry
pub mod Lru
pub mod Ttl
pub mod Shard
pub mod Manager
pub mod Engine
