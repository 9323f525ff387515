-- ===== src/Cache.antt =====
-- Package cache: the settings of its two caches, and the cache that is filled again and again from a
-- source.
pub mod Config
pub mod Sync
mod Tests
