-- ===== src/Cache.antt =====
-- ytlib/cache: the local cache.
pub mod LocalCache
