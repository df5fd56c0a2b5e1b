-- ===== src/Utils.antt =====
-- src/utils: the cache that the database keeps of its tables, views and statistics.
pub mod Lru
