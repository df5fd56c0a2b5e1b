-- ===== src/Storage.antt =====
-- src/storage: the keys under which rows, indexes and the catalog are stored.
pub mod TableCodec
pub mod Transaction
pub mod Iter
