-- ===== src/Storage.antt =====
-- asb-authdb/lvmt-db/src/storage: columns of the key-value backend, the layouts and the cached
-- access to a family of entries.
pub mod Backend
pub mod Layout
pub mod Access
