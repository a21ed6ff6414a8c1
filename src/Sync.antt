-- ===== src/Sync.antt =====
-- include/Sync and lib/Sync.
pub mod EventFlag
