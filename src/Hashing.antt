-- ===== src/Hashing.antt =====
-- src/lib/hashing: which nodes hold a key.
pub mod Ring
pub mod LocateKeys
