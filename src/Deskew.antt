-- ===== src/Deskew.antt =====
-- src/lib/deskew: the indexes of keys by which nodes compare what they hold.
pub mod Names
pub mod DigestTree
pub mod DigestIndexer
pub mod KeyTabulator
pub mod SkewCorrector
pub mod KeyRange
pub mod Synchronizer
