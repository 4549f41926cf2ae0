-- ===== src/Common.antt =====
-- src/lib/common: what all parts share.
pub mod VectorClock
pub mod MerklePoint
pub mod ClockText
