-- ===== src/Membership.antt =====
-- src/lib/membership: the peers that this node knows.
pub mod Peer
pub mod KnownPeers
