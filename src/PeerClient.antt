-- ===== src/PeerClient.antt =====
-- src/lib/peer_client: what a node sends to its peers.
pub mod ConnectionWriteStream
pub mod WriteSupervisor
pub mod PartialTransfers
pub mod MessageSender
