-- ===== src/PeerServer.antt =====
-- src/lib/peer_server: from the packets of a peer to commands.
pub mod CommandRunner
pub mod Scheduling
pub mod CommandCenter
pub mod SocketPool
