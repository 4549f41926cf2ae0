-- ===== src/Tests.antt =====
-- The theorems at concrete inputs, and runs of the model, for each part of the program.
pub mod Wire
pub mod PeerServer
pub mod Api
pub mod Storage
pub mod Hashing
pub mod Callbacks
pub mod Deskew
pub mod PeerClient
pub mod UserServer
pub mod PeerCommands
pub mod Uploads
pub mod SkewCorrector
pub mod SimpleFileStore
pub mod FileStore
pub mod KnownPeers
pub mod Synchronizer
pub mod ClockText
pub mod Options
