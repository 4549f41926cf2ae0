-- ===== src/Api.antt =====
-- src/lib/api: the commands.
pub mod Instructions
pub mod WriteCommand
pub mod PeerCommands
pub mod NodeCommands
pub mod Dispatch
pub mod StoreCommands
