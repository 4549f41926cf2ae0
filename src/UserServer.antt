-- ===== src/UserServer.antt =====
-- src/lib/user_server: requests of users over HTTP.
pub mod UserCommandContext
pub mod UserPacketHandler
