-- ===== src/Wire.antt =====
-- The framing of messages between peers.
pub mod DataBuffer
pub mod MessagePacker
pub mod PacketParser
pub mod RoundTrip
pub mod Frames
pub mod Socket
pub mod BufferedWriter
