-- ===== src/Storage.antt =====
-- src/lib/storage: keys and their versions.
pub mod Streams
pub mod DataChain
pub mod FileReader
pub mod Files
pub mod WriteStream
pub mod SimpleFileStore
pub mod FileStore
