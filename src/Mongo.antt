-- ===== src/Mongo.antt =====
-- The file system process: I-Mongo-Store/src.
pub mod Bitarray
pub mod Disk
pub mod Blocks
pub mod File
pub mod ClientHandler
pub mod ListBits
pub mod Examples
