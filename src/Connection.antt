-- ===== src/Connection.antt =====
-- http/connection.rs: the connection.
pub mod HttpFrame
pub mod Defs
pub mod Send
pub mod Keeps
pub mod Repeat
pub mod Chunks
pub mod Handle
