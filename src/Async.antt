-- ===== src/Async.antt =====
-- client/async.rs: the client whose requests are issued from several threads.
pub mod Channel
pub mod Sender
pub mod Receiver
pub mod Service
pub mod Front
pub mod System
