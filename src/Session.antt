-- ===== src/Session.antt =====
-- http/session.rs: streams and the state of a session.
pub mod Stream
pub mod State
