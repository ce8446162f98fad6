-- ===== src/Http.antt =====
-- http/mod.rs: error codes, results, flow-control windows and responses.
pub mod Error
pub mod Run
pub mod Window
pub mod Response
