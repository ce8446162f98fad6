-- ===== src/Frame.antt =====
-- http/frame: HTTP/2 frames and their wire format.
pub mod Wire
pub mod Header
pub mod Builder
pub mod Raw
pub mod Data
pub mod Headers
pub mod Settings
pub mod RstStream
pub mod Goaway
pub mod WindowUpdate
