-- ===== src/Tests.antt =====
-- The properties at concrete inputs.
mod Codec
mod Pipe
mod Frames
mod Sessions
mod Connections
mod Asynchronous
mod Simple
mod Answer
mod Connecting
