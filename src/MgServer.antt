-- ===== src/MgServer.antt =====
-- gencode/mg_server/server: a server of length-prefixed messages over pooled buffers.
pub mod Buffers
pub mod ReadBuf
pub mod Parser
pub mod Frame
pub mod Refine
pub mod Table
pub mod Sending
pub mod Receiving
pub mod Serving
mod Tests
