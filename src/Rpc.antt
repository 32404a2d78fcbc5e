-- ===== src/Rpc.antt =====
-- The RPC server of src/: receive buffers, the message parser and the stream of a connection.
pub mod Buffer
pub mod ReadBuffer
pub mod Parser
pub mod Stream
pub mod Server
mod Tests
