-- ===== src/MgServer/Serving.antt =====
-- gencode/mg_server/server: the connections, their buffers and the responses in use.
pub mod Closing
pub mod Responses
pub mod Buffering
pub mod Taking
pub mod Answering
pub mod Watching
pub mod Replies
pub mod Events
