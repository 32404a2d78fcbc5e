-- ===== src/MgServer/Refine.antt =====
-- gencode/mg_server/server: `parse_connection` decodes what MgServer.Frame says, from any buffers.
pub mod Held
pub mod Rounds
pub mod Splits
pub mod Headers
pub mod Lengths
pub mod Magic
pub mod Connection
pub mod Loop
pub mod Stream
pub mod Feed
pub mod Rewinds
