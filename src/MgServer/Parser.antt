-- ===== src/MgServer/Parser.antt =====
-- gencode/mg_server/server/parser.cpp, request.h, connection.h and `parse_connection` of main.cpp.
mod Requests
mod Messages
mod Connections
unfoldable pub use Requests.*
unfoldable pub use Messages.*
unfoldable pub use Connections.*
