-- ===== src/MgServer/Parser/Requests.antt =====
-- gencode/mg_server/server: the requests of request.h, the parser of parser.h and the connection of
-- connection.h.
use mg_raffle.Base.{ℕ, Option, none, List, [], ◌∷◌}
use mg_raffle.Base.Int.{ℤ, pos}
use mg_raffle.Rpc.Parser.Bytes.{int32_at}
use mg_raffle.MgServer.ReadBuf.{MReadBuf, new_read_buf}

pub data ParseType : Type 0 where
  m_magic : ParseType
  m_header : ParseType
  m_rpc_header : ParseType
  m_rpc_content : ParseType

-- `_length_header` is kept as its bytes; the constructor does not set them.
pub record MRequest : Type 0 where
  pub length_header : List ℕ
  pub rpc_header_buf : MReadBuf
  pub rpc_body_buf : MReadBuf

abbrev pub new_request : List ℕ → MRequest
new_request garbage = record {
  length_header = garbage;
  rpc_header_buf = new_read_buf;
  rpc_body_buf = new_read_buf;
}

abbrev pub rpc_header_length : MRequest → ℤ
rpc_header_length r = int32_at r.length_header 0

abbrev pub rpc_body_length : MRequest → ℤ
rpc_body_length r = int32_at r.length_header 4

abbrev pub length_header_size : ℤ
length_header_size = pos 8

pub record MParser : Type 0 where
  pub header_remain : ℤ
  pub rpc_remain : ℤ
  pub req : MRequest

-- `_rpc_remain` is not set.
abbrev pub new_parser : List ℕ → ℤ → MParser
new_parser garbage remain = record {
  header_remain = length_header_size;
  rpc_remain = remain;
  req = new_request garbage;
}

pub record MConnection : Type 0 where
  pub fd : ℤ
  pub client_ip : List ℕ
  pub client_port : ℤ
  pub magic : List ℕ
  pub magic_remain : ℤ
  pub parse_type : ParseType
  pub parser : Option MParser
  pub send_buf : MReadBuf

unfoldable pub new_connection : ℤ → List ℕ → ℤ → MConnection
new_connection fd client_ip client_port = record {
  fd = fd;
  client_ip = client_ip;
  client_port = client_port;
  magic = 0 ∷ 0 ∷ 0 ∷ 0 ∷ [];
  magic_remain = pos 4;
  parse_type = m_magic;
  parser = none;
  send_buf = new_read_buf;
}
