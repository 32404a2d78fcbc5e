-- ===== src/Rpc/Parser.antt =====
-- src/binary_stream_parser.h and src/binary_request.h: a message is a header of three integers
-- and then `_message_size` bytes, received in pieces of any size.
pub mod Bytes
pub mod Slices
pub mod Chunks
pub mod Progress
pub mod Reassembly
pub mod Feed
pub mod Errors
use mg_raffle.Base.{
  ℕ, zero, suc, ◌+◌, ◌-◌, ◌*◌, ◌^◌, ◌≡◌, Bool, true, false, ◌&&◌, Option, none, some, List, [], ◌∷◌,
  ◌++◌, ◌==◌, if◌then◌else◌, length, leb, ltb, take, drop, get_or, not,
}
use mg_raffle.Base.Int.{ℤ, pos, negsuc, ◌+ℤ◌, ◌-ℤ◌, ltb_ℤ, leb_ℤ, min_ℤ, eq_ℤ}
use mg_raffle.Base.Run.{Run, done, fault, Cmd, pure, stop, ◌>>=◌, ◌>>◌, modify, gets, check}
use mg_raffle.Rpc.ReadBuffer.{SBufferGuard, BufHandle, ReadBuffer, new_read_buffer, append}
use Bytes.{int32_at, slice, copy_into}

pub data ReadType : Type 0 where
  rpc_header : ReadType
  rpc_message : ReadType

abbrev pub header_size : ℤ
header_size = pos 12

-- `SBinaryRequest`; its `_rpc_header` is never used.
pub record Request : Type 0 where
  pub read_buf : ReadBuffer
  pub recieved_time : ℤ
  pub remote_ip : List ℕ
  pub remote_port : ℤ

-- The values that the constructors leave as they find them.
pub record Garbage : Type 0 where
  pub header : List ℕ
  pub total_bytes : ℤ
  pub port : ℤ

abbrev pub new_request : Garbage → Request
new_request g = record {
  read_buf = new_read_buffer g.total_bytes;
  recieved_time = pos 0;
  remote_ip = [];
  remote_port = g.port;
}

pub record Parser : Type 0 where
  pub recieve_header : List ℕ
  pub type : ReadType
  pub requestsp : Request
  pub module_has_read_size : ℤ

unfoldable pub reset_recieve_env : Parser → Parser
reset_recieve_env p = record p { module_has_read_size = pos 0; type = rpc_header }

unfoldable pub new_parser : Garbage → Parser
new_parser g = record {
  recieve_header = g.header;
  type = rpc_header;
  requestsp = new_request g;
  module_has_read_size = pos 0;
}

-- `struct RpcMessageHeader`, read from its bytes
abbrev pub meta_size : Parser → ℤ
meta_size p = int32_at p.recieve_header 0

abbrev pub data_size : Parser → ℤ
data_size p = int32_at p.recieve_header 4

abbrev pub message_size : Parser → ℤ
message_size p = int32_at p.recieve_header 8

-- The return value, and the two arguments that are passed by reference.
pub record Parsed : Type 0 where
  pub ret : ℤ
  pub consume : ℤ
  pub remain_length : ℤ

abbrev pub parsed : ℤ → ℤ → ℤ → Parsed
parsed r c n = record { ret = r; consume = c; remain_length = n }

-- `memcpy` into the header; reading or writing out of bounds is a fault.
unfoldable pub copy_header : SBufferGuard → ℤ → ℤ → Cmd Parser (Unit {0})
copy_header buf consume real_read p = elim (slice buf consume real_read) [
  | none ↦ fault
  | some bytes ↦ elim (copy_into p.recieve_header p.module_has_read_size bytes) [
    | none ↦ fault
    | some header ↦ done tt (record p { recieve_header = header })
  ]
]

abbrev pub add_read : ℤ → Parser → Parser
add_read n p = record p { module_has_read_size = p.module_has_read_size +ℤ n }

abbrev pub append_handle : BufHandle → Parser → Parser
append_handle h p = record p {
  requestsp = record (p.requestsp) { read_buf = append h (p.requestsp).read_buf };
}

-- `case RPC_MESSAGE`. The source passes the parts of the handle in an order that its constructor
-- does not have, (position, size, buffer), and so does not compile; each is taken for the part that
-- its type makes it.
unfoldable pub parse_message : SBufferGuard → ℤ → ℤ → Cmd Parser Parsed
unfolding reset_recieve_env
parse_message buf consume remain p =
    let real_read = min_ℤ (message_size p -ℤ p.module_has_read_size) remain in
    let handle : BufHandle = record { offset = consume; size = real_read; bufsp = buf } in
    let q = add_read real_read (append_handle handle p) in
    if ltb_ℤ q.module_has_read_size (message_size q)
    then done (parsed (pos 0) (consume +ℤ real_read) (remain -ℤ real_read)) q
    else done (parsed (pos 1) (consume +ℤ real_read) (remain -ℤ real_read)) (reset_recieve_env q)

-- The header has been read in full.
unfoldable pub finish_header : SBufferGuard → ℤ → ℤ → Cmd Parser Parsed
finish_header buf consume remain p =
    if eq_ℤ (message_size p) (meta_size p +ℤ data_size p)
    then (let q = record p { module_has_read_size = pos 0; type = rpc_message } in
        if eq_ℤ remain (pos 0)
        then done (parsed (pos 0) consume remain) q
        else parse_message buf consume remain q)
    else done (parsed (negsuc 0) consume remain) p

-- `case RPC_HEADER`, which falls through
unfoldable pub parse_header : SBufferGuard → ℤ → ℤ → Cmd Parser Parsed
unfolding copy_header
parse_header buf consume remain = do
  has_read ← gets λ p. p.module_has_read_size
  check (ltb_ℤ has_read header_size)
  let real_read = min_ℤ (header_size -ℤ has_read) remain
  copy_header buf consume real_read
  modify (add_read real_read)
  now_read ← gets λ p. p.module_has_read_size
  if ltb_ℤ now_read header_size
      then pure (parsed (pos 0) (consume +ℤ real_read) (remain -ℤ real_read))
      else finish_header buf (consume +ℤ real_read) (remain -ℤ real_read)

unfoldable pub parser_msg : SBufferGuard → ℤ → ℤ → Cmd Parser Parsed
parser_msg buf consume remain p = elim (p.type) [
  | rpc_header ↦ parse_header buf consume remain p
  | rpc_message ↦ parse_message buf consume remain p
]

-- The finished request; the parser keeps a new one.
unfoldable pub get_request : Garbage → Cmd Parser Request
get_request g p = done (p.requestsp) (record p { requestsp = new_request g })
