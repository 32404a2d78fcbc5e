-- ===== src/MgServer/Receiving.antt =====
-- gencode/mg_server/server/main.cpp: `do_request`, `recv_run` and `accept_run`, with hello_rpc_task.cpp.
use Prim.Native.Nat.{bit_or}
use mg_raffle.Base.{
  ℕ, zero, suc, ◌+◌, ◌*◌, Bool, true, false, Option, none, some, List, [], ◌∷◌, ◌++◌, ◌==◌,
  if◌then◌else◌, length, take, drop,
}
use mg_raffle.Base.Int.{ℤ, pos, pos_part}
use mg_raffle.Base.Run.{Run, done, fault, out_of_fuel, Cmd, pure, ◌>>=◌, ◌>>◌, modify}
use mg_raffle.Rpc.Parser.Bytes.{copy_into}
use mg_raffle.MgServer.Buffers.{Memory, allocate, give_back, MBufferGuard, release_all}
use mg_raffle.MgServer.Parser.{MRequest, Session, parse_connection}
use mg_raffle.MgServer.Table.{
  Server, Received, got, recv_failed, get_conn, create_conn, close_conn, set_memory, set_object,
}
use mg_raffle.MgServer.Sending.{eagain, ewouldblock, eintr, set_buffer, do_response, send_run}

-- What the server uses of protobuf and of the messages that protoc generates.
pub record Protobuf : Type 1 where
  pub RpcHeader : Type 0
  pub HelloReq : Type 0
  pub HelloRes : Type 0
  pub parse_header : List ℕ → RpcHeader
  pub is_hello : RpcHeader → Bool
  pub set_response : RpcHeader → RpcHeader
  pub serialize_header : RpcHeader → List ℕ
  pub parse_req : List ℕ → HelloReq
  pub new_res : HelloRes
  pub set_name : List ℕ → HelloRes → HelloRes
  pub serialize_res : HelloRes → List ℕ

-- The bytes that a reader of the stream is given.
abbrev pub part_bytes : Memory → List MBufferGuard → List ℕ
part_bytes m [] = []
part_bytes m (g ∷ gs) =
    take (pos_part g.size) (drop (pos_part g.index) ((m.buffers g.buf).buf)) ++ part_bytes m gs

-- The destructor of a request: the body first, as the members are declared.
unfoldable pub release_request : MRequest → Memory → Memory
release_request r m =
    release_all (r.rpc_header_buf).buf_list (release_all (r.rpc_body_buf).buf_list m)

unfoldable pub release_requests : List MRequest → Memory → Memory
unfolding release_request
release_requests [] m = m
release_requests (r ∷ rs) m = release_requests rs (release_request r m)

-- Three attempts, as `retry` says.
unfoldable pub try_allocate : ℕ → Memory → Option ℕ × Memory
try_allocate zero m = (none, m)
try_allocate (suc n) m =
    let again = try_allocate n m in
    elim ((allocate m).0) [ some id ↦ (some id, (allocate m).1) | none ↦ again ]

-- What `parse_connection` did to the connection and to the buffer.
abbrev pub keep_session : ℕ → ℕ → Run Session (List MRequest) → Cmd Server (List MRequest)
keep_session c id (done reqs t) s = done reqs (set_object c t.conn (set_buffer id t.buffer s))
keep_session c id fault s = fault
keep_session c id out_of_fuel s = out_of_fuel

-- `parse_connection`, with the rounds that it needs for as many bytes.
unfoldable pub parse_bytes : List ℕ → ℤ → ℕ → ℕ → ℕ → Cmd Server (List MRequest)
parse_bytes garbage unset c id len s =
    keep_session c id
      (parse_connection garbage unset id (3 * len + 3) (pos len)
        (record { conn = s.objects c; buffer = (s.memory).buffers id }))
      s

abbrev pub fill_buffer : ℕ → Option (List ℕ) → Cmd Server (Unit {0})
fill_buffer id none s = fault
fill_buffer id (some buf) s =
    done tt (set_buffer id (record ((s.memory).buffers id) { buf = buf }) s)

-- `recv` into the room behind the position; what goes past the end of the buffer is a fault.
unfoldable pub recv_into : ℕ → List ℕ → Cmd Server (Unit {0})
recv_into id bytes s =
    let b = (s.memory).buffers id in fill_buffer id (copy_into b.buf b.cur_index bytes) s

abbrev pub give_back_to : ℕ → Server → Server
give_back_to id s = set_memory (give_back id s.memory) s

-- The kernel fills no more than `Remain`.
abbrev pub at_most : ℤ → Received → Received
at_most room (got bytes) = got (take (pos_part room) bytes)
at_most room (recv_failed errno) = recv_failed errno

-- A client that was accepted, if epoll takes its descriptor; otherwise `accept_run` returns.
unfoldable pub accept_client : Bool → ℤ → List ℕ → ℤ → Server → Bool × Server
accept_client false client client_ip client_port s = (false, s)
accept_client true client client_ip client_port s = (
  true,
  create_conn client client_ip client_port
      (record s { opened = client ∷ s.opened; watched = client ∷ s.watched }),
)

-- One event that `epoll_wait` reports: `accept` failed or gave a client, which epoll takes or not,
-- or a client can be read from or written to; `SendBuf` has as many rounds as the event says.
pub data Event : Type 0 where
  accept_failed : Event
  accepted : Bool → ℤ → List ℕ → ℤ → Event
  ready : ℕ → ℤ → Bool → Bool → Event

module _ (proto : Protobuf) where
  open proto use {
    HelloReq, HelloRes, parse_header, is_hello, set_response, serialize_header, parse_req, new_res,
    set_name, serialize_res,
  }

  -- `HelloTask::Run`, which names "world"
  abbrev pub run_task : HelloReq → HelloRes → HelloRes
  run_task req res = set_name (119 ∷ 111 ∷ 114 ∷ 108 ∷ 100 ∷ []) res

  unfoldable pub answer : ℤ → ℕ → MRequest → Cmd Server (Unit {0})
  answer fd c r s =
      let header = parse_header (part_bytes s.memory (r.rpc_header_buf).buf_list) in
      if is_hello header
      then (let req = parse_req (part_bytes s.memory (r.rpc_body_buf).buf_list) in
          do_response fd c (serialize_header (set_response header))
            (serialize_res (run_task req new_res)) s)
      else done tt s

  unfoldable pub do_request : ℤ → ℕ → List MRequest → Cmd Server (Unit {0})
  unfolding answer
  do_request fd c [] = pure tt
  do_request fd c (r ∷ rs) = answer fd c r >> do_request fd c rs

  module _ (garbage : List ℕ) (unset : ℤ) where
    -- `else if (len > 0)`
    unfoldable pub on_data : ℤ → ℕ → ℕ → List ℕ → Cmd Server (Unit {0})
    unfolding recv_into parse_bytes
    on_data fd c id bytes = do
      recv_into id bytes
      reqs ← parse_bytes garbage unset c id (length bytes)
      do_request fd c reqs
      modify λ s. set_memory (release_requests reqs s.memory) s

    -- One result of `recv`, with the rounds that follow.
    unfoldable pub on_recv : Cmd Server (Unit {0}) → ℤ → ℕ → ℕ → Received → Cmd Server (Unit {0})
    unfolding on_data
    on_recv rest fd c id (got []) = modify λ s. close_conn fd (give_back_to id s)
    on_recv rest fd c id (got (x ∷ xs)) = on_data fd c id (x ∷ xs) >> rest
    on_recv rest fd c id (recv_failed errno) =
        if errno == bit_or eagain ewouldblock
        then modify (give_back_to id)
        else (if errno == eintr
            then (modify (give_back_to id) >> rest)
            else modify λ s. close_conn fd (give_back_to id s))

    -- A buffer to receive `r` into, if there is one; `rs` are the results to come.
    unfoldable pub recv_with :
        Cmd Server (Unit {0})
        → ℤ
        → ℕ
        → Received
        → List Received
        → Option ℕ × Memory
        → Cmd Server (Unit {0})
    unfolding on_recv
    recv_with rest fd c r rs (none, m) s = done tt (close_conn fd s)
    recv_with rest fd c r rs (some id, m) s =
        on_recv rest fd c id (at_most ((m.buffers id).remain) r)
          (set_memory m (record s { recvs = rs }))

    -- The loop of `recv_run`, over the results that there are.
    unfoldable pub recv_loop : List Received → ℤ → ℕ → Cmd Server (Unit {0})
    unfolding recv_with
    recv_loop [] fd c s = out_of_fuel
    recv_loop (r ∷ rs) fd c s = recv_with (recv_loop rs fd c) fd c r rs (try_allocate 3 s.memory) s

    unfoldable pub recv_run : ℤ → Cmd Server (Unit {0})
    unfolding recv_loop
    recv_run fd s = elim (get_conn fd s) [
      | none ↦ done tt (close_conn fd s)
      | some c ↦ recv_loop s.recvs fd c s
    ]

    -- An event of a client: what is readable first, then what is writable.
    unfoldable pub client_event : ℕ → ℤ → Bool → Bool → Cmd Server (Unit {0})
    unfolding recv_run
    client_event rounds fd readable writable =
        (if readable then recv_run fd else pure tt)
        >> (if writable then send_run rounds fd else pure tt)

    -- What the loop of `accept_run` does for an event, and whether it goes on.
    unfoldable pub on_event : Event → Cmd Server Bool
    unfolding client_event accept_client
    on_event accept_failed s = done true s
    on_event (accepted added client client_ip client_port) s =
        let out = accept_client added client client_ip client_port s in done out.0 out.1
    on_event (ready rounds fd readable writable) s =
        (client_event rounds fd readable writable >> pure true) s

    -- The loop over the events so far.
    unfoldable pub event_loop : List Event → Cmd Server Bool
    unfolding on_event
    event_loop [] = pure true
    event_loop (e ∷ es) =
        let rest = event_loop es in on_event e >>= λ go. if go then rest else pure false
