-- ===== src/Rpc/Server.antt =====
-- src/tcp_server.h, src/epoll_connection.h and src/epoll_event.h: the table of connections, and the
-- events that epoll reports. What the system calls answer is an argument.
pub mod Reads
pub mod Table
use mg_raffle.Base.{
  ℕ, zero, suc, ◌+◌, ◌*◌, ◌/◌, ◌%◌, ◌^◌, Bool, true, false, Option, none, some, List, [], ◌∷◌, ◌==◌,
  not, if◌then◌else◌, ltb,
}
use mg_raffle.Base.Int.{ℤ, pos, pos_part, leb_ℤ}
use mg_raffle.Base.Run.{Run, done, fault, out_of_fuel, Cmd, pure, ◌>>=◌, ◌>>◌, modify, gets}
use mg_raffle.Base.Pointers.{Ptr, null, put}
use mg_raffle.Rpc.Parser.{Garbage}
use mg_raffle.Rpc.Stream.{Stream, Recv, on_read_some}

-- `STCPServer` with its connections' streams, and what the kernel and the heap hold for it: the
-- descriptors that epoll watches, those whose `SEventInfo` is allocated, and those closed.
-- `owners` counts the control blocks of shared pointers that own a connection, each of which
-- deletes it when its last pointer goes.
pub record Server : Type 0 where
  pub conns : ℕ → Bool
  pub streams : ℕ → Stream
  pub owners : ℕ → ℕ
  pub watched : ℕ → Bool
  pub infos : ℕ → Bool
  pub closed : List ℕ

-- `ntohl` on a machine with the lowest byte first
abbrev pub ntohl : ℕ → ℕ
ntohl x = x % 256 * 16777216 + x / 256 % 256 * 65536 + x / 65536 % 256 * 256 + x / 16777216 % 256

-- A descriptor that `accept` gave, with the peer's address and its `sin_port` as it stands.
pub record Accepted : Type 0 where
  pub clientfd : ℤ
  pub address : List ℕ
  pub sin_port : ℕ

-- `epoll_ctl(EPOLL_CTL_ADD)` with a new `SEventInfo`; `ok` is whether it succeeds.
unfoldable pub add_event : ℕ → Bool → Cmd Server Bool
add_event fd ok s = done ok (record s {
  infos = put fd true s.infos;
  watched = if ok then put fd true s.watched else s.watched;
})

-- `EPOLL_CTL_DEL`. `event` is uninitialised, and a pointer in it that is not null is deleted.
unfoldable pub remove_event : ℕ → Bool → Ptr → Cmd Server Bool
remove_event fd ok garbage s =
    if ok
    then (if garbage == null
        then done true (record s { watched = put fd false s.watched })
        else fault)
    else done false s

-- A new connection's stream, with the values that its constructor leaves as they are.
abbrev pub new_stream : List ℕ → ℕ → List ℕ → Stream
new_stream magic port address = record {
  parser = none;
  magic_string_recieve_size = pos 0;
  magic_number = magic;
  dst_ip = address;
  dst_port = pos port;
  stat = record { last_tick_time = 0; recieve_data_size = 0 };
  released = false;
  called = [];
}

-- `conn` is one owner; the constructor gives the stream another, `SEpollConnectionSP(this)`, and
-- with it a new owner of the server, `STCPServerSP(this)`.
unfoldable pub create_connection : ℕ → Accepted → List ℕ → Cmd Server (Unit {0})
create_connection fd a magic = modify λ s. record s {
  streams = put fd (new_stream magic (ntohl a.sin_port) a.address) s.streams;
  owners = put fd 2 s.owners;
}

-- The last pointer of `conn`'s control block goes: the connection is deleted, and with it its
-- stream. If the stream has an owner of its own, that deletes the connection a second time, which
-- is a fault; it would delete the server as well.
unfoldable pub drop_connection : ℕ → Cmd Server (Unit {0})
drop_connection fd s = if ltb 1 (s.owners fd) then fault else done tt s

-- `_conns[fd] = conn`; an entry that was there is dropped.
unfoldable pub enter_connection : ℕ → Cmd Server (Unit {0})
unfolding drop_connection
enter_connection fd s =
    if s.conns fd then drop_connection fd s else done tt (record s { conns = put fd true s.conns })

-- `_conns.erase(fd)`
unfoldable pub erase_connection : ℕ → Cmd Server (Unit {0})
unfolding drop_connection
erase_connection fd s =
    if s.conns fd then drop_connection fd (record s { conns = put fd false s.conns }) else done tt s

abbrev pub check_connection_avalible : Bool
check_connection_avalible = true

-- The rest of `accept_callback`, for a descriptor that is one. Without an entry in the table `conn`
-- is dropped at the end.
unfoldable pub accept_connection : ℕ → Accepted → List ℕ → Bool → Cmd Server (Unit {0})
unfolding create_connection add_event enter_connection
accept_connection fd a magic ok = do
  create_connection fd a magic
  if check_connection_avalible
      then (add_event fd ok >>= λ added. if added then enter_connection fd else drop_connection fd)
      else drop_connection fd

unfoldable pub accept_callback : Accepted → List ℕ → Bool → Cmd Server (Unit {0})
accept_callback a magic ok =
    if leb_ℤ a.clientfd (pos 0) then pure tt else accept_connection (pos_part a.clientfd) a magic ok

-- `SEpollConnection::on_close` and the erasure of the entry
unfoldable pub release_connection : ℕ → Bool → Ptr → Cmd Server (Unit {0})
unfolding remove_event erase_connection
release_connection fd ok garbage =
    remove_event fd ok garbage
    >> modify (λ s. record s { closed = fd ∷ s.closed })
    >> erase_connection fd

-- What the parts of a round need beside the event: fuel and uninitialised values for a stream, the
-- time, and the outcome of `EPOLL_CTL_DEL`.
pub record Round : Type 0 where
  pub rounds : ℕ
  pub garbage : Garbage
  pub now : ℕ
  pub del_ok : Bool
  pub event : Ptr

-- `on_read_some` of a connection, which releases it if the stream says so.
unfoldable pub read_connection : Round → ℕ → List Recv → Cmd Server (Unit {0})
read_connection r fd recvs s = elim (on_read_some r.rounds r.garbage r.now recvs (s.streams fd)) [
  | done _ stream ↦
      let read = record s { streams = put fd stream s.streams } in
      if stream.released then release_connection fd r.del_ok r.event read else done tt read
  | fault ↦ fault
  | out_of_fuel ↦ out_of_fuel
]

-- `conn_callback`; `on_write_some` does nothing.
unfoldable pub conn_callback : Round → ℕ → Bool → List Recv → Cmd Server (Unit {0})
conn_callback r fd epollin recvs = if epollin then read_connection r fd recvs else pure tt

-- A ready descriptor of `event_run`: its callback gets the event's `SEventInfo` in a new shared
-- pointer, which deletes it when the callback is done.
unfoldable pub dispatch : ℕ → Cmd Server (Unit {0}) → Cmd Server (Unit {0})
dispatch fd callback s =
    if s.infos fd
    then (callback >> modify λ s. record s { infos = put fd false s.infos }) s
    else fault

-- What `epoll_wait` reports, with what the callback finds.
pub data Event : Type 0 where
  on_listen : Accepted → List ℕ → Bool → Event
  on_connection : ℕ → Bool → List Recv → Event

unfoldable pub handle : Round → ℕ → Event → Cmd Server (Unit {0})
handle r listenfd (on_listen a magic ok) = dispatch listenfd (accept_callback a magic ok)
handle r listenfd (on_connection fd epollin recvs) = dispatch fd (conn_callback r fd epollin recvs)

-- The loop of `event_run`, for the events that have been reported so far.
unfoldable pub event_run : List (Round × Event) → ℕ → Cmd Server (Unit {0})
event_run [] listenfd = pure tt
event_run ((r, e) ∷ es) listenfd = handle r listenfd e >> event_run es listenfd
