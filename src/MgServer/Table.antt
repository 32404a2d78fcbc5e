-- ===== src/MgServer/Table.antt =====
-- gencode/mg_server/server/connection_manager.cpp: the connections by descriptor, and the state of
-- the server. A `shared_ptr` to a connection is its number among all that were made.
use mg_raffle.Base.{ℕ, ◌+◌, Option, none, some, List, [], ◌∷◌, if◌then◌else◌}
use mg_raffle.Base.Int.{ℤ, eq_ℤ}
use mg_raffle.Base.Pointers.{put}
use mg_raffle.MgServer.Buffers.{Memory}
use mg_raffle.MgServer.Parser.{MConnection, new_connection}

-- What `recv` and `send` returned: bytes (none at the end of the stream) or their number, or the
-- error that `errno` has after -1.
pub data Received : Type 0 where
  got : List ℕ → Received
  recv_failed : ℕ → Received

pub data Sent : Type 0 where
  sent : ℕ → Sent
  send_failed : ℕ → Sent

-- `_conns` with the connections that it refers to, the descriptors that are open and that epoll
-- watches, the results of the calls to come, and the bytes that `send` has been offered, with the
-- descriptor of each call.
pub record Server : Type 0 where
  pub memory : Memory
  pub objects : ℕ → MConnection
  pub made : ℕ
  pub conns : List (ℤ × ℕ)
  pub opened : List ℤ
  pub watched : List ℤ
  pub recvs : List Received
  pub sends : List Sent
  pub offered : List (ℤ × List ℕ)

abbrev pub find_conn : ℤ → List (ℤ × ℕ) → Option ℕ
find_conn fd [] = none
find_conn fd ((k, c) ∷ rest) = if eq_ℤ k fd then some c else find_conn fd rest

abbrev pub erase_conn : ℤ → List (ℤ × ℕ) → List (ℤ × ℕ)
erase_conn fd [] = []
erase_conn fd ((k, c) ∷ rest) =
    if eq_ℤ k fd then erase_conn fd rest else (k, c) ∷ erase_conn fd rest

abbrev pub without : ℤ → List ℤ → List ℤ
without fd [] = []
without fd (k ∷ rest) = if eq_ℤ k fd then without fd rest else k ∷ without fd rest

unfoldable pub get_conn : ℤ → Server → Option ℕ
get_conn fd s = find_conn fd s.conns

unfoldable pub create_conn : ℤ → List ℕ → ℤ → Server → Server
unfolding new_connection
create_conn fd client_ip client_port s = elim (find_conn fd s.conns) [
  | some c ↦ s
  | none ↦ record s {
    objects = put s.made (new_connection fd client_ip client_port) s.objects;
    made = s.made + 1;
    conns = (fd, s.made) ∷ s.conns;
  }
]

-- `epoll_ctl(EPOLL_CTL_DEL)`, the map, and `close`. A connection that has a parser is not freed,
-- since each of the two owns the other; one without has no buffers.
unfoldable pub close_conn : ℤ → Server → Server
close_conn fd s = record s {
  conns = erase_conn fd s.conns;
  opened = without fd s.opened;
  watched = without fd s.watched;
}

abbrev pub set_memory : Memory → Server → Server
set_memory m s = record s { memory = m }

abbrev pub set_object : ℕ → MConnection → Server → Server
set_object c conn s = record s { objects = put c conn s.objects }
