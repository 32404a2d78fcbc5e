-- ===== src/Rpc/Server/Reads.antt =====
-- `conn_callback` of src/epoll_connection.h with `on_read_some` of src/stream.h: what the reads of a
-- connection of the table come to.
use mg_raffle.Base.{
  ℕ, suc, ◌≡◌, refl, Bool, true, false, none, List, Bool-cases, inl, inr, ◌==◌, length, arith,
}
use mg_raffle.Base.Run.{Run, done, fault, out_of_fuel}
use mg_raffle.Base.Pointers.{Ptr, null, put}
use mg_raffle.Rpc.Parser.{Request}
use mg_raffle.Rpc.Stream.{Stream, Recv, on_read_some}
use mg_raffle.Rpc.Stream.Reads.{Deaf, Silent, gives_up, on_read_some-Silent}
use mg_raffle.Rpc.Server.{
  Server, remove_event, drop_connection, erase_connection, release_connection, Round,
  read_connection,
}

-- A read of `fd` that gives the connection up is a fault. Any other ends, has called back with no
-- more than `c`, leaves the stream without a parser, and changes nothing else.
abbrev pub Reads : List Request → ℕ → Server → Bool → Run Server (Unit {0}) → Type 0
Reads c fd s true run = run ≡ fault
Reads c fd s false (done _ t) =
    ((t.streams fd).called ≡ c)
    × ((t.streams fd).parser ≡ none)
    × (t ≡ record s { streams = put fd (t.streams fd) s.streams })
Reads c fd s false _ = ⊥

release_connection_faults :
    (fd : ℕ) (ok : Bool) (garbage : Ptr) (s : Server)
    → s.conns fd ≡ true
    → s.owners fd ≡ 2
    → release_connection fd ok garbage s ≡ fault
unfolding release_connection remove_event erase_connection drop_connection
release_connection_faults fd true garbage s there two = elim (Bool-cases (garbage == null)) [
  | inl nothing ↦ rw (nothing, there, two) refl
  | inr stray ↦ rw stray refl
]
release_connection_faults fd false garbage s there two = rw (there, two) refl

-- A read event of a connection of the table whose stream has no parser and no more than three bytes
-- of its magic number, with the two owners that the constructor gave it. If `recv` gives the fourth
-- byte, the end or an error, the callback is a fault: the release deletes the connection twice. In
-- every other case it ends, has delivered no request, and leaves the stream without a parser and the
-- rest of the server as it was.
pub read_connection-Reads :
    (k : ℕ) (r : Round) (fd : ℕ) (c : List Request) (pre : List ℕ) (recvs : List Recv) (s : Server)
    → r.rounds ≡ suc k
    → Deaf c false pre (s.streams fd)
    → s.conns fd ≡ true
    → s.owners fd ≡ 2
    → Reads c fd s (gives_up (length pre) recvs) (read_connection r fd recvs s)
unfolding read_connection
read_connection-Reads k r fd c pre recvs s some_rounds v there two =
    after_read (on_read_some r.rounds r.garbage r.now recvs (s.streams fd)) refl
      (gives_up (length pre) recvs)
      (rw some_rounds (on_read_some-Silent k r.garbage r.now c pre recvs (s.streams fd) v))
  where
    after_read :
        (run : Run Stream (Unit {0}))
        → on_read_some r.rounds r.garbage r.now recvs (s.streams fd) ≡ run
        → (over : Bool) → Silent c over run
        → Reads c fd s over (read_connection r fd recvs s)
    after_read (done u stream) e true h =
        rw (e, read_connection, h.2) (release_connection_faults fd r.del_ok r.event _ there two)
    after_read (done u stream) e false h =
        let self : (fd == fd) ≡ true = ground arith in
        rw (e, read_connection, h.2, self) (h.0, h.1, refl)
    after_read fault e over h = absurd h
    after_read out_of_fuel e over h = absurd h
