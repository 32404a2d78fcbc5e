-- ===== src/Rpc/Server/Table.antt =====
-- What the events do to the table of connections.
use mg_raffle.Base.{
  ℕ, ◌+◌, ◌*◌, ◌/◌, ◌%◌, ◌≡◌, ◌<◌, ◌⊎◌, inl, inr, refl, Bool, true, false, List, [], ◌∷◌, arith,
  ◌==◌, ==_iff, Bool-cases,
}
use mg_raffle.Base.Int.{pos, pos_part, leb_ℤ}
use mg_raffle.Base.Run.{Run, done, fault, out_of_fuel, Cmd, pure, and_then}
use mg_raffle.Base.Pointers.{Ptr, null, put}
use mg_raffle.Rpc.Stream.{Stream, Recv, on_read_some}
use mg_raffle.Rpc.Server.{
  Server, Accepted, ntohl, add_event, remove_event, create_connection, accept_connection,
  accept_callback, release_connection, Round, read_connection, conn_callback, dispatch, Event,
  on_listen, on_connection, handle, event_run, enter_connection, drop_connection, erase_connection,
}

-- Every connection of the table is watched by epoll, and has its two owners.
abbrev pub IsServed : Server → Type 0
IsServed s = (fd : ℕ) → (s.conns fd ≡ false) ⊎ ((s.watched fd ≡ true) × (s.owners fd ≡ 2))

-- No connection has left the table.
abbrev pub Keeps : Server → Server → Type 0
Keeps s t = (fd : ℕ) → (s.conns fd ≡ false) ⊎ (t.conns fd ≡ true)

-- A run from `s` that ends leaves such a table, with every connection that it had.
abbrev pub Serves : Server → Run Server (Unit {0}) → Type 0
Serves s (done u t) = IsServed t × Keeps s t
Serves s fault = Unit
Serves s out_of_fuel = Unit

same-Keeps : (s : Server) → Keeps s s
same-Keeps s fd = elim (Bool-cases (s.conns fd)) [ inl there ↦ inr there | inr gone ↦ inl gone ]

then-Keeps : (s t u : Server) → Keeps s t → Keeps t u → Keeps s u
then-Keeps s t u k l fd = elim (k fd) [
  | inl gone ↦ inl gone
  | inr there ↦ elim (l fd) [ inl gone ↦ absurd cc | inr still ↦ inr still ]
]

create_connection-Serves :
    (fd : ℕ) (a : Accepted) (magic : List ℕ) (ok : Bool) (s : Server)
    → IsServed s
    → Serves s (accept_connection fd a magic ok s)
unfolding accept_connection create_connection add_event enter_connection drop_connection
create_connection-Serves fd a magic true s v = elim (Bool-cases (s.conns fd)) [
  | inl there ↦ rw there (ground arith)
  | inr fresh ↦ rw fresh (entered, kept)
]
  where
    entered :
        (q : ℕ)
        → (put fd true s.conns q ≡ false)
          ⊎ ((put fd true s.watched q ≡ true) × (put {A = ℕ} fd 2 s.owners q ≡ 2))
    entered q = elim (Bool-cases (q == fd)) [
      | inl same ↦ rw same (inr (refl, refl))
      | inr other ↦ rw other (v q)
    ]

    kept : (q : ℕ) → (s.conns q ≡ false) ⊎ (put fd true s.conns q ≡ true)
    kept q = elim (Bool-cases (q == fd)) [
      | inl same ↦ rw same (inr refl)
      | inr other ↦ rw other (same-Keeps s q)
    ]
create_connection-Serves fd a magic false s v = ground arith

accept_callback-Serves :
    (a : Accepted) (magic : List ℕ) (ok : Bool) (s : Server)
    → IsServed s
    → Serves s (accept_callback a magic ok s)
unfolding accept_callback
accept_callback-Serves a magic ok s v = elim (Bool-cases (leb_ℤ a.clientfd (pos 0))) [
  | inl none_given ↦ rw none_given (v, same-Keeps s)
  | inr given ↦ rw given (create_connection-Serves (pos_part a.clientfd) a magic ok s v)
]

release_connection-Serves :
    (fd : ℕ) (ok : Bool) (garbage : Ptr) (s : Server)
    → IsServed s
    → Serves s (release_connection fd ok garbage s)
unfolding release_connection remove_event erase_connection drop_connection
release_connection-Serves fd ok garbage s v = elim (Bool-cases (s.conns fd)) [
  | inl there ↦ elim (v fd) [ inl gone ↦ absurd cc | inr (seen, two) ↦ held there two ok garbage ]
  | inr gone ↦ free gone ok garbage
]
  where
    held :
        s.conns fd ≡ true
        → s.owners fd ≡ 2
        → (ok : Bool) (garbage : Ptr) → Serves s (release_connection fd ok garbage s)
    held there two true garbage = elim (Bool-cases (garbage == null)) [
      | inl nothing ↦ rw (nothing, there, two) tt
      | inr stray ↦ rw stray tt
    ]
    held there two false garbage = rw (there, two) tt

    unwatched :
        s.conns fd ≡ false
        → (q : ℕ) → (s.conns q ≡ false) ⊎ ((put fd false s.watched q ≡ true) × (s.owners q ≡ 2))
    unwatched gone q = elim (Bool-cases (q == fd)) [
      | inl same ↦ inl (rw ((==_iff q fd).0 same) gone)
      | inr other ↦ rw other (v q)
    ]

    free :
        s.conns fd ≡ false
        → (ok : Bool) (garbage : Ptr) → Serves s (release_connection fd ok garbage s)
    free gone true garbage = elim (Bool-cases (garbage == null)) [
      | inl nothing ↦ rw (nothing, gone) (unwatched gone, same-Keeps s)
      | inr stray ↦ rw stray tt
    ]
    free gone false garbage = rw gone (v, same-Keeps s)

read_connection-Serves :
    (r : Round) (fd : ℕ) (recvs : List Recv) (s : Server)
    → IsServed s
    → Serves s (read_connection r fd recvs s)
unfolding read_connection
read_connection-Serves r fd recvs s v =
    after_read (on_read_some r.rounds r.garbage r.now recvs (s.streams fd)) refl
  where
    after_read :
        (run : Run Stream (Unit {0}))
        → on_read_some r.rounds r.garbage r.now recvs (s.streams fd) ≡ run
        → Serves s (read_connection r fd recvs s)
    after_read (done u stream) e = elim (Bool-cases stream.released) [
      | inl over ↦ rw (e, read_connection, over) (release_connection-Serves fd r.del_ok r.event _ v)
      | inr stays ↦ rw (e, read_connection, stays) (v, same-Keeps s)
    ]
    after_read fault e = rw (e, read_connection) tt
    after_read out_of_fuel e = rw (e, read_connection) tt

dispatch-Serves :
    (fd : ℕ) (callback : Cmd Server (Unit {0})) (s : Server)
    → IsServed s
    → Serves s (callback s)
    → Serves s (dispatch fd callback s)
unfolding dispatch
dispatch-Serves fd callback s v served = elim (Bool-cases (s.infos fd)) [
  | inl alive ↦ rw alive (keeps (callback s) served)
  | inr freed ↦ rw freed tt
]
  where
    keeps :
        (run : Run Server (Unit {0}))
        → Serves s run
        → Serves s (and_then run (λ _ s. done tt (record s { infos = put fd false s.infos })))
    keeps (done u t) v = v
    keeps fault v = tt
    keeps out_of_fuel v = tt

handle-Serves :
    (r : Round) (l : ℕ) (e : Event) (s : Server) → IsServed s → Serves s (handle r l e s)
unfolding handle conn_callback
handle-Serves r l (on_listen a magic ok) s v =
    dispatch-Serves l (accept_callback a magic ok) s v (accept_callback-Serves a magic ok s v)
handle-Serves r l (on_connection fd true recvs) s v =
    dispatch-Serves fd (read_connection r fd recvs) s v (read_connection-Serves r fd recvs s v)
handle-Serves r l (on_connection fd false recvs) s v =
    dispatch-Serves fd (pure tt) s v (v, same-Keeps s)

later-Serves :
    (s t : Server) (run : Run Server (Unit {0})) → Keeps s t → Serves t run → Serves s run
later-Serves s t (done u w) k (v, l) = (v, then-Keeps s t w k l)
later-Serves s t fault k v = tt
later-Serves s t out_of_fuel k v = tt

then_run-Serves :
    (s : Server) (run : Run Server (Unit {0})) (k : Cmd Server (Unit {0}))
    → Serves s run
    → ((t : Server) → IsServed t → Serves t (k t))
    → Serves s (and_then run (λ _. k))
then_run-Serves s (done u t) k (v, kept) go = later-Serves s t (k t) kept (go t v)
then_run-Serves s fault k v go = tt
then_run-Serves s out_of_fuel k v go = tt

-- Whatever epoll reports and the system calls answer, a run of the loop that ends has removed no
-- connection from the table, and each is watched: every removal deletes the connection twice, which
-- is a fault.
pub event_run-Serves :
    (es : List (Round × Event)) (l : ℕ) (s : Server) → IsServed s → Serves s (event_run es l s)
unfolding event_run
event_run-Serves [] l s v = (v, same-Keeps s)
event_run-Serves ((r, e) ∷ es) l s v =
    then_run-Serves s (handle r l e s) (event_run es l) (handle-Serves r l e s v)
      λ t w. event_run-Serves es l t w

-- The descriptor that an event is about.
abbrev pub target : ℕ → Event → ℕ
target l (on_listen a magic ok) = l
target l (on_connection fd epollin recvs) = fd

abbrev pub Stops : Run Server (Unit {0}) → Type 0
Stops (done u s) = ⊥
Stops fault = Unit
Stops out_of_fuel = Unit

-- After the first event its `SEventInfo` is freed.
abbrev Freed : ℕ → Run Server (Unit {0}) → Type 0
Freed fd (done u s) = s.infos fd ≡ false
Freed fd fault = Unit
Freed fd out_of_fuel = Unit

dispatch-Freed :
    (fd : ℕ) (callback : Cmd Server (Unit {0})) (s : Server) → Freed fd (dispatch fd callback s)
unfolding dispatch
dispatch-Freed fd callback s = elim (Bool-cases (s.infos fd)) [
  | inl alive ↦ rw alive (frees (callback s))
  | inr freed ↦ rw freed tt
]
  where
    frees :
        (run : Run Server (Unit {0}))
        → Freed fd (and_then run (λ _ s. done tt (record s { infos = put fd false s.infos })))
    frees (done u s) = ground arith
    frees fault = tt
    frees out_of_fuel = tt

handle-Freed : (r : Round) (l : ℕ) (e : Event) (s : Server) → Freed (target l e) (handle r l e s)
unfolding handle
handle-Freed r l (on_listen a magic ok) s = dispatch-Freed l (accept_callback a magic ok) s
handle-Freed r l (on_connection fd epollin recvs) s =
    dispatch-Freed fd (conn_callback r fd epollin recvs) s

handle_freed :
    (r : Round) (l : ℕ) (e : Event) (s : Server)
    → s.infos (target l e) ≡ false
    → handle r l e s ≡ fault
unfolding handle dispatch
handle_freed r l (on_listen a magic ok) s freed = rw freed refl
handle_freed r l (on_connection fd epollin recvs) s freed = rw freed refl

-- A second event of the same descriptor, right after the first, is a use of freed memory: the loop
-- does not get past it.
pub event_run-Stops :
    (r r2 : Round) (e e2 : Event) (es : List (Round × Event)) (l : ℕ) (s : Server)
    → target l e ≡ target l e2
    → Stops (event_run ((r, e) ∷ (r2, e2) ∷ es) l s)
unfolding event_run
event_run-Stops r r2 e e2 es l s same = second (handle r l e s) (handle-Freed r l e s)
  where
    second :
        (run : Run Server (Unit {0}))
        → Freed (target l e) run
        → Stops (and_then run (λ _. event_run ((r2, e2) ∷ es) l))
    second (done u g) freed = rw (handle_freed r2 l e2 g (rw same at freed)) tt
    second fault freed = tt
    second out_of_fuel freed = tt

-- The port that `ntohl` makes of a 16-bit number in network order is 65536 times the right one.
pub ntohl_of_port : (x : ℕ) → x < 65536 → ntohl x ≡ (x % 256 * 256 + x / 256) * 65536
ntohl_of_port x small = omega arith
