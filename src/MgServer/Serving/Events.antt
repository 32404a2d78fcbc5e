-- ===== src/MgServer/Serving/Events.antt =====
-- The descriptors of the table stay open and watched over every event of the loop of `accept_run`.
use mg_raffle.Base.{
  ℕ, ◌+◌, ◌*◌, ◌≡◌, Bool, true, false, Option, none, some, List, [], ◌∷◌, arith, ◌==◌,
  if◌then◌else◌, Bool-cases, Option-cases, inl, inr, length,
}
use mg_raffle.Base.Int.{ℤ, pos}
use mg_raffle.Base.Run.{Run, done, fault, out_of_fuel, Cmd, pure}
use mg_raffle.MgServer.Buffers.{Memory}
use mg_raffle.MgServer.Parser.{MRequest, Session, parse_connection}
use mg_raffle.MgServer.Table.{
  Server, Received, got, recv_failed, find_conn, get_conn, create_conn, close_conn, set_memory,
}
use mg_raffle.MgServer.Sending.{send_run}
use mg_raffle.MgServer.Receiving.{
  Protobuf, recv_into, fill_buffer, parse_bytes, keep_session, at_most, give_back_to, do_request,
  on_data, on_recv, recv_with, recv_loop, recv_run, client_event, accept_client, Event,
  accept_failed, accepted, ready, on_event, event_loop, try_allocate,
}
use mg_raffle.MgServer.Serving.Closing.{listed}
use mg_raffle.Rpc.Parser.Bytes.{copy_into}
use mg_raffle.MgServer.Serving.Watching.{
  IsServed, Serves, and_then-Serves, send_run-Serves, closed, more-AllListed,
}
use mg_raffle.MgServer.Serving.Replies.{do_request-Serves}

listed_first : (fd : ℤ) (fds : List ℤ) → listed fd (fd ∷ fds) ≡ true
listed_first fd fds = ground arith

fill_buffer-Serves :
    (id : ℕ) (bytes : Option (List ℕ)) (s : Server) → IsServed s → Serves (fill_buffer id bytes s)
fill_buffer-Serves id none s p = tt
fill_buffer-Serves id (some bytes) s p = p

recv_into-Serves :
    (id : ℕ) (bytes : List ℕ) (s : Server) → IsServed s → Serves (recv_into id bytes s)
unfolding recv_into
recv_into-Serves id bytes s p =
    let b = (s.memory).buffers id in fill_buffer-Serves id (copy_into b.buf b.cur_index bytes) s p

keep_session-Serves :
    (c id : ℕ) (run : Run Session (List MRequest)) (s : Server)
    → IsServed s
    → Serves (keep_session c id run s)
keep_session-Serves c id (done reqs t) s p = p
keep_session-Serves c id fault s p = tt
keep_session-Serves c id out_of_fuel s p = tt

module _ (proto : Protobuf) (garbage : List ℕ) (unset : ℤ) where
  parse_bytes-Serves :
      (c id len : ℕ) (s : Server) → IsServed s → Serves (parse_bytes garbage unset c id len s)
  unfolding parse_bytes
  parse_bytes-Serves c id len s p =
      keep_session-Serves c id
        (parse_connection garbage unset id (3 * len + 3) (pos len)
          (record { conn = s.objects c; buffer = (s.memory).buffers id }))
        s p

  on_data-Serves :
      (fd : ℤ) (c id : ℕ) (bytes : List ℕ) (s : Server)
      → IsServed s
      → Serves (on_data proto garbage unset fd c id bytes s)
  unfolding on_data
  on_data-Serves fd c id bytes s p =
      and_then-Serves (recv_into id bytes s) _ (recv_into-Serves id bytes s p) λ u t q.
        and_then-Serves (parse_bytes garbage unset c id (length bytes) t) _
          (parse_bytes-Serves c id (length bytes) t q)
          λ reqs t' q'.
            and_then-Serves (do_request proto fd c reqs t') _
              (do_request-Serves proto fd c reqs t' q') λ u' t'' q''. q''

  on_recv-Serves :
      (rest : Cmd Server (Unit {0})) (fd : ℤ) (c id : ℕ) (r : Received) (s : Server)
      → ((t : Server) → IsServed t → Serves (rest t))
      → IsServed s
      → Serves (on_recv proto garbage unset rest fd c id r s)
  unfolding on_recv
  on_recv-Serves rest fd c id (got []) s k p = closed fd (give_back_to id s) p
  on_recv-Serves rest fd c id (got (x ∷ xs)) s k p =
      and_then-Serves _ _ (on_data-Serves fd c id (x ∷ xs) s p) (λ u. k)
  on_recv-Serves rest fd c id (recv_failed errno) s k p = elim (Bool-cases (errno == 11)) [
    | inl empty ↦ rw empty p
    | inr other ↦ rw other (elim (Bool-cases (errno == 4)) [
      | inl again ↦ rw again (k (give_back_to id s) p)
      | inr gone ↦ rw gone (closed fd (give_back_to id s) p)
    ])
  ]

  recv_with-Serves :
      (rest : Cmd Server (Unit {0})) (fd : ℤ) (c : ℕ) (r : Received) (rs : List Received)
      (out : Option ℕ × Memory) (s : Server)
      → ((t : Server) → IsServed t → Serves (rest t))
      → IsServed s
      → Serves (recv_with proto garbage unset rest fd c r rs out s)
  unfolding recv_with
  recv_with-Serves rest fd c r rs (none, m) s k p = closed fd s p
  recv_with-Serves rest fd c r rs (some id, m) s k p =
      on_recv-Serves rest fd c id (at_most ((m.buffers id).remain) r)
        (set_memory m (record s { recvs = rs })) k p

  recv_loop-Serves :
      (rs : List Received) (fd : ℤ) (c : ℕ) (s : Server)
      → IsServed s
      → Serves (recv_loop proto garbage unset rs fd c s)
  unfolding recv_loop
  recv_loop-Serves [] fd c s p = tt
  recv_loop-Serves (r ∷ rs) fd c s p =
      recv_with-Serves (recv_loop proto garbage unset rs fd c) fd c r rs (try_allocate 3 s.memory) s
        (λ t. recv_loop-Serves rs fd c t) p

  recv_run-Serves : (fd : ℤ) (s : Server) → IsServed s → Serves (recv_run proto garbage unset fd s)
  unfolding recv_run
  recv_run-Serves fd s p = found (get_conn fd s)
    where
      found :
          (o : Option ℕ)
          → Serves (elim o [
            | none ↦ done tt (close_conn fd s)
            | some c ↦ recv_loop proto garbage unset s.recvs fd c s
          ])
      found none = closed fd s p
      found (some c) = recv_loop-Serves s.recvs fd c s p

  either_way :
      (b : Bool) (m : Cmd Server (Unit {0})) (s : Server)
      → IsServed s
      → Serves (m s)
      → Serves ((if b then m else pure tt) s)
  either_way true m s p q = q
  either_way false m s p q = p

  client_event-Serves :
      (rounds : ℕ) (fd : ℤ) (readable writable : Bool) (s : Server)
      → IsServed s
      → Serves (client_event proto garbage unset rounds fd readable writable s)
  unfolding client_event
  client_event-Serves rounds fd readable writable s p =
      and_then-Serves _ _
        (either_way readable (recv_run proto garbage unset fd) s p (recv_run-Serves fd s p))
        (λ u t q. either_way writable (send_run rounds fd) t q (send_run-Serves rounds fd t q))

  create_conn-IsServed :
      (fd : ℤ) (ip : List ℕ) (port : ℤ) (s : Server)
      → IsServed s
      → IsServed
          (create_conn fd ip port (record s { opened = fd ∷ s.opened; watched = fd ∷ s.watched }))
  unfolding create_conn
  create_conn-IsServed fd ip port s (o, w) = elim (Option-cases (find_conn fd s.conns)) [
    | inl e ↦
        rw (e, create_conn)
          (
            (listed_first fd s.opened, more-AllListed fd s.conns s.opened o),
            (listed_first fd s.watched, more-AllListed fd s.conns s.watched w),
          )
    | inr (c, e) ↦
        rw (e, create_conn)
          (more-AllListed fd s.conns s.opened o, more-AllListed fd s.conns s.watched w)
  ]

  on_event-Serves :
      (e : Event) (s : Server) → IsServed s → Serves (on_event proto garbage unset e s)
  unfolding on_event accept_client
  on_event-Serves accept_failed s p = p
  on_event-Serves (accepted true fd ip port) s p = create_conn-IsServed fd ip port s p
  on_event-Serves (accepted false fd ip port) s p = p
  on_event-Serves (ready rounds fd readable writable) s p =
      and_then-Serves _ _ (client_event-Serves rounds fd readable writable s p) (λ u t q. q)

  -- Whatever epoll reports, `recv` and `send` answer, and the messages are: the descriptor of
  -- every connection of the table is open and watched, after every event that ends.
  pub event_loop-Serves :
      (es : List Event) (s : Server) → IsServed s → Serves (event_loop proto garbage unset es s)
  unfolding event_loop
  event_loop-Serves [] s p = p
  event_loop-Serves (e ∷ es) s p =
      and_then-Serves _ _ (on_event-Serves e s p) (goes_on (λ t q. event_loop-Serves es t q))
    where
      goes_on :
          ((t : Server) → IsServed t → Serves (event_loop proto garbage unset es t))
          → (go : Bool) (t : Server) → IsServed t
          → Serves ((if go then event_loop proto garbage unset es else pure false) t)
      goes_on k true t q = k t q
      goes_on k false t q = q
