-- ===== src/MgServer/Serving/Closing.antt =====
-- The table of connections, and what closes a connection.
use mg_raffle.Base.{
  ℕ, suc, ◌+◌, ◌≡◌, ◌≢◌, refl, Bool, true, false, Option, none, some, List, [], ◌∷◌, arith, ◌==◌,
  if◌then◌else◌, get_elem?, Option-cases, inl, inr, Bool-cases,
}
use mg_raffle.Base.Int.{ℤ, ◌+ℤ◌, ◌-ℤ◌, eq_ℤ, eq_ℤ_sound}
use mg_raffle.Base.Run.{Run, done}
use mg_raffle.MgServer.Buffers.{MBufferGuard}
use mg_raffle.MgServer.ReadBuf.{MReadBuf, Piece, next}
use mg_raffle.MgServer.Table.{
  Server, Sent, send_failed, find_conn, erase_conn, without, get_conn, create_conn, close_conn,
  set_object,
}
use mg_raffle.MgServer.Sending.{send, on_send_buf, send_loop, send_piece}

find-erase :
    (fd k : ℤ) (conns : List (ℤ × ℕ))
    → find_conn k (erase_conn fd conns) ≡ (if eq_ℤ k fd then none else find_conn k conns)
find-erase fd k [] = ground arith
find-erase fd k ((j, c) ∷ conns) =
    ground (arith, eq_ℤ_sound j fd, eq_ℤ_sound j k, eq_ℤ_sound k fd, find-erase fd k conns)

eq_ℤ_comm : (a b : ℤ) → eq_ℤ a b ≡ eq_ℤ b a
eq_ℤ_comm a b = ground arith

-- The number that a descriptor has once it is created.
abbrev number : Option ℕ → ℕ → Option ℕ
number (some c) made = some c
number none made = some made

created :
    (fd k : ℤ) (ip : List ℕ) (port : ℤ) (s : Server)
    → get_conn k (create_conn fd ip port s)
      ≡ (if eq_ℤ k fd then number (get_conn fd s) s.made else get_conn k s)
unfolding get_conn create_conn
created fd k ip port s = elim (Option-cases (find_conn fd s.conns)) [
  | inl e ↦ rw (e, create_conn, eq_ℤ_comm k fd) refl
  | inr (c, e) ↦ elim (Bool-cases (eq_ℤ k fd)) [
    | inl same ↦ rw (same, e, create_conn, eq_ℤ_sound k fd same) e
    | inr other ↦ rw (e, create_conn, other) refl
  ]
]

-- The three operations of the table together: a descriptor that was closed is not found and every
-- other as before; one that was created is found, under a new number if it was not there, and
-- every other as before.
pub get_conn-after :
    (fd k : ℤ) (ip : List ℕ) (port : ℤ) (s : Server)
    → (get_conn k (close_conn fd s) ≡ (if eq_ℤ k fd then none else get_conn k s))
      × (get_conn k (create_conn fd ip port s)
          ≡ (if eq_ℤ k fd then number (get_conn fd s) s.made else get_conn k s))
unfolding get_conn close_conn
get_conn-after fd k ip port s = (find-erase fd k s.conns, created fd k ip port s)

abbrev pub listed : ℤ → List ℤ → Bool
listed fd [] = false
listed fd (k ∷ fds) = if eq_ℤ k fd then true else listed fd fds

-- The state after a result of `send` for which the connection is given up.
abbrev pub Gone : ℤ → Run Server (Unit {0}) → Type 0
Gone fd (done u s) =
    (get_conn fd s ≡ none) × (listed fd s.opened ≡ false) × (listed fd s.watched ≡ false)
Gone fd _ = ⊥

not_listed : (fd : ℤ) (fds : List ℤ) → listed fd (without fd fds) ≡ false
not_listed fd [] = refl
not_listed fd (k ∷ fds) = ground (arith, not_listed fd fds)

close_conn-Gone : (fd : ℤ) (s : Server) → Gone fd (done tt (close_conn fd s))
unfolding close_conn get_conn
close_conn-Gone fd s = (erased fd s.conns, not_listed fd s.opened, not_listed fd s.watched)
  where
    erased : (fd : ℤ) (conns : List (ℤ × ℕ)) → find_conn fd (erase_conn fd conns) ≡ none
    erased fd [] = refl
    erased fd ((k, c) ∷ conns) = ground (arith, erased fd conns)

next_more :
    (b : MReadBuf) (g : MBufferGuard)
    → get_elem? b.buf_list b.cur_it ≡ some g
    → (p : Piece) × (b' : MReadBuf) × (next b ≡ done (some p) b')
unfolding next
next_more b g e = (
  record { guard = g; start = g.index +ℤ b.cur_pos; size = g.size -ℤ b.cur_pos },
  record b {
    last_it = some b.cur_it;
    cur_it = b.cur_it + 1;
    read_bytes = b.read_bytes +ℤ (g.size -ℤ b.cur_pos);
  },
  rw (e, next) refl,
)

on_send_buf_next :
    (c : ℕ) (s : Server) (p : Piece) (b' : MReadBuf)
    → next ((s.objects c).send_buf) ≡ done (some p) b'
    → on_send_buf c next s ≡ done (some p) (set_object c (record (s.objects c) { send_buf = b' }) s)
unfolding on_send_buf
on_send_buf_next c s p b' e = rw (e, on_send_buf) refl

-- `SendBuf` with something to send: whatever error `send` has, except the number 15 that
-- EAGAIN | EWOULDBLOCK | EINTR comes to and that is none of the three, the connection is closed:
-- so also when the socket is merely full or the call was interrupted.
pub send_loop_fails :
    (rounds : ℕ) (fd : ℤ) (c errno : ℕ) (s : Server) (g : MBufferGuard) (rest : List Sent)
    → get_elem? ((s.objects c).send_buf).buf_list ((s.objects c).send_buf).cur_it ≡ some g
    → s.sends ≡ send_failed errno ∷ rest
    → errno ≢ 15
    → Gone fd (send_loop (suc rounds) fd c s)
unfolding send_loop send send_piece
send_loop_fails rounds fd c errno s g rest more failed other =
    let t : (errno == 15) ≡ false = ground arith in
    let (p, b', e) = next_more ((s.objects c).send_buf) g more in
    rw (on_send_buf_next c s p b' e, failed, t) (close_conn-Gone fd _)
