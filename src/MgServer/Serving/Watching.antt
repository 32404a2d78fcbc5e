-- ===== src/MgServer/Serving/Watching.antt =====
-- The table of connections against the descriptors that are open and that epoll watches, over every
-- event of the loop of `accept_run`.
use mg_raffle.Base.{
  ℕ, zero, suc, ◌≡◌, refl, true, false, Option, none, some, List, [], ◌∷◌, ◌++◌, arith, ◌==◌,
  Bool-cases, inl, inr,
}
use mg_raffle.Base.Int.{ℤ, pos, eq_ℤ, eq_ℤ_sound, ltb_ℤ, ◌-ℤ◌}
use mg_raffle.Base.Run.{Run, done, fault, out_of_fuel, Cmd, ◌>>=◌, and_then}
use mg_raffle.MgServer.ReadBuf.{MReadBuf, Piece, next, back_up, erase}
use mg_raffle.MgServer.Table.{
  Server, Sent, sent, send_failed, erase_conn, without, get_conn, close_conn,
}
use mg_raffle.MgServer.Sending.{
  send, send_next, keep_send_buf, on_send_buf, erase_sent, send_piece, or_end, send_loop, send_run,
}
use mg_raffle.MgServer.Serving.Closing.{listed}

abbrev pub AllListed : List (ℤ × ℕ) → List ℤ → Type 0
AllListed [] fds = Unit
AllListed ((fd, c) ∷ conns) fds = (listed fd fds ≡ true) × AllListed conns fds

-- The descriptor of every connection of the table is open and watched.
abbrev pub IsServed : Server → Type 0
IsServed s = AllListed s.conns s.opened × AllListed s.conns s.watched

listed-without :
    (fd k : ℤ) (fds : List ℤ) → eq_ℤ k fd ≡ false → listed k (without fd fds) ≡ listed k fds
listed-without fd k [] other = refl
listed-without fd k (j ∷ fds) other =
    ground (arith, eq_ℤ_sound j fd, eq_ℤ_sound j k, listed-without fd k fds other)

erase-AllListed :
    (fd : ℤ) (conns : List (ℤ × ℕ)) (fds : List ℤ)
    → AllListed conns fds
    → AllListed (erase_conn fd conns) (without fd fds)
erase-AllListed fd [] fds l = tt
erase-AllListed fd ((k, c) ∷ conns) fds (here, l) = elim (Bool-cases (eq_ℤ k fd)) [
  | inl same ↦ rw same (erase-AllListed fd conns fds l)
  | inr other ↦ rw (other, listed-without fd k fds other) (here, erase-AllListed fd conns fds l)
]

pub more-AllListed :
    (fd : ℤ) (conns : List (ℤ × ℕ)) (fds : List ℤ)
    → AllListed conns fds
    → AllListed conns (fd ∷ fds)
more-AllListed fd [] fds l = tt
more-AllListed fd ((k, c) ∷ conns) fds (here, l) = (ground arith, more-AllListed fd conns fds l)

pub close_conn-IsServed : (fd : ℤ) (s : Server) → IsServed s → IsServed (close_conn fd s)
unfolding close_conn
close_conn-IsServed fd s (o, w) =
    (erase-AllListed fd s.conns s.opened o, erase-AllListed fd s.conns s.watched w)

-- The state that a run ends in, if it ends.
abbrev pub Serves : {A : Type 0} → Run Server A → Type 0
Serves (done a s) = IsServed s
Serves _ = Unit

pub and_then-Serves :
    {A B : Type 0} (run : Run Server A) (k : A → Cmd Server B)
    → Serves run
    → ((a : A) (t : Server) → IsServed t → Serves (k a t))
    → Serves (and_then run k)
and_then-Serves (done a s) k p q = q a s p
and_then-Serves fault k p q = tt
and_then-Serves out_of_fuel k p q = tt

on_send_buf-Serves :
    {A : Type 0} (c : ℕ) (m : Cmd MReadBuf A) (s : Server) → IsServed s → Serves (on_send_buf c m s)
unfolding on_send_buf
on_send_buf-Serves {A = A} c m s p = kept (m ((s.objects c).send_buf))
  where
    kept : (r : Run MReadBuf A) → Serves (keep_send_buf c r s)
    kept (done a b) = p
    kept fault = tt
    kept out_of_fuel = tt

pub closed : (fd : ℤ) (s : Server) → IsServed s → Serves (done tt (close_conn fd s))
closed = close_conn-IsServed

pub send-Serves : (fd : ℤ) (bytes : List ℕ) (s : Server) → IsServed s → Serves (send fd bytes s)
unfolding send
send-Serves fd bytes s p = by_results s.sends
  where
    by_results :
        (rs : List Sent)
        → Serves (elim rs [
          | [] ↦ out_of_fuel
          | r ∷ rest ↦ done r (record s { sends = rest; offered = s.offered ++ (fd, bytes) ∷ [] })
        ])
    by_results [] = tt
    by_results (r ∷ rest) = p

erase_sent-Serves : (c : ℕ) (s : Server) → IsServed s → Serves (erase_sent c s)
unfolding erase_sent
erase_sent-Serves c s p = and_then-Serves _ _ (on_send_buf-Serves c erase s p) (λ g t q. q)

send_piece-Serves :
    (rest : Cmd Server (Unit {0})) (fd : ℤ) (c : ℕ) (size : ℤ) (r : Sent) (s : Server)
    → ((t : Server) → IsServed t → Serves (rest t))
    → IsServed s
    → Serves (send_piece rest fd c size r s)
unfolding send_piece
send_piece-Serves rest fd c size (sent zero) s k p = closed fd s p
send_piece-Serves rest fd c size (sent (suc n)) s k p =
    elim (Bool-cases (ltb_ℤ (pos (suc n)) size)) [
      | inl part ↦
          rw part (
            and_then-Serves _ _ (on_send_buf-Serves c (back_up (size -ℤ pos (suc n))) s p) (λ u. k))
      | inr all ↦ rw all (and_then-Serves _ _ (erase_sent-Serves c s p) (λ u. k))
    ]
send_piece-Serves rest fd c size (send_failed errno) s k p = elim (Bool-cases (errno == 15)) [
  | inl again ↦ rw again (and_then-Serves _ _ (on_send_buf-Serves c (back_up size) s p) (λ u. k))
  | inr other ↦ rw other (closed fd s p)
]

send_loop-Serves :
    (rounds : ℕ) (fd : ℤ) (c : ℕ) (s : Server) → IsServed s → Serves (send_loop rounds fd c s)
unfolding send_loop
send_loop-Serves zero fd c s p = tt
send_loop-Serves (suc rounds) fd c s p =
    and_then-Serves _ _ (on_send_buf-Serves c next s p)
      (piece (λ v. send_loop-Serves rounds fd c v))
  where
    piece :
        ((t : Server) → IsServed t → Serves (send_loop rounds fd c t))
        → (a : Option Piece) (t : Server) → IsServed t
        → Serves
            (or_end (λ x. send_next fd x >>= send_piece (send_loop rounds fd c) fd c x.size) a t)
    piece k none t q = q
    piece k (some x) t q =
        and_then-Serves _ _ (send-Serves fd _ t q)
          (λ r u q'. send_piece-Serves (send_loop rounds fd c) fd c x.size r u k q')

pub send_run-Serves :
    (rounds : ℕ) (fd : ℤ) (s : Server) → IsServed s → Serves (send_run rounds fd s)
unfolding send_run
send_run-Serves rounds fd s p = found (get_conn fd s)
  where
    found :
        (o : Option ℕ)
        → Serves (elim o [
          | none ↦ done tt (close_conn fd s)
          | some c ↦ send_loop rounds (s.objects c).fd c s
        ])
    found none = closed fd s p
    found (some c) = send_loop-Serves rounds (s.objects c).fd c s p
