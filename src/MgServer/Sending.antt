-- ===== src/MgServer/Sending.antt =====
-- gencode/mg_server/server: `MConnection::SendBuf`, `send_run` and `do_response`.
use Prim.Native.Nat.{bit_or}
use mg_raffle.Base.{
  ℕ, zero, suc, ◌/◌, ◌%◌, Option, none, some, List, [], ◌∷◌, ◌++◌, ◌==◌, if◌then◌else◌, length,
  take, drop,
}
use mg_raffle.Base.Int.{ℤ, pos, pos_part, ◌-ℤ◌, ltb_ℤ}
use mg_raffle.Base.Pointers.{put}
use mg_raffle.Base.Run.{Run, done, fault, out_of_fuel, Cmd, pure, starve, ◌>>=◌, ◌>>◌, modify}
use mg_raffle.Rpc.Parser.Bytes.{copy_into}
use mg_raffle.MgServer.Buffers.{
  MBuffer, Memory, consume, allocate, give_back, MBufferGuard, new_guard, release_guard,
}
use mg_raffle.MgServer.ReadBuf.{MReadBuf, append, Piece, next, back_up, erase}
use mg_raffle.MgServer.Table.{
  Server, Sent, sent, send_failed, get_conn, close_conn, set_memory, set_object,
}

-- The error numbers of Linux.
abbrev pub eintr : ℕ
eintr = 4

abbrev pub eagain : ℕ
eagain = 11

abbrev pub ewouldblock : ℕ
ewouldblock = 11

-- `send` of `bytes` to `fd`, with the next result; without one the call has not returned.
unfoldable pub send : ℤ → List ℕ → Cmd Server Sent
send fd bytes s = elim s.sends [
  | [] ↦ out_of_fuel
  | r ∷ rest ↦ done r (record s { sends = rest; offered = s.offered ++ (fd, bytes) ∷ [] })
]

-- The bytes of a buffer that `send` reads from `start` on, as far as the buffer goes.
abbrev pub send_data : ℤ → ℤ → List ℕ → List ℕ
send_data start size buf = take (pos_part size) (drop (pos_part start) buf)

-- `send` of a piece that `Next` handed out
abbrev pub send_next : ℤ → Piece → Cmd Server Sent
send_next fd p s = send fd (send_data p.start p.size ((s.memory).buffers (p.guard).buf).buf) s

-- A command on `_send_buf` of a connection
abbrev pub keep_send_buf : {A : Type 0} → ℕ → Run MReadBuf A → Cmd Server A
keep_send_buf c (done a b) s = done a (set_object c (record (s.objects c) { send_buf = b }) s)
keep_send_buf c fault s = fault
keep_send_buf c out_of_fuel s = out_of_fuel

unfoldable pub on_send_buf : {A : Type 0} → ℕ → Cmd MReadBuf A → Cmd Server A
on_send_buf c m s = keep_send_buf c (m ((s.objects c).send_buf)) s

abbrev pub release_option : Option MBufferGuard → Memory → Memory
release_option none m = m
release_option (some g) m = release_guard g m

-- `Erase`, which frees the guard
unfoldable pub erase_sent : ℕ → Cmd Server (Unit {0})
unfolding on_send_buf erase
erase_sent c = do g ← on_send_buf c erase; modify λ s. set_memory (release_option g s.memory) s

-- The body of the loop of `SendBuf` for a piece, with the rounds that follow.
unfoldable pub send_piece : Cmd Server (Unit {0}) → ℤ → ℕ → ℤ → Sent → Cmd Server (Unit {0})
send_piece rest fd c size (sent zero) = modify (close_conn fd)
send_piece rest fd c size (sent (suc n)) =
    if ltb_ℤ (pos (suc n)) size
    then (on_send_buf c (back_up (size -ℤ pos (suc n))) >> rest)
    else (erase_sent c >> rest)
send_piece rest fd c size (send_failed errno) =
    if errno == bit_or (bit_or eagain ewouldblock) eintr
    then (on_send_buf c (back_up size) >> rest)
    else modify (close_conn fd)

abbrev pub or_end : (Piece → Cmd Server (Unit {0})) → Option Piece → Cmd Server (Unit {0})
or_end k none = pure tt
or_end k (some p) = k p

unfoldable pub send_loop : ℕ → ℤ → ℕ → Cmd Server (Unit {0})
unfolding send send_piece on_send_buf next
send_loop zero fd c = starve
send_loop (suc rounds) fd c =
    on_send_buf c next
    >>= or_end λ p. send_next fd p >>= send_piece (send_loop rounds fd c) fd c p.size

unfoldable pub send_run : ℕ → ℤ → Cmd Server (Unit {0})
unfolding send_loop
send_run rounds fd s = elim (get_conn fd s) [
  | none ↦ done tt (close_conn fd s)
  | some c ↦ send_loop rounds (s.objects c).fd c s
]

-- The four bytes of an `int`, the lowest first.
abbrev pub int_bytes : ℕ → List ℕ
int_bytes n = n % 256 ∷ n / 256 % 256 ∷ n / 65536 % 256 ∷ n / 16777216 % 256 ∷ []

-- `MAGIC`, "peng"
abbrev pub magic_bytes : List ℕ
magic_bytes = 112 ∷ 101 ∷ 110 ∷ 103 ∷ []

-- What `do_response` copies into its buffer; protobuf has serialized the two parts.
abbrev pub response_bytes : List ℕ → List ℕ → List ℕ
response_bytes header body =
    magic_bytes ++ int_bytes (length header) ++ int_bytes (length body) ++ header ++ body

-- The four copies, from the position of the buffer on; more than fits is a fault.
unfoldable pub write_response : List ℕ → MBuffer → Option MBuffer
write_response bytes b = elim (copy_into b.buf b.cur_index bytes) [
  | none ↦ none
  | some buf ↦ some (record b { buf = buf })
]

abbrev pub set_buffer : ℕ → MBuffer → Server → Server
set_buffer id b s = record s {
  memory = record (s.memory) { buffers = put id b (s.memory).buffers };
}

-- The end of `do_response`: what is left is queued, with the guard at the position reached.
unfoldable pub queue_rest : ℕ → ℕ → ℤ → Server → Server
queue_rest c id remain s =
    if ltb_ℤ (pos 0) remain
    then (let g = new_guard id ((s.memory).buffers id) remain in
        set_object c (record (s.objects c) { send_buf = append g (s.objects c).send_buf }) s)
    else set_memory (give_back id s.memory) s

unfoldable pub after_response : ℤ → ℕ → ℕ → ℤ → Sent → Server → Server
unfolding queue_rest
after_response fd c id remain (sent zero) s = close_conn fd s
after_response fd c id remain (sent (suc n)) s =
    queue_rest c id (remain -ℤ pos (suc n))
      (set_buffer id (consume (pos (suc n)) ((s.memory).buffers id)) s)
after_response fd c id remain (send_failed errno) s =
    if errno == bit_or eagain ewouldblock
    then queue_rest c id remain s
    else (if errno == eintr then queue_rest c id remain s else close_conn fd s)

-- The copies succeeded or not; then `send`, and what follows from its result.
unfoldable pub send_written : ℤ → ℕ → ℕ → ℤ → Option MBuffer → Cmd Server (Unit {0})
unfolding send after_response
send_written fd c id remain none s = fault
send_written fd c id remain (some b) s =
    (send fd (send_data b.cur_index remain b.buf) >>= λ r. modify (after_response fd c id remain r))
      (set_buffer id b s)

-- Without a buffer there is no answer.
unfoldable pub respond_in : ℤ → ℕ → List ℕ → Option ℕ × Memory → Cmd Server (Unit {0})
respond_in fd c bytes (none, m) s = done tt s
respond_in fd c bytes (some id, m) s =
    send_written fd c id (pos (length bytes)) (write_response bytes (m.buffers id)) (set_memory m s)

-- `c` is the connection of the request, whose descriptor is `fd`.
unfoldable pub do_response : ℤ → ℕ → List ℕ → List ℕ → Cmd Server (Unit {0})
unfolding respond_in
do_response fd c header body s = respond_in fd c (response_bytes header body) (allocate s.memory) s
