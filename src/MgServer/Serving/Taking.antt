-- ===== src/MgServer/Serving/Taking.antt =====
-- One successful `recv` of main.cpp, from the bytes in the buffer to the state of the connection.
use mathlib.Core.Path.{fun_ext, subst}
use mathlib.Core.List.{append_assoc}
use mg_raffle.Base.{
  ℕ, ◌+◌, ◌-◌, ◌*◌, ◌≡◌, ◌≤◌, refl, some, List, [], ◌∷◌, ◌++◌, arith, ◌==◌, length, take, drop,
  length-take, length-append, ◌∙◌, sym, ap, Bool-cases, inl, inr,
}
use mg_raffle.Base.Int.{ℤ, pos}
use mg_raffle.Base.Pointers.{put}
use mg_raffle.Base.Run.{Run, done, fault, out_of_fuel, ◌>>=◌, modify, and_then}
use mg_raffle.Rpc.Parser.Bytes.{copy_into}
use mg_raffle.MgServer.Buffers.{MBuffer}
use mg_raffle.MgServer.Parser.{MRequest, MConnection, Session, parse_connection}
use mg_raffle.MgServer.Table.{Server, set_memory}
use mg_raffle.MgServer.Sending.{set_buffer}
use mg_raffle.MgServer.Receiving.{
  Protobuf, recv_into, release_requests, on_data, do_request, keep_session,
}
use mg_raffle.MgServer.Frame.{Message, Frame, decode}
use mg_raffle.MgServer.Refine.Held.{buffer_at}
use mg_raffle.MgServer.Refine.Connection.{Expects, Parses}
use mg_raffle.MgServer.Refine.Stream.{parse_connection-Parses}
use mg_raffle.MgServer.Serving.Responses.{eq_self, copy_fits}

put_self : (f : ℕ → MBuffer) (id : ℕ) (b : MBuffer) → put id b f id ≡ b
put_self f id b = rw (eq_self id) refl

put_same :
    (f : ℕ → MBuffer) (id : ℕ) (b old : MBuffer)
    → b.buf ≡ old.buf
    → (i : ℕ) → (put id b (put id old f) i).buf ≡ (put id old f i).buf
put_same f id b old e i = elim (Bool-cases (i == id)) [
  | inl same ↦ rw same e
  | inr other ↦ rw other refl
]

module _ (proto : Protobuf) (garbage : List ℕ) (unset : ℤ) where
  -- The bytes of all buffers.
  abbrev pub bytes_in : Server → ℕ → List ℕ
  bytes_in s i = ((s.memory).buffers i).buf

  abbrev filled : ℕ → ℕ → List ℕ → Server → MBuffer
  filled id k bytes s =
      let b = (s.memory).buffers id in
      record b { buf = take k b.buf ++ bytes ++ drop (k + length bytes) b.buf }

  -- `s` with `bytes` received into the buffer `id` at position `k`.
  abbrev pub received : ℕ → ℕ → List ℕ → Server → Server
  received id k bytes s = set_buffer id (filled id k bytes s) s

  -- From `s`: the buffer `id` holds `bytes` from `k` on and is behind them, the bytes around them
  -- and of all other buffers are as they were, and so is the pool; the connection is where `f` is.
  abbrev pub TakesIn : ℕ → ℕ → ℕ → List ℕ → Frame → Server → Run Server (Unit {0}) → Type 0
  TakesIn c id k bytes f s (done u t) =
      ((t.memory).pool ≡ (s.memory).pool)
      × (((t.memory).buffers id).cur_index ≡ pos (k + length bytes))
      × (bytes_in t ≡ bytes_in (received id k bytes s))
      × Expects (bytes_in t) garbage unset f (t.objects c)
  TakesIn c id k bytes f s _ = ⊥

  module _ (fd : ℤ) (c id k : ℕ) (bytes : List ℕ) (s : Server) (f : Frame) where
    abbrev pub back : List ℕ
    back = drop (k + length bytes) ((s.memory).buffers id).buf

    abbrev pub got_in : Server
    got_in = received id k bytes s

    pub same_bytes :
        (b : MBuffer)
        → b.buf ≡ bytes_in got_in id
        → bytes_in (set_buffer id b got_in) ≡ bytes_in got_in
    same_bytes b e = fun_ext (λ i.
        put_same (s.memory).buffers id b (filled id k bytes s)
          (e ∙ ap (λ (x : MBuffer). x.buf) (put_self (s.memory).buffers id (filled id k bytes s)))
          i)

    after_parse :
        (run : Run Session (List MRequest)) (capacity remain : ℤ)
        → length (bytes_in got_in id) ≡ k + length bytes + length back
        → Parses (bytes_in got_in) garbage unset id capacity remain back f [] [] run
        → TakesIn c id k bytes f s (
            and_then (keep_session c id run got_in) λ reqs. do_request proto fd c reqs >>= λ u.
            modify λ t. set_memory (release_requests reqs t.memory) t)
    unfolding do_request release_requests
    after_parse (done [] t) capacity remain l (eq, eb, ex) =
        let p : length (bytes_in got_in id) - length back ≡ k + length bytes = omega arith in
        let same = same_bytes t.buffer (ap (λ (b : MBuffer). b.buf) eb) in
        (
          refl,
          rw (eq_self id, eb) (ap pos p),
          same,
          rw (eq_self c)
              (subst (λ (m : ℕ → List ℕ). Expects m garbage unset f t.conn) (sym same) ex),
        )
    after_parse (done (q ∷ qs) t) capacity remain l (eq, eb, ex) = cc
    after_parse fault capacity remain l p = p
    after_parse out_of_fuel capacity remain l p = p

  module _ (room : length garbage ≡ 8) where
    module _ (id k : ℕ) (bytes : List ℕ) (s : Server)
        (at : ((s.memory).buffers id).cur_index ≡ pos k)
        (fits : k + length bytes ≤ length ((s.memory).buffers id).buf) where
      abbrev rest : List ℕ
      rest = drop (k + length bytes) ((s.memory).buffers id).buf

      pub recv_into_lem : recv_into id bytes s ≡ done tt (received id k bytes s)
      unfolding recv_into
      recv_into_lem =
          let b = (s.memory).buffers id in
          let e : copy_into b.buf b.cur_index bytes ≡ some (take k b.buf ++ bytes ++ rest) =
            rw at (copy_fits b.buf k bytes fits) in
          rw e refl

      abbrev kept : ((received id k bytes s).memory).buffers id ≡ filled id k bytes s
      kept = put_self (s.memory).buffers id (filled id k bytes s)

      front : length (take k ((s.memory).buffers id).buf) ≡ k
      front = omega (arith, length-take k ((s.memory).buffers id).buf)

      whole :
          take k ((s.memory).buffers id).buf ++ (bytes ++ rest)
          ≡ bytes_in (received id k bytes s) id
      whole =
          sym (append_assoc (take k ((s.memory).buffers id).buf) bytes rest)
          ∙ sym (ap (λ (x : MBuffer). x.buf) kept)

      pub length-bytes_in :
          length (bytes_in (received id k bytes s) id) ≡ k + length bytes + length rest
      length-bytes_in = omega (
        arith,
        front,
        ap length whole,
        length-append (take k ((s.memory).buffers id).buf) (bytes ++ rest),
        length-append bytes rest,
      )

      start_at :
          buffer_at
            (bytes_in (received id k bytes s))
            id
            ((s.memory).buffers id).capacity
            ((s.memory).buffers id).remain
            (length (take k ((s.memory).buffers id).buf))
          ≡ ((received id k bytes s).memory).buffers id
      start_at =
          let b = (s.memory).buffers id in
          let held = ap (λ (x : MBuffer). x.buf) kept in
          let place : b.cur_index ≡ pos (length (take k b.buf)) = at ∙ ap pos (sym front) in
          (λ i. record {
            buf = held i;
            capacity = b.capacity;
            cur_index = (sym place) i;
            remain = b.remain;
          })
          ∙ sym kept

      -- What `parse_connection` finds in the bytes that `recv` has put into the buffer.
      pub received-Parses :
          (conn : MConnection) (g f : Frame) (ms : List Message)
          → Expects (bytes_in (received id k bytes s)) garbage unset g conn
          → decode bytes g ≡ some (f, ms)
          → Parses
              (bytes_in (received id k bytes s))
              garbage
              unset
              id
              ((s.memory).buffers id).capacity
              ((s.memory).buffers id).remain
              rest
              f
              ms
              []
              (parse_connection garbage unset id
                (3 * length bytes + 3)
                (pos (length bytes))
                (record { conn = conn; buffer = ((received id k bytes s).memory).buffers id }))
      received-Parses conn g f ms ex dec =
          let b = (s.memory).buffers id in
          subst
            (λ (x : MBuffer).
              Parses (bytes_in (received id k bytes s)) garbage unset id b.capacity b.remain rest f
                ms []
                (parse_connection garbage unset id (3 * length bytes + 3) (pos (length bytes))
                  (record { conn = conn; buffer = x })))
            start_at
            (parse_connection-Parses (bytes_in (received id k bytes s)) garbage unset id b.capacity
              b.remain rest room (3 * length bytes + 3) (take k b.buf) bytes g f ms conn whole ex
              dec (omega arith))

    -- A `recv` in any state of the connection whose bytes fit into its buffer and complete no
    -- message: the bytes are in the buffer, which is behind them, no other byte of a buffer has
    -- changed, the connection is where `decode` is after them, and the pool is as it was, so that
    -- `on_data` has not given the buffer back.
    pub on_data-TakesIn :
        (fd : ℤ) (c id k : ℕ) (bytes : List ℕ) (s : Server) (g f : Frame)
        → ((s.memory).buffers id).cur_index ≡ pos k
        → k + length bytes ≤ length ((s.memory).buffers id).buf
        → Expects (bytes_in (received id k bytes s)) garbage unset g (s.objects c)
        → decode bytes g ≡ some (f, [])
        → TakesIn c id k bytes f s (on_data proto garbage unset fd c id bytes s)
    unfolding on_data
    on_data-TakesIn fd c id k bytes s g f at fits ex dec =
        let b = (s.memory).buffers id in
        rw (recv_into_lem id k bytes s at fits) (
          after_parse fd c id k bytes s f _ b.capacity b.remain
            (length-bytes_in id k bytes s at fits)
            (received-Parses id k bytes s at fits (s.objects c) g f [] ex dec))
