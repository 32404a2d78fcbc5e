-- ===== src/MgServer/Serving/Responses.antt =====
-- `do_response` of main.cpp: the bytes that are sent, those that are queued, and a response that
-- does not fit into its buffer.
use mathlib.Core.List.{append-nil}
use mg_raffle.Base.{
  ℕ, zero, suc, ◌+◌, ◌-◌, ◌≡◌, ◌≤◌, ◌<◌, refl, true, false, none, some, List, [], ◌∷◌, ◌++◌, arith,
  ◌==◌, length, take, drop, length-take, ◌∙◌, ap,
}
use mg_raffle.Base.Int.{ℤ, pos, ◌+ℤ◌, ◌-ℤ◌, ltb_ℤ}
use mg_raffle.Base.Run.{Run, done, fault}
use mg_raffle.Rpc.Parser.Bytes.{copy_into}
use mg_raffle.Rpc.Parser.Slices.{add_pos, sub_pos, take-append_length}
use mg_raffle.MgServer.Buffers.{MBuffer, Memory, MBufferGuard, allocate, new_guard, consume}
use mg_raffle.MgServer.ReadBuf.{append}
use mg_raffle.MgServer.Table.{Server, Sent, sent, set_memory}
use mg_raffle.MgServer.Sending.{
  send, send_data, respond_in, do_response, response_bytes, write_response, send_written,
  after_response, set_buffer,
}
use mg_raffle.MgServer.Receiving.{part_bytes}

pub allocate_lem :
    (m : Memory) (id : ℕ) (rest : List ℕ)
    → m.pool ≡ id ∷ rest
    → allocate m ≡ (some id, record m { pool = rest })
unfolding allocate
allocate_lem m id rest e = rw (e, allocate) refl

pub eq_self : (n : ℕ) → (n == n) ≡ true
eq_self n = ground arith

pub copy_fits :
    (target : List ℕ) (k : ℕ) (bytes : List ℕ)
    → k + length bytes ≤ length target
    → copy_into target (pos k) bytes
      ≡ some (take k target ++ bytes ++ drop (k + length bytes) target)
unfolding copy_into
copy_fits target k bytes le = ground arith

pub copy_overruns :
    (target : List ℕ) (k : ℕ) (bytes : List ℕ)
    → length target < k + length bytes
    → copy_into target (pos k) bytes ≡ none
unfolding copy_into
copy_overruns target k bytes le = ground arith

pub middle_rest :
    (xs ys zs : List ℕ) (m : ℕ)
    → m ≤ length ys
    → take (length ys - m) (drop (length xs + m) (xs ++ ys ++ zs)) ≡ drop m ys
middle_rest [] [] zs zero le = refl
middle_rest [] [] zs (suc m) le = absurd (omega arith)
middle_rest [] (y ∷ ys) zs zero le =
    let e : suc (length ys) - 0 ≡ suc (length ys) = omega arith in
    rw e (ap (◌∷◌ y) (take-append_length ys zs))
middle_rest [] (y ∷ ys) zs (suc m) le =
    let e : suc (length ys) - suc m ≡ length ys - m = omega arith in
    let z : 0 + suc m ≡ suc (0 + m) = omega arith in
    rw (e, z) (middle_rest [] ys zs m (omega arith))
middle_rest (x ∷ xs) ys zs m le =
    let e : suc (length xs) + m ≡ suc (length xs + m) = omega arith in
    rw e (middle_rest xs ys zs m le)

pub write_fits :
    (b : MBuffer) (k : ℕ) (bytes : List ℕ)
    → b.cur_index ≡ pos k
    → k + length bytes ≤ length b.buf
    → write_response bytes b
      ≡ some (record b { buf = take k b.buf ++ bytes ++ drop (k + length bytes) b.buf })
unfolding write_response
write_fits b k bytes at le =
    let e : copy_into b.buf b.cur_index bytes
        ≡ some (take k b.buf ++ bytes ++ drop (k + length bytes) b.buf) =
      rw at (copy_fits b.buf k bytes le) in
    rw (e, write_response) refl

write_overruns :
    (b : MBuffer) (k : ℕ) (bytes : List ℕ)
    → b.cur_index ≡ pos k
    → length b.buf < k + length bytes
    → write_response bytes b ≡ none
unfolding write_response
write_overruns b k bytes at le =
    let e : copy_into b.buf b.cur_index bytes ≡ none = rw at (copy_overruns b.buf k bytes le) in
    rw (e, write_response) refl

pub send_lem :
    (fd : ℤ) (bytes : List ℕ) (s : Server) (r : Sent) (more : List Sent)
    → s.sends ≡ r ∷ more
    → send fd bytes s ≡ done r (record s { sends = more; offered = s.offered ++ (fd, bytes) ∷ [] })
unfolding send
send_lem fd bytes s r more e = rw (e, send) refl

-- What is left of `bytes` from `n` on is queued behind what `before` holds, in a new guard.
abbrev pub Queues : ℕ → List MBufferGuard → List ℕ → List ℕ → ℕ → Run Server (Unit {0}) → Type 0
Queues c before bytes pool n (done u t) =
    (g : MBufferGuard) × (((t.objects c).send_buf).buf_list ≡ before ++ g ∷ [])
    × (part_bytes t.memory (g ∷ []) ≡ drop n bytes)
    × ((t.memory).pool ≡ pool)
Queues c before bytes pool n _ = ⊥

module _ (fd : ℤ) (c id k : ℕ) (bytes : List ℕ) (s : Server) (rest : List ℕ)
    (pool : (s.memory).pool ≡ id ∷ rest) (at : ((s.memory).buffers id).cur_index ≡ pos k) where
  response_overruns :
      length ((s.memory).buffers id).buf < k + length bytes
      → respond_in fd c bytes (allocate s.memory) s ≡ fault
  unfolding respond_in send_written
  response_overruns le =
      rw (allocate_lem s.memory id rest pool, write_overruns ((s.memory).buffers id) k bytes at le)
        refl

  abbrev pub written : MBuffer
  written =
      let buffer = (s.memory).buffers id in
      record buffer {
        buf = take k buffer.buf ++ bytes ++ drop (k + length bytes) buffer.buf;
        cur_index = pos k;
      }

  abbrev pub ready : List Sent → List (ℤ × List ℕ) → Server
  ready more offered =
      record (set_buffer id written (set_memory (record (s.memory) { pool = rest }) s)) {
        sends = more;
        offered = offered;
      }

  -- `send` has taken a part of the response.
  rest_queued :
      (n m : ℕ) (more : List Sent) (offered : List (ℤ × List ℕ))
      → k + length bytes ≤ length ((s.memory).buffers id).buf
      → length bytes ≡ suc n + suc m
      → Queues c ((s.objects c).send_buf).buf_list bytes rest (suc n) (
          done tt (after_response fd c id (pos (length bytes)) (sent (suc n)) (ready more offered)))
  unfolding after_response append new_guard consume
  rest_queued n m more offered le cut =
      let r : pos (length bytes) -ℤ pos (suc n) ≡ pos (suc m) =
        rw cut (sub_pos (suc n + suc m) (suc n) (omega arith) ∙ ap pos (omega arith)) in
      let k' : pos k +ℤ pos (suc n) ≡ pos (k + suc n) = add_pos k (suc n) in
      let t : ltb_ℤ (pos 0) (pos (suc m)) ≡ true = ground arith in
      let buf = ((s.memory).buffers id).buf in
      let front : length (take k buf) ≡ k = omega (arith, length-take k buf) in
      let left : length bytes - suc n ≡ suc m = omega arith in
      let piece : take (suc m)
            (drop (k + suc n) (take k buf ++ bytes ++ drop (k + length bytes) buf))
          ≡ drop (suc n) bytes =
        rw (front, left) at
          (middle_rest (take k buf) bytes (drop (k + length bytes) buf) (suc n) (omega arith)) in
      rw (eq_self id, r, t, eq_self c, k')
        (
          record { buf = id; buf_free = false; size = pos (suc m); index = pos (k + suc n) },
          refl,
          rw (eq_self id, append-nil) piece,
          refl,
        )

  respond_in-Queues :
      (n m : ℕ) (more : List Sent)
      → k + length bytes ≤ length ((s.memory).buffers id).buf
      → s.sends ≡ sent (suc n) ∷ more
      → length bytes ≡ suc n + suc m
      → Queues c
          ((s.objects c).send_buf).buf_list
          bytes
          rest
          (suc n)
          (respond_in fd c bytes (allocate s.memory) s)
  unfolding respond_in send_written
  respond_in-Queues n m more le es cut =
      rw
        (
          allocate_lem s.memory id rest pool,
          write_fits ((s.memory).buffers id) k bytes at le,
          at,
          send_lem fd (send_data (pos k) (pos (length bytes)) written.buf)
              (set_buffer id written (set_memory (record (s.memory) { pool = rest }) s))
              (sent (suc n)) more es,
        )
        (rest_queued n m more _ le cut)

module _ (fd : ℤ) (c id k : ℕ) (h b : List ℕ) (s : Server) (rest : List ℕ)
    (pool : (s.memory).pool ≡ id ∷ rest) (at : ((s.memory).buffers id).cur_index ≡ pos k) where
  -- The pool's next buffer has no room for the response behind its position: the copies go past
  -- its end, since nothing compares the size with `Remain`.
  pub do_response_overruns :
      length ((s.memory).buffers id).buf < k + length (response_bytes h b)
      → do_response fd c h b s ≡ fault
  unfolding do_response
  do_response_overruns = response_overruns fd c id k (response_bytes h b) s rest pool at

  -- The response fits, and `send` takes a part of it: exactly the bytes that it did not take are
  -- queued, behind all that the connection had queued, and the buffer is out of the pool.
  pub do_response-Queues :
      (n m : ℕ) (more : List Sent)
      → k + length (response_bytes h b) ≤ length ((s.memory).buffers id).buf
      → s.sends ≡ sent (suc n) ∷ more
      → length (response_bytes h b) ≡ suc n + suc m
      → Queues c
          ((s.objects c).send_buf).buf_list
          (response_bytes h b)
          rest
          (suc n)
          (do_response fd c h b s)
  unfolding do_response
  do_response-Queues = respond_in-Queues fd c id k (response_bytes h b) s rest pool at
