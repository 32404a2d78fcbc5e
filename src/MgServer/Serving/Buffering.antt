-- ===== src/MgServer/Serving/Buffering.antt =====
-- What `recv_run` of main.cpp does with the buffers of the pool.
use mathlib.Core.List.{append_assoc, append-nil}
use mg_raffle.Base.{
  ℕ, zero, suc, ◌+◌, ◌≡◌, ◌≤◌, ◌<◌, refl, false, none, some, List, [], ◌∷◌, ◌++◌, arith, length,
  map, take, drop, ap, ◌∙◌, length-append, length-drop,
}
use mg_raffle.Base.Int.{ℤ, pos, ◌-ℤ◌}
use mg_raffle.Base.Run.{fault, ◌>>◌}
use mg_raffle.Rpc.Parser.Bytes.{copy_into}
use mg_raffle.Rpc.Parser.Slices.{add_pos, sub_pos}
use mg_raffle.MgServer.Buffers.{
  MBuffer, Memory, MBufferGuard, new_buffer, consume, release_guard, release_all, give_back,
}
use mg_raffle.MgServer.Sending.{
  do_response, respond_in, response_bytes, send_data, send_written, after_response, queue_rest,
  set_buffer,
}
use mg_raffle.MgServer.Parser.{MRequest}
use mg_raffle.MgServer.Table.{Server, Received, got, Sent, sent, get_conn, set_memory}
use mg_raffle.MgServer.Receiving.{
  Protobuf, release_request, recv_into, recv_run, try_allocate, on_data,
}
use mg_raffle.MgServer.Serving.Responses.{
  allocate_lem, copy_overruns, eq_self, write_fits, send_lem, written,
}

-- Guards that have not given their buffer back, as all guards of a request are.
abbrev pub AllLive : List MBufferGuard → Type 0
AllLive [] = Unit
AllLive (g ∷ gs) = (g.buf_free ≡ false) × AllLive gs

abbrev pub buffers_of : List MBufferGuard → List ℕ
buffers_of gs = map (λ (g : MBufferGuard). g.buf) gs

release_all_lem :
    (gs : List MBufferGuard) (m : Memory)
    → AllLive gs
    → release_all gs m ≡ record m { pool = m.pool ++ buffers_of gs }
unfolding release_all release_guard give_back
release_all_lem [] m live = rw append-nil refl
release_all_lem (g ∷ gs) m live =
    rw (live.0, release_all_lem gs (record m { pool = m.pool ++ g.buf ∷ [] }) (live.1))
      (ap (λ (p : List ℕ). record m { pool = p })
        (append_assoc m.pool (g.buf ∷ []) (buffers_of gs)))

-- When a request is freed, its buffer goes back to the pool once for each of its parts: so a
-- buffer that holds two parts of a request is in the pool twice, and may be handed out twice.
-- No buffer is reset.
pub release_request_lem :
    (r : MRequest) (m : Memory)
    → AllLive (r.rpc_body_buf).buf_list
    → AllLive (r.rpc_header_buf).buf_list
    → release_request r m ≡ record m {
      pool =
          m.pool
          ++ (buffers_of (r.rpc_body_buf).buf_list ++ buffers_of (r.rpc_header_buf).buf_list);
    }
unfolding release_request
release_request_lem r m body header =
    rw
      (
        release_all_lem (r.rpc_body_buf).buf_list m body,
        release_all_lem (r.rpc_header_buf).buf_list _ header,
      )
      (ap (λ (p : List ℕ). record m { pool = p })
        (append_assoc m.pool (buffers_of (r.rpc_body_buf).buf_list)
          (buffers_of (r.rpc_header_buf).buf_list)))

try_allocate_lem :
    (n id : ℕ) (rest : List ℕ) (m : Memory)
    → m.pool ≡ id ∷ rest
    → try_allocate (suc n) m ≡ (some id, record m { pool = rest })
unfolding try_allocate
try_allocate_lem n id rest m e =
    rw (allocate_lem m id rest e, try_allocate, allocate_lem m id rest e) refl

take_within : (n : ℕ) (xs : List ℕ) → length xs ≤ n → take n xs ≡ xs
take_within zero [] le = refl
take_within zero (x ∷ xs) le = absurd (omega arith)
take_within (suc n) [] le = refl
take_within (suc n) (x ∷ xs) le = ap (◌∷◌ x) (take_within n xs (omega arith))

recv_overruns :
    (id k : ℕ) (bytes : List ℕ) (s : Server)
    → ((s.memory).buffers id).cur_index ≡ pos k
    → length ((s.memory).buffers id).buf < k + length bytes
    → recv_into id bytes s ≡ fault
unfolding recv_into
recv_overruns id k bytes s at over =
    let e : copy_into ((s.memory).buffers id).buf ((s.memory).buffers id).cur_index bytes ≡ none =
      rw at (copy_overruns ((s.memory).buffers id).buf k bytes over) in
    rw e refl

module _ (proto : Protobuf) (garbage : List ℕ) (unset : ℤ) where
  on_data_faults :
      (fd : ℤ) (c id : ℕ) (bytes : List ℕ) (s : Server)
      → recv_into id bytes s ≡ fault
      → on_data proto garbage unset fd c id bytes s ≡ fault
  unfolding on_data
  on_data_faults fd c id bytes s e = rw e refl

  abbrev ready : Server → List ℕ → List Received → Server
  ready s rest more = set_memory (record (s.memory) { pool = rest }) (record s { recvs = more })

  recv_run_faults :
      (fd : ℤ) (c id k n x : ℕ) (xs rest : List ℕ) (more : List Received) (s : Server)
      → get_conn fd s ≡ some c
      → (s.memory).pool ≡ id ∷ rest
      → ((s.memory).buffers id).cur_index ≡ pos k
      → ((s.memory).buffers id).remain ≡ pos n
      → s.recvs ≡ got (x ∷ xs) ∷ more
      → length (x ∷ xs) ≤ n
      → length ((s.memory).buffers id).buf < k + length (x ∷ xs)
      → recv_run proto garbage unset fd s ≡ fault
  unfolding recv_run
  recv_run_faults fd c id k n x xs rest more s known pool at room es few over =
      rw
        (
          known,
          recv_run,
          es,
          try_allocate_lem 2 id rest s.memory pool,
          room,
          take_within n (x ∷ xs) few,
        )
        (rw
          (on_data_faults fd c id (x ∷ xs) (ready s rest more)
            (recv_overruns id k (x ∷ xs) (ready s rest more) at over))
          refl)

  -- A response is sent whole from a new buffer, the only one of the pool, and the buffer is given
  -- back. Then bytes arrive on a connection: `recv` gets the same buffer, with all of its size as
  -- room behind the response, so that more bytes than are free there go past its end.
  pub recv_run_overruns :
      (fd to : ℤ) (c d id n x : ℕ) (h b xs bytes : List ℕ) (more : List Received)
      (results : List Sent) (s : Server)
      → get_conn fd s ≡ some c
      → (s.memory).pool ≡ id ∷ []
      → (s.memory).buffers id ≡ new_buffer (some bytes) (pos (length bytes))
      → s.sends ≡ sent (suc n) ∷ results
      → length (response_bytes h b) ≡ suc n
      → suc n ≤ length bytes
      → s.recvs ≡ got (x ∷ xs) ∷ more
      → length (x ∷ xs) ≤ length bytes
      → length bytes < suc n + length (x ∷ xs)
      → (do_response to d h b >> recv_run proto garbage unset fd) s ≡ fault
  unfolding do_response respond_in send_written after_response queue_rest consume give_back
      new_buffer get_conn
  recv_run_overruns fd to c d id n x h b xs bytes more results s known pool fresh es whole fits er
        few over =
      let reply = response_bytes h b in
      let at : ((s.memory).buffers id).cur_index ≡ pos 0 =
        ap (λ (m : MBuffer). m.cur_index) fresh in
      let size : length ((s.memory).buffers id).buf ≡ length bytes =
        ap (λ (m : MBuffer). length m.buf) fresh in
      let back = drop (0 + length reply) ((s.memory).buffers id).buf in
      let total : length (reply ++ back) ≡ length bytes = omega (
        arith,
        length-append reply back,
        length-drop (0 + length reply) ((s.memory).buffers id).buf,
        size,
        whole,
        fits,
      ) in
      let none_left : pos (length reply) -ℤ pos (suc n) ≡ pos 0 =
        rw whole (sub_pos (suc n) (suc n) (omega arith) ∙ ap pos (omega arith)) in
      rw
        (
          allocate_lem s.memory id [] pool,
          write_fits ((s.memory).buffers id) 0 reply at (omega (arith, size, whole)),
          at,
          send_lem to
              (send_data (pos 0) (pos (length reply)) (written to d id 0 reply s [] pool at).buf)
              (set_buffer id (written to d id 0 reply s [] pool at)
                (set_memory (record (s.memory) { pool = [] }) s))
              (sent (suc n)) results es,
          none_left,
          eq_self id,
        )
        (recv_run_faults fd c id (suc n) (length bytes) x xs [] more _ known refl
          (rw (eq_self id) (add_pos 0 (suc n) ∙ ap pos (omega arith)))
          (rw (eq_self id) (ap (λ (m : MBuffer). m.remain) fresh)) er few
          (rw (eq_self id) (omega (arith, total, over))))
