-- ===== src/MgServer/Serving/Answering.antt =====
-- A request of a client from the bytes that `recv` takes to the bytes that `send` is given.
use mg_raffle.Base.{
  ℕ, suc, ◌+◌, ◌-◌, ◌≡◌, ◌≢◌, ◌≤◌, refl, true, false, some, List, [], ◌∷◌, ◌++◌, arith, ◌==◌,
  length, take, drop, length-take, ◌∙◌, ap,
}
use mg_raffle.Base.Int.{ℤ, pos, ◌-ℤ◌}
use mg_raffle.Base.Run.{Run, done, fault, out_of_fuel, ◌>>=◌, modify, and_then}
use mg_raffle.Rpc.Parser.Slices.{sub_pos}
use mg_raffle.MgServer.Buffers.{MBuffer, Memory, MBufferGuard, allocate, consume, give_back}
use mg_raffle.MgServer.Parser.{MRequest, Session}
use mg_raffle.MgServer.Table.{Server, Sent, sent, set_memory, set_object}
use mg_raffle.MgServer.Sending.{
  respond_in, do_response, response_bytes, send_data, send_written, after_response, queue_rest,
  set_buffer,
}
use mg_raffle.MgServer.Receiving.{
  Protobuf, part_bytes, release_requests, on_data, do_request, answer, keep_session, run_task,
}
use mg_raffle.MgServer.Frame.{Message, Frame, decode}
use mg_raffle.MgServer.Refine.Held.{contents, message_of}
use mg_raffle.MgServer.Refine.Connection.{Expects, Parses}
use mg_raffle.MgServer.Serving.Responses.{allocate_lem, write_fits, send_lem, middle_rest, written}
use mg_raffle.MgServer.Serving.Taking.{
  bytes_in, received, back, got_in, same_bytes, recv_into_lem, received-Parses,
}

-- From `s` one call of `send` was made: it offered `bytes` to `fd`. `more` results of `send` are
-- left, and the table of connections is as it was.
abbrev pub Sends : ℤ → List ℕ → List Sent → Server → Run Server (Unit {0}) → Type 0
Sends fd bytes more s (done u t) =
    (t.offered ≡ s.offered ++ (fd, bytes) ∷ []) × (t.sends ≡ more) × (t.conns ≡ s.conns)
Sends fd bytes more s _ = ⊥

all_there :
    (front bytes rest : List ℕ) (k : ℕ)
    → length front ≡ k
    → take (length bytes) (drop k (front ++ bytes ++ rest)) ≡ bytes
all_there front bytes rest k e =
    let l : length bytes - 0 ≡ length bytes = omega arith in
    let z : length front + 0 ≡ k = omega (arith, e) in
    rw (l, z) at (middle_rest front bytes rest 0 (omega arith))

module _ (fd : ℤ) (c id k : ℕ) (bytes : List ℕ) (s : Server) (rest : List ℕ)
    (pool : (s.memory).pool ≡ id ∷ rest) (at : ((s.memory).buffers id).cur_index ≡ pos k) where
  pub respond_in-Sends :
      (n : ℕ) (more : List Sent)
      → k + length bytes ≤ length ((s.memory).buffers id).buf
      → s.sends ≡ sent (suc n) ∷ more
      → length bytes ≡ suc n
      → Sends fd bytes more s (respond_in fd c bytes (allocate s.memory) s)
  unfolding respond_in send_written after_response queue_rest consume give_back
  respond_in-Sends n more le es whole =
      let r : pos (length bytes) -ℤ pos (suc n) ≡ pos 0 =
        rw whole (sub_pos (suc n) (suc n) (omega arith) ∙ ap pos (omega arith)) in
      let buf = ((s.memory).buffers id).buf in
      let front : length (take k buf) ≡ k = omega (arith, length-take k buf) in
      let piece = all_there (take k buf) bytes (drop (k + length bytes) buf) k front in
      rw
        (
          allocate_lem s.memory id rest pool,
          write_fits ((s.memory).buffers id) k bytes at le,
          at,
          send_lem fd
              (send_data (pos k) (pos (length bytes)) (written fd c id k bytes s rest pool at).buf)
              (set_buffer id (written fd c id k bytes s rest pool at)
                (set_memory (record (s.memory) { pool = rest }) s))
              (sent (suc n)) more es,
          r,
          piece,
        )
        (refl, refl, refl)

-- What the parts of a request refer to does not depend on anything but the bytes of the buffers.
part_bytes_lem :
    (m : Memory) (gs : List MBufferGuard) → part_bytes m gs ≡ contents (λ i. (m.buffers i).buf) gs
part_bytes_lem m [] = refl
part_bytes_lem m (g ∷ gs) = rw (part_bytes_lem m gs) refl

then_release :
    (fd : ℤ) (bytes : List ℕ) (more : List Sent) (s : Server) (rs : List MRequest)
    (run : Run Server (Unit {0}))
    → Sends fd bytes more s run
    → Sends fd bytes more s (
        and_then
          (and_then run λ u t. done tt t)
          λ u t. done tt (set_memory (release_requests rs t.memory) t))
then_release fd bytes more s rs (done u t) p = p
then_release fd bytes more s rs fault p = p
then_release fd bytes more s rs out_of_fuel p = p

module _ (proto : Protobuf) (garbage : List ℕ) (unset : ℤ) where
  open proto use {
    parse_header, is_hello, set_response, serialize_header, parse_req, new_res, serialize_res,
  }

  -- The bytes that answer a message.
  abbrev pub reply_to : Message → List ℕ
  reply_to m =
      response_bytes (serialize_header (set_response (parse_header m.head)))
        (serialize_res (run_task proto (parse_req m.body) new_res))

  module _ (fd : ℤ) (c id k : ℕ) (bytes : List ℕ) (s : Server) (f : Frame) (m : Message)
      (hello : is_hello (parse_header m.head) ≡ true) (id' k' n : ℕ) (rest : List ℕ)
      (more : List Sent) (pool : (s.memory).pool ≡ id' ∷ rest) (other : id' ≢ id)
      (at : ((s.memory).buffers id').cur_index ≡ pos k')
      (fits : k' + length (reply_to m) ≤ length ((s.memory).buffers id').buf)
      (all_sent : s.sends ≡ sent (suc n) ∷ more) (whole : length (reply_to m) ≡ suc n) where
    abbrev parsed : Session → Server
    parsed t =
        set_object c t.conn
          (set_buffer id t.buffer (got_in proto garbage unset fd c id k bytes s f))

    untouched : (t : Session) → ((parsed t).memory).buffers id' ≡ (s.memory).buffers id'
    untouched t = let o : (id' == id) ≡ false = ground (arith, other) in rw o refl

    answered :
        (q : MRequest) (t : Session)
        → t.buffer.buf
          ≡ bytes_in proto garbage unset (got_in proto garbage unset fd c id k bytes s f) id
        → message_of
            (bytes_in proto garbage unset (got_in proto garbage unset fd c id k bytes s f))
            q
          ≡ m
        → Sends fd (reply_to m) more s (answer proto fd c q (parsed t))
    unfolding answer do_response
    answered q t eb em =
        let heads : part_bytes (parsed t).memory (q.rpc_header_buf).buf_list ≡ m.head =
          part_bytes_lem (parsed t).memory (q.rpc_header_buf).buf_list
          ∙ ap (λ (mem : ℕ → List ℕ). contents mem (q.rpc_header_buf).buf_list)
              (same_bytes proto garbage unset fd c id k bytes s f t.buffer eb)
          ∙ ap (λ (x : Message). x.head) em in
        let bodies : part_bytes (parsed t).memory (q.rpc_body_buf).buf_list ≡ m.body =
          part_bytes_lem (parsed t).memory (q.rpc_body_buf).buf_list
          ∙ ap (λ (mem : ℕ → List ℕ). contents mem (q.rpc_body_buf).buf_list)
              (same_bytes proto garbage unset fd c id k bytes s f t.buffer eb)
          ∙ ap (λ (x : Message). x.body) em in
        rw (heads, bodies, hello)
          (respond_in-Sends fd c id' k' (reply_to m) (parsed t) rest pool (rw (untouched t) at) n
            more (rw (untouched t) fits) all_sent whole)

    -- `parse_connection` has found the one message.
    after_found :
        (run : Run Session (List MRequest)) (capacity remain : ℤ)
        → Parses
            (bytes_in proto garbage unset (got_in proto garbage unset fd c id k bytes s f))
            garbage
            unset
            id
            capacity
            remain
            (back proto garbage unset fd c id k bytes s f)
            f
            (m ∷ [])
            []
            run
        → Sends fd (reply_to m) more s (
            and_then
              (keep_session c id run (got_in proto garbage unset fd c id k bytes s f))
              λ reqs. do_request proto fd c reqs >>= λ u.
                modify λ t. set_memory (release_requests reqs t.memory) t)
    unfolding do_request
    after_found (done [] t) capacity remain (eq, eb, ex) = cc
    after_found (done (q ∷ []) t) capacity remain (eq, eb, ex) =
        then_release fd (reply_to m) more s (q ∷ []) (answer proto fd c q (parsed t))
          (answered q t (ap (λ (b : MBuffer). b.buf) eb) cc)
    after_found (done (q ∷ r ∷ qs) t) capacity remain (eq, eb, ex) = cc
    after_found fault capacity remain p = p
    after_found out_of_fuel capacity remain p = p

module _ (proto : Protobuf) (garbage : List ℕ) (unset : ℤ) (room : length garbage ≡ 8) where
  open proto use {parse_header, is_hello}

  -- A `recv` in any state of the connection whose bytes fit into its buffer and complete one
  -- message, a request for `hello`: if another buffer is the next of the pool, with room for the
  -- answer from its position on, and `send` takes as many bytes as the answer has, then one call of
  -- `send` is made, it offers exactly the answer to that message, whole, to the descriptor of the
  -- connection, and the table of connections is as it was.
  pub on_data-Sends :
      (fd : ℤ) (c id k : ℕ) (bytes : List ℕ) (s : Server) (g f : Frame) (m : Message) (id' k' n : ℕ)
      (rest : List ℕ) (more : List Sent)
      → ((s.memory).buffers id).cur_index ≡ pos k
      → k + length bytes ≤ length ((s.memory).buffers id).buf
      → Expects
          (bytes_in proto garbage unset (received proto garbage unset id k bytes s))
          garbage
          unset
          g
          (s.objects c)
      → decode bytes g ≡ some (f, m ∷ [])
      → is_hello (parse_header m.head) ≡ true
      → (s.memory).pool ≡ id' ∷ rest
      → id' ≢ id
      → ((s.memory).buffers id').cur_index ≡ pos k'
      → k' + length (reply_to proto garbage unset m) ≤ length ((s.memory).buffers id').buf
      → s.sends ≡ sent (suc n) ∷ more
      → length (reply_to proto garbage unset m) ≡ suc n
      → Sends fd
          (reply_to proto garbage unset m)
          more
          s
          (on_data proto garbage unset fd c id bytes s)
  unfolding on_data
  on_data-Sends fd c id k bytes s g f m id' k' n rest more at fits ex dec hello pool other at' fits'
        es whole =
      rw (recv_into_lem proto garbage unset room id k bytes s at fits) (
        after_found proto garbage unset fd c id k bytes s f m hello id' k' n rest more pool other
          at' fits' es whole _ ((s.memory).buffers id).capacity ((s.memory).buffers id).remain
          (received-Parses proto garbage unset room id k bytes s at fits (s.objects c) g f (m ∷ [])
            ex dec))
