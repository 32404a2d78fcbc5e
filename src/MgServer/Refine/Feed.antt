-- ===== src/MgServer/Refine/Feed.antt =====
-- A stream of messages that arrives in buffers of any sizes.
use mathlib.Core.List.{append-nil, map-append}
use mg_raffle.Base.{
  ℕ, ◌+◌, ◌-◌, ◌*◌, ◌^◌, ◌≡◌, ◌≢◌, ◌<◌, refl, sym, ◌∙◌, ap, none, some, List, [], ◌∷◌, ◌++◌, map,
  length, arith,
}
use mg_raffle.Base.Int.{ℤ, pos}
use mg_raffle.Base.Optional.{◌>>=◌}
use mg_raffle.Base.Run.{Run, done, fault, out_of_fuel, Cmd, and_then}
use mg_raffle.MgServer.Parser.{
  MRequest, MConnection, Session, parse_connection, new_connection, m_rpc_header,
}
use mg_raffle.MgServer.Sending.{int_bytes, response_bytes}
use mg_raffle.MgServer.Frame.{Message, Frame, frame, start, Step, more_messages, decode}
use mg_raffle.MgServer.Frame.Blocks.{decode_nil, decode-append}
use mg_raffle.MgServer.Frame.Parts.{more_messages-eq-some}
use mg_raffle.MgServer.Frame.RoundTrip.{decode-response_bytes, decode-second_response, misread}
use mg_raffle.MgServer.Refine.Held.{buffer_at, message_of}
use mg_raffle.MgServer.Refine.Connection.{Expects, Parses}
use mg_raffle.MgServer.Refine.Splits.{outcome}
use mg_raffle.MgServer.Refine.Stream.{parse_connection-Parses}

-- What the first of two parts leaves the second to decode.
split_step :
    (s : Step) (ys : List ℕ) {f : Frame} {ms : List Message}
    → (s >>= λ out. more_messages out.1 (decode ys out.0)) ≡ some (f, ms)
    → (k : Frame) × (os : List Message) × (ns : List Message) × (s ≡ some (k, os))
      × (decode ys k ≡ some (f, ns))
      × (ms ≡ os ++ ns)
split_step none ys e = cc
split_step (some (k, os)) ys e =
    let (ns, em, dec) = more_messages-eq-some os (decode ys k) e in (k, os, ns, refl, dec, em)

module _ (mem : ℕ → List ℕ) (garbage : List ℕ) (unset capacity remain : ℤ) where
  abbrev keep_conn : Run Session (List MRequest) → Run MConnection (List MRequest)
  keep_conn (done reqs s) = done reqs s.conn
  keep_conn fault = fault
  keep_conn out_of_fuel = out_of_fuel

  abbrev parse_buffer : ℕ → Cmd MConnection (List MRequest)
  parse_buffer id c = keep_conn (
      parse_connection garbage unset id (3 * length (mem id) + 3) (pos (length (mem id)))
        (record { conn = c; buffer = buffer_at mem id capacity remain 0 }))

  -- `parse_connection` on one full buffer after another, with all requests in order.
  unfoldable pub receive_each : List ℕ → Cmd MConnection (List MRequest)
  receive_each [] c = done [] c
  receive_each (id ∷ ids) c =
      and_then (parse_buffer id c)
        λ reqs c'. and_then (receive_each ids c') λ more. done (reqs ++ more)

  abbrev pub stream_of : List ℕ → List ℕ
  stream_of [] = []
  stream_of (id ∷ ids) = mem id ++ stream_of ids

  abbrev pub Delivers : Frame → List Message → Run MConnection (List MRequest) → Type 0
  Delivers f ms (done out c) = (map (message_of mem) out ≡ ms) × Expects mem garbage unset f c
  Delivers f ms fault = ⊥
  Delivers f ms out_of_fuel = ⊥

  one_buffer :
      (id : ℕ) (g f : Frame) (ms : List Message) (run : Run Session (List MRequest))
      → Parses mem garbage unset id capacity remain [] f ms [] run
      → Delivers f ms (keep_conn run)
  one_buffer id g f ms (done out s) (eq, eb, ex) = (eq, ex)
  one_buffer id g f ms fault p = p
  one_buffer id g f ms out_of_fuel p = p

  then_more :
      (f : Frame) (ms ns : List Message) (reqs : List MRequest)
      (run : Run MConnection (List MRequest))
      → map (message_of mem) reqs ≡ ms
      → Delivers f ns run
      → Delivers f (ms ++ ns) (and_then run λ more. done (reqs ++ more))
  then_more f ms ns reqs (done out c) e (eq, ex) = (rw (map-append, e, eq) refl, ex)
  then_more f ms ns reqs fault e p = p
  then_more f ms ns reqs out_of_fuel e p = p

  after_one :
      (ids : List ℕ) (g f : Frame) (ms ns : List Message) (run : Run MConnection (List MRequest))
      → Delivers g ms run
      → ((c : MConnection) → Expects mem garbage unset g c → Delivers f ns (receive_each ids c))
      → Delivers f
          (ms ++ ns)
          (and_then run λ reqs c'. and_then (receive_each ids c') λ more. done (reqs ++ more))
  after_one ids g f ms ns (done reqs c) (eq, ex) next =
      then_more f ms ns reqs (receive_each ids c) eq (next c ex)
  after_one ids g f ms ns fault p next = p
  after_one ids g f ms ns out_of_fuel p next = p

  module _ (room : length garbage ≡ 8) where
    pub new_connection-Expects :
        (fd : ℤ) (ip : List ℕ) (port : ℤ)
        → Expects mem garbage unset (start 4) (new_connection fd ip port)
    unfolding new_connection
    new_connection-Expects fd ip port = record {
      stage = refl;
      magic_room = refl;
      magic_left = (refl, omega arith);
      reads = (refl, (room, refl, refl));
    }

    -- Buffers of any sizes, in any state of the connection: the requests that the calls return
    -- are the messages of the whole stream, in order and whole, and the connection is left where
    -- the stream leaves off. So how a stream is cut into buffers makes no difference.
    pub receive_each-Delivers :
        (ids : List ℕ) (g f : Frame) (ms : List Message) (c : MConnection)
        → Expects mem garbage unset g c
        → decode (stream_of ids) g ≡ some (f, ms)
        → Delivers f ms (receive_each ids c)
    unfolding receive_each
    receive_each-Delivers [] g f ms c ex dec =
        let o = outcome (sym (decode_nil g) ∙ dec) in (sym (o.1), rw (o.0) ex)
    receive_each-Delivers (id ∷ ids) g f ms c ex dec =
        let (k, os, ns, first, rest, em) =
          split_step (decode (mem id) g) (stream_of ids)
            (sym (decode-append (mem id) (stream_of ids) g) ∙ dec) in
        rw em (
          after_one ids k f os ns (parse_buffer id c)
            (one_buffer id g k os _ (
              parse_connection-Parses mem garbage unset id capacity remain [] room
                (3 * length (mem id) + 3) [] (mem id) g k os c (append-nil (mem id)) ex first
                (omega arith)))
            (λ c' ex'. receive_each-Delivers ids k f ns c' ex' rest))

    -- A client that sends what `do_response` sends, to a new connection, in buffers of any sizes:
    -- exactly one request comes out, and it has the same header and the same body.
    pub receive_each-response :
        (fd : ℤ) (ip : List ℕ) (port : ℤ) (ids h b : List ℕ)
        → length h < 2 ^ 31
        → length b < 2 ^ 31
        → b ≢ []
        → stream_of ids ≡ response_bytes h b
        → Delivers
            (start 0)
            (record { head = h; body = b } ∷ [])
            (receive_each ids (new_connection fd ip port))
    receive_each-response fd ip port ids h b small_h small_b some_body e =
        receive_each-Delivers ids (start 4) (start 0) _ (new_connection fd ip port)
          (new_connection-Expects fd ip port)
          (ap (λ (x : List ℕ). decode x (start 4)) e
            ∙ decode-response_bytes h b small_h small_b some_body)

    -- The same bytes once more on a connection that has had a message: no request comes out, in
    -- whatever buffers they arrive, and the connection goes on to wait for the rest of a header
    -- whose length is the magic number.
    pub receive_each-second :
        (ids h b : List ℕ) (c : MConnection)
        → length h + length b < 1735288172
        → Expects mem garbage unset (start 0) c
        → stream_of ids ≡ response_bytes h b
        → Delivers
            (frame m_rpc_header
              (1735288172 - length h - length b)
              (misread h)
              (int_bytes (length b) ++ (h ++ b))
              [])
            []
            (receive_each ids c)
    receive_each-second ids h b c short ex e =
        receive_each-Delivers ids (start 0) _ [] c ex
          (ap (λ (x : List ℕ). decode x (start 0)) e ∙ decode-second_response h b short)
