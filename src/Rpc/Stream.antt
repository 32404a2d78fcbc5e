-- ===== src/Rpc/Stream.antt =====
-- src/stream.h, with the counters of src/connection.h: the bytes of a connection are cut into a
-- magic number and a message, over and over.
pub mod Magic
pub mod Reads
use mg_raffle.Base.{
  ℕ, zero, suc, ◌+◌, ◌%◌, ◌^◌, ◌≡◌, Bool, true, false, Option, none, some, List, [], ◌∷◌, ◌++◌,
  if◌then◌else◌, length, not, ◌||◌,
}
use mg_raffle.Base.Int.{ℤ, pos, negsuc, ◌+ℤ◌, ◌-ℤ◌, ltb_ℤ, min_ℤ, eq_ℤ}
use mg_raffle.Base.Run.{Run, done, fault, out_of_fuel, Cmd, pure, starve, ◌>>=◌, ◌>>◌, modify, gets}
use mg_raffle.Rpc.ReadBuffer.{SBufferGuard}
use mg_raffle.Rpc.Parser.{Request, Garbage, Parser, Parsed, new_parser, parser_msg, get_request}
use mg_raffle.Rpc.Parser.Bytes.{int32_at, slice, copy_into}

-- `SConnectionStat`
pub record ConnectionStat : Type 0 where
  pub last_tick_time : ℕ
  pub recieve_data_size : ℕ

unfoldable pub refresh_stat : ℕ → ℕ → ConnectionStat → ConnectionStat
refresh_stat now size c = record {
  last_tick_time = now;
  recieve_data_size = (c.recieve_data_size + size) % 2 ^ 64;
}

-- `SStream` and what it reaches of its connection and server: the peer's address, the counters,
-- whether the release of the connection was asked for, and the requests that the callback was called with.
pub record Stream : Type 0 where
  pub parser : Option Parser
  pub magic_string_recieve_size : ℤ
  pub magic_number : List ℕ
  pub dst_ip : List ℕ
  pub dst_port : ℤ
  pub stat : ConnectionStat
  pub released : Bool
  pub called : List Request

unfoldable pub choose_parser : Garbage → Cmd Stream Bool
choose_parser g s =
    if eq_ℤ (int32_at s.magic_number 0) (pos 1)
    then done true (record s { parser = some (new_parser g) })
    else done false s

-- `memcpy` into the magic number
unfoldable pub copy_magic : SBufferGuard → ℤ → ℤ → Cmd Stream (Unit {0})
copy_magic buf consume real_read s = elim (slice buf consume real_read) [
  | none ↦ fault
  | some bytes ↦ elim (copy_into s.magic_number s.magic_string_recieve_size bytes) [
    | none ↦ fault
    | some magic ↦ done tt (record s { magic_number = magic })
  ]
]

-- The first part of a round, while the magic number is incomplete: how many bytes it takes.
unfoldable pub read_magic : SBufferGuard → ℤ → ℤ → Cmd Stream ℤ
unfolding copy_magic
read_magic buf consume remain = do
  size ← gets λ s. s.magic_string_recieve_size
  let real_read = min_ℤ (pos 4 -ℤ size) remain
  if ltb_ℤ size (pos 4)
      then (copy_magic buf consume real_read
          >> modify (λ s. record s {
            magic_string_recieve_size = s.magic_string_recieve_size +ℤ real_read;
          })
          >> pure real_read)
      else pure (pos 0)

-- `!_parser || choose_parser()`
unfoldable pub refuses : Garbage → Cmd Stream Bool
unfolding choose_parser
refuses g s = elim s.parser [ none ↦ done true s | some p ↦ choose_parser g s ]

-- `_parser->parser_msg(...)`, a fault without a parser
unfoldable pub call_parser : SBufferGuard → ℤ → ℤ → Cmd Stream Parsed
call_parser buf consume remain s = elim s.parser [
  | none ↦ fault
  | some p ↦ elim (parser_msg buf consume remain p) [
    | done out q ↦ done out (record s { parser = some q })
    | fault ↦ fault
    | out_of_fuel ↦ out_of_fuel
  ]
]

-- The request that the parser has finished, stamped with the time and the peer's address.
unfoldable pub take_request : Garbage → ℤ → Cmd Stream Request
unfolding get_request
take_request g now s = elim s.parser [
  | none ↦ fault
  | some p ↦ elim (get_request g p) [
    | done r q ↦
        done (record r { recieved_time = now; remote_ip = s.dst_ip; remote_port = s.dst_port })
          (record s { parser = some q })
    | fault ↦ fault
    | out_of_fuel ↦ out_of_fuel
  ]
]

-- What `split_message` returns, and the queue that it fills.
abbrev pub Split : Type 0
Split = Bool × List Request

module _ (g : Garbage) (now : ℤ) (buf : SBufferGuard) where
  -- The rest of a round, with the rounds that follow.
  unfoldable pub split_parsed :
      (ℤ → ℤ → List Request → Cmd Stream Split) → List Request → Parsed → Cmd Stream Split
  split_parsed again requests out =
      if eq_ℤ out.ret (pos 0)
      then pure (true, requests)
      else if ltb_ℤ out.ret (pos 0)
      then pure (false, requests)
      else (take_request g now >>= λ request.
          modify (λ s. record s { magic_string_recieve_size = pos 0 })
          >> again out.consume out.remain_length (requests ++ request ∷ []))

  unfoldable pub split_round :
      (ℤ → ℤ → List Request → Cmd Stream Split) → ℤ → ℤ → List Request → Cmd Stream Split
  unfolding split_parsed
  split_round again consume remain requests = do
    taken ← read_magic buf consume remain
    size ← gets λ s. s.magic_string_recieve_size
    if ltb_ℤ size (pos 4)
        then pure (true, requests)
        else (refuses g >>= λ refused.
            if refused
            then pure (false, requests)
            else (call_parser buf (consume +ℤ taken) (remain -ℤ taken)
                >>= split_parsed again requests))

  unfoldable pub split_loop : ℕ → ℤ → ℤ → List Request → Cmd Stream Split
  unfolding split_round
  split_loop zero consume remain requests = starve
  split_loop (suc rounds) consume remain requests =
      if ltb_ℤ (pos 0) remain
      then split_round (split_loop rounds) consume remain requests
      else pure (true, requests)

-- `split_message`, in at most the rounds given
unfoldable pub split_message : ℕ → Garbage → ℤ → SBufferGuard → ℤ → Cmd Stream Split
unfolding split_loop
split_message rounds g now buf length = split_loop g now buf rounds (pos 0) length []

-- What `recv` can return.
pub data Recv : Type 0 where
  got : List ℕ → Recv
  closed : Recv
  would_block : Recv
  interrupted : Recv
  failed : Recv

-- The call of `release_connection`, after which `on_read_some` returns: `read_connection` of
-- Rpc.Server carries it out, and a fault of it is a fault there.
abbrev pub release : Stream → Stream
release s = record s { released = true }

-- `_request_callback` on each of the queue
abbrev pub call_back : List Request → Stream → Stream
call_back requests s = record s { called = s.called ++ requests }

-- What becomes of the bytes that one `recv` delivered: whether to read again.
unfoldable pub on_bytes : ℕ → Garbage → ℕ → List ℕ → Cmd Stream Bool
on_bytes rounds g now bytes = do
  modify λ s. record s { stat = refresh_stat now (length bytes) s.stat }
  (fine, requests) ← split_message rounds g (pos now) bytes (pos (length bytes))
  if fine then (modify (call_back requests) >> pure true) else (modify release >> pure false)

-- `on_read_some` against the results that `recv` has given so far, until it returns
unfoldable pub on_read_some : ℕ → Garbage → ℕ → List Recv → Cmd Stream (Unit {0})
on_read_some rounds g now [] = pure tt
on_read_some rounds g now (closed ∷ rest) = modify release
on_read_some rounds g now (would_block ∷ rest) = pure tt
on_read_some rounds g now (interrupted ∷ rest) = on_read_some rounds g now rest
on_read_some rounds g now (failed ∷ rest) = modify release
on_read_some rounds g now (got bytes ∷ rest) = on_bytes rounds g now bytes >>= λ again.
    if again then on_read_some rounds g now rest else pure tt
