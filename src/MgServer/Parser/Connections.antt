-- ===== src/MgServer/Parser/Connections.antt =====
-- `parse_connection` of gencode/mg_server/server/main.cpp.
use mg_raffle.Base.{ℕ, zero, suc, Option, none, some, List, [], ◌∷◌, ◌++◌, if◌then◌else◌}
use mg_raffle.Base.Int.{ℤ, pos, ◌-ℤ◌, ltb_ℤ, min_ℤ}
use mg_raffle.Base.Run.{Run, done, fault, out_of_fuel, Cmd, ◌>>=◌, ◌>>◌}
use mg_raffle.Rpc.Parser.Bytes.{slice, copy_into}
use mg_raffle.MgServer.Buffers.{MBuffer, consume}
use mg_raffle.MgServer.Parser.Requests.{
  ParseType, m_magic, m_header, MRequest, MParser, new_parser, MConnection,
}
use mg_raffle.MgServer.Parser.Messages.{Split, split_message}

-- What `parse_connection` works on.
pub record Session : Type 0 where
  pub conn : MConnection
  pub buffer : MBuffer

abbrev pub with_split : MConnection → Split → Session
with_split conn s = record {
  conn = record conn { parse_type = s.parse_type; parser = some s.parser };
  buffer = s.buffer;
}

abbrev pub lift_split : {A : Type 0} → MConnection → Run Split A → Run Session A
lift_split conn (done a s) = done a (with_split conn s)
lift_split conn fault = fault
lift_split conn out_of_fuel = out_of_fuel

-- `memcpy` of `n` bytes into the magic number
unfoldable pub copy_magic : ℤ → Cmd Session (Unit {0})
copy_magic n s =
    let c = s.conn in
    elim (slice (s.buffer).buf (s.buffer).cur_index n) [
      | none ↦ fault
      | some bytes ↦ elim (copy_into c.magic (pos 4 -ℤ c.magic_remain) bytes) [
        | none ↦ fault
        | some magic ↦ done tt (record s { conn = record c { magic = magic } })
      ]
    ]

unfoldable pub count_magic : ℤ → ℤ → Cmd Session ℤ
count_magic n length s =
    let c = s.conn in
    let left = c.magic_remain -ℤ n in
    done (length -ℤ n) (record {
      conn = record c {
        magic_remain = left;
        parse_type = (if ltb_ℤ (pos 0) left then c.parse_type else m_header);
      };
      buffer = consume n s.buffer;
    })

-- `case M_MAGIC`: the value is the length that is left.
unfoldable pub take_magic : ℤ → Cmd Session ℤ
unfolding copy_magic count_magic
take_magic length s =
    let n = min_ℤ (s.conn).magic_remain length in (copy_magic n >> count_magic n length) s

-- `conn->ResetParser` if there is none
abbrev pub parser_of : List ℕ → ℤ → Option MParser → MParser
parser_of garbage unset (some p) = p
parser_of garbage unset none = new_parser garbage unset

abbrev pub push_request : Option MRequest → List MRequest → List MRequest
push_request none reqs = reqs
push_request (some r) reqs = reqs ++ r ∷ []

module _ (garbage : List ℕ) (unset : ℤ) (id : ℕ) where
  -- `default`: the request that was completed, if any, and the length that is left.
  unfoldable pub split_default : ℤ → Cmd Session (Option MRequest × ℤ)
  unfolding split_message
  split_default length s =
      let start : Split = record {
        parse_type = (s.conn).parse_type;
        parser = parser_of garbage unset (s.conn).parser;
        buffer = s.buffer;
      } in
      lift_split s.conn (split_message garbage id length start)

  -- One round of the loop of `parse_connection`, with the rounds that follow.
  unfoldable pub parse_round :
      (List MRequest → ℤ → Cmd Session (List MRequest))
      → ParseType
      → List MRequest
      → ℤ
      → Cmd Session (List MRequest)
  parse_round rest m_magic reqs length = take_magic length >>= rest reqs
  parse_round rest _ reqs length =
      split_default length >>= λ out. rest (push_request out.0 reqs) out.1

  unfoldable pub parse_loop : ℕ → List MRequest → ℤ → Cmd Session (List MRequest)
  unfolding parse_round
  parse_loop zero reqs length s = out_of_fuel
  parse_loop (suc rounds) reqs length s =
      if ltb_ℤ (pos 0) length
      then parse_round (parse_loop rounds) (s.conn).parse_type reqs length s
      else done reqs s

  -- The requests that the bytes complete, in order.
  unfoldable pub parse_connection : ℕ → ℤ → Cmd Session (List MRequest)
  unfolding parse_loop
  parse_connection rounds = parse_loop rounds []
