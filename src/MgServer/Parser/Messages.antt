-- ===== src/MgServer/Parser/Messages.antt =====
-- gencode/mg_server/server/parser.cpp: `SplitMessage`, a case at a time, and `Reset`.
use mg_raffle.Base.{ℕ, zero, suc, Option, none, some, List, if◌then◌else◌}
use mg_raffle.Base.Int.{ℤ, pos, ◌-ℤ◌, ltb_ℤ, min_ℤ}
use mg_raffle.Base.Run.{done, fault, out_of_fuel, Cmd, pure, ◌>>=◌, ◌>>◌}
use mg_raffle.Rpc.Parser.Bytes.{slice, copy_into}
use mg_raffle.MgServer.Buffers.{MBuffer, consume, MBufferGuard, new_guard}
use mg_raffle.MgServer.ReadBuf.{append}
use mg_raffle.MgServer.Parser.Requests.{
  ParseType, m_magic, m_header, m_rpc_header, m_rpc_content, MRequest, new_request,
  rpc_header_length, rpc_body_length, length_header_size, MParser,
}

-- What `SplitMessage` works on: the type in the connection, the parser and the buffer.
pub record Split : Type 0 where
  pub parse_type : ParseType
  pub parser : MParser
  pub buffer : MBuffer

abbrev pub set_lengths : List ℕ → MRequest → MRequest
set_lengths bytes r = record r { length_header = bytes }

abbrev pub add_header : MBufferGuard → MRequest → MRequest
add_header g r = record r { rpc_header_buf = append g r.rpc_header_buf }

abbrev pub add_body : MBufferGuard → MRequest → MRequest
add_body g r = record r { rpc_body_buf = append g r.rpc_body_buf }

-- `MParser::Reset`, with the new request in place.
unfoldable pub reset_parser : List ℕ → MBuffer → Split
reset_parser garbage b = record {
  parse_type = m_magic;
  parser = record {
    header_remain = length_header_size;
    rpc_remain = pos 0;
    req = new_request garbage;
  };
  buffer = b;
}

module _ (garbage : List ℕ) (id : ℕ) where
  -- `memcpy` of `n` bytes into the lengths
  unfoldable pub copy_lengths : ℤ → Cmd Split (Unit {0})
  copy_lengths n s =
      let p = s.parser in
      elim (slice (s.buffer).buf (s.buffer).cur_index n) [
        | none ↦ fault
        | some bytes ↦
            elim (copy_into (p.req).length_header (length_header_size -ℤ p.header_remain) bytes) [
              | none ↦ fault
              | some lengths ↦
                  done tt (record s { parser = record p { req = set_lengths lengths p.req } })
            ]
      ]

  -- The `n` bytes are counted, and the next case follows the last of them.
  unfoldable pub count_lengths : ℤ → ℤ → Cmd Split ℤ
  count_lengths n length s =
      let p = s.parser in
      let left = p.header_remain -ℤ n in
      done (length -ℤ n) (
        if ltb_ℤ (pos 0) left
        then record {
          parse_type = m_header;
          parser = record { header_remain = left; rpc_remain = p.rpc_remain; req = p.req };
          buffer = consume n s.buffer;
        }
        else record {
          parse_type = m_rpc_header;
          parser = record {
            header_remain = left;
            rpc_remain = rpc_header_length p.req;
            req = p.req;
          };
          buffer = consume n s.buffer;
        })

  -- `case M_HEADER`: the value is the length that is left.
  unfoldable pub split_header : ℤ → Cmd Split ℤ
  unfolding copy_lengths count_lengths
  split_header length s =
      let n = min_ℤ (s.parser).header_remain length in (copy_lengths n >> count_lengths n length) s

  -- `case M_RPC_HEADER`
  unfoldable pub split_rpc_header : ℤ → Cmd Split ℤ
  split_rpc_header length s =
      let p = s.parser in
      let n = min_ℤ p.rpc_remain length in
      let r = add_header (new_guard id s.buffer n) p.req in
      let left = p.rpc_remain -ℤ n in
      done (length -ℤ n) (
        if ltb_ℤ (pos 0) left
        then record {
          parse_type = m_rpc_header;
          parser = record { header_remain = p.header_remain; rpc_remain = left; req = r };
          buffer = consume n s.buffer;
        }
        else record {
          parse_type = m_rpc_content;
          parser = record {
            header_remain = p.header_remain;
            rpc_remain = rpc_body_length r;
            req = r;
          };
          buffer = consume n s.buffer;
        })

  -- `case M_RPC_CONTENT`: the request too, when it is complete.
  unfoldable pub split_content : ℤ → Cmd Split (Option MRequest × ℤ)
  unfolding reset_parser
  split_content length s =
      let p = s.parser in
      let n = min_ℤ p.rpc_remain length in
      let r = add_body (new_guard id s.buffer n) p.req in
      let left = p.rpc_remain -ℤ n in
      if ltb_ℤ (pos 0) left
      then done (none, length -ℤ n)
          (record {
            parse_type = m_rpc_content;
            parser = record { header_remain = p.header_remain; rpc_remain = left; req = r };
            buffer = consume n s.buffer;
          })
      else done (some r, length -ℤ n) (reset_parser garbage (consume n s.buffer))

  -- `return req`, or the next round
  unfoldable pub return_or :
      (ℤ → Cmd Split (Option MRequest × ℤ)) → Option MRequest × ℤ → Cmd Split (Option MRequest × ℤ)
  return_or rest (none, length) = rest length
  return_or rest (some r, length) = pure (some r, length)

  -- One round of the loop of `SplitMessage`; `switch` has no case for `M_MAGIC`.
  unfoldable pub split_round :
      (ℤ → Cmd Split (Option MRequest × ℤ)) → ParseType → ℤ → Cmd Split (Option MRequest × ℤ)
  unfolding return_or
  split_round rest m_magic length = rest length
  split_round rest m_header length = split_header length >>= rest
  split_round rest m_rpc_header length = split_rpc_header length >>= rest
  split_round rest m_rpc_content length = split_content length >>= return_or rest

  unfoldable pub split_loop : ℕ → ℤ → Cmd Split (Option MRequest × ℤ)
  unfolding split_round
  split_loop zero length s = out_of_fuel
  split_loop (suc rounds) length s =
      if ltb_ℤ (pos 0) length
      then split_round (split_loop rounds) s.parse_type length s
      else done (none, length) s

  -- A round for each of the three cases, and the last test.
  unfoldable pub split_message : ℤ → Cmd Split (Option MRequest × ℤ)
  unfolding split_loop
  split_message = split_loop 4
