-- ===== src/MgServer/Refine/Connection.antt =====
-- `parse_connection` on the bytes of one buffer, in any state of the connection.
use mg_raffle.Base.{ℕ, suc, ◌-◌, ◌≡◌, ◌≤◌, ap, some, List, ◌++◌, map, length}
use mg_raffle.Base.Int.{ℤ, pos}
use mg_raffle.Base.Run.{Run, done, fault, out_of_fuel}
use mg_raffle.MgServer.Buffers.{MBuffer}
use mg_raffle.MgServer.Parser.{
  ParseType, m_magic, m_header, m_rpc_header, m_rpc_content, MRequest, MParser, MConnection,
  Session, parser_of, split_message,
}
use mg_raffle.MgServer.Frame.{Message, Frame, frame, decode}
use mg_raffle.MgServer.Refine.Held.{buffer_at, message_of, IsClean, Reads, Splits}
use mg_raffle.MgServer.Refine.Rounds.{parser_with}
use mg_raffle.MgServer.Refine.Splits.{content_Splits}
use mg_raffle.MgServer.Refine.Headers.{rpc_header_Splits}
use mg_raffle.MgServer.Refine.Lengths.{lengths_Splits}

-- The bytes that the magic number lacks; the first message alone has one.
abbrev pub MagicLeft : ParseType → ℕ → ℤ → Type 0
MagicLeft m_magic n remain = (remain ≡ pos n) × (n ≤ 4)
MagicLeft _ n remain = remain ≡ pos 0

module _ (mem : ℕ → List ℕ) (garbage : List ℕ) (unset : ℤ) where
  abbrev pub ParserReads : ParseType → ℕ → List ℕ → List ℕ → List ℕ → MParser → Type 0
  ParserReads m_magic n ls h b p = IsClean mem p
  ParserReads st n ls h b p = Reads mem st n ls h b p

  -- The connection is where the frame is.
  pub record Expects (f : Frame) (c : MConnection) : Type 0 where
    pub stage : c.parse_type ≡ f.stage
    pub magic_room : length c.magic ≡ 4
    pub magic_left : MagicLeft f.stage f.left c.magic_remain
    pub reads :
        ParserReads f.stage f.left f.lengths f.head f.body (parser_of garbage unset c.parser)

  module _ (id : ℕ) (capacity remain : ℤ) (tail : List ℕ) where
    abbrev pub after_buffer : MBuffer
    after_buffer = buffer_at mem id capacity remain (length (mem id) - length tail)

    -- The messages that the requests hold, and where the connection and the buffer are then.
    abbrev pub Parses : Frame → List Message → List MRequest → Run Session (List MRequest) → Type 0
    Parses f ms reqs (done out s) =
        (map (message_of mem) out ≡ map (message_of mem) reqs ++ ms)
        × (s.buffer ≡ after_buffer)
        × Expects f s.conn
    Parses f ms reqs fault = ⊥
    Parses f ms reqs out_of_fuel = ⊥

    module _ (room : length garbage ≡ 8) where
      -- One call of `SplitMessage` from any part of a message but the magic number.
      pub lengths_split :
          (from : ℕ) (p : MParser) (n : ℕ) (ls h b skip cs : List ℕ) {f : Frame} {ms : List Message}
          → from ≤ suc (length skip)
          → Reads mem m_header n ls h b p
          → skip ++ (cs ++ tail) ≡ mem id
          → decode cs (frame m_header n ls h b) ≡ some (f, ms)
          → Splits mem id capacity remain tail from f ms (
              split_message garbage id (pos (length cs)) (record {
                parse_type = m_header;
                parser = p;
                buffer = buffer_at mem id capacity remain (length skip);
              }))
      unfolding split_message
      lengths_split from p n ls h b skip cs later r e dec =
          let ep : p ≡ parser_with (pos n) p.rpc_remain p.req =
            ap (λ (t : ℤ). parser_with t p.rpc_remain p.req) (r.0) in
          rw ep (
            lengths_Splits mem id capacity remain garbage tail room from p.rpc_remain ls h b p.req
              (r.3) (r.4) 0 n skip cs later (r.1) (r.2) e dec)

      pub header_split :
          (from : ℕ) (p : MParser) (n : ℕ) (ls h b skip cs : List ℕ) {f : Frame} {ms : List Message}
          → from ≤ length skip
          → Reads mem m_rpc_header n ls h b p
          → skip ++ (cs ++ tail) ≡ mem id
          → decode cs (frame m_rpc_header n ls h b) ≡ some (f, ms)
          → Splits mem id capacity remain tail from f ms (
              split_message garbage id (pos (length cs)) (record {
                parse_type = m_rpc_header;
                parser = p;
                buffer = buffer_at mem id capacity remain (length skip);
              }))
      unfolding split_message
      header_split from p n ls h b skip cs later r e dec =
          let ep : p ≡ parser_with p.header_remain (pos n) p.req =
            ap (λ (t : ℤ). parser_with p.header_remain t p.req) (r.0) in
          rw ep (
            rpc_header_Splits mem id capacity remain garbage tail room from p.header_remain ls h b
              p.req (r.2) (r.1) (r.3) (r.4) 1 n skip cs later e dec)

      pub content_split :
          (from : ℕ) (p : MParser) (n : ℕ) (ls h b skip cs : List ℕ) {f : Frame} {ms : List Message}
          → from ≤ length skip
          → Reads mem m_rpc_content n ls h b p
          → skip ++ (cs ++ tail) ≡ mem id
          → decode cs (frame m_rpc_content n ls h b) ≡ some (f, ms)
          → Splits mem id capacity remain tail from f ms (
              split_message garbage id (pos (length cs)) (record {
                parse_type = m_rpc_content;
                parser = p;
                buffer = buffer_at mem id capacity remain (length skip);
              }))
      unfolding split_message
      content_split from p n ls h b skip cs later r e dec =
          let ep : p ≡ parser_with p.header_remain (pos n) p.req =
            ap (λ (t : ℤ). parser_with p.header_remain t p.req) (r.0) in
          rw ep (
            content_Splits mem id capacity remain garbage tail room from p.header_remain ls h b
              p.req (r.2) (r.1) (r.3) (r.4) 2 n skip cs later e dec)
