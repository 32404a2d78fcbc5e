-- ===== src/MgServer/Refine/Loop.antt =====
-- The loop of `parse_connection` on the bytes of one buffer, in any state of the connection.
use mathlib.Core.List.{append_assoc, append-nil, map-append}
use mg_raffle.Base.{
  ℕ, zero, suc, ◌+◌, ◌-◌, ◌*◌, ◌≡◌, ◌≢◌, ◌≤◌, ◌<◌, refl, sym, ◌∙◌, ap, Option, none, some, List, [],
  ◌∷◌, ◌++◌, map, length, arith, length-append,
}
use mg_raffle.Base.Int.{ℤ, pos}
use mg_raffle.Base.Run.{Run, done, fault, out_of_fuel, and_then}
use mg_raffle.MgServer.Buffers.{MBuffer}
use mg_raffle.MgServer.Parser.{
  ParseType, m_magic, m_header, m_rpc_header, m_rpc_content, MRequest, MConnection, Split, Session,
  lift_split, with_split, parser_of, push_request, split_message, parse_loop,
}
use mg_raffle.MgServer.Frame.{Message, Frame, frame, start, decode}
use mg_raffle.MgServer.Refine.Held.{buffer_at, message_of, Holds, Splits}
use mg_raffle.MgServer.Refine.Connection.{
  ParserReads, Expects, Parses, lengths_split, header_split, content_split,
}

pub length-ne : {xs : List ℕ} → xs ≢ [] → 0 < length xs
length-ne {xs = []} ne = absurd (ne refl)
length-ne {xs = x ∷ xs} ne = omega arith

-- Rounds that pass before the next byte is taken.
abbrev pub weight : ParseType → ℕ
weight m_magic = 1
weight m_header = 0
weight _ = 2

module _ (mem : ℕ → List ℕ) (garbage : List ℕ) (unset : ℤ) (id : ℕ) (capacity remain : ℤ)
    (tail : List ℕ) (room : length garbage ≡ 8) where
  abbrev pub at : ℕ → MBuffer
  at = buffer_at mem id capacity remain

  abbrev pub session : MConnection → ℕ → Session
  session c k = record { conn = c; buffer = at k }

  abbrev pub Reaches : Frame → List Message → List MRequest → Run Session (List MRequest) → Type 0
  Reaches = Parses mem garbage unset id capacity remain tail

  -- The claim for the rounds that are left.
  abbrev pub Decodes : ℕ → Type 0
  Decodes rounds =
      (reqs : List MRequest) (skip cs : List ℕ) (g f : Frame) (ms : List Message) (c : MConnection)
      → skip ++ (cs ++ tail) ≡ mem id
      → Expects mem garbage unset g c
      → decode cs g ≡ some (f, ms)
      → 3 * length cs + weight g.stage < rounds
      → Reaches f ms reqs
          (parse_loop garbage unset id rounds reqs (pos (length cs)) (session c (length skip)))

  pub all_read :
      (r : ℕ) (reqs : List MRequest) (c : MConnection) (b : MBuffer) (f : Frame) (ms : List Message)
      → ms ≡ []
      → b ≡ at (length (mem id) - length tail)
      → Expects mem garbage unset f c
      → Reaches f ms reqs
          (parse_loop garbage unset id (suc r) reqs (pos 0) (record { conn = c; buffer = b }))
  unfolding parse_loop
  all_read r reqs c b f ms none_more eb ex = (rw (none_more, append-nil) refl, eb, ex)

  more_requests :
      (f : Frame) (q : MRequest) (reqs : List MRequest) {ms ns : List Message}
      → ms ≡ message_of mem q ∷ ns
      → (run : Run Session (List MRequest)) → Reaches f ns (reqs ++ q ∷ []) run
      → Reaches f ms reqs run
  more_requests f q reqs em (done out s) (eq, eb, ex) =
      (rw (em, eq, map-append) (append_assoc (map (message_of mem) reqs) _ _), eb, ex)
  more_requests f q reqs em fault t = t
  more_requests f q reqs em out_of_fuel t = t

  -- A connection whose magic number has been read, seen from what its parser holds.
  same_frame :
      (f : Frame) (c : MConnection) (s : Split)
      → length c.magic ≡ 4
      → c.magic_remain ≡ pos 0
      → Holds mem f s.parse_type s.parser
      → Expects mem garbage unset f ((with_split c s).conn)
  same_frame f c s four no_more hold = by_stage f.stage f.left f.lengths f.head f.body hold
    where
      by_stage :
          (st : ParseType) (n : ℕ) (ls h b : List ℕ)
          → Holds mem (frame st n ls h b) s.parse_type s.parser
          → Expects mem garbage unset (frame st n ls h b) ((with_split c s).conn)
      by_stage m_magic n ls h b (e, (z, clean)) = record {
        stage = e;
        magic_room = four;
        magic_left = (no_more ∙ ap pos (sym z), omega arith);
        reads = clean;
      }
      by_stage m_header n ls h b (e, r) = record {
        stage = e;
        magic_room = four;
        magic_left = no_more;
        reads = r;
      }
      by_stage m_rpc_header n ls h b (e, r) = record {
        stage = e;
        magic_room = four;
        magic_left = no_more;
        reads = r;
      }
      by_stage m_rpc_content n ls h b (e, r) = record {
        stage = e;
        magic_room = four;
        magic_left = no_more;
        reads = r;
      }

  module _ (r : ℕ) (ih : Decodes r) (reqs : List MRequest) (c : MConnection)
      (four : length c.magic ≡ 4) (no_more : c.magic_remain ≡ pos 0) (skip cs : List ℕ)
      (whole : skip ++ (cs ++ tail) ≡ mem id) where
    after_split :
        (from : ℕ) (f : Frame) (ms : List Message) (run : Run Split (Option MRequest × ℤ))
        → (suc zero ≤ r)
        → ((k : ℕ) → from + k ≤ length skip + length cs → 3 * k + 1 < r)
        → Splits mem id capacity remain tail from f ms run
        → Reaches f ms reqs (
            and_then
              (lift_split c run)
              (λ out. parse_loop garbage unset id r (push_request out.0 reqs) out.1))
    after_split from f ms (done (none, len) s) some_r few (el, em, eb, hold) =
        let er : r ≡ suc (r - 1) = omega arith in
        rw (el, er)
          (all_read (r - 1) reqs ((with_split c s).conn) s.buffer f ms em eb
            (same_frame f c s four no_more hold))
    after_split from f ms (done (some q, len) s) some_r few
          (skip', cs', e, later, el, eb, ns, em, dec, hold) =
        let k : 3 * length cs' + 1 < r = few (length cs') (
          omega (
            arith,
            ap length e,
            ap length whole,
            length-append skip (cs ++ tail),
            length-append cs tail,
            length-append skip' (cs' ++ tail),
            length-append cs' tail,
          )) in
        rw (el, eb)
          (more_requests f q reqs em _ (
            ih (reqs ++ q ∷ []) skip' cs' (start 0) f ns ((with_split c s).conn) e
              (same_frame (start 0) c s four no_more hold) dec k))
    after_split from f ms fault some_r few t = t
    after_split from f ms out_of_fuel some_r few t = t

    abbrev pub go_on : Run Split (Option MRequest × ℤ) → Run Session (List MRequest)
    go_on run =
        and_then (lift_split c run)
          (λ out. parse_loop garbage unset id r (push_request out.0 reqs) out.1)

    abbrev pub split_from : ParseType → Run Split (Option MRequest × ℤ)
    split_from st = split_message garbage id (pos (length cs)) (record {
      parse_type = st;
      parser = parser_of garbage unset c.parser;
      buffer = at (length skip);
    })

    -- The default case in each of the three parts.
    pub parts_round :
        (st : ParseType) (n : ℕ) (ls h b : List ℕ) (f : Frame) (ms : List Message)
        → st ≢ m_magic
        → ParserReads mem garbage unset st n ls h b (parser_of garbage unset c.parser)
        → decode cs (frame st n ls h b) ≡ some (f, ms)
        → cs ≢ []
        → 3 * length cs + weight st < suc r
        → Reaches f ms reqs (go_on (split_from st))
    parts_round m_magic n ls h b f ms ne reads dec some_cs fuel = absurd (ne refl)
    parts_round m_header n ls h b f ms ne reads dec some_cs fuel =
        after_split (suc (length skip)) f ms _ (omega (arith, length-ne some_cs))
          (λ k le. omega arith)
          (lengths_split mem garbage unset id capacity remain tail room (suc (length skip))
            (parser_of garbage unset c.parser) n ls h b skip cs (omega arith) reads whole dec)
    parts_round m_rpc_header n ls h b f ms ne reads dec some_cs fuel =
        after_split (length skip) f ms _ (omega arith) (λ k le. omega arith)
          (header_split mem garbage unset id capacity remain tail room (length skip)
            (parser_of garbage unset c.parser) n ls h b skip cs (omega arith) reads whole dec)
    parts_round m_rpc_content n ls h b f ms ne reads dec some_cs fuel =
        after_split (length skip) f ms _ (omega arith) (λ k le. omega arith)
          (content_split mem garbage unset id capacity remain tail room (length skip)
            (parser_of garbage unset c.parser) n ls h b skip cs (omega arith) reads whole dec)
