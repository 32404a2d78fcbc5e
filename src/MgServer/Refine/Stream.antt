-- ===== src/MgServer/Refine/Stream.antt =====
-- `parse_connection` refines `decode`, on the bytes of one buffer and any state of the connection.
use mathlib.Core.List.{append_assoc}
use mathlib.Core.Path.{subst}
use mg_raffle.Base.{
  ℕ, zero, suc, ◌+◌, ◌-◌, ◌*◌, ◌≡◌, ◌≢◌, ◌≤◌, ◌<◌, refl, sym, ◌∙◌, ap, some, true, List, [], ◌∷◌,
  ◌++◌, length, arith, length-append, inl, inr, cases_le,
}
use mg_raffle.Base.Int.{ℤ, pos, ltb_ℤ, min_ℤ}
use mg_raffle.Base.Run.{Run}
use mg_raffle.MgServer.Parser.{
  ParseType, m_magic, m_header, m_rpc_header, m_rpc_content, MRequest, MConnection, Session,
  parser_of, split_default, parse_round, parse_loop,
}
use mg_raffle.Rpc.Parser.Slices.{min_left, min_right}
use mg_raffle.MgServer.Frame.{Message, Frame, frame, decode}
use mg_raffle.MgServer.Frame.Blocks.{decode_nil}
use mg_raffle.MgServer.Frame.Parts.{decode_short, decode_whole_magic}
use mg_raffle.MgServer.Refine.Held.{IsClean}
use mg_raffle.MgServer.Refine.Rounds.{some_left}
use mg_raffle.MgServer.Refine.Splits.{outcome, cut_at, cons-ne-nil, ends}
use mg_raffle.MgServer.Refine.Magic.{awaiting, take_magic_lem, length-written}
use mg_raffle.MgServer.Refine.Connection.{Expects}
use mg_raffle.MgServer.Refine.Loop.{weight, at, session, Reaches, Decodes, all_read, parts_round}
use mg_raffle.MgServer.Parser.{parse_connection}

weight_bound : (st : ParseType) → weight st ≤ 2
weight_bound m_magic = omega arith
weight_bound m_header = omega arith
weight_bound m_rpc_header = omega arith
weight_bound m_rpc_content = omega arith

module _ (mem : ℕ → List ℕ) (garbage : List ℕ) (unset : ℤ) (id : ℕ) (capacity remain : ℤ)
    (tail : List ℕ) (room : length garbage ≡ 8) where
  module _ (r : ℕ) (ih : Decodes mem garbage unset id capacity remain tail room r)
      (reqs : List MRequest) (c : MConnection) (magic : List ℕ) (four : length magic ≡ 4) (n : ℕ)
      (le : n ≤ 4) (clean : IsClean mem (parser_of garbage unset c.parser)) (skip : List ℕ) where
    abbrev magic_rest : ℕ → Run Session (List MRequest)
    magic_rest k =
        parse_round garbage unset id (parse_loop garbage unset id r) m_magic reqs (pos k) (
          session mem garbage unset id capacity remain tail room (awaiting c m_magic magic n)
            (length skip))

    magic_short :
        (m x : ℕ) (xs : List ℕ) (f : Frame) (ms : List Message) (ls h b : List ℕ)
        → skip ++ ((x ∷ xs) ++ tail) ≡ mem id
        → n ≡ length (x ∷ xs) + suc m
        → decode (x ∷ xs) (frame m_magic n ls h b) ≡ some (f, ms)
        → 0 < r
        → Reaches mem garbage unset id capacity remain tail room f ms reqs
            (magic_rest (length (x ∷ xs)))
    unfolding parse_round
    magic_short m x xs f ms ls h b whole en dec some_r =
        let e0 : length (x ∷ xs) + 0 ≡ length (x ∷ xs) = omega arith in
        let real : min_ℤ (pos n) (pos (length (x ∷ xs) + 0)) ≡ pos (length (x ∷ xs)) =
          rw e0 (min_right n (length (x ∷ xs)) (omega arith)) in
        let left : n - length (x ∷ xs) ≡ suc m = omega arith in
        let o = outcome (sym (decode_short x xs m_magic m ls h b) ∙ rw en at dec) in
        let er : r ≡ suc (r - 1) = omega arith in
        rw
          (
            ← e0,
            take_magic_lem mem id capacity remain c skip (x ∷ xs) tail magic n whole four le
                (omega arith) 0 real,
            left,
            some_left m,
            er,
          )
          (all_read mem garbage unset id capacity remain tail room (r - 1) reqs _ _ f ms (o.1)
            (ap (at mem garbage unset id capacity remain tail room)
              (ends mem id capacity remain garbage tail room 0 skip (x ∷ xs) whole))
            (rw (o.0) (record {
              stage = refl;
              magic_room =
                  length-written mem id capacity remain c skip (x ∷ xs) tail magic n whole four le
                    (omega arith);
              magic_left = (refl, omega arith);
              reads = clean;
            })))

    magic_full :
        (ys zs : List ℕ) (f : Frame) (ms : List Message) (ls h b : List ℕ)
        → skip ++ ((ys ++ zs) ++ tail) ≡ mem id
        → ys ++ zs ≢ []
        → length ys ≡ n
        → decode (ys ++ zs) (frame m_magic (length ys) ls h b) ≡ some (f, ms)
        → 3 * length zs < r
        → Reaches mem garbage unset id capacity remain tail room f ms reqs
            (magic_rest (length ys + length zs))
    unfolding parse_round
    magic_full ys zs f ms ls h b whole ne ly dec fuel =
        let real : min_ℤ (pos n) (pos (length ys + length zs)) ≡ pos (length ys) =
          rw ly (min_left n (n + length zs) (omega arith)) in
        let left : n - length ys ≡ 0 = omega arith in
        let e : skip ++ (ys ++ (zs ++ tail)) ≡ mem id =
          ap (λ (x : List ℕ). skip ++ x) (sym (append_assoc ys zs tail)) ∙ whole in
        rw
          (
            take_magic_lem mem id capacity remain c skip ys (zs ++ tail) magic n e four le
                (omega arith) (length zs) real,
            left,
            ← length-append skip ys,
          )
          (ih reqs (skip ++ ys) zs (frame m_header 8 [] [] []) f ms _
            (append_assoc skip ys (zs ++ tail) ∙ e)
            (record {
              stage = refl;
              magic_room =
                  length-written mem id capacity remain c skip ys (zs ++ tail) magic n e four le
                    (omega arith);
              magic_left = refl;
              reads = (clean.0, refl, omega arith, refl, clean.1);
            })
            (sym (decode_whole_magic ys zs ls h b ne) ∙ dec) (omega arith))

    magic_within :
        (cs : List ℕ) (f : Frame) (ms : List Message) (ls h b : List ℕ)
        → n ≤ length cs
        → skip ++ (cs ++ tail) ≡ mem id
        → cs ≢ []
        → decode cs (frame m_magic n ls h b) ≡ some (f, ms)
        → 3 * length cs < r
        → Reaches mem garbage unset id capacity remain tail room f ms reqs (magic_rest (length cs))
    magic_within cs f ms ls h b few whole ne dec fuel =
        let (ys, zs, cut, ly) = cut_at n cs few in
        let lz : length cs ≡ length ys + length zs = ap length cut ∙ length-append ys zs in
        rw lz (
          magic_full ys zs f ms ls h b (rw (← cut) whole) (rw cut at ne) ly (rw (← cut, ly) dec)
            (omega arith))

    magic_round :
        (cs : List ℕ) (f : Frame) (ms : List Message) (ls h b : List ℕ)
        → skip ++ (cs ++ tail) ≡ mem id
        → cs ≢ []
        → decode cs (frame m_magic n ls h b) ≡ some (f, ms)
        → 3 * length cs < r
        → Reaches mem garbage unset id capacity remain tail room f ms reqs (magic_rest (length cs))
    magic_round [] f ms ls h b whole ne dec fuel = absurd (ne refl)
    magic_round (x ∷ xs) f ms ls h b whole ne dec fuel = elim (cases_le n (length (x ∷ xs))) [
      | inr more ↦
          magic_short (n - length (x ∷ xs) - 1) x xs f ms ls h b whole (omega arith) dec
            (omega arith)
      | inl few ↦ magic_within (x ∷ xs) f ms ls h b few whole ne dec fuel
    ]

  module _ (r : ℕ) (ih : Decodes mem garbage unset id capacity remain tail room r)
      (reqs : List MRequest) (skip : List ℕ) (x : ℕ) (xs : List ℕ) (c : MConnection) (f : Frame)
      (ms : List Message) (whole : skip ++ ((x ∷ xs) ++ tail) ≡ mem id) where
    abbrev round_at : ParseType → MConnection → Run Session (List MRequest)
    round_at st c' =
        parse_round garbage unset id (parse_loop garbage unset id r) st reqs (pos (length (x ∷ xs)))
          (session mem garbage unset id capacity remain tail room c' (length skip))

    round_decodes :
        (st : ParseType) (n : ℕ) (ls h b : List ℕ)
        → Expects mem garbage unset (frame st n ls h b) c
        → decode (x ∷ xs) (frame st n ls h b) ≡ some (f, ms)
        → 3 * length (x ∷ xs) + weight st < suc r
        → Reaches mem garbage unset id capacity remain tail room f ms reqs (round_at st c)
    unfolding parse_round split_default
    round_decodes m_magic n ls h b ex dec fuel =
        let ec : c ≡ awaiting c m_magic c.magic n =
          λ i. record c { magic_remain = ex.magic_left.0 i; parse_type = ex.stage i } in
        rw ec (
          magic_round r ih reqs c c.magic ex.magic_room n (ex.magic_left.1) ex.reads skip (x ∷ xs) f
            ms ls h b whole cons-ne-nil dec (omega arith))
    round_decodes m_header n ls h b ex dec fuel = rw ex.stage (
        parts_round mem garbage unset id capacity remain tail room r ih reqs c ex.magic_room
          ex.magic_left skip (x ∷ xs) whole m_header n ls h b f ms (λ e. cc) ex.reads dec
          cons-ne-nil fuel)
    round_decodes m_rpc_header n ls h b ex dec fuel = rw ex.stage (
        parts_round mem garbage unset id capacity remain tail room r ih reqs c ex.magic_room
          ex.magic_left skip (x ∷ xs) whole m_rpc_header n ls h b f ms (λ e. cc) ex.reads dec
          cons-ne-nil fuel)
    round_decodes m_rpc_content n ls h b ex dec fuel = rw ex.stage (
        parts_round mem garbage unset id capacity remain tail room r ih reqs c ex.magic_room
          ex.magic_left skip (x ∷ xs) whole m_rpc_content n ls h b f ms (λ e. cc) ex.reads dec
          cons-ne-nil fuel)

    next_round :
        (g : Frame)
        → Expects mem garbage unset g c
        → decode (x ∷ xs) g ≡ some (f, ms)
        → 3 * length (x ∷ xs) + weight g.stage < suc r
        → Reaches mem garbage unset id capacity remain tail room f ms reqs (
            parse_loop garbage unset id
              (suc r)
              reqs
              (pos (length (x ∷ xs)))
              (session mem garbage unset id capacity remain tail room c (length skip)))
    unfolding parse_loop
    next_round g ex dec fuel =
        let t : ltb_ℤ (pos 0) (pos (length (x ∷ xs))) ≡ true = some_left (length xs) in
        rw t (
          subst
            (λ (st : ParseType).
              Reaches mem garbage unset id capacity remain tail room f ms reqs (round_at st c))
            (sym ex.stage) (round_decodes g.stage g.left g.lengths g.head g.body ex dec fuel))

  -- Any state of the connection, any requests before, and any bytes.
  parse_loop-Decodes : (rounds : ℕ) → Decodes mem garbage unset id capacity remain tail room rounds
  parse_loop-Decodes zero reqs skip cs g f ms c whole ex dec fuel = absurd (omega arith)
  parse_loop-Decodes (suc r) reqs skip [] g f ms c whole ex dec fuel =
      let o = outcome (sym (decode_nil g) ∙ dec) in
      all_read mem garbage unset id capacity remain tail room r reqs c _ f ms (o.1)
        (ap (at mem garbage unset id capacity remain tail room)
          (omega (arith, ends mem id capacity remain garbage tail room 0 skip [] whole)))
        (rw (o.0) ex)
  parse_loop-Decodes (suc r) reqs skip (x ∷ xs) g f ms c whole ex dec fuel =
      next_round r (parse_loop-Decodes r) reqs skip x xs c f ms whole g ex dec fuel

  -- The bytes `cs` that `recv` has put at any place of a buffer, in any state of the connection:
  -- with three rounds for each byte and three more, `parse_connection` returns the messages that
  -- `decode` finds in them, and leaves the connection where `decode` leaves its frame.
  pub parse_connection-Parses :
      (rounds : ℕ) (skip cs : List ℕ) (g f : Frame) (ms : List Message) (c : MConnection)
      → skip ++ (cs ++ tail) ≡ mem id
      → Expects mem garbage unset g c
      → decode cs g ≡ some (f, ms)
      → 3 * length cs + 2 < rounds
      → Reaches mem garbage unset id capacity remain tail room f ms [] (
          parse_connection garbage unset id rounds
            (pos (length cs))
            (session mem garbage unset id capacity remain tail room c (length skip)))
  unfolding parse_connection
  parse_connection-Parses rounds skip cs g f ms c whole ex dec enough =
      parse_loop-Decodes rounds [] skip cs g f ms c whole ex dec
        (omega (arith, weight_bound g.stage))
