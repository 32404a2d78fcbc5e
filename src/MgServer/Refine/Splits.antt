-- ===== src/MgServer/Refine/Splits.antt =====
-- The loop of `SplitMessage` from each part of a message on, against `decode`.
use mathlib.Core.List.{append_assoc}
use mg_raffle.Base.{
  ℕ, suc, ◌+◌, ◌-◌, ◌≡◌, ◌≢◌, ◌≤◌, refl, sym, ◌∙◌, ap, some, true, List, [], ◌∷◌, ◌++◌, length,
  take, drop, arith, length-append, inl, inr, cases_le, take-append-drop, length-take,
}
use mg_raffle.Base.Int.{ℤ, pos, ltb_ℤ}
use mg_raffle.MgServer.Buffers.{MBuffer, new_guard}
use mg_raffle.MgServer.Parser.{
  ParseType, m_rpc_content, MRequest, MParser, Split, add_body, split_loop, reset_parser,
}
use mg_raffle.MgServer.Frame.{Message, Frame, frame, start, Step, decode}
use mg_raffle.MgServer.Frame.Parts.{decode_short, decode_whole_content, more_messages-eq-some}
use mg_raffle.MgServer.Refine.Held.{
  buffer_at, bytes_of, bytes_of-append, new_guard_bytes, Holds, Splits,
}
use mg_raffle.MgServer.Refine.Rounds.{parser_with, some_left, content_short, content_full}

pub cut_at :
    (n : ℕ) (cs : List ℕ)
    → n ≤ length cs
    → (ys : List ℕ) × (zs : List ℕ) × (cs ≡ ys ++ zs) × (length ys ≡ n)
cut_at n cs le =
    (take n cs, drop n cs, sym (take-append-drop n cs), omega (arith, length-take n cs))

pub some_bytes : (cs : List ℕ) → cs ≢ [] → ltb_ℤ (pos 0) (pos (length cs)) ≡ true
some_bytes [] ne = absurd (ne refl)
some_bytes (c ∷ cs) ne = some_left (length cs)

pub cons-ne-nil : {x : ℕ} {xs : List ℕ} → x ∷ xs ≢ []
cons-ne-nil e = cc

pub outcome :
    {f g : Frame} {ms ns : List Message}
    → ◌≡◌ {A = Step} (some (f, ms)) (some (g, ns))
    → (g ≡ f) × (ns ≡ ms)
outcome e = (cc, cc)

module _ (mem : ℕ → List ℕ) (id : ℕ) (capacity remain : ℤ) (garbage tail : List ℕ)
    (room : length garbage ≡ 8) (from : ℕ) where
  abbrev at : ℕ → MBuffer
  at = buffer_at mem id capacity remain

  pub ends :
      (skip cs : List ℕ)
      → skip ++ (cs ++ tail) ≡ mem id
      → length skip + length cs ≡ length (mem id) - length tail
  ends skip cs e =
      omega (arith, ap length e, length-append skip (cs ++ tail), length-append cs tail)

  -- All bytes are read.
  pub none_left :
      (r : ℕ) (skip : List ℕ) (st : ParseType) (p : MParser) (g : Frame) {f : Frame}
      {ms : List Message}
      → skip ++ ([] ++ tail) ≡ mem id
      → Holds mem g st p
      → decode [] g ≡ some (f, ms)
      → Splits mem id capacity remain tail from f ms (
          split_loop garbage id
            (suc r)
            (pos 0)
            (record { parse_type = st; parser = p; buffer = at (length skip) }))
  unfolding decode split_loop
  none_left r skip st p g e hold dec =
      let o = outcome dec in
      let k : length skip ≡ length (mem id) - length tail = omega (arith, ends skip [] e) in
      rw (o.0, o.1) (refl, refl, ap at k, hold)

  module _ (hr : ℤ) (ls h b : List ℕ) (q : MRequest) (lens : length ls ≡ 8)
      (same : q.length_header ≡ ls) (head : bytes_of mem q.rpc_header_buf ≡ h)
      (body : bytes_of mem q.rpc_body_buf ≡ b) where
    abbrev reading : ℕ → List ℕ → Split
    reading n skip = record {
      parse_type = m_rpc_content;
      parser = parser_with hr (pos n) q;
      buffer = at (length skip);
    }

    body_of :
        (skip xs rest : List ℕ)
        → skip ++ (xs ++ rest) ≡ mem id
        → bytes_of mem (add_body (new_guard id (at (length skip)) (pos (length xs))) q).rpc_body_buf
          ≡ b ++ xs
    body_of skip xs rest e =
        bytes_of-append mem _ q.rpc_body_buf
        ∙ rw (body, new_guard_bytes mem id capacity remain skip xs rest e) refl

    content_goes_on :
        (r m : ℕ) (skip : List ℕ) (x : ℕ) (xs : List ℕ) {f : Frame} {ms : List Message}
        → skip ++ ((x ∷ xs) ++ tail) ≡ mem id
        → decode (x ∷ xs) (frame m_rpc_content (length (x ∷ xs) + suc m) ls h b) ≡ some (f, ms)
        → Splits mem id capacity remain tail from f ms (
            split_loop garbage id
              (suc (suc r))
              (pos (length (x ∷ xs)))
              (reading (length (x ∷ xs) + suc m) skip))
    unfolding split_loop
    content_goes_on r m skip x xs e dec =
        let t : ltb_ℤ (pos 0) (pos (length (x ∷ xs))) ≡ true = some_left (length xs) in
        let o = outcome (sym (decode_short x xs m_rpc_content m ls h b) ∙ dec) in
        rw
          (
            t,
            content_short mem id capacity remain garbage hr q (length skip) (length (x ∷ xs)) m,
            o.0,
            o.1,
          )
          (
            refl,
            refl,
            ap at (ends skip (x ∷ xs) e),
            (refl, (refl, same, lens, head, body_of skip (x ∷ xs) tail e)),
          )

    content_ends :
        (r : ℕ) (skip ys zs : List ℕ) {f : Frame} {ms : List Message}
        → from ≤ length skip
        → skip ++ ((ys ++ zs) ++ tail) ≡ mem id
        → ys ++ zs ≢ []
        → decode (ys ++ zs) (frame m_rpc_content (length ys) ls h b) ≡ some (f, ms)
        → Splits mem id capacity remain tail from f ms (
            split_loop garbage id
              (suc (suc r))
              (pos (length ys + length zs))
              (reading (length ys) skip))
    unfolding split_loop reset_parser
    content_ends r skip ys zs later e ne dec =
        let t : ltb_ℤ (pos 0) (pos (length ys + length zs)) ≡ true =
          rw length-append at (some_bytes (ys ++ zs) ne) in
        let (ns, em, rest) =
          more_messages-eq-some (record { head = h; body = b ++ ys } ∷ []) (decode zs (start 0))
            (sym (decode_whole_content ys zs ls h b ne) ∙ dec) in
        let e' : skip ++ (ys ++ (zs ++ tail)) ≡ mem id =
          ap (λ (x : List ℕ). skip ++ x) (sym (append_assoc ys zs tail)) ∙ e in
        rw
          (
            t,
            content_full mem id capacity remain garbage hr q (length skip) (length ys) (length zs),
            em,
          )
          (
            skip ++ ys,
            zs,
            append_assoc skip ys (zs ++ tail) ∙ e',
            omega (arith, length-append skip ys),
            refl,
            ap at (sym (length-append skip ys)),
            ns,
            rw (head, body_of skip ys (zs ++ tail) e') refl,
            rest,
            (refl, (refl, (refl, (room, refl, refl)))),
          )

    content_within :
        (r n : ℕ) (skip cs : List ℕ) {f : Frame} {ms : List Message}
        → from ≤ length skip
        → n ≤ length cs
        → cs ≢ []
        → skip ++ (cs ++ tail) ≡ mem id
        → decode cs (frame m_rpc_content n ls h b) ≡ some (f, ms)
        → Splits mem id capacity remain tail from f ms
            (split_loop garbage id (suc (suc r)) (pos (length cs)) (reading n skip))
    content_within r n skip cs later le ne e dec =
        let (ys, zs, cut, ly) = cut_at n cs le in
        rw (cut, ← ly, length-append)
          (content_ends r skip ys zs later (rw (← cut) e) (rw cut at ne) (rw (← cut, ly) dec))

    pub content_Splits :
        (r n : ℕ) (skip cs : List ℕ) {f : Frame} {ms : List Message}
        → from ≤ length skip
        → skip ++ (cs ++ tail) ≡ mem id
        → decode cs (frame m_rpc_content n ls h b) ≡ some (f, ms)
        → Splits mem id capacity remain tail from f ms
            (split_loop garbage id (suc (suc r)) (pos (length cs)) (reading n skip))
    content_Splits r n skip [] later e dec =
        none_left (suc r) skip m_rpc_content (parser_with hr (pos n) q)
          (frame m_rpc_content n ls h b) e (refl, (refl, same, lens, head, body)) dec
    content_Splits r n skip (x ∷ xs) later e dec = elim (cases_le n (length (x ∷ xs))) [
      | inr more ↦
          let k : length (x ∷ xs) + suc (n - length (x ∷ xs) - 1) ≡ n = omega arith in
          rw (← k) (content_goes_on r (n - length (x ∷ xs) - 1) skip x xs e (rw k dec))
      | inl le ↦ content_within r n skip (x ∷ xs) later le cons-ne-nil e dec
    ]
