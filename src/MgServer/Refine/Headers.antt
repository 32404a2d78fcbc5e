-- ===== src/MgServer/Refine/Headers.antt =====
-- The loop of `SplitMessage` from a header on, against `decode`.
use mathlib.Core.List.{append_assoc}
use mg_raffle.Base.{
  ℕ, suc, ◌+◌, ◌-◌, ◌≡◌, ◌≢◌, ◌≤◌, refl, sym, ◌∙◌, ap, some, true, List, [], ◌∷◌, ◌++◌, length,
  arith, length-append, inl, inr, cases_le,
}
use mg_raffle.Base.Int.{ℤ, pos, ltb_ℤ}
use mg_raffle.Rpc.Parser.Bytes.{int32_at}
use mg_raffle.MgServer.Buffers.{MBuffer, new_guard}
use mg_raffle.MgServer.Parser.{m_rpc_header, MRequest, Split, add_header, split_loop}
use mg_raffle.MgServer.Frame.{Message, Frame, frame, decode}
use mg_raffle.MgServer.Frame.Parts.{decode_short, rpc_header_sized}
use mg_raffle.MgServer.Refine.Held.{buffer_at, bytes_of, bytes_of-append, new_guard_bytes, Splits}
use mg_raffle.MgServer.Refine.Rounds.{parser_with, some_left, rpc_header_short, rpc_header_full}
use mg_raffle.MgServer.Refine.Splits.{
  cut_at, some_bytes, cons-ne-nil, outcome, ends, none_left, content_Splits,
}

module _ (mem : ℕ → List ℕ) (id : ℕ) (capacity remain : ℤ) (garbage tail : List ℕ)
    (room : length garbage ≡ 8) (from : ℕ) where
  abbrev at : ℕ → MBuffer
  at = buffer_at mem id capacity remain

  module _ (hr : ℤ) (ls h b : List ℕ) (q : MRequest) (lens : length ls ≡ 8)
      (same : q.length_header ≡ ls) (head : bytes_of mem q.rpc_header_buf ≡ h)
      (body : bytes_of mem q.rpc_body_buf ≡ []) where
    abbrev reading_header : ℕ → List ℕ → Split
    reading_header n skip = record {
      parse_type = m_rpc_header;
      parser = parser_with hr (pos n) q;
      buffer = at (length skip);
    }

    header_of :
        (skip xs rest : List ℕ)
        → skip ++ (xs ++ rest) ≡ mem id
        → bytes_of mem
            (add_header (new_guard id (at (length skip)) (pos (length xs))) q).rpc_header_buf
          ≡ h ++ xs
    header_of skip xs rest e =
        bytes_of-append mem _ q.rpc_header_buf
        ∙ rw (head, new_guard_bytes mem id capacity remain skip xs rest e) refl

    rpc_header_goes_on :
        (r m : ℕ) (skip : List ℕ) (x : ℕ) (xs : List ℕ) {f : Frame} {ms : List Message}
        → skip ++ ((x ∷ xs) ++ tail) ≡ mem id
        → decode (x ∷ xs) (frame m_rpc_header (length (x ∷ xs) + suc m) ls h b) ≡ some (f, ms)
        → Splits mem id capacity remain tail from f ms (
            split_loop garbage id
              (suc (suc r))
              (pos (length (x ∷ xs)))
              (reading_header (length (x ∷ xs) + suc m) skip))
    unfolding split_loop
    rpc_header_goes_on r m skip x xs e dec =
        let t : ltb_ℤ (pos 0) (pos (length (x ∷ xs))) ≡ true = some_left (length xs) in
        let o = outcome (sym (decode_short x xs m_rpc_header m ls h b) ∙ dec) in
        rw
          (
            t,
            rpc_header_short mem id capacity remain garbage hr q (length skip) (length (x ∷ xs)) m,
            o.0,
            o.1,
          )
          (
            refl,
            refl,
            ap at (ends mem id capacity remain garbage tail room from skip (x ∷ xs) e),
            (refl, (refl, same, lens, header_of skip (x ∷ xs) tail e, body)),
          )

    rpc_header_ends :
        (r : ℕ) (skip ys zs : List ℕ) {f : Frame} {ms : List Message}
        → from ≤ length skip
        → skip ++ ((ys ++ zs) ++ tail) ≡ mem id
        → ys ++ zs ≢ []
        → decode (ys ++ zs) (frame m_rpc_header (length ys) ls h b) ≡ some (f, ms)
        → Splits mem id capacity remain tail from f ms (
            split_loop garbage id
              (suc (suc (suc r)))
              (pos (length ys + length zs))
              (reading_header (length ys) skip))
    rpc_header_ends r skip ys zs later e ne dec =
        let t : ltb_ℤ (pos 0) (pos (length ys + length zs)) ≡ true =
          rw length-append at (some_bytes (ys ++ zs) ne) in
        let (n, sized, rest) = rpc_header_sized ys zs ls h b ne dec in
        let e' : skip ++ (ys ++ (zs ++ tail)) ≡ mem id =
          ap (λ (x : List ℕ). skip ++ x) (sym (append_assoc ys zs tail)) ∙ e in
        let size : int32_at q.length_header 4 ≡ pos n = rw same sized in
        unfold split_loop in
        rw
          (
            t,
            rpc_header_full mem id capacity remain garbage hr q (length skip) (length ys)
                (length zs),
            size,
            ← length-append skip ys,
          )
          (content_Splits mem id capacity remain garbage tail room from hr ls (h ++ ys) []
            (add_header (new_guard id (at (length skip)) (pos (length ys))) q) lens same
            (header_of skip ys (zs ++ tail) e') body r n (skip ++ ys) zs
            (omega (arith, length-append skip ys)) (append_assoc skip ys (zs ++ tail) ∙ e') rest)

    rpc_header_within :
        (r n : ℕ) (skip cs : List ℕ) {f : Frame} {ms : List Message}
        → from ≤ length skip
        → n ≤ length cs
        → cs ≢ []
        → skip ++ (cs ++ tail) ≡ mem id
        → decode cs (frame m_rpc_header n ls h b) ≡ some (f, ms)
        → Splits mem id capacity remain tail from f ms
            (split_loop garbage id (suc (suc (suc r))) (pos (length cs)) (reading_header n skip))
    rpc_header_within r n skip cs later le ne e dec =
        let (ys, zs, cut, ly) = cut_at n cs le in
        rw (cut, ← ly, length-append)
          (rpc_header_ends r skip ys zs later (rw (← cut) e) (rw cut at ne) (rw (← cut, ly) dec))

    pub rpc_header_Splits :
        (r n : ℕ) (skip cs : List ℕ) {f : Frame} {ms : List Message}
        → from ≤ length skip
        → skip ++ (cs ++ tail) ≡ mem id
        → decode cs (frame m_rpc_header n ls h b) ≡ some (f, ms)
        → Splits mem id capacity remain tail from f ms
            (split_loop garbage id (suc (suc (suc r))) (pos (length cs)) (reading_header n skip))
    rpc_header_Splits r n skip [] later e dec =
        none_left mem id capacity remain garbage tail room from (suc (suc r)) skip m_rpc_header
          (parser_with hr (pos n) q) (frame m_rpc_header n ls h b) e
          (refl, (refl, same, lens, head, body)) dec
    rpc_header_Splits r n skip (x ∷ xs) later e dec = elim (cases_le n (length (x ∷ xs))) [
      | inr more ↦
          let k : length (x ∷ xs) + suc (n - length (x ∷ xs) - 1) ≡ n = omega arith in
          rw (← k) (rpc_header_goes_on (suc r) (n - length (x ∷ xs) - 1) skip x xs e (rw k dec))
      | inl le ↦ rpc_header_within r n skip (x ∷ xs) later le cons-ne-nil e dec
    ]
