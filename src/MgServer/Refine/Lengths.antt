-- ===== src/MgServer/Refine/Lengths.antt =====
-- The loop of `SplitMessage` from the lengths before a header on, against `decode`.
use mathlib.Core.List.{append_assoc}
use mg_raffle.Base.{
  ℕ, suc, ◌+◌, ◌-◌, ◌≡◌, ◌≢◌, ◌≤◌, ◌<◌, refl, sym, ◌∙◌, ap, some, true, List, [], ◌∷◌, ◌++◌, length,
  arith, take, length-append, inl, inr, cases_le,
}
use mg_raffle.Base.Int.{ℤ, pos, ltb_ℤ}
use mg_raffle.Rpc.Parser.Slices.{length-overwrite, take-append_length}
use mg_raffle.MgServer.Buffers.{MBuffer}
use mg_raffle.MgServer.Parser.{m_header, MRequest, Split, set_lengths, split_loop}
use mg_raffle.MgServer.Frame.{Message, Frame, frame, decode}
use mg_raffle.MgServer.Frame.Parts.{decode_short, header_sized}
use mg_raffle.MgServer.Refine.Held.{buffer_at, HoldsNothing, Splits}
use mg_raffle.MgServer.Refine.Rounds.{parser_with, some_left, header_short, header_full}
use mg_raffle.MgServer.Refine.Headers.{rpc_header_Splits}
use mg_raffle.MgServer.Refine.Splits.{cut_at, some_bytes, cons-ne-nil, outcome, ends, none_left}

length-positive : (ys : List ℕ) → ys ≢ [] → 0 < length ys
length-positive [] ne = absurd (ne refl)
length-positive (y ∷ ys) ne = omega arith

module _ (mem : ℕ → List ℕ) (id : ℕ) (capacity remain : ℤ) (garbage tail : List ℕ)
    (room : length garbage ≡ 8) (from : ℕ) where
  abbrev at : ℕ → MBuffer
  at = buffer_at mem id capacity remain

  module _ (rr : ℤ) (ls h b : List ℕ) (q : MRequest) (front : take (length ls) q.length_header ≡ ls)
      (nothing : HoldsNothing mem q) where
    abbrev reading_lengths : ℕ → List ℕ → Split
    reading_lengths n skip = record {
      parse_type = m_header;
      parser = parser_with (pos n) rr q;
      buffer = at (length skip);
    }

    lengths_go_on :
        (r m : ℕ) (skip : List ℕ) (x : ℕ) (xs : List ℕ) {f : Frame} {ms : List Message}
        → length ls + (length (x ∷ xs) + suc m) ≡ 8
        → skip ++ ((x ∷ xs) ++ tail) ≡ mem id
        → decode (x ∷ xs) (frame m_header (length (x ∷ xs) + suc m) ls h b) ≡ some (f, ms)
        → Splits mem id capacity remain tail from f ms (
            split_loop garbage id
              (suc (suc r))
              (pos (length (x ∷ xs)))
              (reading_lengths (length (x ∷ xs) + suc m) skip))
    unfolding split_loop
    lengths_go_on r m skip x xs e8 e dec =
        let t : ltb_ℤ (pos 0) (pos (length (x ∷ xs))) ≡ true = some_left (length xs) in
        let o = outcome (sym (decode_short x xs m_header m ls h b) ∙ dec) in
        rw
          (
            t,
            header_short mem id capacity remain garbage rr q skip (x ∷ xs) tail ls e front
                (nothing.0) m (omega arith),
            o.0,
            o.1,
          )
          (
            refl,
            refl,
            ap at (ends mem id capacity remain garbage tail room from skip (x ∷ xs) e),
            (
              refl,
              (
                refl,
                omega (arith, length-append ls (x ∷ xs)),
                omega arith,
                take-append_length (ls ++ x ∷ xs) _,
                (
                  length-overwrite q.length_header ls (x ∷ xs) (omega (arith, nothing.0))
                      ∙ nothing.0,
                  nothing.1,
                  nothing.2,
                ),
              ),
            ),
          )

    lengths_end :
        (r : ℕ) (skip ys zs : List ℕ) {f : Frame} {ms : List Message}
        → from ≤ suc (length skip)
        → length ls + length ys ≡ 8
        → skip ++ ((ys ++ zs) ++ tail) ≡ mem id
        → ys ++ zs ≢ []
        → ys ≢ []
        → decode (ys ++ zs) (frame m_header (length ys) ls h b) ≡ some (f, ms)
        → Splits mem id capacity remain tail from f ms (
            split_loop garbage id
              (suc (suc (suc (suc r))))
              (pos (length ys + length zs))
              (reading_lengths (length ys) skip))
    lengths_end r skip ys zs later e8 e ne some_ys dec =
        let t : ltb_ℤ (pos 0) (pos (length ys + length zs)) ≡ true =
          rw length-append at (some_bytes (ys ++ zs) ne) in
        let (n, size, rest) = header_sized ys zs ls h b some_ys dec in
        let e' : skip ++ (ys ++ (zs ++ tail)) ≡ mem id =
          ap (λ (x : List ℕ). skip ++ x) (sym (append_assoc ys zs tail)) ∙ e in
        unfold split_loop in
        rw
          (
            t,
            header_full mem id capacity remain garbage rr q skip ys (zs ++ tail) ls e' front
                (nothing.0) (length zs) e8,
            size,
            ← length-append skip ys,
          )
          (rpc_header_Splits mem id capacity remain garbage tail room from (pos 0) (ls ++ ys) [] []
            (set_lengths (ls ++ ys) q) (omega (arith, length-append ls ys)) refl (nothing.1)
            (nothing.2) r n (skip ++ ys) zs
            (omega (arith, length-append skip ys, length-positive ys some_ys))
            (append_assoc skip ys (zs ++ tail) ∙ e') rest)

    lengths_within :
        (r n : ℕ) (skip cs : List ℕ) {f : Frame} {ms : List Message}
        → from ≤ suc (length skip)
        → length ls + n ≡ 8
        → 0 < n
        → n ≤ length cs
        → cs ≢ []
        → skip ++ (cs ++ tail) ≡ mem id
        → decode cs (frame m_header n ls h b) ≡ some (f, ms)
        → Splits mem id capacity remain tail from f ms (
            split_loop garbage id
              (suc (suc (suc (suc r))))
              (pos (length cs))
              (reading_lengths n skip))
    lengths_within r n skip cs later e8 some_n le ne e dec =
        let (ys, zs, cut, ly) = cut_at n cs le in
        rw (cut, ← ly, length-append)
          (lengths_end r skip ys zs later (omega arith) (rw (← cut) e) (rw cut at ne)
            (λ z. omega (arith, ap length z)) (rw (← cut, ly) dec))

    pub lengths_Splits :
        (r n : ℕ) (skip cs : List ℕ) {f : Frame} {ms : List Message}
        → from ≤ suc (length skip)
        → length ls + n ≡ 8
        → 0 < n
        → skip ++ (cs ++ tail) ≡ mem id
        → decode cs (frame m_header n ls h b) ≡ some (f, ms)
        → Splits mem id capacity remain tail from f ms (
            split_loop garbage id
              (suc (suc (suc (suc r))))
              (pos (length cs))
              (reading_lengths n skip))
    lengths_Splits r n skip [] later e8 some_n e dec =
        none_left mem id capacity remain garbage tail room from (suc (suc (suc r))) skip m_header
          (parser_with (pos n) rr q) (frame m_header n ls h b) e
          (refl, (refl, e8, some_n, front, nothing)) dec
    lengths_Splits r n skip (x ∷ xs) later e8 some_n e dec = elim (cases_le n (length (x ∷ xs))) [
      | inr more ↦
          let k : length (x ∷ xs) + suc (n - length (x ∷ xs) - 1) ≡ n = omega arith in
          rw (← k) (
            lengths_go_on (suc (suc r)) (n - length (x ∷ xs) - 1) skip x xs (omega arith) e
              (rw k dec))
      | inl le ↦ lengths_within r n skip (x ∷ xs) later e8 some_n le cons-ne-nil e dec
    ]
