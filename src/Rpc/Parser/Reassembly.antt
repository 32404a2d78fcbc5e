-- ===== src/Rpc/Parser/Reassembly.antt =====
-- A message is reassembled from its pieces, whatever their sizes.
use mathlib.Core.List.{append_assoc, append-nil}
use mg_raffle.Base.{
  ℕ, ◌+◌, ◌-◌, ◌≡◌, ◌≢◌, ◌≤◌, ◌<◌, refl, sym, true, List, [], ◌∷◌, ◌++◌, arith, length,
  length-append, ltb, take, drop, ap, ◌∙◌, ◌==◌, ◌⊎◌, inl, inr, Bool-cases,
}
use mg_raffle.Base.Int.{pos, ◌-ℤ◌, min_ℤ}
use mg_raffle.Base.Run.{Run, done}
use mg_raffle.Rpc.Parser.{Request, Parser, Parsed, parsed, parser_msg}
use mg_raffle.Rpc.Parser.Slices.{
  sub_pos, min_right, take-append_length, drop-append_length, nil_of_length, cut_longer,
  length-overwrite,
}
use mg_raffle.Rpc.Parser.Chunks.{at_header, at_message, IsHeader, parse_header_lem, header_done}
use mg_raffle.Rpc.Parser.Progress.{held, Progress, in_header, in_message, Takes, message-Takes}

module _ (hdr body : List ℕ) (ok : IsHeader hdr (length body)) where
  -- A chunk that does not complete the header.
  header_more :
      (skip chunk tail got target : List ℕ) (r : Request) (l : ℕ) (later : List ℕ)
      → tail ≡ []
      → length got + length chunk < 12
      → length target ≡ 12
      → take (length got) target ≡ got
      → held r ≡ []
      → Takes hdr body ok skip chunk tail got (l ∷ later) (
          parser_msg
            (skip ++ chunk ++ tail)
            (pos (length skip))
            (pos (length chunk + length tail))
            (at_header target r (length got)))
  unfolding parser_msg
  header_more skip chunk tail got target r l later none_left few room front none_held =
      let m : length chunk + length tail ≡ length chunk = omega (arith, ap length none_left) in
      let real : min_ℤ (pos 12 -ℤ pos (length got)) (pos (length chunk)) ≡ pos (length chunk) =
        rw (sub_pos 12 (length got) (omega arith)) (min_right _ (length chunk) (omega arith)) in
      let short : ltb (length got + length chunk) 12 ≡ true = ground arith in
      let left : length chunk - length chunk ≡ 0 = omega arith in
      rw
        (
          m,
          parse_header_lem skip chunk tail r target got (length chunk) front (omega arith)
              (omega arith) real (omega arith),
          short,
          left,
        )
        (
          refl,
          in_header _ r (ap (at_header _ r) (sym (length-append got chunk)))
              (omega (arith, length-append got chunk))
              (length-overwrite target got chunk (omega arith) ∙ room)
              (take-append_length (got ++ chunk) _) none_held,
        )

  -- The same outcome, seen from before the bytes `h` that completed the header.
  Takes-shift :
      (skip h c tail got later : List ℕ) (run : Run Parser Parsed)
      → got ++ h ≡ hdr
      → Takes hdr body ok (skip ++ h) c tail (hdr ++ []) later run
      → Takes hdr body ok skip (h ++ c) tail got later run
  Takes-shift skip h c tail got [] (done out q) e t =
      let n : length (skip ++ h) + length c ≡ length skip + length (h ++ c) =
        omega (arith, length-append skip h, length-append h c) in
      rw (← n) t
  Takes-shift skip h c tail got (l ∷ later) (done out q) e t =
      let n : length (skip ++ h) + length c ≡ length skip + length (h ++ c) =
        omega (arith, length-append skip h, length-append h c) in
      let all : got ++ (h ++ c) ≡ hdr ++ [] ++ c =
        sym (append_assoc got h c) ∙ ap (λ (x : List ℕ). x ++ c) (e ∙ sym (append-nil hdr)) in
      rw (← n, all) t
  Takes-shift skip h c tail got _ _ e t = t

  module _ (skip h c tail got target : List ℕ) (r : Request) where
    header_exact :
        (later : List ℕ)
        → body ≢ []
        → held r ≡ []
        → got ++ h ≡ hdr
        → c ++ later ≡ body
        → length c + length tail ≡ 0
        → Takes hdr body ok skip
            (h ++ c)
            tail
            got
            later
            (done (parsed (pos 0) (pos (length skip + length h)) (pos 0)) (at_message hdr r 0))
    header_exact [] some_body none_held e eb z =
        absurd (some_body (sym eb ∙ append-nil c ∙ nil_of_length c (omega arith)))
    header_exact (l ∷ later) some_body none_held e eb z =
        let n : length (h ++ c) ≡ length h = omega (arith, length-append h c) in
        let all : got ++ (h ++ c) ≡ hdr ++ [] =
          sym (append_assoc got h c)
          ∙ rw (nil_of_length c (omega arith)) (ap (λ (x : List ℕ). x ++ []) e) in
        (rw n, in_message [] r refl all none_held)

    -- A chunk that completes the header, and goes on with `c`.
    header-Takes :
        (later : List ℕ)
        → body ≢ []
        → (later ≡ []) ⊎ (tail ≡ [])
        → length got < 12
        → length target ≡ 12
        → take (length got) target ≡ got
        → held r ≡ []
        → got ++ h ≡ hdr
        → c ++ later ≡ body
        → Takes hdr body ok skip (h ++ c) tail got later (
            parser_msg
              (skip ++ (h ++ c) ++ tail)
              (pos (length skip))
              (pos (length (h ++ c) + length tail))
              (at_header target r (length got)))
    header-Takes later some_body side few room front none_held e eb =
        let n : length (h ++ c) + length tail ≡ length h + (length c + length tail) =
          omega (arith, length-append h c) in
        let b : skip ++ (h ++ c) ++ tail ≡ skip ++ h ++ (c ++ tail) =
          ap (λ (x : List ℕ). x ++ tail) (sym (append_assoc skip h c))
          ∙ append_assoc (skip ++ h) c tail in
        rw
          (
            n,
            b,
            header_done hdr (length body) ok r skip h (c ++ tail) target got
                (length c + length tail) front room few e,
          )
          (elim (Bool-cases (length c + length tail == 0)) [
            | inl z ↦ rw z (header_exact later some_body none_held e eb (ground arith))
            | inr nz ↦ rw nz (
                Takes-shift skip h c tail got later _ e (
                  rw (length-append skip h, append_assoc (skip ++ h) c tail) at
                    (message-Takes hdr body ok (skip ++ h) c tail [] r none_held later side eb)))
          ])

  header_case :
      (skip chunk tail got later target : List ℕ) (r : Request)
      → body ≢ []
      → (later ≡ []) ⊎ (tail ≡ [])
      → got ++ chunk ++ later ≡ hdr ++ body
      → length got < 12
      → length target ≡ 12
      → take (length got) target ≡ got
      → held r ≡ []
      → (length got + length chunk < 12) ⊎ (12 ≤ length got + length chunk)
      → Takes hdr body ok skip chunk tail got later (
          parser_msg
            (skip ++ chunk ++ tail)
            (pos (length skip))
            (pos (length chunk + length tail))
            (at_header target r (length got)))
  header_case skip chunk tail got [] target r some_body side e few room front none_held
        (inl short) =
      absurd (
        omega (
          arith,
          ok.twelve,
          ap length e,
          length-append (got ++ chunk) [],
          length-append got chunk,
          length-append hdr body,
        ))
  header_case skip chunk tail got (l ∷ later) target r some_body (inl none_later) e few room front
        none_held (inl short) =
      cc
  header_case skip chunk tail got (l ∷ later) target r some_body (inr none_left) e few room front
        none_held (inl short) =
      header_more skip chunk tail got target r l later none_left short room front none_held
  header_case skip chunk tail got later target r some_body side e few room front none_held
        (inr enough) =
      let (h, eh, rest) =
        cut_longer got (chunk ++ later) hdr body (sym (append_assoc got chunk later) ∙ e)
          (omega (arith, ok.twelve)) in
      let (c, ec, eb) =
        cut_longer h body chunk later (sym rest)
          (omega (arith, ok.twelve, ap length eh, length-append got h)) in
      rw ec (
        header-Takes skip h c tail got target r later some_body side few room front none_held
          (sym eh) (sym eb))

  -- One call, in any state: the bytes of `chunk` are taken, and nothing of `tail`, which stands
  -- in the buffer only if the message is complete.
  pub parser_msg-Takes :
      (skip chunk tail got later : List ℕ) (p : Parser)
      → body ≢ []
      → (later ≡ []) ⊎ (tail ≡ [])
      → got ++ chunk ++ later ≡ hdr ++ body
      → Progress hdr got p
      → Takes hdr body ok skip chunk tail got later (
          parser_msg
            (skip ++ chunk ++ tail)
            (pos (length skip))
            (pos (length chunk + length tail))
            p)
  unfolding parser_msg
  parser_msg-Takes skip chunk tail got later p some_body side e (in_message pre r ep eg eh) =
      let whole : hdr ++ (pre ++ chunk ++ later) ≡ hdr ++ body =
        simp append_assoc (simp append_assoc at (rw eg at e)) in
      let eb : pre ++ chunk ++ later ≡ body =
        sym (drop-append_length hdr _)
        ∙ ap (drop (length hdr)) whole
        ∙ drop-append_length hdr body in
      rw (ep, eg) (message-Takes hdr body ok skip chunk tail pre r eh later side eb)
  parser_msg-Takes skip chunk tail got later p some_body side e
        (in_header target r ep few room front none_held) =
      rw ep (
        header_case skip chunk tail got later target r some_body side e few room front none_held
          (ground arith))
