-- ===== src/Rpc/Parser/Feed.antt =====
-- A whole message, one buffer after another.
use mathlib.Core.List.{append_assoc, append-nil}
use native.Mathlib.Nat.{add-zero}
use mg_raffle.Base.{ℕ, ◌≡◌, ◌≢◌, refl, ap, ◌∙◌, List, [], ◌∷◌, ◌++◌, inr, arith, length}
use mg_raffle.Base.Int.{ℤ, pos}
use mg_raffle.Base.Run.{Run, done, fault, out_of_fuel, Cmd, pure, and_then, ◌>>=◌}
use mg_raffle.Rpc.Parser.{Parser, Garbage, rpc_header, Parsed, parser_msg, new_parser}
use mg_raffle.Rpc.Parser.Chunks.{received, IsHeader}
use mg_raffle.Rpc.Parser.Progress.{Progress, in_header, Takes}
use mg_raffle.Rpc.Parser.Reassembly.{parser_msg-Takes}

-- `parser_msg` on buffers that are received one after another, and its return values.
unfoldable pub feed : List (List ℕ) → Cmd Parser (List ℤ)
feed [] = pure []
feed (c ∷ cs) = do
  out ← parser_msg c (pos 0) (pos (length c))
  rets ← feed cs
  pure (out.ret ∷ rets)

abbrev pub flatten : List (List ℕ) → List ℕ
flatten [] = []
flatten (c ∷ cs) = c ++ flatten cs

-- Every call but the last asks for more.
abbrev pub more_then_done : List (List ℕ) → List ℤ
more_then_done [] = pos 1 ∷ []
more_then_done (c ∷ cs) = pos 0 ∷ more_then_done cs

module _ (hdr body : List ℕ) (ok : IsHeader hdr (length body)) (some_body : body ≢ []) where
  -- Every call returns, the last one alone says that the message is complete, and it is.
  abbrev pub Completes : List ℤ → Run Parser (List ℤ) → Type 0
  Completes rets (done out q) =
      (out ≡ rets) × (received q ≡ body) × (q.type ≡ rpc_header) × (q.module_has_read_size ≡ pos 0)
  Completes rets _ = ⊥

  abbrev then_feed : List (List ℕ) → Run Parser Parsed → Run Parser (List ℤ)
  then_feed cs run = and_then run λ out. feed cs >>= λ rets. pure (out.ret ∷ rets)

  last_step :
      (run : Run Parser Parsed) (chunk got : List ℕ)
      → Takes hdr body ok [] chunk [] got [] run
      → Completes (pos 1 ∷ []) (then_feed [] run)
  unfolding feed
  last_step (done out q) chunk got t = (rw t.0, t.1, t.2, t.3)
  last_step fault chunk got t = t
  last_step out_of_fuel chunk got t = t

  pass_on :
      (rets : List ℤ) (out : Parsed) (run : Run Parser (List ℤ))
      → out.ret ≡ pos 0
      → Completes rets run
      → Completes (pos 0 ∷ rets) (and_then run (λ rs. pure (out.ret ∷ rs)))
  pass_on rets out (done rs q) e c = (rw (e, c.0), c.1, c.2, c.3)
  pass_on rets out fault e c = c
  pass_on rets out out_of_fuel e c = c

  more_step :
      (run : Run Parser Parsed) (chunk got later : List ℕ) (cs : List (List ℕ)) (rets : List ℤ)
      → later ≢ []
      → Takes hdr body ok [] chunk [] got later run
      → ((q : Parser) → Progress hdr (got ++ chunk) q → Completes rets (feed cs q))
      → Completes (pos 0 ∷ rets) (then_feed cs run)
  more_step run chunk got [] cs rets some_later t next = absurd (some_later refl)
  more_step (done out q) chunk got (l ∷ later) cs rets some_later t next =
      pass_on rets out (feed cs q) (ap (λ (o : Parsed). o.ret) t.0) (next q t.1)
  more_step fault chunk got (l ∷ later) cs rets some_later t next = t
  more_step out_of_fuel chunk got (l ∷ later) cs rets some_later t next = t

  one_call :
      (chunk got later : List ℕ) (p : Parser)
      → got ++ chunk ++ later ≡ hdr ++ body
      → Progress hdr got p
      → Takes hdr body ok [] chunk [] got later (parser_msg chunk (pos 0) (pos (length chunk)) p)
  one_call chunk got later p e v =
      simp (append-nil, add-zero) at
        (parser_msg-Takes hdr body ok [] chunk [] got later p some_body (inr refl) e v)

  append-ne-nil : (xs : List ℕ) (y : ℕ) (ys : List ℕ) → xs ++ y ∷ ys ≢ []
  append-ne-nil [] y ys e = cc
  append-ne-nil (x ∷ xs) y ys e = cc

  feed_from :
      (cs : List (List ℕ)) (l : ℕ) (ls got : List ℕ) (p : Parser)
      → got ++ (flatten cs ++ l ∷ ls) ≡ hdr ++ body
      → Progress hdr got p
      → Completes (more_then_done cs) (feed (cs ++ (l ∷ ls) ∷ []) p)
  unfolding feed
  feed_from [] l ls got p e v =
      last_step _ (l ∷ ls) got (one_call (l ∷ ls) got [] p (append-nil _ ∙ e) v)
  feed_from (c ∷ cs) l ls got p e v =
      more_step _ c got (flatten cs ++ l ∷ ls) (cs ++ (l ∷ ls) ∷ []) (more_then_done cs)
        (append-ne-nil (flatten cs) l ls)
        (one_call c got (flatten cs ++ l ∷ ls) p (simp append_assoc (simp append_assoc at e)) v)
        λ q w. feed_from cs l ls (got ++ c) q (simp append_assoc (simp append_assoc at e)) w

  -- However a message whose body is not empty is cut into buffers, the last of them not empty, a
  -- new parser asks for more after each but the last, says after the last that the message is
  -- complete, holds exactly its body, and is ready for the next header.
  pub feed_message :
      (g : Garbage) (cs : List (List ℕ)) (l : ℕ) (ls : List ℕ)
      → length g.header ≡ 12
      → flatten cs ++ l ∷ ls ≡ hdr ++ body
      → Completes (more_then_done cs) (feed (cs ++ (l ∷ ls) ∷ []) (new_parser g))
  unfolding new_parser
  feed_message g cs l ls room e =
      feed_from cs l ls [] _ e (in_header g.header _ refl (omega arith) room refl refl)
