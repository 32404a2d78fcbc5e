-- ===== src/MgServer/Frame/Parts.antt =====
-- `decode` on the rest of a part and what follows it, part by part.
use mathlib.Core.List.{append-nil}
use mg_raffle.Base.{
  ℕ, suc, ◌+◌, ◌≡◌, ◌≢◌, refl, sym, ◌∙◌, none, some, List, [], ◌∷◌, ◌++◌, ◌⊎◌, inl, inr, arith,
  length,
}
use mg_raffle.Base.Int.{ℤ, pos, negsuc}
use mg_raffle.Base.Optional.{◌>>=◌}
use mg_raffle.Rpc.Parser.Bytes.{int32_at}
use mg_raffle.MgServer.Parser.{ParseType, m_magic, m_header, m_rpc_header, m_rpc_content}
use mg_raffle.MgServer.Frame.{
  Message, Frame, frame, start, Step, natural, more_messages, close, add_to, decode,
}
use mg_raffle.MgServer.Frame.Blocks.{
  more_messages-nil, decode_block, decode-append, decode_negative, decode_magic, decode_content,
  decode_rpc_header,
}

pub more_messages-eq-some :
    (ks : List Message) (s : Step) {f : Frame} {ms : List Message}
    → more_messages ks s ≡ some (f, ms)
    → (ns : List Message) × (ms ≡ ks ++ ns) × (s ≡ some (f, ns))
more_messages-eq-some ks none e = cc
more_messages-eq-some ks (some (g, ns)) e = (ns, cc, cc)

decode_part :
    (y : ℕ) (ys zs : List ℕ) (st : ParseType) (ls h b : List ℕ)
    → decode ((y ∷ ys) ++ zs) (frame st (length (y ∷ ys)) ls h b)
      ≡ (close 0 (add_to st (y ∷ ys) ls h b 0) >>= λ out. more_messages out.1 (decode zs out.0))
decode_part y ys zs st ls h b =
    let e : length (y ∷ ys) ≡ suc (length ys + 0) = omega arith in
    decode-append (y ∷ ys) zs (frame st (length (y ∷ ys)) ls h b)
    ∙ rw (e, decode_block y ys st 0 ls h b) refl

-- The part goes on behind all bytes at hand.
pub decode_short :
    (x : ℕ) (xs : List ℕ) (st : ParseType) (m : ℕ) (ls h b : List ℕ)
    → decode (x ∷ xs) (frame st (length (x ∷ xs) + suc m) ls h b)
      ≡ some (add_to st (x ∷ xs) ls h b (suc m), [])
unfolding close
decode_short x xs st m ls h b =
    let e : length (x ∷ xs) + suc m ≡ suc (length xs + suc m) = omega arith in
    rw (e, decode_block x xs st (suc m) ls h b) (by_stage st)
  where
    by_stage :
        (st : ParseType)
        → close (suc m) (add_to st (x ∷ xs) ls h b (suc m))
          ≡ some (add_to st (x ∷ xs) ls h b (suc m), [])
    by_stage m_magic = refl
    by_stage m_header = refl
    by_stage m_rpc_header = refl
    by_stage m_rpc_content = refl

sized : (z : ℤ) → ((n : ℕ) × (z ≡ pos n)) ⊎ (natural z ≡ none)
sized (pos n) = inl (n, refl)
sized (negsuc n) = inr refl

module _ (ys zs ls h b : List ℕ) where
  pub decode_whole_magic :
      ys ++ zs ≢ []
      → decode (ys ++ zs) (frame m_magic (length ys) ls h b) ≡ decode zs (frame m_header 8 [] [] [])
  decode_whole_magic = magic ys zs
    where
      magic :
          (ys zs : List ℕ)
          → ys ++ zs ≢ []
          → decode (ys ++ zs) (frame m_magic (length ys) ls h b)
            ≡ decode zs (frame m_header 8 [] [] [])
      magic [] [] ne = absurd (ne refl)
      magic [] (z ∷ zs) ne = decode_magic z zs ls h b
      magic (y ∷ ys) zs ne =
          unfold close in decode_part y ys zs m_magic ls h b ∙ more_messages-nil _

  pub decode_whole_content :
      ys ++ zs ≢ []
      → decode (ys ++ zs) (frame m_rpc_content (length ys) ls h b)
        ≡ more_messages (record { head = h; body = b ++ ys } ∷ []) (decode zs (start 0))
  decode_whole_content = content ys zs
    where
      content :
          (ys zs : List ℕ)
          → ys ++ zs ≢ []
          → decode (ys ++ zs) (frame m_rpc_content (length ys) ls h b)
            ≡ more_messages (record { head = h; body = b ++ ys } ∷ []) (decode zs (start 0))
      content [] [] ne = absurd (ne refl)
      content [] (z ∷ zs) ne = rw (append-nil b) (decode_content z zs ls h b)
      content (y ∷ ys) zs ne = unfold close in decode_part y ys zs m_rpc_content ls h b

  pub decode_whole_rpc_header :
      (n : ℕ)
      → int32_at ls 4 ≡ pos n
      → ys ++ zs ≢ []
      → decode (ys ++ zs) (frame m_rpc_header (length ys) ls h b)
        ≡ decode zs (frame m_rpc_content n ls (h ++ ys) [])
  decode_whole_rpc_header n e = rpc_header ys zs
    where
      rpc_header :
          (ys zs : List ℕ)
          → ys ++ zs ≢ []
          → decode (ys ++ zs) (frame m_rpc_header (length ys) ls h b)
            ≡ decode zs (frame m_rpc_content n ls (h ++ ys) [])
      rpc_header [] [] ne = absurd (ne refl)
      rpc_header [] (z ∷ zs) ne = rw (append-nil h) (decode_rpc_header z zs ls h b n e)
      rpc_header (y ∷ ys) zs ne =
          unfold close in decode_part y ys zs m_rpc_header ls h b ∙ rw e (more_messages-nil _)

  pub decode_whole_header :
      (n : ℕ)
      → int32_at (ls ++ ys) 0 ≡ pos n
      → ys ≢ []
      → decode (ys ++ zs) (frame m_header (length ys) ls h b)
        ≡ decode zs (frame m_rpc_header n (ls ++ ys) [] [])
  decode_whole_header n = header ys
    where
      header :
          (ys : List ℕ)
          → int32_at (ls ++ ys) 0 ≡ pos n
          → ys ≢ []
          → decode (ys ++ zs) (frame m_header (length ys) ls h b)
            ≡ decode zs (frame m_rpc_header n (ls ++ ys) [] [])
      header [] e ne = absurd (ne refl)
      header (y ∷ ys) e ne =
          unfold close in decode_part y ys zs m_header ls h b ∙ rw e (more_messages-nil _)

  negative_header :
      natural (int32_at (ls ++ ys) 0) ≡ none
      → ys ≢ []
      → decode (ys ++ zs) (frame m_header (length ys) ls h b) ≡ none
  negative_header = header ys
    where
      header :
          (ys : List ℕ)
          → natural (int32_at (ls ++ ys) 0) ≡ none
          → ys ≢ []
          → decode (ys ++ zs) (frame m_header (length ys) ls h b) ≡ none
      header [] e ne = absurd (ne refl)
      header (y ∷ ys) e ne = unfold close in decode_part y ys zs m_header ls h b ∙ rw e refl

  negative_rpc_header :
      natural (int32_at ls 4) ≡ none
      → ys ++ zs ≢ []
      → decode (ys ++ zs) (frame m_rpc_header (length ys) ls h b) ≡ none
  negative_rpc_header e = rpc_header ys zs
    where
      rpc_header :
          (ys zs : List ℕ)
          → ys ++ zs ≢ []
          → decode (ys ++ zs) (frame m_rpc_header (length ys) ls h b) ≡ none
      rpc_header [] [] ne = absurd (ne refl)
      rpc_header [] (z ∷ zs) ne = decode_negative z zs ls h b e
      rpc_header (y ∷ ys) zs ne =
          unfold close in decode_part y ys zs m_rpc_header ls h b ∙ rw e refl

  -- A stream that decodes announces no negative length.
  pub header_sized :
      {f : Frame} {ms : List Message}
      → ys ≢ []
      → decode (ys ++ zs) (frame m_header (length ys) ls h b) ≡ some (f, ms)
      → (n : ℕ) × (int32_at (ls ++ ys) 0 ≡ pos n)
        × (decode zs (frame m_rpc_header n (ls ++ ys) [] []) ≡ some (f, ms))
  header_sized ne dec = elim (sized (int32_at (ls ++ ys) 0)) [
    | inl (n, e) ↦ (n, e, sym (decode_whole_header n e ne) ∙ dec)
    | inr e ↦ cc (negative_header e ne)
  ]

  pub rpc_header_sized :
      {f : Frame} {ms : List Message}
      → ys ++ zs ≢ []
      → decode (ys ++ zs) (frame m_rpc_header (length ys) ls h b) ≡ some (f, ms)
      → (n : ℕ) × (int32_at ls 4 ≡ pos n)
        × (decode zs (frame m_rpc_content n ls (h ++ ys) []) ≡ some (f, ms))
  rpc_header_sized ne dec = elim (sized (int32_at ls 4)) [
    | inl (n, e) ↦ (n, e, sym (decode_whole_rpc_header n e ne) ∙ dec)
    | inr e ↦ cc (negative_rpc_header e ne)
  ]
