-- ===== src/MgServer/Frame/Blocks.antt =====
-- `decode` on a run of bytes that belong to one part, and on a part that is empty.
use mathlib.Core.List.{append_assoc, append-nil}
use mg_raffle.Base.{
  ℕ, zero, suc, ◌+◌, ◌-◌, ◌≡◌, refl, ap, sym, ◌∙◌, none, some, List, [], ◌∷◌, ◌++◌, arith, length,
}
use mg_raffle.Base.Int.{pos}
use mg_raffle.Base.Optional.{◌>>=◌}
use mg_raffle.Rpc.Parser.Bytes.{int32_at}
use mg_raffle.MgServer.Parser.{ParseType, m_magic, m_header, m_rpc_header, m_rpc_content}
use mg_raffle.MgServer.Frame.{
  Message, Frame, frame, start, Step, natural, more_messages, close, add_to, settle, accept, decode,
}

pub more_messages-nil : (s : Step) → more_messages [] s ≡ s
more_messages-nil none = refl
more_messages-nil (some (f, ms)) = refl

then_nil : (s : Step) → (s >>= λ out. more_messages out.1 (some (out.0, []))) ≡ s
then_nil none = refl
then_nil (some (f, ms)) = rw (append-nil ms) refl

accept-suc :
    (x : ℕ) (st : ParseType) (n : ℕ) (ls h b : List ℕ)
    → accept x (frame st (suc n) ls h b) ≡ close n (add_to st (x ∷ []) ls h b (suc n))
unfolding accept settle
accept-suc x st n ls h b = let e : suc n - 1 ≡ n = omega arith in rw (e, more_messages-nil) refl

pub decode_nil : (f : Frame) → decode [] f ≡ some (f, [])
unfolding decode
decode_nil f = refl

pub decode-cons :
    (x : ℕ) (xs : List ℕ) (f : Frame)
    → decode (x ∷ xs) f ≡ (accept x f >>= λ out. more_messages out.1 (decode xs out.0))
unfolding decode
decode-cons x xs f = refl

more_messages-twice :
    (ms ns : List Message) (s : Step)
    → more_messages ms (more_messages ns s) ≡ more_messages (ms ++ ns) s
more_messages-twice ms ns none = refl
more_messages-twice ms ns (some (f, os)) = rw append_assoc refl

module _ (k : Frame → Step) where
  join_messages :
      (ms : List Message) (s : Step)
      → more_messages ms (s >>= λ out. more_messages out.1 (k out.0))
        ≡ (more_messages ms s >>= λ out. more_messages out.1 (k out.0))
  join_messages ms none = refl
  join_messages ms (some (g, ns)) = more_messages-twice ms ns (k g)

close_left :
    (st : ParseType) (m n : ℕ) (xs ls h b : List ℕ)
    → close m (add_to st xs ls h b n) ≡ close m (add_to st xs ls h b m)
unfolding close
close_left m_magic zero n xs ls h b = refl
close_left m_header zero n xs ls h b = refl
close_left m_rpc_header zero n xs ls h b = refl
close_left m_rpc_content zero n xs ls h b = refl
close_left m_magic (suc m) n xs ls h b = refl
close_left m_header (suc m) n xs ls h b = refl
close_left m_rpc_header (suc m) n xs ls h b = refl
close_left m_rpc_content (suc m) n xs ls h b = refl

module _ (x y k m n : ℕ) (ys ls h b : List ℕ) where
  go_on :
      (st : ParseType)
      → ((ls h b : List ℕ)
          → decode (y ∷ ys) (frame st (suc k) ls h b) ≡ close m (add_to st (y ∷ ys) ls h b m))
      → (close (suc k) (add_to st (x ∷ []) ls h b n) >>= λ out.
          more_messages out.1 (decode (y ∷ ys) out.0))
        ≡ close m (add_to st (x ∷ y ∷ ys) ls h b m)
  unfolding close
  go_on m_magic ih = rw more_messages-nil (ih ls h b)
  go_on m_header ih =
      rw (more_messages-nil, ih (ls ++ x ∷ []) h b, append_assoc ls (x ∷ []) (y ∷ ys)) refl
  go_on m_rpc_header ih =
      rw (more_messages-nil, ih ls (h ++ x ∷ []) b, append_assoc h (x ∷ []) (y ∷ ys)) refl
  go_on m_rpc_content ih =
      rw (more_messages-nil, ih ls h (b ++ x ∷ []), append_assoc b (x ∷ []) (y ∷ ys)) refl

-- Bytes of one part, `m` of which are still to come.
pub decode_block :
    (x : ℕ) (xs : List ℕ) (st : ParseType) (m : ℕ) (ls h b : List ℕ)
    → decode (x ∷ xs) (frame st (suc (length xs + m)) ls h b)
      ≡ close m (add_to st (x ∷ xs) ls h b m)
decode_block x [] st m ls h b =
    let e : 0 + m ≡ m = omega arith in
    unfold decode in
    rw (e, accept-suc x st m ls h b, then_nil) (close_left st m (suc m) (x ∷ []) ls h b)
decode_block x (y ∷ ys) st m ls h b =
    let e : suc (length ys) + m ≡ suc (length ys + m) = omega arith in
    rw (e, decode-cons x (y ∷ ys), accept-suc x st (suc (length ys + m)) ls h b)
      (go_on x y (length ys + m) m (suc (suc (length ys + m))) ys ls h b st
        (λ ls' h' b'. decode_block y ys st m ls' h' b'))

decode_after :
    (s : Step) (xs ys : List ℕ)
    → ((g : Frame)
        → decode (xs ++ ys) g ≡ (decode xs g >>= λ out. more_messages out.1 (decode ys out.0)))
    → (s >>= λ out. more_messages out.1 (decode (xs ++ ys) out.0)) ≡ (
        (s >>= λ out. more_messages out.1 (decode xs out.0)) >>= λ out.
        more_messages out.1 (decode ys out.0))
decode_after none xs ys ih = refl
decode_after (some (g, ms)) xs ys ih = rw (ih g) (join_messages (decode ys) ms (decode xs g))

-- A stream that arrives in two parts is decoded as one.
pub decode-append :
    (xs ys : List ℕ) (f : Frame)
    → decode (xs ++ ys) f ≡ (decode xs f >>= λ out. more_messages out.1 (decode ys out.0))
unfolding decode
decode-append [] ys f = rw more_messages-nil refl
decode-append (x ∷ xs) ys f = decode_after (accept x f) xs ys (decode-append xs ys)

module _ (x : ℕ) (ls h b : List ℕ) where
  accept_magic : accept x (frame m_magic 0 ls h b) ≡ accept x (frame m_header 8 [] [] [])
  unfolding accept settle close
  accept_magic = refl

  accept_content :
      accept x (frame m_rpc_content 0 ls h b)
      ≡ more_messages (record { head = h; body = b } ∷ []) (accept x (start 0))
  unfolding accept settle close
  accept_content = refl

  accept_rpc_header :
      (n : ℕ)
      → int32_at ls 4 ≡ pos n
      → accept x (frame m_rpc_header 0 ls h b) ≡ accept x (frame m_rpc_content n ls h [])
  unfolding accept settle close
  accept_rpc_header zero e = rw e refl
  accept_rpc_header (suc n) e = rw e refl

  accept_negative : natural (int32_at ls 4) ≡ none → accept x (frame m_rpc_header 0 ls h b) ≡ none
  unfolding accept settle close
  accept_negative e = rw e refl

module _ (x : ℕ) (xs ls h b : List ℕ) where
  pub decode_negative :
      natural (int32_at ls 4) ≡ none → decode (x ∷ xs) (frame m_rpc_header 0 ls h b) ≡ none
  unfolding decode
  decode_negative e =
      ap (λ (s : Step). s >>= λ out. more_messages out.1 (decode xs out.0))
        (accept_negative x ls h b e)

  pub decode_magic :
      decode (x ∷ xs) (frame m_magic 0 ls h b) ≡ decode (x ∷ xs) (frame m_header 8 [] [] [])
  unfolding decode
  decode_magic =
      ap (λ (s : Step). s >>= λ out. more_messages out.1 (decode xs out.0)) (accept_magic x ls h b)

  -- A message without a body is complete when the byte behind it arrives.
  pub decode_content :
      decode (x ∷ xs) (frame m_rpc_content 0 ls h b)
      ≡ more_messages (record { head = h; body = b } ∷ []) (decode (x ∷ xs) (start 0))
  unfolding decode
  decode_content =
      ap (λ (s : Step). s >>= λ out. more_messages out.1 (decode xs out.0))
        (accept_content x ls h b)
      ∙ sym (join_messages (decode xs) (record { head = h; body = b } ∷ []) (accept x (start 0)))

  pub decode_rpc_header :
      (n : ℕ)
      → int32_at ls 4 ≡ pos n
      → decode (x ∷ xs) (frame m_rpc_header 0 ls h b)
        ≡ decode (x ∷ xs) (frame m_rpc_content n ls h [])
  unfolding decode
  decode_rpc_header n e =
      ap (λ (s : Step). s >>= λ out. more_messages out.1 (decode xs out.0))
        (accept_rpc_header x ls h b n e)
