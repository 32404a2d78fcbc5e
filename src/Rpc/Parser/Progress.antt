-- ===== src/Rpc/Parser/Progress.antt =====
-- How far the parser has come with a message, and what `case RPC_MESSAGE` adds to it.
use mathlib.Core.List.{append_assoc, append-nil}
use mg_raffle.Base.{
  ℕ, ◌+◌, ◌-◌, ◌≡◌, ◌<◌, refl, sym, true, false, List, [], ◌∷◌, ◌++◌, arith, length, length-append,
  ltb, take, ap, ◌∙◌, ◌⊎◌, inl, inr,
}
use mg_raffle.Base.Int.{pos, ◌-ℤ◌, min_ℤ}
use mg_raffle.Base.Run.{Run, done}
use mg_raffle.Rpc.ReadBuffer.{BufHandle, append}
use mg_raffle.Rpc.Parser.{Request, Parser, rpc_header, Parsed, parsed, parse_message}
use mg_raffle.Rpc.Parser.Slices.{
  sub_pos, min_left, min_right, take-append_length, drop-append_length,
}
use mg_raffle.Rpc.Parser.Chunks.{
  contents, contents-append, handle_bytes, received, at_header, at_message, add_handle, IsHeader,
  parse_message_lem,
}

abbrev pub held : Request → List ℕ
held r = contents r.read_buf.buf_list

-- The parser has taken in the bytes `got` of a message with header `hdr`.
pub data Progress (hdr got : List ℕ) (p : Parser) : Type 0 where
  in_header :
      (target : List ℕ) (r : Request)
      → p ≡ at_header target r (length got)
      → length got < 12
      → length target ≡ 12
      → take (length got) target ≡ got
      → held r ≡ []
      → Progress hdr got p
  in_message :
      (pre : List ℕ) (r : Request)
      → p ≡ at_message hdr r (length pre)
      → got ≡ hdr ++ pre
      → held r ≡ pre
      → Progress hdr got p

handle_bytes_lem :
    (skip chunk rest : List ℕ)
    → handle_bytes (record {
      offset = pos (length skip);
      size = pos (length chunk);
      bufsp = skip ++ chunk ++ rest;
    })
      ≡ chunk
handle_bytes_lem skip chunk rest =
    rw (append_assoc, drop-append_length skip (chunk ++ rest)) (take-append_length chunk rest)

abbrev pub piece : (skip chunk rest : List ℕ) → BufHandle
piece skip chunk rest = record {
  offset = pos (length skip);
  size = pos (length chunk);
  bufsp = skip ++ chunk ++ rest;
}

held-add_handle :
    (skip chunk rest : List ℕ) (r : Request)
    → held (add_handle (piece skip chunk rest) r) ≡ held r ++ chunk
unfolding append
held-add_handle skip chunk rest r =
    contents-append r.read_buf.buf_list (piece skip chunk rest ∷ [])
    ∙ ap (◌++◌ (held r)) (append-nil _ ∙ handle_bytes_lem skip chunk rest)

module _ (hdr body : List ℕ) (ok : IsHeader hdr (length body)) where
  -- What a call owes that takes `chunk` after `got`: without the bytes `later` the message is not
  -- complete and its progress is recorded; with none of them missing it is complete, its bytes
  -- are held, and the parser waits for a header again.
  abbrev pub Takes : (skip chunk tail got later : List ℕ) → Run Parser Parsed → Type 0
  Takes skip chunk tail got [] (done out q) =
      (out ≡ parsed (pos 1) (pos (length skip + length chunk)) (pos (length tail)))
      × (received q ≡ body)
      × (q.type ≡ rpc_header)
      × (q.module_has_read_size ≡ pos 0)
  Takes skip chunk tail got (_ ∷ _) (done out q) =
      (out ≡ parsed (pos 0) (pos (length skip + length chunk)) (pos 0))
      × Progress hdr (got ++ chunk) q
  Takes skip chunk tail got _ _ = ⊥

  module _ (skip chunk tail pre : List ℕ) (r : Request) (h : held r ≡ pre) where
    message_last :
        pre ++ chunk ≡ body
        → Takes skip chunk tail (hdr ++ pre) [] (
            parse_message
              (skip ++ chunk ++ tail)
              (pos (length skip))
              (pos (length chunk + length tail))
              (at_message hdr r (length pre)))
    message_last e =
        let n : length pre + length chunk ≡ length body =
          omega (arith, ap length e, length-append pre chunk) in
        let d : length body - length pre ≡ length chunk = omega arith in
        let real : min_ℤ (pos (length body) -ℤ pos (length pre)) (pos (length chunk + length tail))
            ≡ pos (length chunk) =
          rw (sub_pos (length body) (length pre) (omega arith), d)
            (min_left (length chunk) _ (omega arith)) in
        let full : ltb (length pre + length chunk) (length body) ≡ false = ground arith in
        let left : length chunk + length tail - length chunk ≡ length tail = omega arith in
        rw
          (
            parse_message_lem hdr (length body) ok r skip chunk tail pre
                (length chunk + length tail) real (omega arith),
            full,
            left,
          )
          (refl, rw (held-add_handle skip chunk tail r, h) e, refl, refl)

    message_more :
        (l : ℕ) (later : List ℕ)
        → tail ≡ []
        → pre ++ chunk ++ l ∷ later ≡ body
        → Takes skip chunk tail (hdr ++ pre) (l ∷ later) (
            parse_message
              (skip ++ chunk ++ tail)
              (pos (length skip))
              (pos (length chunk + length tail))
              (at_message hdr r (length pre)))
    message_more l later none_left e =
        let n : length pre + length chunk < length body =
          omega (
            arith,
            ap length e,
            length-append (pre ++ chunk) (l ∷ later),
            length-append pre chunk,
          ) in
        let m : length chunk + length tail ≡ length chunk = omega (arith, ap length none_left) in
        let real : min_ℤ (pos (length body) -ℤ pos (length pre)) (pos (length chunk))
            ≡ pos (length chunk) =
          rw (sub_pos (length body) (length pre) (omega arith))
            (min_right _ (length chunk) (omega arith)) in
        let short : ltb (length pre + length chunk) (length body) ≡ true = ground arith in
        let left : length chunk - length chunk ≡ 0 = omega arith in
        rw
          (
            m,
            parse_message_lem hdr (length body) ok r skip chunk tail pre (length chunk) real
                (omega arith),
            short,
            left,
          )
          (
            refl,
            in_message (pre ++ chunk) (add_handle (piece skip chunk tail) r)
                (ap (at_message hdr _) (sym (length-append pre chunk))) (append_assoc hdr pre chunk)
                (rw (held-add_handle skip chunk tail r, h)),
          )

    pub message-Takes :
        (later : List ℕ)
        → (later ≡ []) ⊎ (tail ≡ [])
        → pre ++ chunk ++ later ≡ body
        → Takes skip chunk tail (hdr ++ pre) later (
            parse_message
              (skip ++ chunk ++ tail)
              (pos (length skip))
              (pos (length chunk + length tail))
              (at_message hdr r (length pre)))
    message-Takes [] side e = message_last (sym (append-nil (pre ++ chunk)) ∙ e)
    message-Takes (l ∷ later) (inl none_later) e = cc
    message-Takes (l ∷ later) (inr none_left) e = message_more l later none_left e
