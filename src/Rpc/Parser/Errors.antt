-- ===== src/Rpc/Parser/Errors.antt =====
-- What every call of `parser_msg` keeps, and what it does with a header that is wrong.
use mg_raffle.Base.{
  ℕ, ◌+◌, ◌-◌, ◌≡◌, ◌≢◌, ◌<◌, refl, ◌∙◌, Bool, true, false, List, [], ◌++◌, arith, length, drop,
  Bool-cases, inl, inr,
}
use mg_raffle.Base.Int.{ℤ, pos, negsuc, ◌+ℤ◌, ◌-ℤ◌, min_ℤ, zero-add, eq_ℤ, eq_ℤ_sound, int_laws}
use mg_raffle.Base.Run.{Run, done, fault, out_of_fuel, Cmd, and_then, check, ◌>>◌}
use mg_raffle.Rpc.Parser.{
  Parser, Request, rpc_header, rpc_message, Parsed, parsed, parser_msg, parse_message, parse_header,
  finish_header, copy_header, message_size, header_size, add_read, ReadType,
}
use mg_raffle.Rpc.Parser.Bytes.{int32_at}
use mathlib.Core.List.{append-nil}
use mg_raffle.Rpc.Parser.Slices.{sub_pos, min_left, drop_all}
use mg_raffle.Rpc.Parser.Chunks.{parse_header_lem, add_handle, at_header}

-- A successful call moves bytes from what remains to what is consumed.
abbrev pub Conserves : ℤ → ℤ → Run Parser Parsed → Type 0
Conserves c n (done out q) = out.consume +ℤ out.remain_length ≡ c +ℤ n
Conserves c n _ = Unit

move : (c n k : ℤ) → c +ℤ k +ℤ (n -ℤ k) ≡ c +ℤ n
move c n k = omega int_laws

sub_zero : (a : ℤ) → a -ℤ pos 0 ≡ a
sub_zero a = omega int_laws

min_negative : (k m : ℕ) → min_ℤ (negsuc k) (pos m) ≡ negsuc k
min_negative k m = ground arith

parse_message-Conserves :
    (buf : List ℕ) (c n : ℤ) (p : Parser) → Conserves c n (parse_message buf c n p)
unfolding parse_message
parse_message-Conserves buf c n p =
    ground (arith, move c n (min_ℤ (message_size p -ℤ p.module_has_read_size) n))

finish_header-Conserves :
    (buf : List ℕ) (c n : ℤ) (p : Parser) → Conserves c n (finish_header buf c n p)
unfolding finish_header
finish_header-Conserves buf c n p = ground (
  arith,
  parse_message-Conserves buf c n (record p { module_has_read_size = pos 0; type = rpc_message }),
)

after_copy :
    (c n : ℤ) (run : Run Parser (Unit {0})) (k : Cmd Parser Parsed)
    → ((q : Parser) → Conserves c n (k q))
    → Conserves c n (and_then run (λ _. k))
after_copy c n (done u q) k h = h q
after_copy c n fault k h = tt
after_copy c n out_of_fuel k h = tt

after_check :
    (c n : ℤ) (b : Bool) (k : Cmd Parser Parsed) (p : Parser)
    → ((q : Parser) → Conserves c n (k q))
    → Conserves c n ((check b >> k) p)
after_check c n true k p h = h p
after_check c n false k p h = tt

parse_header-Conserves :
    (buf : List ℕ) (c n : ℤ) (p : Parser) → Conserves c n (parse_header buf c n p)
unfolding parse_header
parse_header-Conserves buf c n p =
    let k = min_ℤ (header_size -ℤ p.module_has_read_size) n in
    after_check c n _ _ p λ p'. after_copy c n (copy_header buf c k p') _ λ q.
      let q' = add_read k q in
      ground (arith, move c n k, finish_header-Conserves buf (c +ℤ k) (n -ℤ k) q')

-- Whatever the parser's state and the buffer, a call that returns has moved bytes from what
-- remains to what is consumed, and lost none.
pub parser_msg-Conserves :
    (buf : List ℕ) (c n : ℤ) (p : Parser) → Conserves c n (parser_msg buf c n p)
unfolding parser_msg
parser_msg-Conserves buf c n p = by_type (p.type) refl
  where
    by_type : (t : ReadType) → p.type ≡ t → Conserves c n (parser_msg buf c n p)
    by_type rpc_header e = rw (e, parser_msg) (parse_header-Conserves buf c n p)
    by_type rpc_message e = rw (e, parser_msg) (parse_message-Conserves buf c n p)

module _ (skip hdr more target : List ℕ) (r : Request) (m : ℕ) where
  -- A whole header, with `m` more bytes behind it.
  header_read :
      length hdr ≡ 12
      → length target ≡ 12
      → parser_msg (skip ++ hdr ++ more) (pos (length skip)) (pos (12 + m)) (at_header target r 0)
        ≡ finish_header (skip ++ hdr ++ more) (pos (length skip + 12)) (pos m) (at_header hdr r 12)
  unfolding parser_msg
  header_read twelve room =
      let real : min_ℤ (pos 12 -ℤ pos 0) (pos (12 + m)) ≡ pos (length hdr) =
        rw (sub_pos 12 0 (omega arith), twelve) (min_left 12 (12 + m) (omega arith)) in
      let n : 0 + length hdr ≡ 12 = omega arith in
      let none_left : drop 12 target ≡ [] = rw (← room) (drop_all target) in
      let left : 12 + m - 12 ≡ m = omega arith in
      parse_header_lem skip hdr more r target [] (12 + m) refl (omega arith) (omega arith) real
        (omega arith)
      ∙ rw (n, none_left, append-nil, twelve, left)

  -- A header whose parts do not add up is refused, and nothing behind it is consumed.
  pub header_mismatch :
      length hdr ≡ 12
      → length target ≡ 12
      → int32_at hdr 8 ≢ int32_at hdr 0 +ℤ int32_at hdr 4
      → parser_msg (skip ++ hdr ++ more) (pos (length skip)) (pos (12 + m)) (at_header target r 0)
        ≡ done (parsed (negsuc 0) (pos (length skip + 12)) (pos m)) (at_header hdr r 12)
  unfolding finish_header
  header_mismatch twelve room wrong =
      header_read twelve room
      ∙ (elim (Bool-cases (eq_ℤ (int32_at hdr 8) (int32_at hdr 0 +ℤ int32_at hdr 4))) [
        | inl same ↦ absurd (wrong (eq_ℤ_sound _ _ same))
        | inr differs ↦ rw differs
      ])

  -- A negative size that its parts confirm is a complete message at once, and the position in the
  -- buffer goes back by that many bytes.
  pub negative_size_rewinds :
      (k : ℕ)
      → length hdr ≡ 12
      → length target ≡ 12
      → int32_at hdr 8 ≡ negsuc k
      → int32_at hdr 0 +ℤ int32_at hdr 4 ≡ negsuc k
      → 0 < m
      → parser_msg (skip ++ hdr ++ more) (pos (length skip)) (pos (12 + m)) (at_header target r 0)
        ≡ done (parsed (pos 1) (pos (length skip + 12) +ℤ negsuc k) (pos m -ℤ negsuc k)) (
            at_header hdr
              (add_handle
                (record {
                  offset = pos (length skip + 12);
                  size = negsuc k;
                  bufsp = skip ++ hdr ++ more;
                })
                r)
              0)
  unfolding finish_header parse_message
  negative_size_rewinds k twelve room size parts some_more =
      header_read twelve room
      ∙ rw (size, parts, sub_zero (negsuc k), min_negative k m, zero-add (negsuc k)) (ground arith)
