-- ===== src/MgServer/Refine/Rewinds.antt =====
-- A message whose length is negative, in `parse_connection` of main.cpp.
use mathlib.Core.Path.{subst}
use mg_raffle.Base.{
  ℕ, zero, suc, ◌+◌, ◌≡◌, refl, sym, ap, true, some, List, [], ◌∷◌, ◌++◌, length, arith,
}
use mg_raffle.Base.Int.{ℤ, pos, negsuc, ◌+ℤ◌, ◌-ℤ◌, ltb_ℤ, min_ℤ, int_laws}
use mg_raffle.Base.Run.{done, out_of_fuel}
use mg_raffle.MgServer.Buffers.{MBuffer, consume, new_guard}
use mg_raffle.MgServer.Parser.{
  m_magic, m_header, m_rpc_header, m_rpc_content, MRequest, MConnection, new_request, set_lengths,
  add_header, add_body, lift_split, split_message, split_rpc_header, split_content, split_default,
  split_loop, split_round, return_or, parse_loop, parse_round, parse_connection, take_magic,
  reset_parser,
}
use mg_raffle.MgServer.Refine.Held.{buffer_at}
use mg_raffle.MgServer.Refine.Rounds.{parser_with, header_full, some_left}
use mg_raffle.MgServer.Refine.Magic.{awaiting, take_magic_lem, written, length-written}

-- The lengths -8 and 0.
abbrev pub minus_8 : List ℕ
minus_8 = 248 ∷ 255 ∷ 255 ∷ 255 ∷ 0 ∷ 0 ∷ 0 ∷ 0 ∷ []

module _ (mem : ℕ → List ℕ) (id : ℕ) (capacity remain unset : ℤ) (garbage skip rest : List ℕ)
    (whole : skip ++ (minus_8 ++ rest) ≡ mem id) (room : length garbage ≡ 8) (m : ℕ) where
  abbrev pub at : ℕ → MBuffer
  at = buffer_at mem id capacity remain

  abbrev asked : MRequest
  asked = set_lengths minus_8 (new_request garbage)

  abbrev header_part : MRequest
  header_part = add_header (new_guard id (at (length skip + 8)) (negsuc 7)) asked

  abbrev whole_part : MRequest
  whole_part = add_body (new_guard id (at (length skip)) (pos 0)) header_part

  back_8 : (k : ℕ) → consume (negsuc 7) (at (k + 8)) ≡ at k
  unfolding consume
  back_8 k = let e : pos (k + 8) +ℤ negsuc 7 ≡ pos k = omega int_laws in rw e refl

  stay : (k : ℕ) → consume (pos 0) (at k) ≡ at k
  unfolding consume
  stay k = let e : pos k +ℤ pos 0 ≡ pos k = omega int_laws in rw e refl

  negative_header :
      split_rpc_header garbage id (pos (suc m)) (record {
        parse_type = m_rpc_header;
        parser = parser_with (pos 0) (negsuc 7) asked;
        buffer = at (length skip + 8);
      })
      ≡ done (pos (8 + suc m)) (record {
        parse_type = m_rpc_content;
        parser = parser_with (pos 0) (pos 0) header_part;
        buffer = at (length skip);
      })
  unfolding split_rpc_header
  negative_header =
      let n : min_ℤ (negsuc 7) (pos (suc m)) ≡ negsuc 7 = ground arith in
      let l : pos (suc m) -ℤ negsuc 7 ≡ pos (8 + suc m) = omega int_laws in
      let z : negsuc 7 -ℤ negsuc 7 ≡ pos 0 = omega int_laws in
      rw (n, l, z, back_8 (length skip)) refl

  empty_body :
      split_content garbage id (pos (8 + suc m)) (record {
        parse_type = m_rpc_content;
        parser = parser_with (pos 0) (pos 0) header_part;
        buffer = at (length skip);
      })
      ≡ done
          (some whole_part, pos (8 + suc m))
          (record {
            parse_type = m_magic;
            parser = parser_with (pos 8) (pos 0) (new_request garbage);
            buffer = at (length skip);
          })
  unfolding split_content reset_parser
  empty_body =
      let n : min_ℤ (pos 0) (pos (8 + suc m)) ≡ pos 0 = ground arith in
      let l : pos (8 + suc m) -ℤ pos 0 ≡ pos (8 + suc m) = omega int_laws in
      let z : pos 0 -ℤ pos 0 ≡ pos 0 = omega int_laws in rw (n, l, z, stay (length skip)) refl

  one_message :
      split_message garbage id (pos (8 + suc m)) (record {
        parse_type = m_header;
        parser = parser_with (pos 8) (pos 0) (new_request garbage);
        buffer = at (length skip);
      })
      ≡ done
          (some whole_part, pos (8 + suc m))
          (record {
            parse_type = m_magic;
            parser = parser_with (pos 8) (pos 0) (new_request garbage);
            buffer = at (length skip);
          })
  unfolding split_message split_loop split_round return_or
  one_message =
      let some_bytes : ltb_ℤ (pos 0) (pos (8 + suc m)) ≡ true = ground arith in
      rw
        (
          some_bytes,
          header_full mem id capacity remain garbage (pos 0) (new_request garbage) skip minus_8 rest
              [] whole refl room (suc m) refl,
          some_left m,
          negative_header,
          some_bytes,
          empty_body,
        )
        refl

  module _ (c : MConnection) where
    abbrev cycling : List ℕ → MConnection
    cycling magic = record (awaiting c m_magic magic 0) {
      parser = some (parser_with (pos 8) (pos 0) (new_request garbage));
    }

    abbrev asking : List ℕ → MConnection
    asking magic = record (cycling magic) { parse_type = m_header }

    -- The magic number after nothing was added to it.
    abbrev same_magic : (magic : List ℕ) → length magic ≡ 4 → List ℕ
    same_magic magic four =
        written mem id capacity remain (cycling magic) skip [] (minus_8 ++ rest) magic 0 whole four
          (omega arith) (omega arith)

    no_magic_left :
        (magic : List ℕ) (four : length magic ≡ 4)
        → take_magic (pos (8 + suc m)) (record { conn = cycling magic; buffer = at (length skip) })
          ≡ done
              (pos (8 + suc m))
              (record { conn = asking (same_magic magic four); buffer = at (length skip) })
    no_magic_left magic four =
        let z : 0 + (8 + suc m) ≡ 8 + suc m = omega arith in
        let here : length skip + 0 ≡ length skip = omega arith in
        let real : min_ℤ (pos 0) (pos (0 + (8 + suc m))) ≡ pos 0 = ground arith in
        rw (z, here) at
          (take_magic_lem mem id capacity remain (cycling magic) skip [] (minus_8 ++ rest) magic 0
            whole four (omega arith) (omega arith) (8 + suc m) real)

    same_again :
        (magic : List ℕ)
        → split_default garbage unset id
            (pos (8 + suc m))
            (record { conn = asking magic; buffer = at (length skip) })
          ≡ done
              (some whole_part, pos (8 + suc m))
              (record { conn = cycling magic; buffer = at (length skip) })
    unfolding split_default
    same_again magic = ap (lift_split (asking magic)) one_message

    loop_goes_on :
        (rounds : ℕ) (reqs : List MRequest) (magic : List ℕ)
        → length magic ≡ 4
        → parse_loop garbage unset id rounds reqs
            (pos (8 + suc m))
            (record { conn = cycling magic; buffer = at (length skip) })
          ≡ out_of_fuel
    unfolding parse_loop parse_round
    loop_goes_on zero reqs magic four = refl
    loop_goes_on (suc zero) reqs magic four =
        let some_bytes : ltb_ℤ (pos 0) (pos (8 + suc m)) ≡ true = ground arith in
        rw (some_bytes, no_magic_left magic four) refl
    loop_goes_on (suc (suc rounds)) reqs magic four =
        let some_bytes : ltb_ℤ (pos 0) (pos (8 + suc m)) ≡ true = ground arith in
        rw (some_bytes, no_magic_left magic four, some_bytes, same_again (same_magic magic four))
          (loop_goes_on rounds (reqs ++ whole_part ∷ []) (same_magic magic four) (
            length-written mem id capacity remain (cycling magic) skip [] (minus_8 ++ rest) magic 0
              whole four (omega arith) (omega arith)))

    -- A connection that has had a message, and lengths -8 and 0 with at least one byte behind them:
    -- the header takes the position back to the lengths and the length that is left goes up by
    -- eight, so that the same bytes are a request again and again: `parse_connection` never ends.
    pub parse_connection_never_ends :
        (rounds : ℕ)
        → c.parse_type ≡ m_magic
        → c.magic_remain ≡ pos 0
        → length c.magic ≡ 4
        → c.parser ≡ some (parser_with (pos 8) (pos 0) (new_request garbage))
        → parse_connection garbage unset id rounds
            (pos (8 + suc m))
            (record { conn = c; buffer = at (length skip) })
          ≡ out_of_fuel
    unfolding parse_connection
    parse_connection_never_ends rounds et er four ep =
        let e : cycling c.magic ≡ c = λ i. record c {
          magic_remain = (sym er) i;
          parse_type = (sym et) i;
          parser = (sym ep) i;
        } in
        subst
          (λ (x : MConnection).
            parse_loop garbage unset id rounds [] (pos (8 + suc m))
              (record { conn = x; buffer = at (length skip) })
            ≡ out_of_fuel)
          e (loop_goes_on rounds [] c.magic four)
