-- ===== src/MgServer/Refine/Rounds.antt =====
-- One case of `SplitMessage` at a time: what it does when its part goes on behind the bytes at
-- hand, and when it ends within them.
use mathlib.Core.List.{append_assoc, append-nil}
use mg_raffle.Rpc.Parser.Bytes.{slice}
use mg_raffle.Base.{
  ℕ, suc, ◌+◌, ◌-◌, ◌≡◌, ◌≤◌, refl, sym, ◌∙◌, ap, none, some, true, List, ◌++◌, length, take, drop,
  arith,
}
use mg_raffle.Base.Int.{ℤ, pos, ◌-ℤ◌, ltb_ℤ, min_ℤ}
use mg_raffle.Base.Run.{done}
use mg_raffle.Rpc.Parser.Slices.{
  sub_pos, min_left, min_right, slice_middle, drop_all, copy_into_front,
}
use mg_raffle.MgServer.Buffers.{MBuffer, new_guard}
use mg_raffle.MgServer.Parser.{
  m_header, m_rpc_header, m_rpc_content, MRequest, MParser, add_body, add_header, set_lengths,
  rpc_body_length, rpc_header_length, split_content, split_rpc_header, split_header, copy_lengths,
  reset_parser,
}
use mg_raffle.MgServer.Refine.Held.{buffer_at, consume_lem}

abbrev pub parser_with : ℤ → ℤ → MRequest → MParser
parser_with header_remain rpc_remain req = record {
  header_remain = header_remain;
  rpc_remain = rpc_remain;
  req = req;
}

pub less_all : (n : ℕ) → pos n -ℤ pos n ≡ pos 0
less_all n = let e : n - n ≡ 0 = omega arith in sub_pos n n (omega arith) ∙ ap pos e

pub some_left : (m : ℕ) → ltb_ℤ (pos 0) (pos (suc m)) ≡ true
some_left m = ground arith

pub less_front : (n m : ℕ) → pos (n + m) -ℤ pos n ≡ pos m
less_front n m = let e : n + m - n ≡ m = omega arith in sub_pos (n + m) n (omega arith) ∙ ap pos e

module _ (mem : ℕ → List ℕ) (id : ℕ) (capacity remain : ℤ) (garbage : List ℕ) where
  abbrev at : ℕ → MBuffer
  at = buffer_at mem id capacity remain

  module _ (hr : ℤ) (r : MRequest) (j n m : ℕ) where
    pub content_short :
        split_content garbage id (pos n) (record {
          parse_type = m_rpc_content;
          parser = parser_with hr (pos (n + suc m)) r;
          buffer = at j;
        })
        ≡ done
            (none, pos 0)
            (record {
              parse_type = m_rpc_content;
              parser = parser_with hr (pos (suc m)) (add_body (new_guard id (at j) (pos n)) r);
              buffer = at (j + n);
            })
    unfolding split_content
    content_short =
        let e : min_ℤ (pos (n + suc m)) (pos n) ≡ pos n = min_right (n + suc m) n (omega arith) in
        rw
          (e, less_all n, less_front n (suc m), some_left m, consume_lem mem id capacity remain j n)
          refl

    pub content_full :
        split_content garbage id
          (pos (n + m))
          (record { parse_type = m_rpc_content; parser = parser_with hr (pos n) r; buffer = at j })
        ≡ done
            (some (add_body (new_guard id (at j) (pos n)) r), pos m)
            (reset_parser garbage (at (j + n)))
    unfolding split_content
    content_full =
        let e : min_ℤ (pos n) (pos (n + m)) ≡ pos n = min_left n (n + m) (omega arith) in
        rw (e, less_all n, less_front n m, consume_lem mem id capacity remain j n) refl

    pub rpc_header_short :
        split_rpc_header garbage id (pos n) (record {
          parse_type = m_rpc_header;
          parser = parser_with hr (pos (n + suc m)) r;
          buffer = at j;
        })
        ≡ done (pos 0) (record {
          parse_type = m_rpc_header;
          parser = parser_with hr (pos (suc m)) (add_header (new_guard id (at j) (pos n)) r);
          buffer = at (j + n);
        })
    unfolding split_rpc_header
    rpc_header_short =
        let e : min_ℤ (pos (n + suc m)) (pos n) ≡ pos n = min_right (n + suc m) n (omega arith) in
        rw
          (e, less_all n, less_front n (suc m), some_left m, consume_lem mem id capacity remain j n)
          refl

    pub rpc_header_full :
        split_rpc_header garbage id
          (pos (n + m))
          (record { parse_type = m_rpc_header; parser = parser_with hr (pos n) r; buffer = at j })
        ≡ done (pos m) (record {
          parse_type = m_rpc_content;
          parser = parser_with hr (rpc_body_length r) (add_header (new_guard id (at j) (pos n)) r);
          buffer = at (j + n);
        })
    unfolding split_rpc_header
    rpc_header_full =
        let e : min_ℤ (pos n) (pos (n + m)) ≡ pos n = min_left n (n + m) (omega arith) in
        rw (e, less_all n, less_front n m, consume_lem mem id capacity remain j n) refl

  module _ (rr : ℤ) (r : MRequest) (skip xs rest pre : List ℕ)
      (whole : skip ++ (xs ++ rest) ≡ mem id) (front : take (length pre) r.length_header ≡ pre)
      (room : length r.length_header ≡ 8) where
    abbrev overwritten : List ℕ
    overwritten = pre ++ xs ++ drop (length pre + length xs) r.length_header

    taken : slice (mem id) (pos (length skip)) (pos (length xs)) ≡ some xs
    taken = rw (← whole) (rw append_assoc at (slice_middle skip xs rest))

    copy_lengths_lem :
        (left : ℕ)
        → length pre + left ≡ 8
        → length xs ≤ left
        → copy_lengths garbage id (pos (length xs)) (record {
          parse_type = m_header;
          parser = parser_with (pos left) rr r;
          buffer = at (length skip);
        })
          ≡ done tt (record {
            parse_type = m_header;
            parser = parser_with (pos left) rr (set_lengths overwritten r);
            buffer = at (length skip);
          })
    unfolding copy_lengths
    copy_lengths_lem left e8 le =
        let k : 8 - left ≡ length pre = omega arith in
        rw
          (
            taken,
            copy_lengths,
            sub_pos 8 left (omega arith),
            k,
            copy_into_front r.length_header pre xs front (omega arith),
            copy_lengths,
          )
          refl

    pub header_short :
        (m : ℕ)
        → length pre + length xs + suc m ≡ 8
        → split_header garbage id (pos (length xs)) (record {
          parse_type = m_header;
          parser = parser_with (pos (length xs + suc m)) rr r;
          buffer = at (length skip);
        })
          ≡ done (pos 0) (record {
            parse_type = m_header;
            parser = parser_with (pos (suc m)) rr (set_lengths overwritten r);
            buffer = at (length skip + length xs);
          })
    unfolding split_header
    header_short m e8 =
        let n : min_ℤ (pos (length xs + suc m)) (pos (length xs)) ≡ pos (length xs) =
          min_right (length xs + suc m) (length xs) (omega arith) in
        rw
          (
            n,
            copy_lengths_lem (length xs + suc m) (omega arith) (omega arith),
            less_all (length xs),
            less_front (length xs) (suc m),
            some_left m,
            consume_lem mem id capacity remain (length skip) (length xs),
          )
          refl

    pub header_full :
        (m : ℕ)
        → length pre + length xs ≡ 8
        → split_header garbage id (pos (length xs + m)) (record {
          parse_type = m_header;
          parser = parser_with (pos (length xs)) rr r;
          buffer = at (length skip);
        })
          ≡ done (pos m) (record {
            parse_type = m_rpc_header;
            parser =
                parser_with
                  (pos 0)
                  (rpc_header_length (set_lengths (pre ++ xs) r))
                  (set_lengths (pre ++ xs) r);
            buffer = at (length skip + length xs);
          })
    unfolding split_header
    header_full m e8 =
        let n : min_ℤ (pos (length xs)) (pos (length xs + m)) ≡ pos (length xs) =
          min_left (length xs) (length xs + m) (omega arith) in
        let all : overwritten ≡ pre ++ xs =
          rw (e8 ∙ sym room, drop_all r.length_header) (append-nil (pre ++ xs)) in
        rw
          (
            n,
            copy_lengths_lem (length xs) (omega arith) (omega arith),
            all,
            less_all (length xs),
            less_front (length xs) m,
            consume_lem mem id capacity remain (length skip) (length xs),
          )
          refl
