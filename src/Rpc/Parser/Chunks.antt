-- ===== src/Rpc/Parser/Chunks.antt =====
-- `parser_msg` on a message that arrives in pieces.
use mathlib.Core.List.{append_assoc, append-nil}
use mg_raffle.Base.{
  ℕ, ◌+◌, ◌-◌, ◌≡◌, ◌≤◌, ◌<◌, refl, sym, List, [], ◌∷◌, ◌++◌, arith, if◌then◌else◌, length,
  length-append, ltb, take, drop, ap, ◌∙◌, ◌==◌,
}
use mg_raffle.Base.Int.{pos, pos_part, ◌+ℤ◌, ◌-ℤ◌, min_ℤ}
use mathlib.Core.Bool.{true, false}
use mg_raffle.Base.Run.{done}
use mg_raffle.Rpc.ReadBuffer.{BufHandle, append}
use mg_raffle.Rpc.Parser.{
  Request, Parser, rpc_header, rpc_message, parsed, parser_msg, parse_header, parse_message,
  finish_header, copy_header,
}
use mg_raffle.Rpc.Parser.Bytes.{int32_at}
use mg_raffle.Rpc.Parser.Slices.{
  add_pos, sub_pos, min_left, slice_middle, copy_into_front, drop_all,
}

-- The bytes that handles refer to.
abbrev pub handle_bytes : BufHandle → List ℕ
handle_bytes h = take (pos_part h.size) (drop (pos_part h.offset) h.bufsp)

abbrev pub contents : List BufHandle → List ℕ
contents [] = []
contents (h ∷ hs) = handle_bytes h ++ contents hs

pub contents-append : (xs ys : List BufHandle) → contents (xs ++ ys) ≡ contents xs ++ contents ys
contents-append [] ys = refl
contents-append (x ∷ xs) ys = rw (contents-append xs ys, append_assoc)

abbrev pub received : Parser → List ℕ
received p = contents (p.requestsp).read_buf.buf_list

-- A parser in the middle of a header, and one in the middle of a message.
abbrev pub at_header : List ℕ → Request → ℕ → Parser
at_header target r n = record {
  recieve_header = target;
  type = rpc_header;
  requestsp = r;
  module_has_read_size = pos n;
}

abbrev pub at_message : List ℕ → Request → ℕ → Parser
at_message hdr r n = record {
  recieve_header = hdr;
  type = rpc_message;
  requestsp = r;
  module_has_read_size = pos n;
}

abbrev pub add_handle : BufHandle → Request → Request
add_handle h r = record r { read_buf = append h r.read_buf }

module _ (skip chunk rest : List ℕ) (r : Request) where
  copy_header_lem :
      (target pre : List ℕ)
      → take (length pre) target ≡ pre
      → length pre + length chunk ≤ length target
      → copy_header
          (skip ++ chunk ++ rest)
          (pos (length skip))
          (pos (length chunk))
          (at_header target r (length pre))
        ≡ done tt
            (at_header (pre ++ chunk ++ drop (length pre + length chunk) target) r (length pre))
  unfolding copy_header
  copy_header_lem target pre front le = rw (
    slice_middle skip chunk rest,
    copy_header,
    copy_into_front target pre chunk front le,
    copy_header,
  )

  -- `parse_header` when `chunk` is what it takes of the `n` bytes at hand.
  pub parse_header_lem :
      (target pre : List ℕ) (n : ℕ)
      → take (length pre) target ≡ pre
      → length pre + length chunk ≤ length target
      → length pre < 12
      → min_ℤ (pos 12 -ℤ pos (length pre)) (pos n) ≡ pos (length chunk)
      → length chunk ≤ n
      → let now =
          at_header
            (pre ++ chunk ++ drop (length pre + length chunk) target)
            r
            (length pre + length chunk) in
        parse_header
          (skip ++ chunk ++ rest)
          (pos (length skip))
          (pos n)
          (at_header target r (length pre))
        ≡ (if ltb (length pre + length chunk) 12
            then done
                (parsed (pos 0) (pos (length skip + length chunk)) (pos (n - length chunk)))
                now
            else finish_header
                (skip ++ chunk ++ rest)
                (pos (length skip + length chunk))
                (pos (n - length chunk))
                now)
  unfolding parse_header
  parse_header_lem target pre n front le short real few =
      let t : ltb (length pre + 0) 12 ≡ true = ground arith in
      rw
        (
          t,
          real,
          copy_header_lem target pre front le,
          add_pos (length skip) (length chunk),
          add_pos (length pre) (length chunk),
          sub_pos n (length chunk) few,
        )
        (ground arith)

-- A header of twelve bytes that announces `size` bytes, as its first two fields confirm.
pub record IsHeader (hdr : List ℕ) (size : ℕ) : Type 0 where
  pub twelve : length hdr ≡ 12
  pub total : int32_at hdr 8 ≡ pos size
  pub parts : int32_at hdr 0 +ℤ int32_at hdr 4 ≡ pos size

module _ (hdr : List ℕ) (size : ℕ) (ok : IsHeader hdr size) (r : Request) where
  finish_header_lem :
      (buf : List ℕ) (c m n : ℕ)
      → finish_header buf (pos c) (pos m) (at_header hdr r n) ≡ (
          if m == 0
          then done (parsed (pos 0) (pos c) (pos 0)) (at_message hdr r 0)
          else parse_message buf (pos c) (pos m) (at_message hdr r 0))
  unfolding finish_header
  finish_header_lem buf c m n = rw (ok.total, ok.parts) (ground arith)

  -- The bytes that complete the header; `m` more are at hand.
  pub header_done :
      (skip h more target pre : List ℕ) (m : ℕ)
      → take (length pre) target ≡ pre
      → length target ≡ 12
      → length pre < 12
      → pre ++ h ≡ hdr
      → parser_msg
          (skip ++ h ++ more)
          (pos (length skip))
          (pos (length h + m))
          (at_header target r (length pre))
        ≡ (if m == 0
            then done (parsed (pos 0) (pos (length skip + length h)) (pos 0)) (at_message hdr r 0)
            else parse_message
                (skip ++ h ++ more)
                (pos (length skip + length h))
                (pos m)
                (at_message hdr r 0))
  unfolding parser_msg
  header_done skip h more target pre m front room short e =
      let n : length pre + length h ≡ 12 =
        omega (arith, ok.twelve, ap length e, length-append pre h) in
      let d : 12 - length pre ≡ length h = omega arith in
      let real : min_ℤ (pos 12 -ℤ pos (length pre)) (pos (length h + m)) ≡ pos (length h) =
        rw (sub_pos 12 (length pre) (omega arith), d) (min_left (length h) _ (omega arith)) in
      let whole : pre ++ h ++ drop (length pre + length h) target ≡ hdr =
        rw (n ∙ sym room, drop_all target, append-nil) e in
      let full : ltb (length pre + length h) 12 ≡ false = ground arith in
      let left : length h + m - length h ≡ m = omega arith in
      parse_header_lem skip h more r target pre (length h + m) front (omega arith) short real
        (omega arith)
      ∙ rw (full, left, whole)
          (finish_header_lem (skip ++ h ++ more) (length skip + length h) m (length pre + length h))

  -- `parse_message` when `chunk` is what it takes of the `n` bytes at hand.
  pub parse_message_lem :
      (skip chunk rest pre : List ℕ) (n : ℕ)
      → min_ℤ (pos size -ℤ pos (length pre)) (pos n) ≡ pos (length chunk)
      → length chunk ≤ n
      → let handle : BufHandle = record {
        offset = pos (length skip);
        size = pos (length chunk);
        bufsp = skip ++ chunk ++ rest;
      } in
        parse_message
          (skip ++ chunk ++ rest)
          (pos (length skip))
          (pos n)
          (at_message hdr r (length pre))
        ≡ (if ltb (length pre + length chunk) size
            then done
                (parsed (pos 0) (pos (length skip + length chunk)) (pos (n - length chunk)))
                (at_message hdr (add_handle handle r) (length pre + length chunk))
            else done
                (parsed (pos 1) (pos (length skip + length chunk)) (pos (n - length chunk)))
                (at_header hdr (add_handle handle r) 0))
  unfolding parse_message
  parse_message_lem skip chunk rest pre n real few =
      rw
        (
          ok.total,
          real,
          add_pos (length skip) (length chunk),
          add_pos (length pre) (length chunk),
          sub_pos n (length chunk) few,
        )
        (ground arith)
