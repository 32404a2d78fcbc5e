-- ===== src/MgServer/Refine/Held.antt =====
-- What a parser of gencode/mg_server/server holds of a message, by the bytes that its guards
-- refer to; `mem` has the bytes of every buffer.
use mathlib.Core.List.{append_assoc, append-nil}
use mg_raffle.Base.{
  ℕ, ◌+◌, ◌-◌, ◌≡◌, ◌<◌, ◌≤◌, refl, Option, none, some, List, [], ◌∷◌, ◌++◌, length, take, drop,
}
use mg_raffle.Base.Int.{ℤ, pos, pos_part}
use mg_raffle.Base.Run.{Run, done, fault, out_of_fuel}
use mg_raffle.Rpc.Parser.Slices.{add_pos, take-append_length, drop-append_length}
use mg_raffle.MgServer.Buffers.{MBuffer, MBufferGuard, consume, new_guard}
use mg_raffle.MgServer.ReadBuf.{MReadBuf, append}
use mg_raffle.MgServer.Parser.{
  ParseType, m_magic, m_header, m_rpc_header, m_rpc_content, MRequest, MParser, Split,
}
use mg_raffle.MgServer.Frame.{Message, Frame, start, decode}

module _ (mem : ℕ → List ℕ) where
  abbrev pub guard_bytes : MBufferGuard → List ℕ
  guard_bytes g = take (pos_part g.size) (drop (pos_part g.index) (mem g.buf))

  abbrev pub contents : List MBufferGuard → List ℕ
  contents [] = []
  contents (g ∷ gs) = guard_bytes g ++ contents gs

  abbrev pub bytes_of : MReadBuf → List ℕ
  bytes_of b = contents b.buf_list

  contents-append : (xs ys : List MBufferGuard) → contents (xs ++ ys) ≡ contents xs ++ contents ys
  contents-append [] ys = refl
  contents-append (x ∷ xs) ys = rw (contents-append xs ys, append_assoc)

  pub bytes_of-append :
      (g : MBufferGuard) (b : MReadBuf) → bytes_of (append g b) ≡ bytes_of b ++ guard_bytes g
  unfolding append
  bytes_of-append g b = rw (contents-append b.buf_list (g ∷ []), append-nil) refl

  abbrev pub message_of : MRequest → Message
  message_of r = record { head = bytes_of r.rpc_header_buf; body = bytes_of r.rpc_body_buf }

  abbrev pub HoldsNothing : MRequest → Type 0
  HoldsNothing r =
      (length r.length_header ≡ 8)
      × (bytes_of r.rpc_header_buf ≡ [])
      × (bytes_of r.rpc_body_buf ≡ [])

  abbrev pub IsClean : MParser → Type 0
  IsClean p = (p.header_remain ≡ pos 8) × HoldsNothing p.req

  -- The parser has read the frame's bytes of its part, and lacks as many as the frame.
  abbrev pub Reads : ParseType → ℕ → List ℕ → List ℕ → List ℕ → MParser → Type 0
  Reads m_magic n ls h b p = (n ≡ 0) × IsClean p
  Reads m_header n ls h b p =
      (p.header_remain ≡ pos n)
      × (length ls + n ≡ 8)
      × (0 < n)
      × (take (length ls) (p.req).length_header ≡ ls)
      × HoldsNothing p.req
  Reads m_rpc_header n ls h b p =
      (p.rpc_remain ≡ pos n)
      × ((p.req).length_header ≡ ls)
      × (length ls ≡ 8)
      × (bytes_of (p.req).rpc_header_buf ≡ h)
      × (bytes_of (p.req).rpc_body_buf ≡ [])
  Reads m_rpc_content n ls h b p =
      (p.rpc_remain ≡ pos n)
      × ((p.req).length_header ≡ ls)
      × (length ls ≡ 8)
      × (bytes_of (p.req).rpc_header_buf ≡ h)
      × (bytes_of (p.req).rpc_body_buf ≡ b)

  abbrev pub Holds : Frame → ParseType → MParser → Type 0
  Holds f st p = (st ≡ f.stage) × Reads f.stage f.left f.lengths f.head f.body p

  module _ (id : ℕ) (capacity remain : ℤ) where
    -- The buffer whose bytes are being read, at position `k`.
    abbrev pub buffer_at : ℕ → MBuffer
    buffer_at k = record { buf = mem id; capacity = capacity; cur_index = pos k; remain = remain }

    pub consume_lem : (k n : ℕ) → consume (pos n) (buffer_at k) ≡ buffer_at (k + n)
    unfolding consume
    consume_lem k n = rw (add_pos k n) refl

    pub new_guard_bytes :
        (skip xs rest : List ℕ)
        → skip ++ (xs ++ rest) ≡ mem id
        → guard_bytes (new_guard id (buffer_at (length skip)) (pos (length xs))) ≡ xs
    unfolding new_guard
    new_guard_bytes skip xs rest e =
        rw (← e, drop-append_length skip (xs ++ rest), take-append_length xs rest) refl

    module _ (tail : List ℕ) (from : ℕ) where
      -- The outcome of `SplitMessage` for what `decode` makes of the bytes: all bytes are read
      -- and the rest of the message is awaited, or a message is complete and `cs` is left, which
      -- begins at `from` or later.
      abbrev pub Splits : Frame → List Message → Run Split (Option MRequest × ℤ) → Type 0
      Splits f ms (done (none, len) s) =
          (len ≡ pos 0)
          × (ms ≡ [])
          × (s.buffer ≡ buffer_at (length (mem id) - length tail))
          × Holds f s.parse_type s.parser
      Splits f ms (done (some r, len) s) =
          (skip : List ℕ) × (cs : List ℕ) × (skip ++ (cs ++ tail) ≡ mem id)
          × (from ≤ length skip)
          × (len ≡ pos (length cs))
          × (s.buffer ≡ buffer_at (length skip))
          × (ns : List Message) × (ms ≡ message_of r ∷ ns)
          × (decode cs (start 0) ≡ some (f, ns))
          × Holds (start 0) s.parse_type s.parser
      Splits f ms fault = ⊥
      Splits f ms out_of_fuel = ⊥
