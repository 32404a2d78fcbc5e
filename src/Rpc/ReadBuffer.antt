-- ===== src/Rpc/ReadBuffer.antt =====
-- src/buffer.h: `BufHandle` and `ReadBuffer`, the input stream over the pieces of a message.
-- The iterators are positions in the list; one that is not set, or that a `std::deque` invalidates,
-- is a fault to use. The bytes at a handle's guard are part of the handle.
pub mod Reading
use mg_raffle.Base.{
  ℕ, zero, suc, ◌+◌, ◌-◌, ◌≡◌, Bool, true, false, ◌&&◌, Option, none, some, List, [], ◌∷◌, ◌++◌,
  ◌==◌, if◌then◌else◌, get_elem?, length,
}
use mg_raffle.Base.Int.{ℤ, pos, ◌+ℤ◌, ◌-ℤ◌, ltb_ℤ, leb_ℤ, eq_ℤ}
use mg_raffle.Base.Run.{
  Run, done, fault, out_of_fuel, Cmd, pure, stop, starve, ◌>>=◌, ◌>>◌, modify, gets,
}

-- What `get_buf` of a guard points at: the bytes of its buffer.
abbrev pub SBufferGuard : Type 0
SBufferGuard = List ℕ

pub record BufHandle : Type 0 where
  pub offset : ℤ
  pub size : ℤ
  pub bufsp : SBufferGuard

pub record ReadBuffer : Type 0 where
  pub buf_list : List BufHandle
  pub cur_it : ℕ
  pub last_it : Option ℕ
  pub cur_pos : ℤ
  pub read_bytes : ℤ
  pub total_bytes : ℤ

-- The constructor sets all but `_total_bytes` and `_last_it`.
abbrev pub new_read_buffer : ℤ → ReadBuffer
new_read_buffer garbage = record {
  buf_list = [];
  cur_it = 0;
  last_it = none;
  cur_pos = pos 0;
  read_bytes = pos 0;
  total_bytes = garbage;
}

-- `push_back` leaves `_last_it` invalid.
unfoldable pub append : BufHandle → ReadBuffer → ReadBuffer
append h b = record b {
  buf_list = b.buf_list ++ h ∷ [];
  cur_it = 0;
  last_it = none;
  total_bytes = b.total_bytes +ℤ h.size;
}

-- The piece that `Next` hands out: its handle, where it begins in the buffer, and its size.
pub record Piece : Type 0 where
  pub handle : BufHandle
  pub start : ℤ
  pub size : ℤ

unfoldable pub next : Cmd ReadBuffer (Option Piece)
next b = elim (get_elem? b.buf_list b.cur_it) [
  | none ↦ done none b
  | some h ↦
      let size = h.size -ℤ b.cur_pos in
      done (some (record { handle = h; start = h.offset +ℤ b.cur_pos; size = size })) (record b {
        last_it = some b.cur_it;
        cur_it = b.cur_it + 1;
        read_bytes = b.read_bytes +ℤ size;
      })
]

-- `--_cur_it`, and the rest of the block under it
unfoldable pub step_back : ℤ → Cmd ReadBuffer (Unit {0})
step_back count b = elim b.cur_it [
  | zero ↦ fault
  | suc i ↦ elim (get_elem? b.buf_list i) [
    | none ↦ fault
    | some h ↦ done tt (record b { cur_it = i; cur_pos = h.size -ℤ count })
  ]
]

unfoldable pub back_up : ℤ → Cmd ReadBuffer (Unit {0})
unfolding step_back
back_up count = do
  if ltb_ℤ (pos 0) count then step_back count else pure tt
  modify λ b. record b { read_bytes = b.read_bytes -ℤ count }

-- Taking the first block away moves the others one place down; taking away another one leaves
-- every iterator of a deque invalid, which is a fault here.
unfoldable pub erase : Cmd ReadBuffer (Unit {0})
erase b = elim b.last_it [
  | none ↦ fault
  | some i ↦ if i == b.cur_it then done tt b else elim b.buf_list [
    | [] ↦ fault
    | h ∷ rest ↦
        if i == 0
        then done tt (record b { buf_list = rest; cur_it = b.cur_it - 1; last_it = none })
        else fault
  ]
]

abbrev pub is_zero : ℤ → Bool
is_zero n = eq_ℤ n (pos 0)

-- The body of the loop of `Skip` after `Next`, with the rounds that follow.
unfoldable pub skip_piece : (ℤ → Cmd ReadBuffer Bool) → ℤ → Option Piece → Cmd ReadBuffer Bool
skip_piece rest count none = pure (is_zero count)
skip_piece rest count (some p) =
    if ltb_ℤ count p.size
    then (back_up (p.size -ℤ count) >> rest (count -ℤ count))
    else rest (count -ℤ p.size)

-- The loop of `Skip`, a round for each block at most.
unfoldable pub skip_loop : ℕ → ℤ → Cmd ReadBuffer Bool
unfolding next
skip_loop zero count = starve
skip_loop (suc rounds) count =
    if ltb_ℤ (pos 0) count
    then (next >>= skip_piece (skip_loop rounds) count)
    else pure (is_zero count)

unfoldable pub skip : ℤ → Cmd ReadBuffer Bool
unfolding skip_loop
skip count b = skip_loop (length b.buf_list - b.cur_it + 2) count b

unfoldable pub byte_count : ReadBuffer → ℤ
byte_count b = b.read_bytes
