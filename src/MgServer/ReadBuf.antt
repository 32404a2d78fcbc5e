-- ===== src/MgServer/ReadBuf.antt =====
-- gencode/mg_server/server/buffer_manager.h: `MReadBuf`, the stream over the parts of a message.
-- An iterator of the `std::list` is a position; one that is not set or was erased is a fault to use.
use mg_raffle.Base.{
  ℕ, zero, suc, ◌+◌, ◌-◌, Bool, Option, none, some, List, [], ◌∷◌, ◌++◌, ◌==◌, if◌then◌else◌,
  get_elem?, length, ltb,
}
use mg_raffle.Base.Int.{ℤ, pos, ◌+ℤ◌, ◌-ℤ◌, ltb_ℤ, eq_ℤ}
use mg_raffle.Base.Run.{done, fault, Cmd, pure, starve, ◌>>=◌, ◌>>◌, modify}
use mg_raffle.MgServer.Buffers.{MBufferGuard}

pub record MReadBuf : Type 0 where
  pub buf_list : List MBufferGuard
  pub cur_it : ℕ
  pub last_it : Option ℕ
  pub cur_pos : ℤ
  pub read_bytes : ℤ
  pub total_bytes : ℤ

abbrev pub new_read_buf : MReadBuf
new_read_buf = record {
  buf_list = [];
  cur_it = 0;
  last_it = none;
  cur_pos = pos 0;
  read_bytes = pos 0;
  total_bytes = pos 0;
}

unfoldable pub append : MBufferGuard → MReadBuf → MReadBuf
append g b = record b {
  buf_list = b.buf_list ++ g ∷ [];
  cur_it = 0;
  total_bytes = b.total_bytes +ℤ g.size;
}

-- What `Next` hands out: the guard, where the bytes begin in its buffer, and how many they are.
pub record Piece : Type 0 where
  pub guard : MBufferGuard
  pub start : ℤ
  pub size : ℤ

unfoldable pub next : Cmd MReadBuf (Option Piece)
next b = elim (get_elem? b.buf_list b.cur_it) [
  | none ↦ done none b
  | some g ↦
      let size = g.size -ℤ b.cur_pos in
      done (some (record { guard = g; start = g.index +ℤ b.cur_pos; size = size })) (record b {
        last_it = some b.cur_it;
        cur_it = b.cur_it + 1;
        read_bytes = b.read_bytes +ℤ size;
      })
]

-- `--_cur_it`, and the rest of the block under it
unfoldable pub step_back : ℤ → Cmd MReadBuf (Unit {0})
step_back count b = elim b.cur_it [
  | zero ↦ fault
  | suc i ↦ elim (get_elem? b.buf_list i) [
    | none ↦ fault
    | some g ↦ done tt (record b { cur_it = i; cur_pos = g.size -ℤ count })
  ]
]

unfoldable pub back_up : ℤ → Cmd MReadBuf (Unit {0})
unfolding step_back
back_up count = do
  if ltb_ℤ (pos 0) count then step_back count else pure tt
  modify λ b. record b { read_bytes = b.read_bytes -ℤ count }

abbrev pub remove_at : List MBufferGuard → ℕ → List MBufferGuard
remove_at [] i = []
remove_at (g ∷ gs) zero = gs
remove_at (g ∷ gs) (suc i) = g ∷ remove_at gs i

-- The blocks behind the erased one move a place down; the value is the guard that is destroyed.
unfoldable pub erase : Cmd MReadBuf (Option MBufferGuard)
erase b = elim b.last_it [
  | none ↦ fault
  | some i ↦ if b.cur_it == i then done none b else elim (get_elem? b.buf_list i) [
    | none ↦ fault
    | some g ↦ done (some g) (record b {
      buf_list = remove_at b.buf_list i;
      cur_it = (if ltb i b.cur_it then b.cur_it - 1 else b.cur_it);
      last_it = none;
    })
  ]
]

-- The body of the loop of `Skip` after `Next`, with the rounds that follow.
unfoldable pub skip_piece : (ℤ → Cmd MReadBuf Bool) → ℤ → Option Piece → Cmd MReadBuf Bool
skip_piece rest count none = pure (eq_ℤ count (pos 0))
skip_piece rest count (some p) =
    if ltb_ℤ count p.size
    then (back_up (p.size -ℤ count) >> rest (count -ℤ count))
    else rest (count -ℤ p.size)

unfoldable pub skip_loop : ℕ → ℤ → Cmd MReadBuf Bool
unfolding next skip_piece
skip_loop zero count = starve
skip_loop (suc rounds) count =
    if ltb_ℤ (pos 0) count
    then (next >>= skip_piece (skip_loop rounds) count)
    else pure (eq_ℤ count (pos 0))

unfoldable pub skip : ℤ → Cmd MReadBuf Bool
unfolding skip_loop
skip count b = skip_loop (length b.buf_list - b.cur_it + 2) count b
