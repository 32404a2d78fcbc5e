-- ===== src/MgServer/Buffers.antt =====
-- gencode/mg_server/server/buffer_manager.h and buffer_manager.cpp: `MBuffer`, the pool of them, and
-- the guard that gives a buffer back. A `shared_ptr` to a buffer is its number in the memory.
use mg_raffle.Base.{
  ℕ, zero, suc, ◌+◌, Bool, false, Option, none, some, List, [], ◌∷◌, ◌++◌, if◌then◌else◌,
}
use mg_raffle.Base.Int.{ℤ, pos, ◌+ℤ◌, ltb_ℤ, eq_ℤ}
use mg_raffle.Base.Pointers.{put}

pub record MBuffer : Type 0 where
  pub buf : List ℕ
  pub capacity : ℤ
  pub cur_index : ℤ
  pub remain : ℤ

-- What `new` returned, and the size that was asked for.
unfoldable pub new_buffer : Option (List ℕ) → ℤ → MBuffer
new_buffer none capacity = record { buf = []; capacity = pos 0; cur_index = pos 0; remain = pos 0 }
new_buffer (some bytes) capacity = record {
  buf = bytes;
  capacity = capacity;
  cur_index = pos 0;
  remain = capacity;
}

unfoldable pub consume : ℤ → MBuffer → MBuffer
consume offset b = record b { cur_index = b.cur_index +ℤ offset }

unfoldable pub is_empty : MBuffer → Bool
is_empty b = eq_ℤ b.remain (pos 0)

unfoldable pub reset : MBuffer → MBuffer
reset b = record b { cur_index = pos 0; remain = b.capacity }

-- All buffers that there are, and `_pool1024`.
pub record Memory : Type 0 where
  pub buffers : ℕ → MBuffer
  pub pool : List ℕ

abbrev pub buffer_pool_size : ℕ
buffer_pool_size = 1024

-- One round of the constructor's loop: buffer `i`, kept if it has room.
unfoldable pub add_buffer : ℕ → Option (List ℕ) → Memory → Memory
unfolding new_buffer
add_buffer i bytes m =
    let b = new_buffer bytes (pos 1024) in
    if ltb_ℤ (pos 0) b.capacity
    then record { buffers = put i b m.buffers; pool = m.pool ++ i ∷ [] }
    else m

-- `rounds` more rounds, from buffer `i` on.
unfoldable pub fill_pool : ℕ → ℕ → (ℕ → Option (List ℕ)) → Memory → Memory
unfolding add_buffer
fill_pool zero i new m = m
fill_pool (suc rounds) i new m = fill_pool rounds (i + 1) new (add_buffer i (new i) m)

unfoldable pub new_pool : (ℕ → Option (List ℕ)) → (ℕ → MBuffer) → Memory
unfolding fill_pool
new_pool new none_yet = fill_pool buffer_pool_size 0 new (record { buffers = none_yet; pool = [] })

unfoldable pub allocate : Memory → Option ℕ × Memory
allocate m = elim m.pool [ [] ↦ (none, m) | b ∷ rest ↦ (some b, record m { pool = rest }) ]

unfoldable pub give_back : ℕ → Memory → Memory
give_back b m = record m { pool = m.pool ++ b ∷ [] }

-- `MBufferGuard`: where its bytes begin in the buffer, and how many they are.
pub record MBufferGuard : Type 0 where
  pub buf : ℕ
  pub buf_free : Bool
  pub size : ℤ
  pub index : ℤ

unfoldable pub new_guard : ℕ → MBuffer → ℤ → MBufferGuard
new_guard b at size = record { buf = b; buf_free = false; size = size; index = at.cur_index }

-- The destructor
unfoldable pub release_guard : MBufferGuard → Memory → Memory
unfolding give_back
release_guard g m = if g.buf_free then m else give_back g.buf m

unfoldable pub release_all : List MBufferGuard → Memory → Memory
unfolding release_guard
release_all [] m = m
release_all (g ∷ gs) m = release_all gs (release_guard g m)
