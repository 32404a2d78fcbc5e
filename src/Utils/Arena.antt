-- ===== src/Utils/Arena.antt =====
-- utils/buffer.h: `mg::BufferPool`, an arena that hands out parts of 4096-byte blocks. What `new`
-- gives is an argument; the spin lock makes each operation one step.
pub mod Blocks
use mg_raffle.Base.{
  ℕ, ◌+◌, ◌-◌, ◌*◌, ◌%◌, ◌^◌, Bool, true, false, List, [], ◌∷◌, ◌++◌, ◌==◌, not, if◌then◌else◌, ltb,
  leb,
}
use mg_raffle.Base.Run.{Run, done, fault, Cmd, pure, ◌>>=◌, ◌>>◌, modify, gets, check}
use mg_raffle.Base.Pointers.{Ptr, null}

abbrev pub buffer_block_size : ℕ
buffer_block_size = 4 * 1024

abbrev pub large_block_size : ℕ
large_block_size = 1024

-- A block that `new char[size]` gave.
pub record Block : Type 0 where
  pub start : Ptr
  pub size : ℕ

pub record BufferPool : Type 0 where
  pub buffer_pool : List Block
  pub memory_usage : ℕ
  pub cur_ptr : Ptr
  pub cur_remain : ℕ

abbrev pub new_buffer_pool : BufferPool
new_buffer_pool = record { buffer_pool = []; memory_usage = 0; cur_ptr = null; cur_remain = 0 }

unfoldable pub allocate_new_block : Ptr → ℕ → Cmd BufferPool Ptr
allocate_new_block fresh size s = done fresh (record s {
  buffer_pool = s.buffer_pool ++ record { start = fresh; size = size } ∷ [];
  memory_usage = (s.memory_usage + size) % 2 ^ 64;
})

-- `_cur_ptr += n` and `_cur_remain -= n`
abbrev pub advance : ℕ → Cmd BufferPool (Unit {0})
advance n =
    modify
      λ s. record s { cur_ptr = s.cur_ptr + n; cur_remain = (s.cur_remain + 2 ^ 64 - n) % 2 ^ 64 }

unfoldable pub allocate_fallback : Ptr → ℕ → Cmd BufferPool Ptr
unfolding allocate_new_block
allocate_fallback fresh size =
    if leb large_block_size size
    then allocate_new_block fresh size
    else (allocate_new_block fresh buffer_block_size >>= λ block.
        modify (λ s. record s { cur_ptr = block; cur_remain = buffer_block_size })
        >> advance size
        >> pure block)

unfoldable pub allocate : Ptr → ℕ → Cmd BufferPool Ptr
unfolding allocate_fallback
allocate fresh size = do
  check (ltb 0 size)
  remain ← gets λ s. s.cur_remain
  result ← gets λ s. s.cur_ptr
  if ltb size remain then (advance size >> pure result) else allocate_fallback fresh size

-- `align & (align - 1)` and `_cur_ptr & (align - 1)` for the eight bytes of a pointer, a power of
-- two.
abbrev pub align : ℕ
align = 8

abbrev pub align_and_below : ℕ
align_and_below = align % align

unfoldable pub allocate_align : Ptr → ℕ → Cmd BufferPool Ptr
unfolding allocate_fallback
allocate_align fresh size = do
  check (ltb 0 size)
  check (not (align_and_below == 0))
  cur_ptr ← gets λ s. s.cur_ptr
  remain ← gets λ s. s.cur_remain
  let excess = cur_ptr % align
  let slot = if excess == 0 then 0 else align - excess
  let needed = size + slot
  if ltb remain needed
      then allocate_fallback fresh size
      else (advance needed >> pure (cur_ptr + slot))
