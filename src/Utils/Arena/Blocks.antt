-- ===== src/Utils/Arena/Blocks.antt =====
-- The regions that the arena of utils/buffer.h hands out.
use mg_raffle.Base.{
  ℕ, ◌+◌, ◌-◌, ◌%◌, ◌^◌, ◌≡◌, ◌<◌, ◌≤◌, ◌⊎◌, inl, inr, true, List, [], ◌∷◌, ◌++◌, arith, ltb, leb,
  Bool-cases,
}
use mg_raffle.Base.Run.{Run, done, fault}
use mg_raffle.Base.Pointers.{Ptr}
use mg_raffle.Utils.Arena.{
  Block, BufferPool, allocate, allocate_align, allocate_fallback, allocate_new_block,
  large_block_size,
}

-- One of the blocks has all of the region.
abbrev pub Inside : Ptr → ℕ → List Block → Type 0
Inside p n [] = ⊥
Inside p n (b ∷ bs) = ((b.start ≤ p) × (p + n ≤ b.start + b.size)) ⊎ Inside p n bs

-- The part not yet handed out is inside a block, or empty, and shorter than a 64-bit number.
abbrev pub IsArena : BufferPool → Type 0
IsArena s =
    (Inside s.cur_ptr s.cur_remain s.buffer_pool ⊎ (s.cur_remain ≡ 0)) × (s.cur_remain < 2 ^ 64)

Inside-last :
    (p start : Ptr) (n size : ℕ) (bs : List Block)
    → start ≤ p
    → p + n ≤ start + size
    → Inside p n (bs ++ record { start = start; size = size } ∷ [])
Inside-last p start n size [] lo hi = inl (lo, hi)
Inside-last p start n size (b ∷ bs) lo hi = inr (Inside-last p start n size bs lo hi)

Inside-part :
    (p q : Ptr) (n m : ℕ) (bs : List Block) → p ≤ q → q + m ≤ p + n → Inside p n bs → Inside q m bs
Inside-part p q n m [] lo hi h = h
Inside-part p q n m (b ∷ bs) lo hi (inl h) = inl (omega arith, omega arith)
Inside-part p q n m (b ∷ bs) lo hi (inr h) = inr (Inside-part p q n m bs lo hi h)

Inside-append :
    (p : Ptr) (n : ℕ) (bs : List Block) (b : Block) → Inside p n bs → Inside p n (bs ++ b ∷ [])
Inside-append p n [] b h = absurd h
Inside-append p n (x ∷ xs) b (inl h) = inl h
Inside-append p n (x ∷ xs) b (inr h) = inr (Inside-append p n xs b h)

-- What an allocation owes: a region inside a block, apart from what is still to be handed out.
abbrev pub Allocated : ℕ → Run BufferPool Ptr → Type 0
Allocated size (done p s) =
    Inside p size s.buffer_pool
    × IsArena s
    × ((p + size ≤ s.cur_ptr) ⊎ (s.cur_ptr + s.cur_remain ≤ p))
Allocated size _ = ⊥

module _ (fresh : Ptr) (size : ℕ) (s : BufferPool) (ok : IsArena s) (some_bytes : 0 < size) where
  IsArena-append :
      (b : Block)
      → (Inside s.cur_ptr s.cur_remain (s.buffer_pool ++ b ∷ []) ⊎ (s.cur_remain ≡ 0))
        × (s.cur_remain < 2 ^ 64)
  IsArena-append b = (
    elim ok.0 [
      | inl h ↦ inl (Inside-append s.cur_ptr s.cur_remain s.buffer_pool b h)
      | inr h ↦ inr h
    ],
    ok.1,
  )

  wrap_sub : (r n : ℕ) → n ≤ r → r < 2 ^ 64 → (r + 2 ^ 64 - n) % 2 ^ 64 ≡ r - n
  wrap_sub r n le small = omega arith

  fallback-Allocated :
      (fresh + size ≤ s.cur_ptr) ⊎ (s.cur_ptr + s.cur_remain ≤ fresh)
      → Allocated size (allocate_fallback fresh size s)
  unfolding allocate_fallback allocate_new_block
  fallback-Allocated away = elim (Bool-cases (leb large_block_size size)) [
    | inl large ↦ rw large (
      Inside-last fresh fresh size size s.buffer_pool (omega arith) (omega arith),
      IsArena-append _,
      away,
    )
    | inr small ↦
        let few : size < 1024 = ground arith in
        let rest : (4096 + 2 ^ 64 - size) % 2 ^ 64 ≡ 4096 - size = omega arith in
        rw (small, rest)
          (
            Inside-last fresh fresh size 4096 s.buffer_pool (omega arith) (omega arith),
            (
              inl (
                  Inside-last (fresh + size) fresh (4096 - size) 4096 s.buffer_pool (omega arith)
                    (omega arith)),
              omega arith,
            ),
            inl (omega arith),
          )
  ]

  -- An allocation of at least one byte from a well-formed arena succeeds, if `new` gives a block
  -- away from the part not yet handed out: its region is inside a block and apart from that part,
  -- and the arena stays well formed.
  pub allocate-Allocated :
      (fresh + size ≤ s.cur_ptr) ⊎ (s.cur_ptr + s.cur_remain ≤ fresh)
      → Allocated size (allocate fresh size s)
  unfolding allocate
  allocate-Allocated away =
      let t : ltb 0 size ≡ true = ground arith in
      elim (Bool-cases (ltb size s.cur_remain)) [
        | inl room ↦
            let lt : size < s.cur_remain = ground arith in
            let rest = wrap_sub s.cur_remain size (omega arith) ok.1 in
            let here : Inside s.cur_ptr s.cur_remain s.buffer_pool = elim ok.0 [
              | inl h ↦ h
              | inr none_left ↦ absurd (omega arith)
            ] in
            rw (t, room, rest)
              (
                Inside-part s.cur_ptr s.cur_ptr s.cur_remain size s.buffer_pool (omega arith)
                    (omega arith) here,
                (
                  inl (
                      Inside-part s.cur_ptr (s.cur_ptr + size) s.cur_remain (s.cur_remain - size)
                        s.buffer_pool (omega arith) (omega arith) here),
                  omega arith,
                ),
                inl (omega arith),
              )
        | inr full ↦ rw (t, full) (fallback-Allocated away)
      ]

-- The alignment of a pointer never passes the assertion on it: every call of `allocate_align`
-- stops there or at the assertion before it.
pub allocate_align_faults :
    (fresh : Ptr) (size : ℕ) (s : BufferPool) → allocate_align fresh size s ≡ fault
unfolding allocate_align
allocate_align_faults fresh size s = ground arith
