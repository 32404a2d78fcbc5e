-- ===== src/Core/Pool.antt =====
-- core/mg_pool.h: a pool of pages for small allocations and of single large ones. A block is at the
-- address of its `_l`, its first member; what `malloc` gives is an argument.
pub mod Pages
use mg_raffle.Base.{
  ℕ, zero, suc, ◌+◌, ◌-◌, ◌*◌, ◌%◌, ◌^◌, Bool, true, false, ◌&&◌, not, List, [], ◌∷◌, ◌==◌,
  if◌then◌else◌, ltb, leb,
}
use mg_raffle.Base.Run.{Run, done, fault, Cmd, pure, starve, check, ◌>>=◌, ◌>>◌, modify, gets}
use mg_raffle.Base.Pointers.{Ptr, null, put, has}
use mg_raffle.Core.MgList.{Links, init_list, insert_list_end}

abbrev pub page_size : ℕ
page_size = 4 * 1024

-- `sizeof` of the two kinds of blocks, on a 64-bit machine
abbrev pub small_block_size : ℕ
small_block_size = 48

abbrev pub large_block_size : ℕ
large_block_size = 32

abbrev pub max_alloc_from_pool : ℕ
max_alloc_from_pool = page_size - 1 - small_block_size

-- `mg_pool_t`, with the addresses of its two lists, and the blocks at all addresses; the blocks
-- that have been allocated and not freed are listed.
pub record Pool : Type 0 where
  pub max : ℕ
  pub current : Ptr
  pub large : Ptr
  pub small : Ptr
  pub links : Links
  pub blocks : List Ptr
  pub head : Ptr → Ptr
  pub last : Ptr → Ptr
  pub end : Ptr → Ptr
  pub failed : Ptr → ℕ

abbrev pub large_at : Ptr → Ptr
large_at p = p + 16

abbrev pub small_at : Ptr → Ptr
small_at p = p + 32

-- The pool at `p`, which `malloc` gave and which is not null; `links` are those before the call.
unfoldable pub create_pool : Ptr → ℕ → Links → Pool
create_pool p size links = record {
  max = if ltb size max_alloc_from_pool then size else max_alloc_from_pool;
  current = small_at p;
  large = large_at p;
  small = small_at p;
  links = init_list (small_at p) (init_list (large_at p) links);
  blocks = [];
  head = λ q. null;
  last = λ q. null;
  end = λ q. null;
  failed = λ q. 0;
}

-- A member of a block; anywhere else it is out of bounds.
unfoldable pub field : {A : Type 0} → (Pool → Ptr → A) → Ptr → Cmd Pool A
field f p s = if has p s.blocks then done (f s p) s else fault

-- The list that a node stands in: a block, or one of the two heads.
unfoldable pub next_of : Ptr → Cmd Pool Ptr
next_of p s = if has p (s.small ∷ s.large ∷ s.blocks) then done ((s.links).next p) s else fault

abbrev pub drop_block : Ptr → List Ptr → List Ptr
drop_block p [] = []
drop_block p (q ∷ qs) = if q == p then drop_block p qs else q ∷ drop_block p qs

-- `mg_free` of a block
unfoldable pub free : Ptr → Cmd Pool (Unit {0})
free p = modify λ s. record s { blocks = drop_block p s.blocks }

-- The loop that frees the blocks of a list from `n` on.
unfoldable pub free_loop : ℕ → Ptr → Ptr → Cmd Pool (Unit {0})
free_loop zero h n = starve
free_loop (suc rounds) h n =
    if n == h
    then pure tt
    else (field (λ s. s.head) n >>= λ head. free head >> (next_of n >>= free_loop rounds h))

unfoldable pub destory_pool : ℕ → Cmd Pool (Unit {0})
destory_pool rounds = do
  large ← gets λ s. s.large
  n ← next_of large
  free_loop rounds large n
  small ← gets λ s. s.small
  n ← next_of small
  free_loop rounds small n

unfoldable pub palloc_large : Ptr → Cmd Pool Ptr
palloc_large p s =
    if p == null
    then done null s
    else done (p + large_block_size) (record s {
      links = insert_list_end p s.large s.links;
      blocks = p ∷ s.blocks;
      head = put p p s.head;
    })

-- The search for a page with room: null if there is none.
unfoldable pub find_room : ℕ → ℕ → Ptr → Cmd Pool Ptr
find_room zero size p = starve
find_room (suc rounds) size p = gets (λ s. s.small) >>= λ small.
    if p == null
    then pure null
    else if p == small
    then pure null
    else (field (λ s. s.last) p >>= λ m. field (λ s. s.end) p >>= λ end.
        if leb size ((end + 2 ^ 64 - m) % 2 ^ 64)
        then (modify (λ s. record s { last = put p (m + size) s.last }) >> pure m)
        else (next_of p >>= find_room rounds size))

-- The loop that counts the failures of the pages.
unfoldable pub count_failed : ℕ → Ptr → Cmd Pool (Unit {0})
count_failed zero p = starve
count_failed (suc rounds) p = do
  small ← gets λ s. s.small
  next ← next_of p
  if next == small
      then pure tt
      else (field (λ s. s.failed) p >>= λ failed.
          modify (λ s. record s {
            failed = put p (failed + 1) s.failed;
            current = if ltb 4 failed then next else s.current;
          })
          >> count_failed rounds next)

-- A page at `bl`, which is not null.
unfoldable pub new_page : ℕ → Ptr → ℕ → Cmd Pool Ptr
new_page rounds bl size = do
  modify λ s. record s {
    blocks = bl ∷ s.blocks;
    head = put bl bl s.head;
    end = put bl (bl + page_size - 1) s.end;
    failed = put bl 0 s.failed;
    last = put bl (bl + small_block_size + size) s.last;
  }
  current ← gets λ s. s.current
  count_failed rounds current
  modify λ s. record s { links = insert_list_end bl s.small s.links }
  pure (bl + small_block_size)

unfoldable pub palloc_small : ℕ → Ptr → ℕ → Cmd Pool Ptr
palloc_small rounds fresh size = do
  current ← gets λ s. s.current
  m ← find_room rounds size current
  if not (m == null)
      then pure m
      else if fresh == null
      then pure null
      else new_page rounds fresh size

unfoldable pub palloc : ℕ → Ptr → ℕ → Cmd Pool Ptr
palloc rounds fresh size = do
  max ← gets λ s. s.max
  if leb size max then palloc_small rounds fresh size else palloc_large fresh
