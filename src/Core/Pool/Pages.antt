-- ===== src/Core/Pool/Pages.antt =====
-- What the pool of core/mg_pool.h gives.
use mg_raffle.Base.{ℕ, suc, ◌+◌, ◌≡◌, ◌≢◌, ◌<◌, ◌≤◌, refl, true, false, List, [], ◌∷◌, ◌==◌, arith}
use mg_raffle.Base.Run.{Run, done, fault}
use mg_raffle.Base.Pointers.{Ptr, null, has, ◌∉◌}
use mg_raffle.Core.MgList.{Links, init_list, insert_list_end}
use mg_raffle.Core.MgList.Ring.{IsRing, insert_list_end-IsRing}
use mg_raffle.Core.Pool.{
  Pool, page_size, small_block_size, large_block_size, max_alloc_from_pool, create_pool, field,
  next_of, find_room, count_failed, new_page, palloc_small, palloc_large, palloc, free, drop_block,
  free_loop, destory_pool,
}

-- The state of every pool that has only been allocated from: `_current` is the head of the list.
abbrev pub AtHead : Pool → Type 0
AtHead s = (s.current ≡ s.small) × (s.small ≢ null) × (s.small ∉ s.blocks)

-- In a pool that has a page and whose `_current` is the head of the list, a small allocation for
-- which `malloc` gives memory writes `_failed` of that head, which is no block: a fault.
pub palloc_small_faults :
    (rounds : ℕ) (fresh size : ℕ) (s : Pool)
    → AtHead s
    → fresh ≢ null
    → fresh ≢ s.small
    → (s.links).next s.small ≢ s.small
    → palloc_small (suc rounds) fresh size s ≡ fault
unfolding palloc_small find_room new_page count_failed field next_of
palloc_small_faults rounds fresh size s h real other page = ground (arith, h)

-- A first small allocation: its region is inside the page behind the page's own block, the page
-- is the pool's only one, and `_current` is still the head.
abbrev pub FirstPage : Ptr → ℕ → Run Pool Ptr → Type 0
FirstPage bl size (done p s) =
    (bl + small_block_size ≤ p)
    × (p + size < bl + page_size)
    × IsRing s.links s.small (bl ∷ [])
    × AtHead s
FirstPage bl size _ = ⊥

-- A small allocation from a new pool, if `malloc` gives a page away from the head of the pool's
-- list: the region is inside the page behind the page's own block, the page is the pool's only
-- one, and `_current` is still the head of the list.
pub palloc-FirstPage :
    (rounds p max size bl : ℕ) (links : Links)
    → bl ≢ null
    → bl ≢ p + 32
    → size ≤ max
    → size ≤ max_alloc_from_pool
    → FirstPage bl size (palloc (suc rounds) bl size (create_pool p max links))
unfolding palloc palloc_small find_room new_page count_failed next_of create_pool init_list
    insert_list_end
palloc-FirstPage rounds p max size bl links real other fits small = ground arith

-- The region behind the block, which is the first of the list of large ones.
abbrev pub FirstLarge : Ptr → List Ptr → Run Pool Ptr → Type 0
FirstLarge p xs (done q s) = (q ≡ p + large_block_size) × IsRing s.links s.large (p ∷ xs)
FirstLarge p xs _ = ⊥

-- A large allocation for which `malloc` gives a block that is not in the list returns what follows
-- the block, which becomes the first of the list of large ones.
pub palloc_large-FirstLarge :
    (p : Ptr) (xs : List Ptr) (s : Pool)
    → p ≢ null
    → IsRing s.links s.large xs
    → p ∉ (s.large ∷ xs)
    → FirstLarge p xs (palloc_large p s)
unfolding palloc_large
palloc_large-FirstLarge p xs s real ring out =
    let t : p == null ≡ false = ground arith in
    rw t (refl, insert_list_end-IsRing p s.large s.links xs ring out)

drop_block-gone : (p : Ptr) (qs : List Ptr) → p ∉ drop_block p qs
drop_block-gone p [] = refl
drop_block-gone p (q ∷ qs) = ground (arith, drop_block-gone p qs)

-- Destroying a pool that has a large allocation reads the link of a block after it is freed: a
-- fault.
pub destory_pool_faults :
    (rounds : ℕ) (n : Ptr) (s : Pool)
    → (s.links).next s.large ≡ n
    → n ∉ (s.small ∷ s.large ∷ [])
    → has n s.blocks ≡ true
    → s.head n ≡ n
    → destory_pool (suc rounds) s ≡ fault
unfolding destory_pool free_loop free field next_of
destory_pool_faults rounds n s first out block own = ground (arith, drop_block-gone n s.blocks)
