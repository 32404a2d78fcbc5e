-- ===== src/Utils/Tests.antt =====
-- Runs of the utilities of utils/ at concrete inputs.
use mg_raffle.Base.{ℕ, ◌<◌, ◌^◌, true, false, ◌≡◌, ◌∷◌, [], List, refl, inl, inr, arith}
use mg_raffle.Base.Int.{ℤ, pos, ◌-ℤ◌}
use mg_raffle.Base.Run.{fault}
use mg_raffle.Base.Pointers.{null, put}
use mg_raffle.Core.RbTree.{RbTree, red, black}
use mg_raffle.Core.RbTree.Search.{Shape, leaf, node, Holds, IsSearchTree}
use mg_raffle.Utils.RbTree.{Tree}
use mg_raffle.Utils.RbTree.Insert.{insert}
use mg_raffle.Utils.RbTree.Grow.{Grown, insert-Grown}
use mg_raffle.Utils.Hash.{murmur_hash}
use mg_raffle.Utils.Hash.Words.{portable_hash, reverse_words, murmur_hash_lem}
use mg_raffle.Utils.Arena.{BufferPool, allocate}
use mg_raffle.Utils.Arena.Blocks.{Allocated, allocate-Allocated}
use mg_raffle.Utils.Lock.{
  SpinMutex, new_mutex, test_and_set, go, spinning, inside, call_lock, spin, Reachable, start,
  then_step, mutual_exclusion,
}
use mg_raffle.Utils.ConnectionPool.Fifo.{give, get, run_ops, InOrder, run_ops-InOrder}
use mg_raffle.Utils.Sequence.{heap_sort}
use mg_raffle.Utils.Sequence.Endings.{heap_sort_even}

-- 10 above 5 and 20, at the addresses 1, 2 and 3.
abbrev links : RbTree
links = record {
  type = λ p. black;
  parent = put 2 1 (put 3 1 (λ p. null));
  lchild = put 1 2 (λ p. null);
  rchild = put 1 3 (λ p. null);
  count = 2;
  root = 1;
}

abbrev tree : Tree
tree = record {
  links = links;
  val = put 1 (pos 10) (put 2 (pos 5) (put 3 (pos 20) (λ p. pos 0)));
  freed = [];
}

abbrev shape : Shape
shape = node 1 (node 2 leaf leaf) (node 3 leaf leaf)

links-Holds : Holds links 1 shape
links-Holds = ground arith

shape-IsSearchTree : IsSearchTree tree.val shape
shape-IsSearchTree = ground arith

insert-Grown_example : Grown 4 (pos 7) shape 3 (insert 4 4 (pos 7) tree)
insert-Grown_example =
    insert-Grown 4 (pos 7) tree 1 (node 2 leaf leaf) (node 3 leaf leaf) (λ e. omega arith) refl
      (ground arith) links-Holds shape-IsSearchTree refl 3 (omega arith) refl

abbrev empty : Tree
empty = record { links = record links { count = 0; root = null }; val = λ p. pos 0; freed = [] }

-- 3 below 2 on the inner side, and 2 below 1 on the left.
abbrev bent : RbTree
bent = record {
  type = put 2 red (put 3 red (λ p. black));
  parent = put 2 1 (put 3 2 (λ p. null));
  lchild = put 1 2 (λ p. null);
  rchild = put 2 3 (λ p. null);
  count = 2;
  root = 1;
}

abbrev arena : BufferPool
arena = record {
  buffer_pool = record { start = 4096; size = 4096 } ∷ [];
  memory_usage = 4096;
  cur_ptr = 8000;
  cur_remain = 192;
}

allocate-Allocated_example : Allocated 500 (allocate 16384 500 arena)
allocate-Allocated_example =
    allocate-Allocated 16384 500 arena (inl (inl (omega arith, omega arith)), omega arith)
      (omega arith) (inr (omega arith))

-- Thread 5 has taken the mutex.
abbrev taken : SpinMutex
taken = test_and_set 5 (record new_mutex { threads = go 5 spinning new_mutex.threads })

taken-Reachable : Reachable taken
taken-Reachable = then_step _ taken (then_step new_mutex _ start (call_lock 5 refl)) (spin 5 refl)

taken_inside : taken.threads 5 ≡ inside
unfolding test_and_set
taken_inside = refl

abbrev five : ℕ
five = 5

mutual_exclusion_example : five ≡ five
mutual_exclusion_example = mutual_exclusion taken 5 5 taken-Reachable taken_inside taken_inside

run_ops-InOrder_example :
    InOrder (7 ∷ 8 ∷ 9 ∷ []) (run_ops (give 8 ∷ get ∷ give 9 ∷ get ∷ []) (record { pool = 7 ∷ [] }))
run_ops-InOrder_example =
    run_ops-InOrder (give 8 ∷ get ∷ give 9 ∷ get ∷ []) (7 ∷ []) (refl, tt) (refl, (refl, tt))

descending : ℤ → ℤ → ℤ
descending a b = a -ℤ b

abbrev array : List ℤ
array = pos 4 ∷ pos 9 ∷ []

heap_sort_even_example : heap_sort descending 3 2 array ≡ fault
heap_sort_even_example = heap_sort_even descending 2 0 array refl

-- One word of four bytes, and two bytes.
abbrev six_bytes : List ℕ
six_bytes = 255 ∷ 1 ∷ 128 ∷ 200 ∷ 7 ∷ 255 ∷ []

murmur_hash_lem_example :
    (murmur_hash true six_bytes 5 ≡ portable_hash six_bytes 5)
    × (murmur_hash false six_bytes 5 ≡ murmur_hash true (reverse_words six_bytes) 5)
    × (murmur_hash true six_bytes 5 < 2 ^ 32)
    × (murmur_hash false six_bytes 5 < 2 ^ 32)
murmur_hash_lem_example =
    murmur_hash_lem six_bytes 5
      (omega arith, (omega arith, (omega arith, (omega arith, (omega arith, (omega arith, tt))))))

empty_hash : murmur_hash true [] 3 ≡ 3
unfolding murmur_hash
empty_hash = refl
