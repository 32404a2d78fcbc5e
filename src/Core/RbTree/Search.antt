-- ===== src/Core/RbTree/Search.antt =====
-- What `search_rb_node` finds in a search tree, and what `insert_rb_node` makes of its answer.
use mg_raffle.Base.{
  ℕ, zero, suc, ◌+◌, ◌%◌, ◌^◌, ◌≡◌, ◌≢◌, ◌<◌, refl, Bool, true, List, [], ◌∷◌, ◌++◌, arith, ◌==◌,
  if◌then◌else◌,
}
use mg_raffle.Base.Int.{ℤ, pos, ◌≤ℤ◌, ◌<ℤ◌, ltb_ℤ, eq_ℤ}
use mg_raffle.Base.Run.{Run, done}
use mg_raffle.Base.Pointers.{Ptr, null, put}
use mg_raffle.Core.RbTree.{RbTree, black, load, store, search_loop, search_rb_node}
use mg_raffle.Core.RbTree.Fixup.{insert_rb_node, insert_at}

pub data Shape : Type 0 where
  leaf : Shape
  node : Ptr → Shape → Shape → Shape

abbrev pub nodes : Shape → List Ptr
nodes leaf = []
nodes (node q l r) = nodes l ++ q ∷ nodes r

abbrev pub size : Shape → ℕ
size leaf = 0
size (node q l r) = 1 + size l + size r

-- The links from `p` down have this shape.
abbrev pub Holds : RbTree → Ptr → Shape → Type 0
Holds s p leaf = p ≡ null
Holds s p (node q l r) = (p ≡ q) × (q ≢ null) × Holds s (s.lchild q) l × Holds s (s.rchild q) r

module _ (key : Ptr → ℤ) where
  abbrev pub AllBelow : ℤ → List Ptr → Type 0
  AllBelow k [] = Unit
  AllBelow k (q ∷ qs) = (key q <ℤ k) × AllBelow k qs

  abbrev pub AllAbove : ℤ → List Ptr → Type 0
  AllAbove k [] = Unit
  AllAbove k (q ∷ qs) = (k <ℤ key q) × AllAbove k qs

  abbrev pub IsSearchTree : Shape → Type 0
  IsSearchTree leaf = Unit
  IsSearchTree (node q l r) =
      AllBelow (key q) (nodes l) × AllAbove (key q) (nodes r) × IsSearchTree l × IsSearchTree r

  -- The first node with the key, if the list has one.
  abbrev pub find_key : ℤ → List Ptr → Ptr
  find_key k [] = null
  find_key k (q ∷ qs) = if eq_ℤ (key q) k then q else find_key k qs

  pub find_key-below :
      (k b : ℤ) (xs ys : List Ptr) → b ≤ℤ k → AllBelow b xs → find_key k (xs ++ ys) ≡ find_key k ys
  find_key-below k b [] ys le all = refl
  find_key-below k b (x ∷ xs) ys le all = ground (arith, find_key-below k b xs ys le all.1)

  find_key-above :
      (k b : ℤ) (xs ys : List Ptr) → k <ℤ b → AllAbove b ys → find_key k (xs ++ ys) ≡ find_key k xs
  find_key-above k b [] [] lt all = refl
  find_key-above k b [] (y ∷ ys) lt all = ground (arith, find_key-above k b [] ys lt all.1)
  find_key-above k b (x ∷ xs) ys lt all = ground (arith, find_key-above k b xs ys lt all)

  pub find_key-left :
      (k : ℤ) (q : Ptr) (xs ys : List Ptr)
      → k <ℤ key q
      → AllAbove (key q) ys
      → find_key k (xs ++ q ∷ ys) ≡ find_key k xs
  find_key-left k q [] ys lt all = ground (arith, find_key-above k (key q) [] ys lt all)
  find_key-left k q (x ∷ xs) ys lt all = ground (arith, find_key-left k q xs ys lt all)

  -- `_compare` as its comment says it: positive for less, negative for greater.
  pub record IsCompare (compare : Ptr → Ptr → ℤ) : Type 0 where
    pub positive : (l r : Ptr) → ltb_ℤ (pos 0) (compare l r) ≡ ltb_ℤ (key l) (key r)
    pub negative : (l r : Ptr) → ltb_ℤ (compare l r) (pos 0) ≡ ltb_ℤ (key r) (key l)

  module _ (compare : Ptr → Ptr → ℤ) (cmp : IsCompare compare) where
    search_loop_lem :
        (rounds : ℕ) (n : Ptr) (at : Bool) (p : Ptr) (t : Shape) (s : RbTree)
        → size t < rounds
        → Holds s p t
        → IsSearchTree t
        → search_loop compare rounds n at p s ≡ done (find_key (key n) (nodes t)) s
    unfolding search_loop load
    search_loop_lem zero n at p t s fuel h o = absurd (omega arith)
    search_loop_lem (suc rounds) n at p leaf s fuel h o = ground arith
    search_loop_lem (suc rounds) n at p (node q l r) s fuel h o =
        let left = search_loop_lem rounds n at (s.lchild q) l s (omega arith) h.2 o.2 in
        let right = search_loop_lem rounds n at (s.rchild q) r s (omega arith) h.3 o.3 in
        rw (h.0, cmp.positive n q, cmp.negative n q)
          (ground (
            arith,
            h.1,
            left,
            right,
            find_key-left (key n) q (nodes l) (nodes r),
            find_key-below (key n) (key q) (nodes l) (q ∷ nodes r),
          ))

    -- In a search tree, with more rounds than the tree has nodes, the search gives the node with
    -- the key, or null if there is none, also when it is asked for a place to insert.
    pub search_rb_node_lem :
        (rounds : ℕ) (n : Ptr) (insert_position : Bool) (t : Shape) (s : RbTree)
        → size t < rounds
        → Holds s s.root t
        → IsSearchTree t
        → search_rb_node compare rounds n insert_position s ≡ done (find_key (key n) (nodes t)) s
    unfolding search_rb_node
    search_rb_node_lem rounds n at t s fuel h o = search_loop_lem rounds n at s.root t s fuel h o

    find_key-found : (k : ℤ) (xs : List Ptr) → find_key k xs ≢ null → key (find_key k xs) ≡ k
    find_key-found k [] some_found = absurd (some_found refl)
    find_key-found k (x ∷ xs) some_found = ground (arith, find_key-found k xs)

    same_key : (n q : Ptr) → key q ≡ key n → eq_ℤ (compare n q) (pos 0) ≡ true
    same_key n q e = ground (arith, cmp.positive n q, cmp.negative n q)

    abbrev pub alone : Ptr → RbTree → RbTree
    alone n s = record s { root = n; type = put n black s.type; count = (s.count + 1) % 2 ^ 64 }

    insert_at_lem :
        (rounds : ℕ) (n : Ptr) (xs : List Ptr) (s : RbTree)
        → n ≢ null
        → insert_at compare rounds n (find_key (key n) xs) s
          ≡ done tt (if find_key (key n) xs == null then alone n s else s)
    unfolding insert_at store
    insert_at_lem rounds n xs s real =
        ground (arith, find_key-found (key n) xs, same_key n (find_key (key n) xs))

    -- Inserting into a search tree changes nothing if the key is there, and otherwise makes the
    -- new node the root, black and counted, and sets no other link.
    pub insert_rb_node_lem :
        (rounds : ℕ) (n : Ptr) (t : Shape) (s : RbTree)
        → n ≢ null
        → size t < rounds
        → Holds s s.root t
        → IsSearchTree t
        → insert_rb_node compare rounds n s
          ≡ done tt (if find_key (key n) (nodes t) == null then alone n s else s)
    unfolding insert_rb_node
    insert_rb_node_lem rounds n t s real fuel h o =
        rw (search_rb_node_lem rounds n true t s fuel h o) (insert_at_lem rounds n (nodes t) s real)

    -- What a run leaves is a tree of this shape.
    abbrev pub Leaves : Shape → Run RbTree (Unit {0}) → Type 0
    Leaves t (done u s) = Holds s s.root t
    Leaves t _ = ⊥

    -- A new key in a search tree: when the node is initialised, the tree that is left has this
    -- node only, and all others are lost.
    pub insert_rb_node-Leaves :
        (rounds : ℕ) (n : Ptr) (t : Shape) (s : RbTree)
        → n ≢ null
        → size t < rounds
        → Holds s s.root t
        → IsSearchTree t
        → find_key (key n) (nodes t) ≡ null
        → s.lchild n ≡ null
        → s.rchild n ≡ null
        → Leaves (node n leaf leaf) (insert_rb_node compare rounds n s)
    insert_rb_node-Leaves rounds n t s real fuel h o missing l r =
        rw (insert_rb_node_lem rounds n t s real fuel h o, missing) (refl, real, l, r)
