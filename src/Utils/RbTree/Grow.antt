-- ===== src/Utils/RbTree/Grow.antt =====
-- What `insert` of utils/rbtree.h makes of a search tree when it needs no rebalancing.
use mg_raffle.Base.{
  ℕ, suc, ◌+◌, ◌%◌, ◌^◌, ◌≡◌, ◌≢◌, ◌<◌, refl, sym, ◌∙◌, true, false, Option, none, some, List, [],
  ◌∷◌, arith, ◌==◌, if◌then◌else◌,
}
use mg_raffle.Base.Int.{ℤ, ltb_ℤ}
use mg_raffle.Base.Run.{Run, done}
use mg_raffle.Base.Pointers.{Ptr, null, put, has, ◌∉◌, Distinct}
use mg_raffle.Core.RbTree.{RbTree, black, red, load, store, rb_node_is_red}
use mg_raffle.Core.RbTree.Fixup.{present_red}
use mg_raffle.Core.RbTree.Search.{Shape, leaf, node, nodes, size, Holds, IsSearchTree, find_key}
use mg_raffle.Core.RbTree.Linked.{ne_of_has, has_left, has_right, has_middle}
use mg_raffle.Utils.RbTree.{Tree, on_links, val_of, create_node}
use mg_raffle.Utils.RbTree.Insert.{insert, insert_below, attach, rebalance, black_root}
use mg_raffle.Utils.RbTree.Search.{place, descend_lem}
use mg_raffle.Utils.RbTree.Shapes.{Holds-frame, null_out, place_node, grow, grow-Holds}
use mg_raffle.Utils.RbTree.Ordered.{IsSearchTree-frame, grow-IsSearchTree}

module _ (n : Ptr) (v : ℤ) (s : Tree) where
  -- The tree with the new node, before it is linked, and after.
  abbrev created : Tree
  created = record s {
    links = record (s.links) {
      type = put n red (s.links).type;
      parent = put n null (s.links).parent;
      lchild = put n null (s.links).lchild;
      rchild = put n null (s.links).rchild;
    };
    val = put n v s.val;
  }

  abbrev linked : Ptr → RbTree
  linked p = record (created.links) {
    type = put (s.links).root black (created.links).type;
    parent = put n p (created.links).parent;
    lchild = if ltb_ℤ v (s.val p) then put p n (created.links).lchild else (created.links).lchild;
    rchild = if ltb_ℤ v (s.val p) then (created.links).rchild else put p n (created.links).rchild;
    count = ((s.links).count + 1) % 2 ^ 64;
  }

  -- Below a black node the rebalancing has nothing to do.
  insert_below-black :
      (rounds : ℕ) (p : Ptr)
      → n ≢ null
      → p ≢ null
      → p ≢ n
      → (s.links).root ≢ null
      → (s.links).type p ≡ black
      → insert_below (suc rounds) n (some p) created
        ≡ done none (record created { links = linked p })
  unfolding insert_below attach rebalance black_root present_red rb_node_is_red val_of on_links load
      store
  insert_below-black rounds p nr pr other rr kind = ground arith

find_key-frame :
    (f g : Ptr → ℤ) (v : ℤ) (xs : List Ptr)
    → ((x : Ptr) → has x xs ≡ true → g x ≡ f x)
    → find_key g v xs ≡ find_key f v xs
find_key-frame f g v [] same = refl
find_key-frame f g v (x ∷ xs) same =
    rw (same x (ground arith), find_key-frame f g v xs (λ y m. same y (ground arith))) refl

place-frame :
    (f g : Ptr → ℤ) (v : ℤ) (t : Shape) (p : Ptr)
    → ((x : Ptr) → has x (nodes t) ≡ true → g x ≡ f x)
    → place g v t p ≡ place f v t p
place-frame f g v leaf p same = refl
place-frame f g v (node q l r) p same =
    rw
      (
        same q (has_middle q (nodes l) (nodes r)),
        place-frame f g v l q (λ x m. same x (has_left x q (nodes l) (nodes r) m)),
        place-frame f g v r q (λ x m. same x (has_right x q (nodes l) (nodes r) m)),
      )
      refl

-- A run ends without a return value and leaves the tree grown by `n`, still a search tree, with
-- the count `c`.
abbrev pub Grown : Ptr → ℤ → Shape → ℕ → Run Tree (Option ℤ) → Type 0
Grown n v t c (done r s) =
    (r ≡ none)
    × Holds s.links (s.links).root (grow s.val v n t)
    × IsSearchTree s.val (grow s.val v n t)
    × ((s.links).count ≡ c)
Grown n v t c _ = ⊥

module _ (n : Ptr) (v : ℤ) (s : Tree) (q : Ptr) (l r : Shape) (real : n ≢ null)
    (out : n ∉ nodes (node q l r)) (d : Distinct (nodes (node q l r)))
    (h : Holds s.links (s.links).root (node q l r)) (o : IsSearchTree s.val (node q l r))
    (missing : find_key s.val v (nodes (node q l r)) ≡ null) where
  abbrev tree : Shape
  tree = node q l r

  abbrev spot : Ptr
  spot = place s.val v tree null

  apart_n : (x : Ptr) → has x (nodes tree) ≡ true → x == n ≡ false
  apart_n x m = ne_of_has x n (nodes tree) m out

  same_val : (x : Ptr) → has x (nodes tree) ≡ true → (created n v s).val x ≡ s.val x
  same_val x m = ground (arith, apart_n x m)

  created-Holds : Holds (created n v s).links (s.links).root tree
  created-Holds =
      Holds-frame tree s.links (created n v s).links (s.links).root
        (λ x m. ground (arith, apart_n x m)) (λ x m. ground (arith, apart_n x m)) h

  created-IsSearchTree : IsSearchTree (created n v s).val tree
  created-IsSearchTree = IsSearchTree-frame s.val (created n v s).val tree same_val o

  spot_in : has spot (nodes tree) ≡ true
  spot_in = place_node s.val v n q l r null

  linked-Grown :
      Grown n v tree
        (((s.links).count + 1) % 2 ^ 64)
        (done none (record (created n v s) { links = linked n v s spot }))
  linked-Grown =
      let gone : find_key (created n v s).val v (nodes tree) ≡ null =
        find_key-frame s.val (created n v s).val v (nodes tree) same_val ∙ missing in
      let at : spot ≡ place (created n v s).val v tree null =
        sym (place-frame s.val (created n v s).val v tree null same_val) in
      let spot_n : spot == n ≡ false = apart_n spot spot_in in
      (
        refl,
        grow-Holds (created n v s).val v n (created n v s).links (linked n v s spot) spot real
            (ground (arith, spot_n)) (ground (arith, spot_n)) tree (s.links).root null d at
            (record {
              left = λ x m. ground (arith, apart_n x m, spot_n);
              right = λ x m. ground (arith, apart_n x m, spot_n);
            })
            created-Holds,
        grow-IsSearchTree (created n v s).val v n (ground arith) (created n v s).links
            (s.links).root tree created-Holds gone created-IsSearchTree,
        refl,
      )

  -- A new value in a search tree that is not empty, where the node that it goes below is black:
  -- with as many rounds as the tree has nodes and one more, `insert` ends without an answer; the
  -- new node hangs where its value belongs, the tree is a search tree, and one more is counted.
  pub insert-Grown :
      (rounds : ℕ)
      → size tree < suc rounds
      → (s.links).type spot ≡ black
      → Grown n v tree (((s.links).count + 1) % 2 ^ 64) (insert (suc rounds) n v s)
  unfolding insert create_node
  insert-Grown rounds fuel kind =
      let new : n == null ≡ false = ground arith in
      let root_real : (s.links).root ≢ null = ground (arith, h.0, h.1) in
      let rooted : (s.links).root == null ≡ false = ground arith in
      let spot_null =
        ne_of_has spot null (nodes tree) spot_in (null_out tree s.links (s.links).root h) in
      let spot_n = apart_n spot spot_in in
      let spot_real : spot ≢ null = ground (arith, spot_null) in
      let spot_other : spot ≢ n = ground (arith, spot_n) in
      let gone = find_key-frame s.val (created n v s).val v (nodes tree) same_val ∙ missing in
      let at = place-frame s.val (created n v s).val v tree null same_val in
      rw
        (
          new,
          new,
          rooted,
          descend_lem (suc rounds) v (s.links).root null tree (created n v s) fuel created-Holds
              created-IsSearchTree,
          gone,
          at,
          insert_below-black n v s rounds spot real spot_real spot_other root_real kind,
        )
        linked-Grown
