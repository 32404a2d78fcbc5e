-- ===== src/Utils/RbTree.antt =====
-- utils/rbtree.h: `RBTree<int>`. Its nodes have the links of core/mg_rbtree.h and a value; the tree
-- allocates and frees them itself. The spin lock makes each operation one step.
pub mod Insert
pub mod Delete
pub mod Search
pub mod Balance
pub mod Shapes
pub mod Ordered
pub mod Grow
use mg_raffle.Base.{
  ℕ, zero, suc, ◌+◌, ◌-◌, ◌%◌, ◌^◌, Bool, true, false, List, [], ◌∷◌, ◌==◌, if◌then◌else◌,
}
use mg_raffle.Base.Int.{ℤ, pos, ltb_ℤ}
use mg_raffle.Base.Run.{Run, done, fault, out_of_fuel, Cmd, pure, starve, ◌>>=◌, ◌>>◌, modify, gets}
use mg_raffle.Base.Pointers.{Ptr, null, put}
use mg_raffle.Core.RbTree.{
  RbTree, red, load, lchild_of, rchild_of, parent_of, set_lchild, set_rchild, set_root,
  left_rotate as links_left_rotate, right_rotate as links_right_rotate, change_rb_node,
  leftmost as links_leftmost, delete_leaf_node as links_delete_leaf_node,
}

-- `RBTree`: the root of `links` is `_tree`, and its count `_count`.
pub record Tree : Type 0 where
  pub links : RbTree
  pub val : Ptr → ℤ
  pub freed : List Ptr

-- An operation on the links alone.
unfoldable pub on_links : {A : Type 0} → Cmd RbTree A → Cmd Tree A
on_links m s = elim (m s.links) [
  | done a l ↦ done a (record s { links = l })
  | fault ↦ fault
  | out_of_fuel ↦ out_of_fuel
]

unfoldable pub val_of : Ptr → Cmd Tree ℤ
val_of p s = if p == null then fault else done (s.val p) s

-- These are word for word those of core/mg_rbtree.h.
abbrev pub left_rotate : Ptr → Cmd RbTree (Unit {0})
left_rotate = links_left_rotate

abbrev pub right_rotate : Ptr → Cmd RbTree (Unit {0})
right_rotate = links_right_rotate

abbrev pub change_node : Ptr → Ptr → Bool → Cmd RbTree (Unit {0})
change_node = change_rb_node

abbrev pub leftmost : ℕ → Ptr → Cmd RbTree Ptr
leftmost = links_leftmost

unfoldable pub find_right_replace_node : ℕ → Ptr → Cmd RbTree Ptr
find_right_replace_node rounds n = rchild_of n >>= leftmost rounds

unfoldable pub search_loop : ℕ → ℤ → Ptr → Cmd Tree Ptr
search_loop zero v p = starve
search_loop (suc rounds) v p =
    if p == null
    then pure null
    else (val_of p >>= λ here.
        if ltb_ℤ v here
        then (on_links (lchild_of p) >>= search_loop rounds v)
        else if ltb_ℤ here v
        then (on_links (rchild_of p) >>= search_loop rounds v)
        else pure p)

unfoldable pub search : ℕ → ℤ → Cmd Tree Ptr
search rounds v s = search_loop rounds v (s.links).root s

-- `fresh` is what `new` gave.
unfoldable pub create_node : Ptr → ℤ → Cmd Tree Ptr
create_node fresh v s =
    if fresh == null
    then done null s
    else done fresh (record s {
      links = record (s.links) {
        type = put fresh red (s.links).type;
        parent = put fresh null (s.links).parent;
        lchild = put fresh null (s.links).lchild;
        rchild = put fresh null (s.links).rchild;
      };
      val = put fresh v s.val;
    })

-- `--_count` wraps.
abbrev pub count_down : Cmd RbTree (Unit {0})
count_down = modify λ s. record s { count = (s.count + (2 ^ 64 - 1)) % 2 ^ 64 }

abbrev pub free : Ptr → Cmd Tree (Unit {0})
free p = modify λ s. record s { freed = p ∷ s.freed }

unfoldable pub delete_leaf_node : Ptr → Cmd Tree (Unit {0})
delete_leaf_node leaf = on_links (count_down >> links_delete_leaf_node leaf) >> free leaf
