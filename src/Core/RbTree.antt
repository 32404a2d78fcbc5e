-- ===== src/Core/RbTree.antt =====
-- core/mg_rbtree.h: a red-black tree over nodes that the caller allocates.
pub mod Fixup
pub mod Search
pub mod Linked
pub mod Rotate
use mg_raffle.Base.{ℕ, zero, suc, ◌+◌, ◌%◌, ◌^◌, Bool, true, false, ◌&&◌, not, ◌==◌, if◌then◌else◌}
use mg_raffle.Base.Int.{ℤ, pos, ltb_ℤ, eq_ℤ}
use mg_raffle.Base.Run.{
  Run, done, fault, out_of_fuel, Cmd, pure, stop, starve, ◌>>=◌, ◌>>◌, modify, gets,
}
use mg_raffle.Base.Pointers.{Ptr, null, put}

abbrev pub red : ℕ
red = 0

abbrev pub black : ℕ
black = 1

-- `mg_rb_tree_t` with the nodes of all addresses. `_compare` is an argument of what calls it.
pub record RbTree : Type 0 where
  pub type : Ptr → ℕ
  pub parent : Ptr → Ptr
  pub lchild : Ptr → Ptr
  pub rchild : Ptr → Ptr
  pub count : ℕ
  pub root : Ptr

-- Reading and writing a node; a null pointer is a fault.
unfoldable pub load : {A : Type 0} → (RbTree → Ptr → A) → Ptr → Cmd RbTree A
load field p s = if p == null then fault else done (field s p) s

unfoldable pub store : (RbTree → RbTree) → Ptr → Cmd RbTree (Unit {0})
store write p s = if p == null then fault else done tt (write s)

abbrev pub type_of : Ptr → Cmd RbTree ℕ
type_of = load λ s. s.type

abbrev pub parent_of : Ptr → Cmd RbTree Ptr
parent_of = load λ s. s.parent

abbrev pub lchild_of : Ptr → Cmd RbTree Ptr
lchild_of = load λ s. s.lchild

abbrev pub rchild_of : Ptr → Cmd RbTree Ptr
rchild_of = load λ s. s.rchild

abbrev pub set_type : Ptr → ℕ → Cmd RbTree (Unit {0})
set_type p v = store (λ s. record s { type = put p v s.type }) p

abbrev pub set_parent : Ptr → Ptr → Cmd RbTree (Unit {0})
set_parent p v = store (λ s. record s { parent = put p v s.parent }) p

abbrev pub set_lchild : Ptr → Ptr → Cmd RbTree (Unit {0})
set_lchild p v = store (λ s. record s { lchild = put p v s.lchild }) p

abbrev pub set_rchild : Ptr → Ptr → Cmd RbTree (Unit {0})
set_rchild p v = store (λ s. record s { rchild = put p v s.rchild }) p

abbrev pub set_root : Ptr → Cmd RbTree (Unit {0})
set_root p = modify λ s. record s { root = p }

unfoldable pub rb_node_is_red : Ptr → Cmd RbTree Bool
rb_node_is_red p = do t ← type_of p; pure (t == red)

unfoldable pub rb_node_is_black : Ptr → Cmd RbTree Bool
rb_node_is_black p = do t ← type_of p; pure (t == black)

unfoldable pub init_rb_node : Ptr → Cmd RbTree (Unit {0})
init_rb_node p = do set_type p red; set_rchild p null; set_lchild p null; set_parent p null

unfoldable pub init_rb_tree : RbTree → RbTree
init_rb_tree s = record s { count = 0; root = null }

module _ (compare : Ptr → Ptr → ℤ) where
  unfoldable pub search_loop : ℕ → Ptr → Bool → Ptr → Cmd RbTree Ptr
  search_loop zero node insert_position p = starve
  search_loop (suc rounds) node insert_position p =
      if p == null
      then pure (if insert_position then p else null)
      else if ltb_ℤ (pos 0) (compare node p)
      then (lchild_of p >>= search_loop rounds node insert_position)
      else if ltb_ℤ (compare node p) (pos 0)
      then (rchild_of p >>= search_loop rounds node insert_position)
      else pure p

  unfoldable pub search_rb_node : ℕ → Ptr → Bool → Cmd RbTree Ptr
  search_rb_node rounds node insert_position s = search_loop rounds node insert_position s.root s

-- The parent's link to `node`, which a rotation gives to `child`.
unfoldable pub relink_left : Ptr → Ptr → Ptr → Cmd RbTree (Unit {0})
relink_left p node child =
    if p == null
    then set_root child
    else (lchild_of p >>= λ l.
        if l == node
        then set_lchild p child
        else (rchild_of p >>= λ r. if r == node then set_rchild p child else pure tt))

unfoldable pub left_rotate : Ptr → Cmd RbTree (Unit {0})
left_rotate node = do
  p ← parent_of node
  rchild ← rchild_of node
  inner ← lchild_of rchild
  (if inner == null then pure tt else set_parent inner node)
  inner ← lchild_of rchild
  set_rchild node inner
  set_parent rchild p
  relink_left p node rchild
  set_lchild rchild node
  set_parent node rchild

unfoldable pub relink_right : Ptr → Ptr → Ptr → Cmd RbTree (Unit {0})
relink_right p node child =
    if p == null
    then set_root child
    else (lchild_of p >>= λ l. if l == node then set_lchild p child else set_rchild p child)

unfoldable pub right_rotate : Ptr → Cmd RbTree (Unit {0})
right_rotate node = do
  p ← parent_of node
  lchild ← lchild_of node
  inner ← rchild_of lchild
  (if inner == null then pure tt else set_parent inner node)
  inner ← rchild_of lchild
  set_lchild node inner
  set_parent lchild p
  relink_right p node lchild
  set_rchild lchild node
  set_parent node lchild

unfoldable pub delete_leaf_node : Ptr → Cmd RbTree (Unit {0})
delete_leaf_node leaf = do
  root ← gets λ s. s.root
  if leaf == root
      then set_root null
      else (parent_of leaf >>= λ p.
          lchild_of p >>= λ l. if l == leaf then set_lchild p null else set_rchild p null)

-- The two places, in the order of the assignments: `n1` is above `n2`.
unfoldable pub change_places : Ptr → Ptr → Cmd RbTree (Unit {0})
change_places n1 n2 = do
  n1p ← parent_of n1
  n2p ← parent_of n2
  tmp ← lchild_of n1
  l2 ← lchild_of n2
  set_lchild n1 l2
  set_lchild n2 tmp
  tmp ← rchild_of n1
  r2 ← rchild_of n2
  set_rchild n1 r2
  set_rchild n2 tmp
  set_parent n1 n2p
  set_parent n2 n1p
  relink_right n1p n1 n2
  l ← lchild_of n2p
  if l == n2 then set_lchild n2p n1 else set_rchild n2p n1

unfoldable pub change_rb_node : Ptr → Ptr → Bool → Cmd RbTree (Unit {0})
change_rb_node n1 n2 change_type =
    if n1 == n2
    then pure tt
    else (change_places n1 n2
        >> (if change_type
            then (type_of n1 >>= λ typ. type_of n2 >>= λ typ2. set_type n1 typ2 >> set_type n2 typ)
            else pure tt))

unfoldable pub leftmost : ℕ → Ptr → Cmd RbTree Ptr
leftmost zero r = starve
leftmost (suc rounds) r = lchild_of r >>= λ l. if l == null then pure r else leftmost rounds l

unfoldable pub find_right_replace_node : ℕ → Ptr → Cmd RbTree Ptr
find_right_replace_node rounds n = rchild_of n >>= leftmost rounds
