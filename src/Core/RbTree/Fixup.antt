-- ===== src/Core/RbTree/Fixup.antt =====
-- `insert_rb_node` and `delete_rb_node` of core/mg_rbtree.h, with their loops.
use mg_raffle.Base.{ℕ, zero, suc, ◌+◌, ◌%◌, ◌^◌, Bool, true, false, ◌&&◌, not, ◌==◌, if◌then◌else◌}
use mg_raffle.Base.Int.{ℤ, pos, ltb_ℤ, eq_ℤ}
use mg_raffle.Base.Run.{Cmd, pure, starve, ◌>>=◌, ◌>>◌, modify, gets}
use mg_raffle.Base.Pointers.{Ptr, null}
use mg_raffle.Core.RbTree.{
  RbTree, red, black, type_of, parent_of, lchild_of, rchild_of, set_type, set_lchild, set_rchild,
  set_root, rb_node_is_red, rb_node_is_black, search_rb_node, left_rotate, right_rotate,
  delete_leaf_node, change_rb_node, find_right_replace_node,
}

abbrev pub count_up : Cmd RbTree (Unit {0})
count_up = modify λ s. record s { count = (s.count + 1) % 2 ^ 64 }

-- `x && rb_node_is_red(x)`, and `x == nullptr || rb_node_is_black(x)`
unfoldable pub present_red : Ptr → Cmd RbTree Bool
present_red p = if p == null then pure false else rb_node_is_red p

unfoldable pub absent_or_black : Ptr → Cmd RbTree Bool
absent_or_black p = if p == null then pure true else rb_node_is_black p

-- The parent is red and the uncle is not.
unfoldable pub insert_rotate : Ptr → Ptr → Ptr → Cmd RbTree (Unit {0})
insert_rotate node p pp = do
  left ← lchild_of pp
  if p == left
      then (lchild_of p >>= λ l.
          if node == l
          then (set_type p black >> set_type pp red >> right_rotate pp)
          else (left_rotate p >> set_type node black >> set_type pp red >> right_rotate pp))
      else (rchild_of p >>= λ r.
          if node == r
          then (set_type p black >> set_type pp red >> left_rotate pp)
          else (right_rotate p >> set_type node black >> set_type pp red >> left_rotate pp))

-- A round of the loop of `insert_rb_node`, with the rounds that follow.
unfoldable pub insert_round : (Ptr → Cmd RbTree (Unit {0})) → Ptr → Ptr → Cmd RbTree (Unit {0})
insert_round again node p = do
  pp ← parent_of p
  r ← rchild_of p
  u ← (if node == r then lchild_of pp else rchild_of pp)
  uncle_red ← present_red u
  if uncle_red
      then (set_type pp red >> set_type u black >> set_type p black >> again pp)
      else (insert_rotate node p pp >> again node)

unfoldable pub insert_loop : ℕ → Ptr → Cmd RbTree (Unit {0})
insert_loop zero node = starve
insert_loop (suc rounds) node = do
  p ← parent_of node
  parent_red ← present_red p
  if parent_red then insert_round (insert_loop rounds) node p else pure tt

module _ (compare : Ptr → Ptr → ℤ) (rounds : ℕ) where
  -- What follows the search, which gave `p`.
  unfoldable pub insert_at : Ptr → Ptr → Cmd RbTree (Unit {0})
  insert_at node p =
      if p == null
      then (set_root node >> set_type node black >> count_up)
      else if eq_ℤ (compare node p) (pos 0)
      then pure tt
      else ((if ltb_ℤ (pos 0) (compare node p) then set_lchild p node else set_rchild p node)
          >> count_up
          >> insert_loop rounds node
          >> (gets (λ s. s.root) >>= λ root. set_type root black))

  unfoldable pub insert_rb_node : Ptr → Cmd RbTree (Unit {0})
  insert_rb_node node = search_rb_node compare rounds node true >>= insert_at node

-- A red child of the brother pays for the black node that goes: left side, then right side.
unfoldable pub borrow_left : Ptr → Ptr → Cmd RbTree (Unit {0})
borrow_left p b = do
  r ← rchild_of b
  outer_black ← rb_node_is_black r
  b ←
      (if outer_black
        then (lchild_of b >>= λ l.
            set_type l black >> set_type b red >> right_rotate b >> rchild_of p)
        else pure b)
  t ← type_of p
  set_type b t
  set_type p black
  r ← rchild_of b
  set_type r black
  left_rotate p

unfoldable pub borrow_right : Ptr → Ptr → Cmd RbTree (Unit {0})
borrow_right p b = do
  l ← lchild_of b
  outer_black ← rb_node_is_black l
  b ←
      (if outer_black
        then (rchild_of b >>= λ r.
            set_type r black >> set_type b red >> left_rotate b >> lchild_of p)
        else pure b)
  t ← type_of p
  set_type b t
  set_type p black
  l ← lchild_of b
  set_type l black
  right_rotate p

-- The tests of the brother's children; the second reads the left child twice.
unfoldable pub children_black_left : Ptr → Cmd RbTree Bool
children_black_left b = do
  l ← lchild_of b
  left ← absent_or_black l
  if left then (rchild_of b >>= absent_or_black) else pure false

unfoldable pub children_black_right : Ptr → Cmd RbTree Bool
children_black_right b = do
  l ← lchild_of b
  left ← absent_or_black l
  if left
      then (rchild_of b >>= λ r.
          if r == null then pure true else (lchild_of b >>= rb_node_is_black))
      else pure false

-- The two halves of a round of the loop of `delete_rb_node`; the value is the last `node`.
unfoldable pub delete_left : (Ptr → Ptr → Cmd RbTree Ptr) → Ptr → Ptr → Cmd RbTree Ptr
delete_left again node p = do
  b ← rchild_of p
  brother_red ← rb_node_is_red b
  b ←
      (if brother_red
        then (set_type b black >> set_type p red >> left_rotate p >> rchild_of p)
        else pure b)
  both ← children_black_left b
  if both then (set_type b red >> (parent_of p >>= again p)) else (borrow_left p b >> pure node)

unfoldable pub delete_right : (Ptr → Ptr → Cmd RbTree Ptr) → Ptr → Ptr → Cmd RbTree Ptr
delete_right again node p = do
  b ← lchild_of p
  brother_red ← rb_node_is_red b
  b ←
      (if brother_red
        then (set_type b black >> set_type p red >> right_rotate p >> lchild_of p)
        else pure b)
  both ← children_black_right b
  if both then (set_type b red >> (parent_of p >>= again p)) else (borrow_right p b >> pure node)

-- `(node && rb_node_is_black(node)) && node != tree->_root`
unfoldable pub goes_on : Ptr → Cmd RbTree Bool
goes_on node =
    if node == null
    then pure false
    else (rb_node_is_black node >>= λ b.
        gets (λ s. s.root) >>= λ root. pure (b && not (node == root)))

unfoldable pub delete_loop : ℕ → Ptr → Ptr → Cmd RbTree Ptr
delete_loop zero node p = starve
delete_loop (suc rounds) node p = do
  more ← goes_on node
  if more
      then (lchild_of p >>= λ l.
          if l == node
          then delete_left (delete_loop rounds) node p
          else delete_right (delete_loop rounds) node p)
      else pure node

-- A black node without children.
unfoldable pub delete_black : ℕ → Ptr → Cmd RbTree (Unit {0})
delete_black rounds d = do
  p ← parent_of d
  node ← delete_loop rounds d p
  set_type node black
  delete_leaf_node d

unfoldable pub delete_single : ℕ → Ptr → Cmd RbTree (Unit {0})
delete_single rounds d = do
  is_red ← rb_node_is_red d
  l ← lchild_of d
  r ← rchild_of d
  if is_red
      then delete_leaf_node d
      else if not (l == null)
      then (change_rb_node d l true >> delete_leaf_node d)
      else if not (r == null)
      then (change_rb_node d r true >> delete_leaf_node d)
      else delete_black rounds d

-- What follows the search, which gave `d`.
unfoldable pub delete_found : ℕ → Ptr → Cmd RbTree (Unit {0})
delete_found rounds d =
    if d == null
    then pure tt
    else (lchild_of d >>= λ l. rchild_of d >>= λ r.
        (if not (l == null) && not (r == null)
          then (find_right_replace_node rounds d >>= λ n. change_rb_node d n true)
          else pure tt)
        >> delete_single rounds d)

unfoldable pub delete_rb_node : (Ptr → Ptr → ℤ) → ℕ → Ptr → Cmd RbTree (Unit {0})
delete_rb_node compare rounds dnode =
    search_rb_node compare rounds dnode false >>= delete_found rounds
