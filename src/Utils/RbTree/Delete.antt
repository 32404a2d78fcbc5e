-- ===== src/Utils/RbTree/Delete.antt =====
-- `RBTree::del` of utils/rbtree.h. Where the source assigns a colour to a pointer it does not
-- compile; `no_such_code` stands there.
use mg_raffle.Base.{ℕ, zero, suc, Bool, true, ◌&&◌, not, ◌==◌, if◌then◌else◌}
use mg_raffle.Base.Int.{ℤ}
use mg_raffle.Base.Run.{Cmd, pure, stop, starve, ◌>>=◌, ◌>>◌}
use mg_raffle.Base.Pointers.{Ptr, null}
use mg_raffle.Core.RbTree.{
  RbTree, red, black, type_of, parent_of, lchild_of, rchild_of, set_type, rb_node_is_red,
  rb_node_is_black,
}
use mg_raffle.Core.RbTree.Fixup.{goes_on as core_goes_on, children_black_left}
use mg_raffle.Utils.RbTree.{
  Tree, on_links, search, left_rotate, right_rotate, change_node, find_right_replace_node,
  delete_leaf_node,
}

abbrev pub no_such_code : Cmd RbTree (Unit {0})
no_such_code = stop

unfoldable pub borrow_left : Ptr → Ptr → Cmd RbTree (Unit {0})
borrow_left p b = do
  r ← rchild_of b
  outer_black ← rb_node_is_black r
  b ←
      (if outer_black
        then (lchild_of b >>= λ l.
            set_type l black >> set_type b red >> right_rotate b >> rchild_of p)
        else pure b)
  t ← type_of p
  set_type b t
  set_type p black
  no_such_code
  left_rotate p

unfoldable pub borrow_right : Ptr → Ptr → Cmd RbTree (Unit {0})
borrow_right p b = do
  l ← lchild_of b
  outer_black ← rb_node_is_black l
  b ←
      (if outer_black
        then (rchild_of b >>= λ r.
            set_type r black >> set_type b red >> left_rotate b >> lchild_of p)
        else pure b)
  t ← type_of p
  set_type b t
  set_type p black
  no_such_code
  right_rotate p

-- Both sides read the brother's children in the order of core's left side.
abbrev pub children_black : Ptr → Cmd RbTree Bool
children_black = children_black_left

abbrev pub goes_on : Ptr → Cmd RbTree Bool
goes_on = core_goes_on

unfoldable pub delete_left : (Ptr → Ptr → Cmd RbTree Ptr) → Ptr → Ptr → Cmd RbTree Ptr
delete_left again node p = do
  b ← rchild_of p
  brother_red ← rb_node_is_red b
  b ←
      (if brother_red
        then (set_type b black >> set_type p red >> left_rotate p >> rchild_of p)
        else pure b)
  both ← children_black b
  if both then (set_type b black >> (parent_of p >>= again p)) else (borrow_left p b >> pure node)

unfoldable pub delete_right : (Ptr → Ptr → Cmd RbTree Ptr) → Ptr → Ptr → Cmd RbTree Ptr
delete_right again node p = do
  b ← lchild_of p
  brother_red ← rb_node_is_red b
  b ←
      (if brother_red
        then (set_type b black >> set_type p red >> right_rotate p >> lchild_of p)
        else pure b)
  both ← children_black b
  if both then (set_type b black >> (parent_of p >>= again p)) else (borrow_right p b >> pure node)

unfoldable pub delete_loop : ℕ → Ptr → Ptr → Cmd RbTree Ptr
delete_loop zero node p = starve
delete_loop (suc rounds) node p = do
  more ← goes_on node
  if more
      then (lchild_of p >>= λ l.
          if l == node
          then delete_left (delete_loop rounds) node p
          else delete_right (delete_loop rounds) node p)
      else pure node

unfoldable pub delete_black : ℕ → Ptr → Cmd Tree (Unit {0})
delete_black rounds d = do
  p ← on_links (parent_of d)
  node ← on_links (delete_loop rounds d p)
  on_links (set_type node black)
  delete_leaf_node d

unfoldable pub delete_single : ℕ → Ptr → Cmd Tree (Unit {0})
delete_single rounds d = do
  is_red ← on_links (rb_node_is_red d)
  l ← on_links (lchild_of d)
  r ← on_links (rchild_of d)
  if is_red
      then delete_leaf_node d
      else if not (l == null)
      then (on_links (change_node d l true) >> delete_leaf_node d)
      else if not (r == null)
      then (on_links (change_node d r true) >> delete_leaf_node d)
      else delete_black rounds d

-- What follows the search, which gave `d`.
unfoldable pub delete_found : ℕ → Ptr → Cmd Tree (Unit {0})
delete_found rounds d =
    if d == null
    then pure tt
    else (on_links (lchild_of d) >>= λ l. on_links (rchild_of d) >>= λ r.
        (if not (l == null) && not (r == null)
          then on_links (find_right_replace_node rounds d >>= λ n. change_node d n true)
          else pure tt)
        >> delete_single rounds d)

unfoldable pub del : ℕ → ℤ → Cmd Tree (Unit {0})
del rounds v = search rounds v >>= delete_found rounds
