-- ===== src/Utils/RbTree/Insert.antt =====
-- `RBTree::insert` of utils/rbtree.h.
use mg_raffle.Base.{ℕ, zero, suc, Bool, true, false, Option, none, some, ◌==◌, if◌then◌else◌}
use mg_raffle.Base.Int.{ℤ, pos, negsuc, ltb_ℤ}
use mg_raffle.Base.Run.{Cmd, pure, starve, ◌>>=◌, ◌>>◌, gets}
use mg_raffle.Base.Pointers.{Ptr, null}
use mg_raffle.Core.RbTree.{
  RbTree, red, black, parent_of, lchild_of, rchild_of, set_type, set_parent, set_lchild, set_rchild,
  set_root,
}
use mg_raffle.Core.RbTree.Fixup.{present_red, count_up}
use mg_raffle.Utils.RbTree.{Tree, on_links, val_of, left_rotate, right_rotate, create_node}

-- The search for a place: `none` if the value is there, and else the last node passed.
unfoldable pub descend : ℕ → ℤ → Ptr → Ptr → Cmd Tree (Option Ptr)
descend zero v root p = starve
descend (suc rounds) v root p =
    if root == null
    then pure (some p)
    else (val_of root >>= λ here.
        if ltb_ℤ v here
        then (on_links (lchild_of root) >>= λ l. descend rounds v l root)
        else if ltb_ℤ here v
        then (on_links (rchild_of root) >>= λ r. descend rounds v r root)
        else pure none)

-- The parent is red and the uncle is not; the value says whether the loop goes on.
unfoldable pub rotate_up : Ptr → Ptr → Ptr → Cmd RbTree Bool
rotate_up locate p pp = do
  left ← lchild_of pp
  if p == left
      then (lchild_of p >>= λ l.
          if locate == l
          then (set_type p black >> set_type pp red >> right_rotate pp >> pure true)
          else (left_rotate p
              >> set_type locate black
              >> set_type pp red
              >> right_rotate pp
              >> pure false))
      else (rchild_of p >>= λ r.
          if locate == r
          then (set_type p black >> set_type pp red >> left_rotate pp >> pure true)
          else (right_rotate p
              >> set_type locate black
              >> set_type pp red
              >> left_rotate pp
              >> pure false))

-- A round of the rebalancing, with the rounds that follow.
unfoldable pub rebalance_round : (Ptr → Cmd RbTree (Unit {0})) → Ptr → Ptr → Cmd RbTree (Unit {0})
rebalance_round again locate p = do
  pp ← parent_of p
  r ← rchild_of p
  u ← (if locate == r then lchild_of pp else rchild_of pp)
  uncle_red ← present_red u
  if uncle_red
      then (set_type pp red >> set_type u black >> set_type p black >> again pp)
      else (rotate_up locate p pp >>= λ more. if more then again locate else pure tt)

unfoldable pub rebalance : ℕ → Ptr → Cmd RbTree (Unit {0})
rebalance zero locate = starve
rebalance (suc rounds) locate = do
  p ← parent_of locate
  parent_red ← present_red p
  if parent_red then rebalance_round (rebalance rounds) locate p else pure tt

-- The new node's links, and its parent's to it.
unfoldable pub attach : Ptr → Ptr → Cmd Tree (Unit {0})
attach locate p = do
  on_links (set_parent locate p)
  new ← val_of locate
  above ← val_of p
  on_links (if ltb_ℤ new above then set_lchild p locate else set_rchild p locate)
  on_links count_up

unfoldable pub black_root : Cmd RbTree (Unit {0})
black_root = gets (λ s. s.root) >>= λ root. set_type root black

-- What follows the search for a place. Control reaches the end without a value: `none`.
unfoldable pub insert_below : ℕ → Ptr → Option Ptr → Cmd Tree (Option ℤ)
insert_below rounds locate none = pure (some (negsuc 0))
insert_below rounds locate (some p) =
    attach locate p >> on_links (rebalance rounds locate >> black_root) >> pure none

-- `insert`; the rounds bound both loops.
unfoldable pub insert : ℕ → Ptr → ℤ → Cmd Tree (Option ℤ)
insert rounds fresh v = do
  locate ← create_node fresh v
  root ← gets λ s. (s.links).root
  if locate == null
      then pure (some (pos 0))
      else if root == null
      then (on_links (set_root locate >> set_type locate black) >> pure (some (pos 1)))
      else (descend rounds v root null >>= insert_below rounds locate)
