-- ===== src/Utils/RbTree/Search.antt =====
-- What `search` of utils/rbtree.h finds, and what `insert` answers without a rebalancing.
use mg_raffle.Base.{
  ℕ, zero, suc, ◌≡◌, ◌≢◌, ◌<◌, refl, sym, ◌∙◌, true, false, Option, none, some, ◌∷◌, arith, ◌==◌,
  if◌then◌else◌, Bool-cases, inl, inr,
}
use mg_raffle.Base.Int.{ℤ, ltb_ℤ}
use mg_raffle.Base.Run.{done}
use mg_raffle.Base.Pointers.{Ptr, null}
use mg_raffle.Core.RbTree.{load, lchild_of, rchild_of}
use mg_raffle.Core.RbTree.Search.{
  Shape, leaf, node, nodes, size, Holds, IsSearchTree, find_key, find_key-left, find_key-below,
}
use mg_raffle.Utils.RbTree.{Tree, on_links, val_of, search_loop, search}
use mg_raffle.Utils.RbTree.Insert.{descend}

val_lem : (q : Ptr) (s : Tree) → q ≢ null → val_of q s ≡ done (s.val q) s
unfolding val_of
val_lem q s real = ground arith

left_lem : (q : Ptr) (s : Tree) → q ≢ null → on_links (lchild_of q) s ≡ done ((s.links).lchild q) s
unfolding on_links load
left_lem q s real = ground arith

right_lem : (q : Ptr) (s : Tree) → q ≢ null → on_links (rchild_of q) s ≡ done ((s.links).rchild q) s
unfolding on_links load
right_lem q s real = ground arith

-- Where the list of a tree's nodes has the value.
module _ (val : Ptr → ℤ) (v : ℤ) (q : Ptr) (l r : Shape) (o : IsSearchTree val (node q l r)) where
  pub found_left :
      ltb_ℤ v (val q) ≡ true → find_key val v (nodes l) ≡ find_key val v (nodes (node q l r))
  found_left lt = sym (find_key-left val v q (nodes l) (nodes r) lt o.1)

  pub found_right :
      ltb_ℤ (val q) v ≡ true → find_key val v (nodes r) ≡ find_key val v (nodes (node q l r))
  found_right gt =
      sym (find_key-below val v (val q) (nodes l) (q ∷ nodes r) (ground arith) o.0 ∙ ground arith)

  pub found_here :
      ltb_ℤ v (val q) ≡ false → ltb_ℤ (val q) v ≡ false → find_key val v (nodes (node q l r)) ≡ q
  found_here ge le =
      find_key-below val v (val q) (nodes l) (q ∷ nodes r) (ground arith) o.0 ∙ ground arith

search_loop_lem :
    (rounds : ℕ) (v : ℤ) (p : Ptr) (t : Shape) (s : Tree)
    → size t < rounds
    → Holds s.links p t
    → IsSearchTree s.val t
    → search_loop rounds v p s ≡ done (find_key s.val v (nodes t)) s
unfolding search_loop
search_loop_lem zero v p t s fuel h o = absurd (omega arith)
search_loop_lem (suc rounds) v p leaf s fuel h o = ground arith
search_loop_lem (suc rounds) v p (node q l r) s fuel h o =
    let left = search_loop_lem rounds v ((s.links).lchild q) l s (omega arith) h.2 o.2 in
    let right = search_loop_lem rounds v ((s.links).rchild q) r s (omega arith) h.3 o.3 in
    let real : q == null ≡ false = ground (arith, h.1) in
    rw (h.0, real, val_lem q s h.1)
      (elim (Bool-cases (ltb_ℤ v (s.val q))) [
        | inl lt ↦ rw (lt, left_lem q s h.1, left, found_left s.val v q l r o lt) refl
        | inr ge ↦ elim (Bool-cases (ltb_ℤ (s.val q) v)) [
          | inl gt ↦ rw (ge, gt, right_lem q s h.1, right, found_right s.val v q l r o gt) refl
          | inr le ↦ rw (ge, le, found_here s.val v q l r o ge le) refl
        ]
      ])

-- In a search tree, with more rounds than the tree has nodes, `search` gives the node with the
-- value, or null if there is none, and changes nothing.
pub search_lem :
    (rounds : ℕ) (v : ℤ) (t : Shape) (s : Tree)
    → size t < rounds
    → Holds s.links (s.links).root t
    → IsSearchTree s.val t
    → search rounds v s ≡ done (find_key s.val v (nodes t)) s
unfolding search
search_lem rounds v t s fuel h o = search_loop_lem rounds v (s.links).root t s fuel h o

-- The last node that the search for `v` passes.
abbrev pub place : (Ptr → ℤ) → ℤ → Shape → Ptr → Ptr
place val v leaf p = p
place val v (node q l r) p = if ltb_ℤ v (val q) then place val v l q else place val v r q

abbrev pub place_if_new : (Ptr → ℤ) → ℤ → Shape → Ptr → Option Ptr
place_if_new val v t p = if find_key val v (nodes t) == null then some (place val v t p) else none

-- The descent of `insert` finds out whether the value is there, and else where its node belongs.
pub descend_lem :
    (rounds : ℕ) (v : ℤ) (root p : Ptr) (t : Shape) (s : Tree)
    → size t < rounds
    → Holds s.links root t
    → IsSearchTree s.val t
    → descend rounds v root p s ≡ done (place_if_new s.val v t p) s
unfolding descend
descend_lem zero v root p t s fuel h o = absurd (omega arith)
descend_lem (suc rounds) v root p leaf s fuel h o = ground arith
descend_lem (suc rounds) v root p (node q l r) s fuel h o =
    let left = descend_lem rounds v ((s.links).lchild q) q l s (omega arith) h.2 o.2 in
    let right = descend_lem rounds v ((s.links).rchild q) q r s (omega arith) h.3 o.3 in
    let real : q == null ≡ false = ground (arith, h.1) in
    rw (h.0, real, val_lem q s h.1)
      (elim (Bool-cases (ltb_ℤ v (s.val q))) [
        | inl lt ↦ rw (lt, left_lem q s h.1, left, found_left s.val v q l r o lt) refl
        | inr ge ↦ elim (Bool-cases (ltb_ℤ (s.val q) v)) [
          | inl gt ↦ rw (ge, gt, right_lem q s h.1, right, found_right s.val v q l r o gt) refl
          | inr le ↦ rw (ge, le, found_here s.val v q l r o ge le, real) refl
        ]
      ])
