-- ===== src/Core/RbTree/Linked.antt =====
-- Trees of core/mg_rbtree.h with their parent links, and writes outside of them.
use mg_raffle.Base.{◌≡◌, ◌≢◌, ◌∙◌, true, false, List, [], ◌∷◌, ◌++◌, arith, ◌==◌}
use mg_raffle.Base.Pointers.{Ptr, null, has, ◌∉◌, Distinct, has-append}
use mg_raffle.Core.RbTree.{RbTree}
use mg_raffle.Core.RbTree.Search.{Shape, leaf, node, nodes}

-- The links from `p` down have this shape, and lead back up to `pp`.
abbrev pub IsTree : RbTree → Ptr → Ptr → Shape → Type 0
IsTree s pp p leaf = p ≡ null
IsTree s pp p (node q l r) =
    (p ≡ q) × (q ≢ null) × (s.parent q ≡ pp) × IsTree s q (s.lchild q) l × IsTree s q (s.rchild q) r

pub Distinct-back : (xs ys : List Ptr) → Distinct (xs ++ ys) → Distinct ys
Distinct-back [] ys d = d
Distinct-back (x ∷ xs) ys d = Distinct-back xs ys d.1

pub apart : (q : Ptr) (xs ys : List Ptr) → Distinct (xs ++ ys) → has q xs ≡ true → q ∉ ys
apart q [] ys d h = cc
apart q (x ∷ xs) ys d h = ground (arith, has-append x xs ys, apart q xs ys d.1)

pub has_middle : (q : Ptr) (xs ys : List Ptr) → has q (xs ++ q ∷ ys) ≡ true
has_middle q xs ys = ground (arith, has-append q xs (q ∷ ys))

pub has_left : (x q : Ptr) (xs ys : List Ptr) → has x xs ≡ true → has x (xs ++ q ∷ ys) ≡ true
has_left x q xs ys h = ground (arith, has-append x xs (q ∷ ys))

pub has_right : (x q : Ptr) (xs ys : List Ptr) → has x ys ≡ true → has x (xs ++ q ∷ ys) ≡ true
has_right x q xs ys h = ground (arith, has-append x xs (q ∷ ys))

pub ne_of_has : (x q : Ptr) (xs : List Ptr) → has x xs ≡ true → q ∉ xs → x == q ≡ false
ne_of_has x q xs h out = ground (arith, h, out)

module _ (s g : RbTree) where
  -- `g` has the links of `s` at these nodes.
  pub record Agree (qs : List Ptr) : Type 0 where
    pub parents : (q : Ptr) → has q qs ≡ true → g.parent q ≡ s.parent q
    pub lchilds : (q : Ptr) → has q qs ≡ true → g.lchild q ≡ s.lchild q
    pub rchilds : (q : Ptr) → has q qs ≡ true → g.rchild q ≡ s.rchild q

  pub Agree-front : (xs ys : List Ptr) → Agree (xs ++ ys) → Agree xs
  Agree-front xs ys a = record {
    parents = λ q h. a.parents q (ground (arith, has-append q xs ys));
    lchilds = λ q h. a.lchilds q (ground (arith, has-append q xs ys));
    rchilds = λ q h. a.rchilds q (ground (arith, has-append q xs ys));
  }

  pub Agree-back : (xs : List Ptr) (y : Ptr) (ys : List Ptr) → Agree (xs ++ y ∷ ys) → Agree ys
  Agree-back xs y ys a = record {
    parents = λ q h. a.parents q (ground (arith, has-append q xs (y ∷ ys)));
    lchilds = λ q h. a.lchilds q (ground (arith, has-append q xs (y ∷ ys)));
    rchilds = λ q h. a.rchilds q (ground (arith, has-append q xs (y ∷ ys)));
  }

  pub IsTree-frame : (t : Shape) (pp p : Ptr) → Agree (nodes t) → IsTree s pp p t → IsTree g pp p t
  IsTree-frame leaf pp p a h = h
  IsTree-frame (node q l r) pp p a h =
      let here : has q (nodes l ++ q ∷ nodes r) ≡ true = has_middle q (nodes l) (nodes r) in
      (
        h.0,
        h.1,
        a.parents q here ∙ h.2,
        rw (a.lchilds q here) (IsTree-frame l q (s.lchild q) (Agree-front (nodes l) _ a) h.3),
        rw (a.rchilds q here)
            (IsTree-frame r q (s.rchild q) (Agree-back (nodes l) q (nodes r) a) h.4),
      )

  -- The same for a tree whose root gets another parent.
  pub IsTree-move :
      (t : Shape) (pp new p : Ptr)
      → Distinct (nodes t)
      → (p ≢ null → g.parent p ≡ new)
      → ((q : Ptr) → has q (nodes t) ≡ true → q == p ≡ false → g.parent q ≡ s.parent q)
      → ((q : Ptr) → has q (nodes t) ≡ true → g.lchild q ≡ s.lchild q)
      → ((q : Ptr) → has q (nodes t) ≡ true → g.rchild q ≡ s.rchild q)
      → IsTree s pp p t
      → IsTree g new p t
  IsTree-move leaf pp new p d top hp hl hr h = h
  IsTree-move (node q l r) pp new p d top hp hl hr h =
      let here : has q (nodes l ++ q ∷ nodes r) ≡ true = has_middle q (nodes l) (nodes r) in
      let right = Distinct-back (nodes l) (q ∷ nodes r) d in
      let al : Agree (nodes l) = record {
        parents = λ x m.
            hp x (has_left x q (nodes l) (nodes r) m)
              (ground (arith, h.0, apart x (nodes l) (q ∷ nodes r) d m));
        lchilds = λ x m. hl x (has_left x q (nodes l) (nodes r) m);
        rchilds = λ x m. hr x (has_left x q (nodes l) (nodes r) m);
      } in
      let ar : Agree (nodes r) = record {
        parents = λ x m.
            hp x (has_right x q (nodes l) (nodes r) m) (rw h.0 (ne_of_has x q (nodes r) m right.0));
        lchilds = λ x m. hl x (has_right x q (nodes l) (nodes r) m);
        rchilds = λ x m. hr x (has_right x q (nodes l) (nodes r) m);
      } in
      (
        h.0,
        h.1,
        rw h.0 at (top (rw h.0 h.1)),
        rw (hl q here) (IsTree-frame l q (s.lchild q) al h.3),
        rw (hr q here) (IsTree-frame r q (s.rchild q) ar h.4),
      )
