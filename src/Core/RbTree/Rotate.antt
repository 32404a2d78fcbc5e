-- ===== src/Core/RbTree/Rotate.antt =====
-- The rotations of core/mg_rbtree.h on trees with their parent links.
use mg_raffle.Base.{◌≡◌, ◌≢◌, refl, true, false, List, ◌∷◌, ◌++◌, arith, ◌==◌, if◌then◌else◌, ◌⊎◌}
use mg_raffle.Base.Run.{Run, done}
use mg_raffle.Base.Pointers.{Ptr, null, put, has, ◌∉◌, Distinct, Distinct-front, has-append}
use mg_raffle.Core.RbTree.{RbTree, load, store, relink_left, left_rotate}
use mg_raffle.Core.RbTree.Search.{Shape, leaf, node, nodes}
use mg_raffle.Core.RbTree.Linked.{
  IsTree, IsTree-frame, IsTree-move, Agree, apart, Distinct-back, ne_of_has,
}

-- `p` hangs below `pp`, or is the root if `pp` is null.
abbrev pub Hangs : RbTree → Ptr → Ptr → Type 0
Hangs s pp p =
    ((pp ≡ null) × (s.root ≡ p))
    ⊎ ((pp ≢ null) × (s.lchild pp ≡ p))
    ⊎ ((pp ≢ null) × (s.rchild pp ≡ p))

abbrev pub Rotated : Ptr → Ptr → Shape → Run RbTree (Unit {0}) → Type 0
Rotated pp p t (done u s) = IsTree s pp p t × Hangs s pp p
Rotated pp p t _ = ⊥

module _ (x y pp : Ptr) (s : RbTree) where
  -- What the assignments of `left_rotate` leave.
  abbrev turned : Ptr → RbTree
  turned inner = record s {
    parent = put x y (put y pp (if inner == null then s.parent else put inner x s.parent));
    lchild =
        put y x (
          if pp == null
          then s.lchild
          else if s.lchild pp == x
          then put pp y s.lchild
          else s.lchild);
    rchild =
        if pp == null
        then put x inner s.rchild
        else if s.lchild pp == x
        then put x inner s.rchild
        else put pp y (put x inner s.rchild);
    root = if pp == null then y else s.root;
  }

  left_rotate_lem :
      Hangs s pp x
      → x ≢ null
      → y ≢ null
      → x ≢ pp
      → y ≢ x
      → s.parent x ≡ pp
      → s.rchild x ≡ y
      → left_rotate x s ≡ done tt (turned (s.lchild y))
  unfolding left_rotate relink_left load store
  left_rotate_lem hang xr yr xp yx ep er = ground arith

root_in :
    (s : RbTree) (pp p : Ptr) (t : Shape) → IsTree s pp p t → p ≢ null → has p (nodes t) ≡ true
root_in s pp p leaf h real = absurd (real h)
root_in s pp p (node q l r) h real = ground (arith, h.0, has-append q (nodes l) (q ∷ nodes r))

-- What is left out of a middle part.
out_of_append :
    (q y : Ptr) (xs ys : List Ptr) → q ∉ (xs ++ y ∷ ys) → (q ∉ xs) × (q == y ≡ false) × (q ∉ ys)
out_of_append q y xs ys h = ground (arith, has-append q xs (y ∷ ys))

module _ (x y pp : Ptr) (a b c : Shape) (s : RbTree)
    (pp_out : pp ∉ (nodes a ++ x ∷ (nodes b ++ y ∷ nodes c)))
    (d : Distinct (nodes a ++ x ∷ (nodes b ++ y ∷ nodes c))) where
  abbrev inner : Ptr
  inner = s.lchild y

  abbrev after : RbTree
  after = turned x y pp s inner

  pp_apart : (pp ∉ nodes a) × (pp == x ≡ false) × (pp ∉ (nodes b ++ y ∷ nodes c))
  pp_apart = out_of_append pp x (nodes a) (nodes b ++ y ∷ nodes c) pp_out

  pp_right : (pp ∉ nodes b) × (pp == y ≡ false) × (pp ∉ nodes c)
  pp_right = out_of_append pp y (nodes b) (nodes c) pp_apart.2

  right : Distinct (x ∷ (nodes b ++ y ∷ nodes c))
  right = Distinct-back (nodes a) (x ∷ (nodes b ++ y ∷ nodes c)) d

  x_apart : (x ∉ nodes b) × (x == y ≡ false) × (x ∉ nodes c)
  x_apart = out_of_append x y (nodes b) (nodes c) right.0

  y_apart : Distinct (y ∷ nodes c)
  y_apart = Distinct-back (nodes b) (y ∷ nodes c) right.1

  Agree-a : IsTree s y inner b → Agree s after (nodes a)
  Agree-a hb =
      let out : (q : Ptr) → has q (nodes a) ≡ true → q ∉ (x ∷ (nodes b ++ y ∷ nodes c)) =
        λ q m. apart q (nodes a) (x ∷ (nodes b ++ y ∷ nodes c)) d m in
      let apart_y : (q : Ptr)
          → has q (nodes a) ≡ true
          → (q ∉ nodes b) × (q == y ≡ false) × (q ∉ nodes c) =
        λ q m. out_of_append q y (nodes b) (nodes c) (ground (arith, out q m)) in
      record {
        parents = λ q m. ground (arith, out q m, apart_y q m, root_in s y inner b hb);
        lchilds =
            λ q m. ground (arith, out q m, apart_y q m, ne_of_has q pp (nodes a) m pp_apart.0);
        rchilds =
            λ q m. ground (arith, out q m, apart_y q m, ne_of_has q pp (nodes a) m pp_apart.0);
      }

  Agree-c : IsTree s y inner b → Agree s after (nodes c)
  Agree-c hb =
      let apart_b : (q : Ptr) → has q (nodes c) ≡ true → q ∉ nodes b =
        λ q m. ground (arith, apart q (nodes b) (y ∷ nodes c) right.1) in
      record {
        parents = λ q m. ground (
          arith,
          apart_b q m,
          ne_of_has q y (nodes c) m y_apart.0,
          ne_of_has q x (nodes c) m x_apart.2,
          root_in s y inner b hb,
        );
        lchilds = λ q m.
            ground
              (arith, ne_of_has q y (nodes c) m y_apart.0, ne_of_has q pp (nodes c) m pp_right.2);
        rchilds = λ q m.
            ground
              (arith, ne_of_has q x (nodes c) m x_apart.2, ne_of_has q pp (nodes c) m pp_right.2);
      }

  b_moves : IsTree s y inner b → IsTree after x inner b
  b_moves hb =
      let out_y : (q : Ptr) → has q (nodes b) ≡ true → q == y ≡ false =
        λ q m. ground (arith, apart q (nodes b) (y ∷ nodes c) right.1 m) in
      IsTree-move s after b y x inner (Distinct-front (nodes b) (y ∷ nodes c) right.1)
        (λ real. ground (arith, root_in s y inner b hb real, x_apart, out_y inner))
        (λ q m differs. ground (arith, out_y q m, ne_of_has q x (nodes b) m x_apart.0))
        (λ q m. ground (arith, out_y q m, ne_of_has q pp (nodes b) m pp_right.0))
        (λ q m.
          ground
            (arith, ne_of_has q x (nodes b) m x_apart.0, ne_of_has q pp (nodes b) m pp_right.0))
        hb

  -- The links of the two nodes.
  after_links :
      (after.parent y ≡ pp)
      × (after.parent x ≡ y)
      × (after.lchild y ≡ x)
      × (after.lchild x ≡ s.lchild x)
      × (after.rchild x ≡ inner)
      × (after.rchild y ≡ s.rchild y)
  after_links = (
    ground (arith, x_apart),
    ground arith,
    ground arith,
    ground (arith, x_apart, pp_apart),
    ground (arith, x_apart, pp_apart),
    ground (arith, x_apart, pp_right),
  )

  after-IsTree :
      IsTree s pp x (node x a (node y b c))
      → s.rchild x ≡ y
      → IsTree after pp y (node y (node x a b) c)
  after-IsTree h e =
      let hc : IsTree s y (s.rchild y) c = h.4.4 in
      let (py, px, ly, lx, rx, ry) = after_links in
      (
        refl,
        h.4.1,
        py,
        (
          ly,
          h.1,
          px,
          rw lx (IsTree-frame s after a x (s.lchild x) (Agree-a h.4.3) h.3),
          rw rx (b_moves h.4.3),
        ),
        rw ry (IsTree-frame s after c y (s.rchild y) (Agree-c h.4.3) hc),
      )

-- `left_rotate` turns a node and its right child, in a tree of distinct nodes below `pp` or at the
-- root: the tree it leaves is well formed with its parent links, hangs where the old one hung, and
-- has the same nodes in the same order.
pub left_rotate-Rotated :
    (x y pp : Ptr) (a b c : Shape) (s : RbTree)
    → IsTree s pp x (node x a (node y b c))
    → Hangs s pp x
    → pp ∉ (nodes a ++ x ∷ (nodes b ++ y ∷ nodes c))
    → Distinct (nodes a ++ x ∷ (nodes b ++ y ∷ nodes c))
    → Rotated pp y (node y (node x a b) c) (left_rotate x s)
left_rotate-Rotated x y pp a b c s h hang out d =
    let p1 = pp_apart x y pp a b c s out d in
    let p2 = pp_right x y pp a b c s out d in
    let xy = x_apart x y pp a b c s out d in
    rw (left_rotate_lem x y pp s hang h.1 h.4.1 (ground (arith, p1)) (ground (arith, xy)) h.2 h.4.0)
      (after-IsTree x y pp a b c s out d h h.4.0, ground (arith, hang, p1, p2))
