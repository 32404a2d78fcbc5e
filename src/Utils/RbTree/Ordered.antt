-- ===== src/Utils/RbTree/Ordered.antt =====
-- The order of a search tree that gets a new leaf.
use mg_raffle.Base.{◌≡◌, ◌∙◌, true, List, [], ◌∷◌, ◌++◌, arith, Bool-cases, inl, inr}
use mg_raffle.Base.Int.{ℤ, ◌<ℤ◌, ltb_ℤ}
use mg_raffle.Base.Pointers.{Ptr, null, has}
use mg_raffle.Core.RbTree.Search.{
  Shape, leaf, node, nodes, Holds, AllBelow, AllAbove, IsSearchTree, find_key,
}
use mg_raffle.Core.RbTree.{RbTree}
use mg_raffle.Core.RbTree.Linked.{has_left, has_right, has_middle}
use mg_raffle.Utils.RbTree.Search.{found_left, found_right, found_here}
use mg_raffle.Utils.RbTree.Shapes.{grow}

module _ (f : Ptr → ℤ) (k : ℤ) where
  AllBelow-append : (xs ys : List Ptr) → AllBelow f k xs → AllBelow f k ys → AllBelow f k (xs ++ ys)
  AllBelow-append [] ys a b = b
  AllBelow-append (x ∷ xs) ys a b = (a.0, AllBelow-append xs ys a.1 b)

  AllBelow-front : (xs ys : List Ptr) → AllBelow f k (xs ++ ys) → AllBelow f k xs
  AllBelow-front [] ys a = tt
  AllBelow-front (x ∷ xs) ys a = (a.0, AllBelow-front xs ys a.1)

  AllBelow-back : (xs ys : List Ptr) → AllBelow f k (xs ++ ys) → AllBelow f k ys
  AllBelow-back [] ys a = a
  AllBelow-back (x ∷ xs) ys a = AllBelow-back xs ys a.1

  AllAbove-append : (xs ys : List Ptr) → AllAbove f k xs → AllAbove f k ys → AllAbove f k (xs ++ ys)
  AllAbove-append [] ys a b = b
  AllAbove-append (x ∷ xs) ys a b = (a.0, AllAbove-append xs ys a.1 b)

  AllAbove-front : (xs ys : List Ptr) → AllAbove f k (xs ++ ys) → AllAbove f k xs
  AllAbove-front [] ys a = tt
  AllAbove-front (x ∷ xs) ys a = (a.0, AllAbove-front xs ys a.1)

  AllAbove-back : (xs ys : List Ptr) → AllAbove f k (xs ++ ys) → AllAbove f k ys
  AllAbove-back [] ys a = a
  AllAbove-back (x ∷ xs) ys a = AllAbove-back xs ys a.1

module _ (f g : Ptr → ℤ) where
  AllBelow-frame :
      (k : ℤ) (xs : List Ptr)
      → ((x : Ptr) → has x xs ≡ true → g x ≡ f x)
      → AllBelow f k xs
      → AllBelow g k xs
  AllBelow-frame k [] same a = tt
  AllBelow-frame k (x ∷ xs) same a =
      (rw (same x (ground arith)) a.0, AllBelow-frame k xs (λ y m. same y (ground arith)) a.1)

  AllAbove-frame :
      (k : ℤ) (xs : List Ptr)
      → ((x : Ptr) → has x xs ≡ true → g x ≡ f x)
      → AllAbove f k xs
      → AllAbove g k xs
  AllAbove-frame k [] same a = tt
  AllAbove-frame k (x ∷ xs) same a =
      (rw (same x (ground arith)) a.0, AllAbove-frame k xs (λ y m. same y (ground arith)) a.1)

  -- The values at a tree's nodes are all that its order is about.
  pub IsSearchTree-frame :
      (t : Shape)
      → ((x : Ptr) → has x (nodes t) ≡ true → g x ≡ f x)
      → IsSearchTree f t
      → IsSearchTree g t
  IsSearchTree-frame leaf same o = tt
  IsSearchTree-frame (node q l r) same o =
      let same_l : (x : Ptr) → has x (nodes l) ≡ true → g x ≡ f x =
        λ x m. same x (has_left x q (nodes l) (nodes r) m) in
      let same_r : (x : Ptr) → has x (nodes r) ≡ true → g x ≡ f x =
        λ x m. same x (has_right x q (nodes l) (nodes r) m) in
      let here = same q (has_middle q (nodes l) (nodes r)) in
      (
        rw here (AllBelow-frame (f q) (nodes l) same_l o.0),
        rw here (AllAbove-frame (f q) (nodes r) same_r o.1),
        IsSearchTree-frame l same_l o.2,
        IsSearchTree-frame r same_r o.3,
      )

module _ (val : Ptr → ℤ) (v : ℤ) (n : Ptr) (e : val n ≡ v) where
  grow-AllBelow :
      (k : ℤ) (t : Shape)
      → v <ℤ k
      → AllBelow val k (nodes t)
      → AllBelow val k (nodes (grow val v n t))
  grow-AllBelow k leaf lt a = (rw e lt, tt)
  grow-AllBelow k (node q l r) lt a =
      let al = AllBelow-front val k (nodes l) (q ∷ nodes r) a in
      let (aq, ar) = AllBelow-back val k (nodes l) (q ∷ nodes r) a in
      elim (Bool-cases (ltb_ℤ v (val q))) [
        | inl less ↦ rw less (
            AllBelow-append val k (nodes (grow val v n l)) (q ∷ nodes r) (grow-AllBelow k l lt al)
              (aq, ar))
        | inr more ↦ rw more (
            AllBelow-append val k (nodes l) (q ∷ nodes (grow val v n r)) al
              (aq, grow-AllBelow k r lt ar))
      ]

  grow-AllAbove :
      (k : ℤ) (t : Shape)
      → k <ℤ v
      → AllAbove val k (nodes t)
      → AllAbove val k (nodes (grow val v n t))
  grow-AllAbove k leaf lt a = (rw e lt, tt)
  grow-AllAbove k (node q l r) lt a =
      let al = AllAbove-front val k (nodes l) (q ∷ nodes r) a in
      let (aq, ar) = AllAbove-back val k (nodes l) (q ∷ nodes r) a in
      elim (Bool-cases (ltb_ℤ v (val q))) [
        | inl less ↦ rw less (
            AllAbove-append val k (nodes (grow val v n l)) (q ∷ nodes r) (grow-AllAbove k l lt al)
              (aq, ar))
        | inr more ↦ rw more (
            AllAbove-append val k (nodes l) (q ∷ nodes (grow val v n r)) al
              (aq, grow-AllAbove k r lt ar))
      ]

  -- A search tree without the value grows into a search tree.
  pub grow-IsSearchTree :
      (s : RbTree) (p : Ptr) (t : Shape)
      → Holds s p t
      → find_key val v (nodes t) ≡ null
      → IsSearchTree val t
      → IsSearchTree val (grow val v n t)
  grow-IsSearchTree s p leaf h missing o = (tt, tt, tt, tt)
  grow-IsSearchTree s p (node q l r) h missing o = elim (Bool-cases (ltb_ℤ v (val q))) [
    | inl lt ↦ rw lt (
      grow-AllBelow (val q) l lt o.0,
      o.1,
      grow-IsSearchTree s (s.lchild q) l h.2 (found_left val v q l r o lt ∙ missing) o.2,
      o.3,
    )
    | inr ge ↦
        let gt : val q <ℤ v = ground (arith, found_here val v q l r o ge, missing, h.1) in
        rw ge (
          o.0,
          grow-AllAbove (val q) r gt o.1,
          o.2,
          grow-IsSearchTree s (s.rchild q) r h.3 (found_right val v q l r o gt ∙ missing) o.3,
        )
  ]
