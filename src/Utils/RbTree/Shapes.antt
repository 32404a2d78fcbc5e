-- ===== src/Utils/RbTree/Shapes.antt =====
-- Search trees that get a new leaf, for the insertion of utils/rbtree.h.
use mg_raffle.Base.{
  ◌≡◌, ◌≢◌, refl, ◌∙◌, true, false, List, ◌∷◌, ◌++◌, arith, ◌==◌, if◌then◌else◌, Bool-cases, inl,
  inr,
}
use mg_raffle.Base.Int.{ℤ, ltb_ℤ}
use mg_raffle.Base.Pointers.{Ptr, null, has, ◌∉◌, Distinct, Distinct-front, has-append}
use mg_raffle.Core.RbTree.{RbTree}
use mg_raffle.Core.RbTree.Search.{Shape, leaf, node, nodes, Holds}
use mg_raffle.Core.RbTree.Linked.{Distinct-back, apart, has_middle, has_left, has_right}
use mg_raffle.Utils.RbTree.Search.{place}

-- The links at a tree's nodes are all that it is held by.
pub Holds-frame :
    (t : Shape) (s g : RbTree) (p : Ptr)
    → ((q : Ptr) → has q (nodes t) ≡ true → g.lchild q ≡ s.lchild q)
    → ((q : Ptr) → has q (nodes t) ≡ true → g.rchild q ≡ s.rchild q)
    → Holds s p t
    → Holds g p t
Holds-frame leaf s g p hl hr h = h
Holds-frame (node q l r) s g p hl hr h =
    let here = has_middle q (nodes l) (nodes r) in
    (
      h.0,
      h.1,
      rw (hl q here) (
          Holds-frame l s g (s.lchild q) (λ x m. hl x (has_left x q (nodes l) (nodes r) m))
            (λ x m. hr x (has_left x q (nodes l) (nodes r) m)) h.2),
      rw (hr q here) (
          Holds-frame r s g (s.rchild q) (λ x m. hl x (has_right x q (nodes l) (nodes r) m))
            (λ x m. hr x (has_right x q (nodes l) (nodes r) m)) h.3),
    )

pub null_out : (t : Shape) (s : RbTree) (p : Ptr) → Holds s p t → null ∉ nodes t
null_out leaf s p h = refl
null_out (node q l r) s p h = ground (
  arith,
  h.1,
  has-append null (nodes l) (q ∷ nodes r),
  null_out l s (s.lchild q) h.2,
  null_out r s (s.rchild q) h.3,
)

module _ (val : Ptr → ℤ) (v : ℤ) (n : Ptr) where
  -- A search tree with one more node, where the search for its value ends.
  abbrev pub grow : Shape → Shape
  grow leaf = node n leaf leaf
  grow (node q l r) = if ltb_ℤ v (val q) then node q (grow l) r else node q l (grow r)

  abbrev pub top : Shape → Ptr → Ptr
  top leaf p = n
  top (node q l r) p = p

  place_in : (t : Shape) (p : Ptr) → has (place val v t p) (p ∷ nodes t) ≡ true
  place_in leaf p = ground arith
  place_in (node q l r) p = ground (
    arith,
    place_in l q,
    place_in r q,
    has-append (place val v l q) (nodes l) (q ∷ nodes r),
    has-append (place val v r q) (nodes l) (q ∷ nodes r),
  )

  pub place_node :
      (q : Ptr) (l r : Shape) (p : Ptr)
      → has (place val v (node q l r) p) (nodes (node q l r)) ≡ true
  place_node q l r p = ground (
    arith,
    place_in l q,
    place_in r q,
    has-append (place val v l q) (nodes l) (q ∷ nodes r),
    has-append (place val v r q) (nodes l) (q ∷ nodes r),
  )

  -- In a tree that is not empty the place is one of its nodes.
  place_below : (t : Shape) (q : Ptr) → q ∉ nodes t → q == place val v t q ≡ true → t ≡ leaf
  place_below leaf q out e = refl
  place_below (node x l r) q out e = absurd (
      ground (
        arith,
        place_in l x,
        place_in r x,
        has-append (place val v l x) (nodes l) (x ∷ nodes r),
        has-append (place val v r x) (nodes l) (x ∷ nodes r),
      ))

  top_left :
      (l : Shape) (q w x : Ptr)
      → q ∉ nodes l
      → w ≡ place val v l q
      → (if q == w then n else x) ≡ top l x
  top_left leaf q w x out e = ground arith
  top_left (node y a b) q w x out e = elim (Bool-cases (q == place val v (node y a b) q)) [
    | inl same ↦ absurd (leaf_apart (place_below (node y a b) q out same))
    | inr differs ↦ rw (e, differs) refl
  ]
    where
      leaf_apart : node y a b ≡ leaf → ⊥
      leaf_apart e = cc

  -- A place on one side is none of the nodes of the other.
  not_right :
      (l r : Shape) (q x : Ptr)
      → Distinct (nodes l ++ q ∷ nodes r)
      → has x (nodes r) ≡ true
      → x == place val v l q ≡ false
  not_right l r q x d m =
      let right = Distinct-back (nodes l) (q ∷ nodes r) d in
      ground (arith, place_in l q, apart x (nodes l) (q ∷ nodes r) d, right.0, m)

  not_left :
      (l r : Shape) (q x : Ptr)
      → Distinct (nodes l ++ q ∷ nodes r)
      → has x (nodes l) ≡ true
      → x == place val v r q ≡ false
  not_left l r q x d m = ground (arith, place_in r q, apart x (nodes l) (q ∷ nodes r) d m)

  module _ (s g : RbTree) (w : Ptr) (real : n ≢ null) (no_left : g.lchild n ≡ null)
      (no_right : g.rchild n ≡ null) where
    -- Only the link at `w`, on the side where `v` belongs, is written.
    pub record Hung (qs : List Ptr) : Type 0 where
      pub left :
          (q : Ptr)
          → has q qs ≡ true
          → g.lchild q
            ≡ (if ltb_ℤ v (val q) then (if q == w then n else s.lchild q) else s.lchild q)
      pub right :
          (q : Ptr)
          → has q qs ≡ true
          → g.rchild q
            ≡ (if ltb_ℤ v (val q) then s.rchild q else (if q == w then n else s.rchild q))

    Hung-left : (q : Ptr) (xs ys : List Ptr) → Hung (xs ++ q ∷ ys) → Hung xs
    Hung-left q xs ys h = record {
      left = λ x m. h.left x (has_left x q xs ys m);
      right = λ x m. h.right x (has_left x q xs ys m);
    }

    Hung-right : (q : Ptr) (xs ys : List Ptr) → Hung (xs ++ q ∷ ys) → Hung ys
    Hung-right q xs ys h = record {
      left = λ x m. h.left x (has_right x q xs ys m);
      right = λ x m. h.right x (has_right x q xs ys m);
    }

    -- A tree without the place stays.
    Hung-frame :
        (t : Shape) (p : Ptr)
        → Hung (nodes t)
        → ((x : Ptr) → has x (nodes t) ≡ true → x == w ≡ false)
        → Holds s p t
        → Holds g p t
    Hung-frame t p u away h =
        Holds-frame t s g p (λ x m. ground (arith, u.left x m, away x m))
          (λ x m. ground (arith, u.right x m, away x m)) h

    pub grow-Holds :
        (t : Shape) (p p0 : Ptr)
        → Distinct (nodes t)
        → w ≡ place val v t p0
        → Hung (nodes t)
        → Holds s p t
        → Holds g (top t p) (grow t)
    grow-Holds leaf p p0 d e u h = (refl, real, no_left, no_right)
    grow-Holds (node q l r) p p0 d e u h =
        let right = Distinct-back (nodes l) (q ∷ nodes r) d in
        let here = has_middle q (nodes l) (nodes r) in
        let q_out : q ∉ nodes l = ground (arith, apart q (nodes l) (q ∷ nodes r) d) in
        elim (Bool-cases (ltb_ℤ v (val q))) [
          | inl lt ↦
              let at : w ≡ place val v l q = rw lt at e in
              let el : g.lchild q ≡ top l (s.lchild q) =
                u.left q here ∙ (rw lt (top_left l q w (s.lchild q) q_out at)) in
              let er : g.rchild q ≡ s.rchild q = u.right q here ∙ (rw lt refl) in
              rw lt (
                h.0,
                h.1,
                rw el (
                    grow-Holds l (s.lchild q) q (Distinct-front (nodes l) (q ∷ nodes r) d) at
                      (Hung-left q (nodes l) (nodes r) u) h.2),
                rw er (
                    Hung-frame r (s.rchild q) (Hung-right q (nodes l) (nodes r) u)
                      (λ x m. rw at (not_right l r q x d m)) h.3),
              )
          | inr ge ↦
              let at : w ≡ place val v r q = rw ge at e in
              let el : g.lchild q ≡ s.lchild q = u.left q here ∙ (rw ge refl) in
              let er : g.rchild q ≡ top r (s.rchild q) =
                u.right q here ∙ (rw ge (top_left r q w (s.rchild q) right.0 at)) in
              rw ge (
                h.0,
                h.1,
                rw el (
                    Hung-frame l (s.lchild q) (Hung-left q (nodes l) (nodes r) u)
                      (λ x m. rw at (not_left l r q x d m)) h.2),
                rw er (
                    grow-Holds r (s.rchild q) q right.1 at (Hung-right q (nodes l) (nodes r) u)
                      h.3),
              )
        ]
