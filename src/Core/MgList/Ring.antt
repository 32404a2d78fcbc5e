-- ===== src/Core/MgList/Ring.antt =====
-- The lists of core/mg_list.c as sequences: what each operation does to a ring.
use mg_raffle.Base.{◌≡◌, Bool, true, false, List, [], ◌∷◌, ◌++◌, arith}
use mg_raffle.Base.Pointers.{Ptr, has, ◌∉◌, Distinct, has-append}
use mg_raffle.Core.MgList.{
  Links, init_list, insert_list_front, insert_list_end, remove_list_node, list_head, list_tail,
  list_empty,
}
use mg_raffle.Core.MgList.Chain.{Chain, Chain-frame, Chain-last, Chain-before, Chain-after}

-- Round the sentinel `l` stand the distinct nodes `xs`, in the order of `_next`.
abbrev pub IsRing : Links → Ptr → List Ptr → Type 0
IsRing m l xs = Chain m l xs l × Distinct (l ∷ xs)

pub init_list-IsRing : (l : Ptr) (m : Links) → IsRing (init_list l m) l []
unfolding init_list
init_list-IsRing l m = ground arith

insert_list_end-Chain :
    (e l : Ptr) (m : Links) (xs : List Ptr)
    → IsRing m l xs
    → e ∉ (l ∷ xs)
    → Chain (insert_list_end e l m) l (e ∷ xs) l
unfolding insert_list_end
insert_list_end-Chain e l m [] r out = ground arith
insert_list_end-Chain e l m (x ∷ xs) r out = (
  ground arith,
  ground arith,
  (
    ground arith,
    ground arith,
    Chain-frame m _ x l xs (λ p h. ground arith) (λ p h. ground arith) r.0.2,
  ),
)

-- `_prev` of the target lies on the chain, so a chain from another node does not write at it.
insert_list_front-Chain :
    (e l a : Ptr) (m : Links) (xs : List Ptr)
    → Chain m a xs l
    → Distinct (a ∷ xs)
    → l ∉ xs
    → e ∉ (l ∷ a ∷ xs)
    → Chain (insert_list_front e l m) a (xs ++ e ∷ []) l
unfolding insert_list_front
insert_list_front-Chain e l a m [] c d lx out =
    (ground arith, ground arith, (ground arith, ground arith))
insert_list_front-Chain e l a m (x ∷ xs) c d lx out = (
  ground (arith, Chain-last m x l xs c.2),
  ground arith,
  insert_list_front-Chain e l x m xs c.2 d.1 (ground arith) (ground arith),
)

remove_list_node-Chain :
    (e a b : Ptr) (m : Links) (xs ys : List Ptr)
    → Chain m a (xs ++ e ∷ ys) b
    → Distinct (a ∷ xs ++ e ∷ ys)
    → b ∉ (xs ++ e ∷ ys)
    → Chain (remove_list_node e false m) a (xs ++ ys) b
unfolding remove_list_node
remove_list_node-Chain e a b m [] [] c d bx = ground arith
remove_list_node-Chain e a b m [] (y ∷ ys) c d bx = (
  ground arith,
  ground arith,
  Chain-frame m _ y b ys (λ p h. ground arith) (λ p h. ground arith) c.2.2,
)
remove_list_node-Chain e a b m (x ∷ xs) ys c d bx = (
  ground (
    arith,
    Chain-before m x b e xs ys c.2,
    has-append a xs (e ∷ ys),
    has-append a (x ∷ xs) (e ∷ ys),
  ),
  ground (arith, Chain-after m x b e xs ys c.2, has-append x xs (e ∷ ys), has-append e xs (e ∷ ys)),
  remove_list_node-Chain e x b m xs ys c.2 d.1 (ground arith),
)

Distinct-snoc : (e : Ptr) (xs : List Ptr) → Distinct xs → e ∉ xs → Distinct (xs ++ e ∷ [])
Distinct-snoc e [] d out = ground arith
Distinct-snoc e (x ∷ xs) d out = ground (arith, has-append x xs (e ∷ []), Distinct-snoc e xs d.1)

Distinct-cut :
    (e : Ptr) (xs ys : List Ptr) → Distinct (xs ++ e ∷ ys) → Distinct (xs ++ ys) × (e ∉ (xs ++ ys))
Distinct-cut e [] ys d = ground arith
Distinct-cut e (x ∷ xs) ys d =
    ground (arith, has-append x xs (e ∷ ys), has-append x xs ys, Distinct-cut e xs ys d.1)

-- `MG_LIST_PUSH_BACK` puts a node that is not in the ring in front of all others.
pub insert_list_end-IsRing :
    (e l : Ptr) (m : Links) (xs : List Ptr)
    → IsRing m l xs
    → e ∉ (l ∷ xs)
    → IsRing (insert_list_end e l m) l (e ∷ xs)
insert_list_end-IsRing e l m xs r out = (insert_list_end-Chain e l m xs r out, ground arith)

-- `MG_LIST_PUSH_FRONT` puts a node that is not in the ring behind all others.
pub insert_list_front-IsRing :
    (e l : Ptr) (m : Links) (xs : List Ptr)
    → IsRing m l xs
    → e ∉ (l ∷ xs)
    → IsRing (insert_list_front e l m) l (xs ++ e ∷ [])
insert_list_front-IsRing e l m xs r out = (
  insert_list_front-Chain e l l m xs r.0 r.1 r.1.0 (ground arith),
  (ground (arith, has-append l xs (e ∷ [])), Distinct-snoc e xs r.1.1 (ground arith)),
)

-- Removing a node of a ring keeps the others in their order; with `cleanup` the node becomes an
-- empty ring of its own.
pub remove_list_node-IsRing :
    (e l : Ptr) (cleanup : Bool) (m : Links) (xs ys : List Ptr)
    → IsRing m l (xs ++ e ∷ ys)
    → IsRing (remove_list_node e cleanup m) l (xs ++ ys) × IsRing (remove_list_node e true m) e []
unfolding remove_list_node
remove_list_node-IsRing e l false m xs ys r = (
  (
    remove_list_node-Chain e l l m xs ys r.0 r.1 r.1.0,
    ground (arith, Distinct-cut e (l ∷ xs) ys r.1),
  ),
  ground arith,
)
remove_list_node-IsRing e l true m xs ys r =
    let apart = Distinct-cut e (l ∷ xs) ys r.1 in
    let cut = remove_list_node-Chain e l l m xs ys r.0 r.1 r.1.0 in
    (
      (
        Chain-frame (remove_list_node e false m) _ l l (xs ++ ys) (λ p h. ground arith)
            (λ p h. ground arith) cut,
        apart.0,
      ),
      ground arith,
    )

abbrev pub first_or : Ptr → List Ptr → Ptr
first_or l [] = l
first_or l (x ∷ xs) = x

abbrev pub last_or : Ptr → List Ptr → Ptr
last_or l [] = l
last_or l (x ∷ xs) = last_or x xs

abbrev pub is_nil {ℓ} : {A : Type ℓ} → List A → Bool
is_nil [] = true
is_nil (x ∷ xs) = false

Chain-tail : (m : Links) (a b : Ptr) (xs : List Ptr) → Chain m a xs b → m.prev b ≡ last_or a xs
Chain-tail m a b [] c = c.1
Chain-tail m a b (x ∷ xs) c = Chain-tail m x b xs c.2

has-last_or : (a : Ptr) (xs : List Ptr) → has (last_or a xs) (a ∷ xs) ≡ true
has-last_or a [] = ground arith
has-last_or a (x ∷ xs) = ground (arith, has-last_or x xs)

-- On a ring, `list_head` and `list_tail` are the first node and the last one, or the sentinel if
-- there is none, and `MG_LIST_EMPTY` says whether there is none.
pub list_ends :
    (m : Links) (l : Ptr) (xs : List Ptr)
    → IsRing m l xs
    → (list_head l m ≡ first_or l xs)
      × (list_tail l m ≡ last_or l xs)
      × (list_empty l m ≡ is_nil xs)
unfolding list_head list_tail list_empty
list_ends m l [] r = ground arith
list_ends m l (x ∷ xs) r =
    (r.0.0, Chain-tail m x l xs r.0.2, ground (arith, Chain-tail m x l xs r.0.2, has-last_or x xs))
