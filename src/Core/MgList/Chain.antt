-- ===== src/Core/MgList/Chain.antt =====
-- Chains of links between two addresses, and what single writes do to them.
use mg_raffle.Base.{◌≡◌, true, List, [], ◌∷◌, ◌++◌, arith}
use mg_raffle.Base.Pointers.{Ptr, has}
use mg_raffle.Core.MgList.{Links}

-- From `a` the links lead through `xs` to `b`, and back.
abbrev pub Chain : Links → Ptr → List Ptr → Ptr → Type 0
Chain m a [] b = (m.next a ≡ b) × (m.prev b ≡ a)
Chain m a (x ∷ xs) b = (m.next a ≡ x) × (m.prev x ≡ a) × Chain m x xs b

-- A chain reads `next` at its sources and `prev` at its targets.
pub Chain-frame :
    (m g : Links) (a b : Ptr) (xs : List Ptr)
    → ((p : Ptr) → has p (a ∷ xs) ≡ true → g.next p ≡ m.next p)
    → ((p : Ptr) → has p (b ∷ xs) ≡ true → g.prev p ≡ m.prev p)
    → Chain m a xs b
    → Chain g a xs b
Chain-frame m g a b [] hn hp c = ground (arith, hn a, hp b)
Chain-frame m g a b (x ∷ xs) hn hp c = (
  ground (arith, hn a),
  ground (arith, hp x),
  Chain-frame m g x b xs (λ p h. ground (arith, hn p)) (λ p h. ground (arith, hp p)) c.2,
)

-- The chain's last link is the target's `prev`, its first the source's `next`.
pub Chain-last :
    (m : Links) (a b : Ptr) (xs : List Ptr) → Chain m a xs b → has (m.prev b) (a ∷ xs) ≡ true
Chain-last m a b [] c = ground arith
Chain-last m a b (x ∷ xs) c = ground (arith, Chain-last m x b xs c.2)

pub Chain-first :
    (m : Links) (a b : Ptr) (xs : List Ptr) → Chain m a xs b → has (m.next a) (b ∷ xs) ≡ true
Chain-first m a b [] c = ground arith
Chain-first m a b (x ∷ xs) c = ground arith

-- The neighbours of a node inside a chain.
pub Chain-before :
    (m : Links) (a b e : Ptr) (xs ys : List Ptr)
    → Chain m a (xs ++ e ∷ ys) b
    → has (m.prev e) (a ∷ xs) ≡ true
Chain-before m a b e [] ys c = ground arith
Chain-before m a b e (x ∷ xs) ys c = ground (arith, Chain-before m x b e xs ys c.2)

pub Chain-after :
    (m : Links) (a b e : Ptr) (xs ys : List Ptr)
    → Chain m a (xs ++ e ∷ ys) b
    → has (m.next e) (b ∷ ys) ≡ true
Chain-after m a b e [] ys c = Chain-first m e b ys c.2
Chain-after m a b e (x ∷ xs) ys c = Chain-after m x b e xs ys c.2
