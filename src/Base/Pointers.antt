-- ===== src/Base/Pointers.antt =====
-- Addresses, membership in a list of them, and stores that are written at one address.
use mathlib.Core.Bool.{or_assoc}
use mg_raffle.Base.{
  ℕ, ◌≡◌, refl, Bool, false, ◌||◌, List, [], ◌∷◌, ◌++◌, arith, ◌==◌, if◌then◌else◌,
}

abbrev pub Ptr : Type 0
Ptr = ℕ

abbrev pub null : Ptr
null = 0

abbrev pub has : Ptr → List Ptr → Bool
has p [] = false
has p (q ∷ qs) = p == q || has p qs

infix 40 ◌∉◌
abbrev pub ◌∉◌ : Ptr → List Ptr → Type 0
p ∉ qs = has p qs ≡ false

-- No address stands twice in the list.
abbrev pub Distinct : List Ptr → Type 0
Distinct [] = Unit
Distinct (q ∷ qs) = (q ∉ qs) × Distinct qs

-- A field of all objects, written at one of them.
abbrev pub put {ℓ} : {A : Type ℓ} → Ptr → A → (Ptr → A) → Ptr → A
put p v f q = if q == p then v else f q

pub has-append : (p : Ptr) (xs ys : List Ptr) → has p (xs ++ ys) ≡ (has p xs || has p ys)
has-append p [] ys = refl
has-append p (x ∷ xs) ys = ground (arith, has-append p xs ys, or_assoc (p == x) (has p xs))

pub Distinct-front : (xs ys : List Ptr) → Distinct (xs ++ ys) → Distinct xs
Distinct-front [] ys d = tt
Distinct-front (x ∷ xs) ys d = ground (arith, has-append x xs ys, Distinct-front xs ys d.1)
