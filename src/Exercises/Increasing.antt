-- ===== src/Exercises/Increasing.antt =====
-- `minOperations` of gencode/mg_server/helloworld.cpp: the fewest steps of one that make an array
-- strictly increasing.
use mg_raffle.Base.{
  ◌≡◌, refl, ◌∙◌, List, [], ◌∷◌, arith, false, Bool-cases, inl, inr, if◌then◌else◌,
}
use mg_raffle.Base.Int.{ℤ, pos, ◌+ℤ◌, ◌-ℤ◌, ◌≤ℤ◌, ltb_ℤ, int_laws, zero-add}
use mg_raffle.Exercises.{operations_loop, min_operations}

-- `bs` is strictly increasing from `low` on, and no element is below that of `xs`.
abbrev pub RaisesFrom : ℤ → List ℤ → List ℤ → Type 0
RaisesFrom low [] [] = Unit
RaisesFrom low (x ∷ xs) (b ∷ bs) = (low ≤ℤ b) × (x ≤ℤ b) × RaisesFrom (b +ℤ pos 1) xs bs
RaisesFrom low [] (b ∷ bs) = ⊥
RaisesFrom low (x ∷ xs) [] = ⊥

abbrev pub Raises : List ℤ → List ℤ → Type 0
Raises [] [] = Unit
Raises (x ∷ xs) (b ∷ bs) = (x ≤ℤ b) × RaisesFrom (b +ℤ pos 1) xs bs
Raises [] (b ∷ bs) = ⊥
Raises (x ∷ xs) [] = ⊥

-- How many steps of one lead from `xs` to `bs`.
abbrev pub steps_between : List ℤ → List ℤ → ℤ
steps_between [] bs = pos 0
steps_between (x ∷ xs) [] = pos 0
steps_between (x ∷ xs) (b ∷ bs) = (b -ℤ x) +ℤ steps_between xs bs

abbrev max_ℤ : ℤ → ℤ → ℤ
max_ℤ a b = if ltb_ℤ a b then b else a

-- The least list that raises `xs` from `need` on.
abbrev raise_from : ℤ → List ℤ → List ℤ
raise_from need [] = []
raise_from need (x ∷ xs) = max_ℤ need x ∷ raise_from (max_ℤ need x +ℤ pos 1) xs

max_least : (a b : ℤ) → (a ≤ℤ max_ℤ a b) × (b ≤ℤ max_ℤ a b)
max_least a b = ground arith

raise_from-RaisesFrom : (xs : List ℤ) (need : ℤ) → RaisesFrom need xs (raise_from need xs)
raise_from-RaisesFrom [] need = tt
raise_from-RaisesFrom (x ∷ xs) need =
    ((max_least need x).0, (max_least need x).1, raise_from-RaisesFrom xs (max_ℤ need x +ℤ pos 1))

stay : (x s n : ℤ) → n +ℤ s ≡ n +ℤ ((x -ℤ x) +ℤ s)
stay x s n = omega int_laws

go_up : (x need s n : ℤ) → n +ℤ (need -ℤ x) +ℤ s ≡ n +ℤ ((need -ℤ x) +ℤ s)
go_up x need s n = omega int_laws

add_zero : (n : ℤ) → n ≡ n +ℤ pos 0
add_zero n = omega int_laws

-- The loop counts the steps to that list.
loop-steps_between :
    (xs : List ℤ) (steps need : ℤ)
    → operations_loop xs steps need ≡ steps +ℤ steps_between xs (raise_from need xs)
unfolding operations_loop
loop-steps_between [] steps need = add_zero steps
loop-steps_between (x ∷ xs) steps need = elim (Bool-cases (ltb_ℤ need x)) [
  | inl above ↦ rw above (
      loop-steps_between xs steps (x +ℤ pos 1)
      ∙ stay x (steps_between xs (raise_from (x +ℤ pos 1) xs)) steps)
  | inr below ↦ rw below (
      loop-steps_between xs (steps +ℤ (need -ℤ x)) (need +ℤ pos 1)
      ∙ go_up x need (steps_between xs (raise_from (need +ℤ pos 1) xs)) steps)
]

above_step :
    (x b low need s t : ℤ)
    → need ≤ℤ low
    → low ≤ℤ b
    → x ≤ℤ b
    → s ≤ℤ t
    → (max_ℤ need x -ℤ x) +ℤ s ≤ℤ (b -ℤ x) +ℤ t
above_step x b low need s t h k l m = elim (Bool-cases (ltb_ℤ need x)) [
  | inl above ↦ rw above (omega int_laws)
  | inr below ↦ rw below (omega int_laws)
]

next_low :
    (x b low need : ℤ) → need ≤ℤ low → low ≤ℤ b → x ≤ℤ b → max_ℤ need x +ℤ pos 1 ≤ℤ b +ℤ pos 1
next_low x b low need h k l = elim (Bool-cases (ltb_ℤ need x)) [
  | inl above ↦ rw above (omega int_laws)
  | inr below ↦ rw below (omega int_laws)
]

-- No list that raises `xs` takes fewer steps.
least_steps :
    (xs bs : List ℤ) (need low : ℤ)
    → need ≤ℤ low
    → RaisesFrom low xs bs
    → steps_between xs (raise_from need xs) ≤ℤ steps_between xs bs
least_steps [] [] need low le r = omega arith
least_steps [] (b ∷ bs) need low le r = absurd r
least_steps (x ∷ xs) [] need low le r = absurd r
least_steps (x ∷ xs) (b ∷ bs) need low le (lb, xb, r) =
    above_step x b low need _ _ le lb xb
      (least_steps xs bs (max_ℤ need x +ℤ pos 1) (b +ℤ pos 1) (next_low x b low need le lb xb) r)

-- The least list that raises `xs`.
abbrev pub raised : List ℤ → List ℤ
raised [] = []
raised (x ∷ xs) = raise_from x (x ∷ xs)

self_ltb : (x : ℤ) → ltb_ℤ x x ≡ false
self_ltb x = ground arith

one_element : (x : ℤ) → pos 0 ≡ pos 0 +ℤ (x -ℤ x)
one_element x = omega int_laws

min_operations_loop :
    (x : ℤ) (xs : List ℤ) → min_operations (x ∷ xs) ≡ operations_loop (x ∷ xs) (pos 0) x
unfolding min_operations operations_loop
min_operations_loop x [] = rw self_ltb (one_element x)
min_operations_loop x (y ∷ xs) = refl

-- The result is the number of steps to an array that is strictly increasing and nowhere below the
-- given one, and no array of this kind, such as `bs`, takes fewer.
pub min_operations-Raises :
    (xs bs : List ℤ)
    → Raises xs bs
    → (min_operations xs ≤ℤ steps_between xs bs)
      × Raises xs (raised xs)
      × (min_operations xs ≡ steps_between xs (raised xs))
unfolding min_operations
min_operations-Raises [] [] r = (omega arith, tt, refl)
min_operations-Raises [] (b ∷ bs) r = absurd r
min_operations-Raises (x ∷ xs) [] r = absurd r
min_operations-Raises (x ∷ xs) (b ∷ bs) (xb, r) =
    let e : min_operations (x ∷ xs) ≡ steps_between (x ∷ xs) (raised (x ∷ xs)) =
      min_operations_loop x xs ∙ loop-steps_between (x ∷ xs) (pos 0) x ∙ zero-add _ in
    let (low, above, next) = raise_from-RaisesFrom (x ∷ xs) x in
    (rw e (least_steps (x ∷ xs) (b ∷ bs) x x (omega arith) (xb, xb, r)), (above, next), e)
