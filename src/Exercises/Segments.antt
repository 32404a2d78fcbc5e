-- ===== src/Exercises/Segments.antt =====
-- `arr_test` of gencode/mg_server/helloworld.cpp: the largest sum of a segment of an array.
use mathlib.Core.List.{append_assoc}
use mg_raffle.Base.{◌≡◌, ◌≢◌, refl, sym, ◌∙◌, List, [], ◌∷◌, ◌++◌, arith, Bool-cases, inl, inr}
use mg_raffle.Base.Int.{ℤ, pos, ◌+ℤ◌, ◌≤ℤ◌, ltb_ℤ, leb_ℤ, int_laws, zero-add}
use mg_raffle.Exercises.{next_max, next_sum, arr_loop, arr_test}

abbrev pub sum_of : List ℤ → ℤ
sum_of [] = pos 0
sum_of (x ∷ xs) = x +ℤ sum_of xs

pub sum_of-append : (xs ys : List ℤ) → sum_of (xs ++ ys) ≡ sum_of xs +ℤ sum_of ys
sum_of-append [] ys = sym (zero-add (sum_of ys))
sum_of-append (x ∷ xs) ys = rw (sum_of-append xs ys) (omega int_laws)

max_grows : (sum max : ℤ) → (max ≤ℤ next_max sum max) × (sum ≤ℤ next_max sum max)
max_grows sum max = ground arith

sum_grows : (sum : ℤ) → (sum ≤ℤ next_sum sum) × (pos 0 ≤ℤ next_sum sum)
sum_grows sum = ground arith

≤ℤ_trans : (a b c : ℤ) → a ≤ℤ b → b ≤ℤ c → a ≤ℤ c
≤ℤ_trans a b c h k = omega arith

loop_grows : (xs : List ℤ) (sum max : ℤ) → max ≤ℤ arr_loop xs sum max
unfolding arr_loop
loop_grows [] sum max = omega arith
loop_grows (x ∷ xs) sum max =
    ≤ℤ_trans max (next_max (sum +ℤ x) max) _ ((max_grows (sum +ℤ x) max).0)
      (loop_grows xs (next_sum (sum +ℤ x)) (next_max (sum +ℤ x) max))

one_more : (sum y r n l : ℤ) → sum +ℤ y ≤ℤ n → n +ℤ r ≤ℤ l → sum +ℤ (y +ℤ r) ≤ℤ l
one_more sum y r n l h k = omega int_laws

from_start : (sum r l : ℤ) → pos 0 ≤ℤ sum → sum +ℤ r ≤ℤ l → r ≤ℤ l
from_start sum r l h k = omega int_laws

last_one : (n m l : ℤ) → n ≤ℤ m → m ≤ℤ l → n +ℤ pos 0 ≤ℤ l
last_one n m l h k = omega int_laws

-- The elements from here on, with the sum so far.
prefix_bound :
    (y : ℤ) (ys post : List ℤ) (sum max : ℤ)
    → sum +ℤ sum_of (y ∷ ys) ≤ℤ arr_loop ((y ∷ ys) ++ post) sum max
unfolding arr_loop
prefix_bound y [] post sum max = one_more sum y (pos 0) (sum +ℤ y) _ (omega arith) (
    last_one (sum +ℤ y) (next_max (sum +ℤ y) max) _ ((max_grows (sum +ℤ y) max).1)
      (loop_grows post (next_sum (sum +ℤ y)) (next_max (sum +ℤ y) max)))
prefix_bound y (z ∷ zs) post sum max =
    one_more sum y (sum_of (z ∷ zs)) (next_sum (sum +ℤ y)) _ ((sum_grows (sum +ℤ y)).0)
      (prefix_bound z zs post (next_sum (sum +ℤ y)) (next_max (sum +ℤ y) max))

segment_bound :
    (pre : List ℤ) (y : ℤ) (ys post : List ℤ) (sum max : ℤ)
    → pos 0 ≤ℤ sum
    → sum_of (y ∷ ys) ≤ℤ arr_loop (pre ++ ((y ∷ ys) ++ post)) sum max
unfolding arr_loop
segment_bound [] y ys post sum max nonneg =
    from_start sum (sum_of (y ∷ ys)) _ nonneg (prefix_bound y ys post sum max)
segment_bound (x ∷ pre) y ys post sum max nonneg =
    segment_bound pre y ys post (next_sum (sum +ℤ x)) (next_max (sum +ℤ x) max)
      ((sum_grows (sum +ℤ x)).1)

-- `m` is the sum of a segment of `vec` that is not empty.
abbrev pub IsSegmentSum : List ℤ → ℤ → Type 0
IsSegmentSum vec m =
    (pre : List ℤ) × (ys : List ℤ) × (post : List ℤ) × (ys ≢ [])
    × (vec ≡ pre ++ (ys ++ post))
    × (sum_of ys ≡ m)

snoc-ne-nil : (xs : List ℤ) (x : ℤ) → xs ++ x ∷ [] ≢ []
snoc-ne-nil [] x e = cc
snoc-ne-nil (y ∷ xs) x e = cc

larger-IsSegmentSum :
    (vec : List ℤ) (sum max : ℤ)
    → IsSegmentSum vec sum
    → IsSegmentSum vec max
    → IsSegmentSum vec (next_max sum max)
larger-IsSegmentSum vec sum max s m = elim (Bool-cases (ltb_ℤ max sum)) [
  | inl more ↦ rw more s
  | inr less ↦ rw less m
]

-- `sum` is the sum of `ys`, which ends where `xs` begins.
loop-IsSegmentSum :
    (vec pre ys xs : List ℤ) (sum max : ℤ)
    → vec ≡ pre ++ (ys ++ xs)
    → sum_of ys ≡ sum
    → IsSegmentSum vec max
    → IsSegmentSum vec (arr_loop xs sum max)
unfolding arr_loop
loop-IsSegmentSum vec pre ys [] sum max e es m = m
loop-IsSegmentSum vec pre ys (x ∷ xs) sum max e es m =
    let there : vec ≡ pre ++ ((ys ++ x ∷ []) ++ xs) = rw (e, append_assoc) refl in
    let total : sum_of (ys ++ x ∷ []) ≡ sum +ℤ x =
      sum_of-append ys (x ∷ []) ∙ rw es (omega int_laws) in
    let m' =
      larger-IsSegmentSum vec (sum +ℤ x) max (pre, ys ++ x ∷ [], xs, snoc-ne-nil ys x, there, total)
        m in
    elim (Bool-cases (leb_ℤ (sum +ℤ x) (pos 0))) [
      | inl low ↦ rw low (
          loop-IsSegmentSum vec (pre ++ (ys ++ x ∷ [])) [] xs (pos 0) (next_max (sum +ℤ x) max)
            (there ∙ sym (append_assoc pre (ys ++ x ∷ []) xs)) refl m')
      | inr high ↦ rw high (
          loop-IsSegmentSum vec pre (ys ++ x ∷ []) xs (sum +ℤ x) (next_max (sum +ℤ x) max) there
            total m')
    ]

-- The result for an array that is not empty: it is the sum of a segment of the array that is not
-- empty, and no such segment, wherever it begins and ends, has a larger sum.
pub arr_test-IsSegmentSum :
    (pre : List ℤ) (y : ℤ) (ys post : List ℤ)
    → IsSegmentSum (pre ++ ((y ∷ ys) ++ post)) (arr_test (pre ++ ((y ∷ ys) ++ post)))
      × (sum_of (y ∷ ys) ≤ℤ arr_test (pre ++ ((y ∷ ys) ++ post)))
unfolding arr_test
arr_test-IsSegmentSum [] y ys post = (
  loop-IsSegmentSum (y ∷ (ys ++ post)) [] [] (y ∷ (ys ++ post)) (pos 0) y refl refl
      ([], y ∷ [], ys ++ post, (λ e. cc), refl, omega int_laws),
  segment_bound [] y ys post (pos 0) y (omega arith),
)
arr_test-IsSegmentSum (x ∷ pre) y ys post = (
  loop-IsSegmentSum (x ∷ (pre ++ ((y ∷ ys) ++ post))) [] [] (x ∷ (pre ++ ((y ∷ ys) ++ post)))
      (pos 0) x refl refl ([], x ∷ [], pre ++ ((y ∷ ys) ++ post), (λ e. cc), refl, omega int_laws),
  segment_bound (x ∷ pre) y ys post (pos 0) x (omega arith),
)
