-- ===== src/Exercises/Pivot.antt =====
-- `pivotIndex` of gencode/leetcode/main.cpp.
use mg_raffle.Base.{
  ℕ, ◌+◌, ◌≡◌, refl, sym, ◌∙◌, Option, none, some, List, [], ◌∷◌, ◌++◌, arith, length,
  length-append, if◌then◌else◌,
}
use mg_raffle.Base.Int.{ℤ, pos, negsuc, ◌+ℤ◌, ◌-ℤ◌, eq_ℤ, int_laws, zero-add}
use mg_raffle.Exercises.{add_all, add_before, pivot_loop, pivot_index}
use mg_raffle.Exercises.Segments.{sum_of, sum_of-append}

-- The first index with the same sum before and after it, among those from the end of `front` on.
abbrev pub balance_from : List ℤ → List ℤ → ℤ
balance_from front [] = negsuc 0
balance_from front (x ∷ back) =
    let rest = balance_from (front ++ x ∷ []) back in
    if eq_ℤ (sum_of front) (sum_of back) then pos (length front) else rest

add_all_lem : (xs : List ℤ) (right : ℤ) → add_all xs right ≡ right +ℤ sum_of xs
add_all_lem [] right = omega int_laws
add_all_lem (x ∷ xs) right = add_all_lem xs (right +ℤ x) ∙ omega int_laws

take_off : (x s : ℤ) → (x +ℤ s) -ℤ x ≡ s
take_off x s = omega int_laws

length-snoc : (xs : List ℤ) (x : ℤ) → length xs + 1 ≡ length (xs ++ x ∷ [])
length-snoc xs x = omega (arith, length-append xs (x ∷ []))

loop-balance_from :
    (front xs : List ℤ) (before : Option ℤ) (i : ℕ) (left right : ℤ)
    → i ≡ length front
    → add_before before left ≡ sum_of front
    → right ≡ sum_of xs
    → pivot_loop before xs i left right ≡ balance_from front xs
unfolding pivot_loop
loop-balance_from front [] before i left right ei el er = refl
loop-balance_from front (x ∷ xs) before i left right ei el er =
    let right' : right -ℤ x ≡ sum_of xs = rw er (take_off x (sum_of xs)) in
    let rest =
      loop-balance_from (front ++ x ∷ []) xs (some x) (i + 1) (sum_of front) (sum_of xs)
        (rw ei (length-snoc front x)) (sym (sum_of-append front (x ∷ []) ∙ omega int_laws)) refl in
    rw (el, right', rest, ei) refl

-- The result is the first index whose element has the same sum before it and behind it, and -1 if
-- there is none, also for an empty array.
pub pivot_index-balance_from : (nums : List ℤ) → pivot_index nums ≡ balance_from [] nums
unfolding pivot_index
pivot_index-balance_from nums =
    loop-balance_from [] nums none 0 (pos 0) (add_all nums (pos 0)) refl refl
      (add_all_lem nums (pos 0) ∙ zero-add (sum_of nums))
