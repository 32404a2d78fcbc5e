-- ===== src/Exercises.antt =====
-- gencode/mg_server/helloworld.cpp and gencode/leetcode/main.cpp: their functions on arrays of
-- `int`. An array with its length is a list.
pub mod Segments
pub mod Increasing
pub mod Pivot
mod Tests
use mg_raffle.Base.{ℕ, suc, ◌+◌, Option, none, some, List, [], ◌∷◌, if◌then◌else◌}
use mg_raffle.Base.Int.{ℤ, pos, negsuc, ◌+ℤ◌, ◌-ℤ◌, ltb_ℤ, leb_ℤ, eq_ℤ}

-- One round of the loop of `arr_test` for the element `x`.
abbrev pub next_max : ℤ → ℤ → ℤ
next_max sum max = if ltb_ℤ max sum then sum else max

abbrev pub next_sum : ℤ → ℤ
next_sum sum = if leb_ℤ sum (pos 0) then pos 0 else sum

unfoldable pub arr_loop : List ℤ → ℤ → ℤ → ℤ
arr_loop [] sum max = max
arr_loop (x ∷ xs) sum max = arr_loop xs (next_sum (sum +ℤ x)) (next_max (sum +ℤ x) max)

unfoldable pub arr_test : List ℤ → ℤ
unfolding arr_loop
arr_test [] = pos 0
arr_test (x ∷ xs) = arr_loop (x ∷ xs) (pos 0) x

-- The loop of `minOperations`.
unfoldable pub operations_loop : List ℤ → ℤ → ℤ → ℤ
operations_loop [] steps need_add_to = steps
operations_loop (item ∷ items) steps need_add_to =
    if ltb_ℤ need_add_to item
    then operations_loop items steps (item +ℤ pos 1)
    else operations_loop items (steps +ℤ (need_add_to -ℤ item)) (need_add_to +ℤ pos 1)

unfoldable pub min_operations : List ℤ → ℤ
unfolding operations_loop
min_operations [] = pos 0
min_operations (x ∷ []) = pos 0
min_operations (x ∷ y ∷ xs) = operations_loop (x ∷ y ∷ xs) (pos 0) x

-- The first loop of `pivotIndex`
abbrev pub add_all : List ℤ → ℤ → ℤ
add_all [] right = right
add_all (it ∷ its) right = add_all its (right +ℤ it)

abbrev pub add_before : Option ℤ → ℤ → ℤ
add_before none left = left
add_before (some x) left = left +ℤ x

-- The second loop from index `i` on; `before` is the element before it, if there is one.
unfoldable pub pivot_loop : Option ℤ → List ℤ → ℕ → ℤ → ℤ → ℤ
pivot_loop before [] i left right = negsuc 0
pivot_loop before (x ∷ xs) i left right =
    let left' = add_before before left in
    let right' = right -ℤ x in
    let rest = pivot_loop (some x) xs (i + 1) left' right' in
    if eq_ℤ left' right' then pos i else rest

unfoldable pub pivot_index : List ℤ → ℤ
unfolding pivot_loop
pivot_index nums = pivot_loop none nums 0 (pos 0) (add_all nums (pos 0))
