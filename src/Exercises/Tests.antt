-- ===== src/Exercises/Tests.antt =====
-- Runs of the functions of helloworld.cpp and main.cpp at concrete arrays.
use mg_raffle.Base.{◌≡◌, refl, List, [], ◌∷◌, arith}
use mg_raffle.Base.Int.{ℤ, pos, negsuc, ◌≤ℤ◌, ◌+ℤ◌, ◌-ℤ◌}
use mg_raffle.Exercises.{arr_test, min_operations, pivot_index}
use mg_raffle.Exercises.Segments.{sum_of, IsSegmentSum, arr_test-IsSegmentSum}
use mg_raffle.Exercises.Increasing.{Raises, steps_between, raised, min_operations-Raises}
use mg_raffle.Exercises.Pivot.{balance_from, pivot_index-balance_from}

-- -2, 3, -1, 4, -5
abbrev sample : List ℤ
sample = negsuc 1 ∷ pos 3 ∷ negsuc 0 ∷ pos 4 ∷ negsuc 4 ∷ []

sample_sum : arr_test sample ≡ pos 6
unfolding arr_test ◌+ℤ◌
sample_sum = refl

-- All elements are negative.
negative_sum : arr_test (negsuc 4 ∷ negsuc 1 ∷ negsuc 2 ∷ []) ≡ negsuc 1
unfolding arr_test ◌+ℤ◌
negative_sum = refl

arr_test-IsSegmentSum_example :
    IsSegmentSum sample (arr_test sample)
    × (sum_of (pos 3 ∷ negsuc 0 ∷ pos 4 ∷ []) ≤ℤ arr_test sample)
arr_test-IsSegmentSum_example =
    arr_test-IsSegmentSum (negsuc 1 ∷ []) (pos 3) (negsuc 0 ∷ pos 4 ∷ []) (negsuc 4 ∷ [])

abbrev flat : List ℤ
flat = pos 1 ∷ pos 1 ∷ pos 1 ∷ []

flat_operations : min_operations flat ≡ pos 3
unfolding min_operations ◌+ℤ◌ ◌-ℤ◌
flat_operations = refl

min_operations-Raises_example :
    (min_operations flat ≤ℤ steps_between flat (pos 2 ∷ pos 4 ∷ pos 5 ∷ []))
    × Raises flat (raised flat)
    × (min_operations flat ≡ steps_between flat (raised flat))
unfolding ◌+ℤ◌
min_operations-Raises_example =
    min_operations-Raises flat (pos 2 ∷ pos 4 ∷ pos 5 ∷ [])
      (omega arith, (omega arith, omega arith, (omega arith, omega arith, tt)))

pivot_index-balance_from_example : pivot_index sample ≡ balance_from [] sample
pivot_index-balance_from_example = pivot_index-balance_from sample

-- The array of `main`.
no_pivot : pivot_index (negsuc 0 ∷ negsuc 0 ∷ negsuc 0 ∷ pos 1 ∷ pos 1 ∷ pos 1 ∷ []) ≡ negsuc 0
unfolding pivot_index ◌+ℤ◌ ◌-ℤ◌
no_pivot = refl
