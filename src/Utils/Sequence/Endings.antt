-- ===== src/Utils/Sequence/Endings.antt =====
-- How the sorts of utils/algorithm.h end, or do not.
use mg_raffle.Base.{
  ℕ, zero, suc, ◌+◌, ◌/◌, ◌≡◌, ◌<◌, ◌≤◌, refl, ap, ◌∙◌, true, false, none, some, List, [], ◌∷◌, ltb,
  leb, length, get_elem?, set, arith, Bool-cases, inl, inr,
}
use mg_raffle.Base.Int.{ℤ, pos, negsuc, ◌+ℤ◌, ◌-ℤ◌, ◌≤ℤ◌, ◌<ℤ◌, ltb_ℤ, add_pos}
use mg_raffle.Base.Run.{Run, done, fault, out_of_fuel, Cmd, and_then}
use mg_raffle.Utils.Sequence.{
  read, write, swap, bubble_row, bubble_loop, bubble, fast_down, fast_up, fast_loop, fast_sort,
  larger_son, adjust_loop, adjust_heap, build_heap, heap_sort,
}

module _ {T : Type 0} (comp : T → T → ℤ) where
  get_elem?-past : (xs : List T) (i : ℕ) → length xs ≤ i → get_elem? xs i ≡ none
  get_elem?-past [] i le = refl
  get_elem?-past (x ∷ xs) zero le = absurd (omega arith)
  get_elem?-past (x ∷ xs) (suc i) le = get_elem?-past xs i (omega arith)

  get_elem?-inside : (xs : List T) (i : ℕ) → i < length xs → (x : T) × (get_elem? xs i ≡ some x)
  get_elem?-inside [] i lt = absurd (omega arith)
  get_elem?-inside (x ∷ xs) zero lt = (x, refl)
  get_elem?-inside (x ∷ xs) (suc i) lt = get_elem?-inside xs i (omega arith)

  length-set : (xs : List T) (i : ℕ) (y : T) → length (set xs i y) ≡ length xs
  length-set [] i y = refl
  length-set (x ∷ xs) zero y = refl
  length-set (x ∷ xs) (suc i) y = ground (arith, length-set xs i y)

  -- A run ends without a fault and leaves `n` elements.
  abbrev Sized : {A : Type 0} → ℕ → Run (List T) A → Type 0
  Sized n (done a xs) = length xs ≡ n
  Sized n _ = ⊥

  read-Sized : (xs : List T) (i : ℕ) → i < length xs → (x : T) × (read comp (pos i) xs ≡ done x xs)
  unfolding read
  read-Sized xs i lt = let (x, e) = get_elem?-inside xs i lt in (x, rw (e, read) refl)

  write_lem :
      (xs : List T) (i : ℕ) (y : T) → i < length xs → write comp (pos i) y xs ≡ done tt (set xs i y)
  unfolding write
  write_lem xs i y lt = ground arith

  swap-Sized :
      (xs : List T) (i j : ℕ)
      → i < length xs
      → j < length xs
      → Sized (length xs) (swap comp (pos i) (pos j) xs)
  unfolding swap
  swap-Sized xs i j li lj =
      let (x, ex) = read-Sized xs i li in
      let (y, ey) = read-Sized xs j lj in
      rw (ex, ey, write_lem xs i y li, write_lem (set xs i y) j x (rw (length-set xs i y) lj))
        (length-set (set xs i y) j x ∙ length-set xs i y)

  read_past : (xs : List T) (i : ℕ) → length xs ≤ i → read comp (pos i) xs ≡ fault
  unfolding read
  read_past xs i le = rw (get_elem?-past xs i le, read) refl

  -- Two sons are compared where the second is the element behind the last.
  larger_son_past :
      (n : ℕ) (xs : List T) → length xs ≡ suc n → larger_son comp (pos n) (pos (suc n)) xs ≡ fault
  unfolding larger_son
  larger_son_past n xs e =
      let (x, here) = read-Sized xs n (omega arith) in
      let one : pos n +ℤ pos 1 ≡ pos (suc n) = add_pos n 1 ∙ ap pos (omega arith) in
      let t : leb (suc n + 0) (suc n + 0) ≡ true = ground arith in
      rw (one, t, here, read_past xs (suc n) (omega arith)) refl

  adjust_heap_past :
      (rounds k : ℕ) (xs : List T)
      → length xs ≡ suc (suc (k + k))
      → adjust_heap comp (suc rounds) (pos k) (pos (suc (suc (k + k)))) xs ≡ fault
  unfolding adjust_heap adjust_loop
  adjust_heap_past rounds k xs e =
      let son : pos k +ℤ pos k +ℤ pos 1 ≡ pos (suc (k + k)) =
        ap (λ (a : ℤ). a +ℤ pos 1) (add_pos k k) ∙ add_pos (k + k) 1 ∙ ap pos (omega arith) in
      let t : leb (suc (k + k) + 0) (suc (suc (k + k)) + 0) ≡ true = ground arith in
      rw (son, t, larger_son_past (suc (k + k)) xs e) refl

  -- For every even number of elements but none, `heap_sort` faults: it compares the last element
  -- with the one behind it.
  pub heap_sort_even :
      (rounds k : ℕ) (xs : List T)
      → length xs ≡ suc (suc (k + k))
      → heap_sort comp (suc rounds) (suc (suc (k + k))) xs ≡ fault
  unfolding heap_sort build_heap
  heap_sort_even rounds k xs e =
      let half : suc (suc (k + k)) / 2 ≡ suc k = omega arith in
      rw (half, adjust_heap_past rounds k xs e) refl

  Sized-then :
      (m : ℕ) (run : Run (List T) (Unit {0})) (k : Cmd (List T) (Unit {0}))
      → Sized m run
      → ((ys : List T) → length ys ≡ m → Sized m (k ys))
      → Sized m (and_then run (λ _. k))
  Sized-then m (done u ys) k h later = later ys h
  Sized-then m fault k h later = h
  Sized-then m out_of_fuel k h later = h

  starve_after :
      (m : ℕ) (run : Run (List T) (Unit {0})) (k : Cmd (List T) (Unit {0}))
      → Sized m run
      → ((ys : List T) → length ys ≡ m → k ys ≡ out_of_fuel)
      → and_then run (λ _. k) ≡ out_of_fuel
  starve_after m (done u ys) k h later = later ys h
  starve_after m fault k h later = absurd h
  starve_after m out_of_fuel k h later = absurd h

  bubble_row-Sized :
      (n i j : ℕ) (xs : List T)
      → i < length xs
      → j + n ≤ i
      → Sized (length xs) (bubble_row comp n (pos i) (pos j) xs)
  unfolding bubble_row
  bubble_row-Sized zero i j xs li le = refl
  bubble_row-Sized (suc n) i j xs li le =
      let (x, ex) = read-Sized xs i li in
      let (y, ey) = read-Sized xs j (omega arith) in
      rw (ex, ey, add_pos j 1)
        (elim (Bool-cases (ltb_ℤ (pos 0) (comp x y))) [
          | inl more ↦ rw more (
              Sized-then (length xs) (swap comp (pos i) (pos j) xs) _
                (swap-Sized xs i j li (omega arith))
                λ ys h. rw h at (bubble_row-Sized n i (j + 1) ys (rw h li) (omega arith)))
          | inr less ↦ rw less (bubble_row-Sized n i (j + 1) xs li (omega arith))
        ])

  one_less : (a : ℤ) (n : ℕ) → a ≤ℤ pos n → a -ℤ pos 1 <ℤ pos n
  unfolding ◌-ℤ◌
  one_less a n le = ground arith

  -- From any index below the length, down to the negative ones, the loop goes on.
  bubble_loop_goes_on :
      (rounds : ℕ) (i : ℤ) (n : ℕ) (xs : List T)
      → length xs ≡ n
      → i <ℤ pos n
      → bubble_loop comp rounds (pos n) i xs ≡ out_of_fuel
  unfolding bubble_loop bubble_row
  bubble_loop_goes_on zero i n xs e lt = refl
  bubble_loop_goes_on (suc rounds) (negsuc i) n xs e lt =
      rw lt (
        bubble_loop_goes_on rounds (negsuc i -ℤ pos 1) n xs e (one_less (negsuc i) n (omega arith)))
  bubble_loop_goes_on (suc rounds) (pos i) n xs e lt =
      let li : i < length xs = ground arith in
      rw lt (
        starve_after (length xs) (bubble_row comp i (pos i) (pos 0) xs) _
          (bubble_row-Sized i i 0 xs li (omega arith))
          λ ys h.
            bubble_loop_goes_on rounds (pos i -ℤ pos 1) n ys (h ∙ e)
              (one_less (pos i) n (ground arith)))

  -- `bubble` never ends on an array of two elements or more: no number of rounds is enough.
  pub bubble_never_ends :
      (rounds : ℕ) (xs : List T)
      → 2 ≤ length xs
      → bubble comp rounds (pos (length xs)) xs ≡ out_of_fuel
  unfolding bubble
  bubble_never_ends rounds xs two =
      let t : ltb (length xs + 0) 2 ≡ false = ground arith in
      rw t (
        bubble_loop_goes_on rounds (pos (length xs) -ℤ pos 1) (length xs) xs refl
          (one_less (pos (length xs)) (length xs) (omega arith)))

  read_at :
      (xs : List T) (i : ℕ) (x : T) → get_elem? xs i ≡ some x → read comp (pos i) xs ≡ done x xs
  unfolding read
  read_at xs i x e = rw (e, read) refl

  fast_down_stays :
      (rounds j : ℕ) (i : ℤ) (key b : T) (xs : List T)
      → get_elem? xs j ≡ some b
      → ltb_ℤ (comp b key) (pos 0) ≡ false
      → fast_down comp (suc rounds) key i (pos j) xs ≡ done (pos j) xs
  unfolding fast_down
  fast_down_stays rounds j i key b xs e stays = rw (read_at xs j b e, stays) refl

  fast_up_stays :
      (rounds i : ℕ) (j : ℤ) (key a : T) (xs : List T)
      → get_elem? xs i ≡ some a
      → ltb_ℤ (pos 0) (comp a key) ≡ false
      → fast_up comp (suc rounds) key (pos i) j xs ≡ done (pos i) xs
  unfolding fast_up
  fast_up_stays rounds i j key a xs e stays = rw (read_at xs i a e, stays) refl

  -- Nothing moves while the last element does not belong before the key and the first does not
  -- belong behind it.
  fast_loop_stands :
      (rounds : ℕ) (low high : ℕ) (key a b : T) (xs : List T)
      → low < high
      → get_elem? xs low ≡ some a
      → get_elem? xs high ≡ some b
      → ltb_ℤ (comp b key) (pos 0) ≡ false
      → ltb_ℤ (pos 0) (comp a key) ≡ false
      → fast_loop comp rounds key (pos low) (pos high) xs ≡ out_of_fuel
  unfolding fast_loop
  fast_loop_stands zero low high key a b xs lt ea eb down up = refl
  fast_loop_stands (suc rounds) low high key a b xs lt ea eb down up =
      let t : ltb (low + 0) (high + 0) ≡ true = ground arith in
      rw
        (
          t,
          fast_down_stays rounds high (pos low) key b xs eb down,
          fast_up_stays rounds low (pos high) key a xs ea up,
        )
        (fast_loop_stands rounds low high key a b xs lt ea eb down up)

  -- `fast_sort` never ends on a range of two elements or more whose last element does not compare
  -- below its first, if an element does not compare above itself.
  pub fast_sort_never_ends :
      (rounds low high : ℕ) (a b : T) (xs : List T)
      → low < high
      → get_elem? xs low ≡ some a
      → get_elem? xs high ≡ some b
      → pos 0 ≤ℤ comp b a
      → comp a a ≤ℤ pos 0
      → fast_sort comp rounds (pos low) (pos high) xs ≡ out_of_fuel
  unfolding fast_sort
  fast_sort_never_ends zero low high a b xs lt ea eb down up = refl
  fast_sort_never_ends (suc rounds) low high a b xs lt ea eb down up =
      let t : leb (high + 0) (low + 0) ≡ false = ground arith in
      rw
        (
          t,
          read_at xs low a ea,
          fast_loop_stands (suc rounds) low high a a b xs lt ea eb (ground arith) (ground arith),
        )
        refl
