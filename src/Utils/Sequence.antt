-- ===== src/Utils/Sequence.antt =====
-- utils/algorithm.h: the sorts of `Sequence`. An access outside the array is a fault.
pub mod Endings
use mg_raffle.Base.{
  ℕ, zero, suc, ◌+◌, ◌-◌, ◌*◌, ◌/◌, Bool, true, false, ◌&&◌, Option, none, some, List,
  if◌then◌else◌, ltb, leb, length, get_elem?, set,
}
use mg_raffle.Base.Int.{ℤ, pos, negsuc, pos_part, ◌+ℤ◌, ◌-ℤ◌, ltb_ℤ, leb_ℤ}
use mg_raffle.Base.Run.{Run, done, fault, Cmd, pure, starve, ◌>>=◌, ◌>>◌}

module _ {T : Type 0} (comp : T → T → ℤ) where
  -- `array[i]`, read and written
  unfoldable pub read : ℤ → Cmd (List T) T
  read (negsuc i) array = fault
  read (pos i) array = elim (get_elem? array i) [ none ↦ fault | some x ↦ done x array ]

  unfoldable pub write : ℤ → T → Cmd (List T) (Unit {0})
  write (negsuc i) x array = fault
  write (pos i) x array = if ltb i (length array) then done tt (set array i x) else fault

  unfoldable pub swap : ℤ → ℤ → Cmd (List T) (Unit {0})
  swap i j = do tmp ← read i; other ← read j; write i other; write j tmp

  -- The inner loop of `bubble`, with `n` rounds left from `j` on.
  unfoldable pub bubble_row : ℕ → ℤ → ℤ → Cmd (List T) (Unit {0})
  bubble_row zero i j = pure tt
  bubble_row (suc n) i j = do
    a ← read i
    b ← read j
    (if ltb_ℤ (pos 0) (comp a b) then swap i j else pure tt)
    bubble_row n i (j +ℤ pos 1)

  -- The outer loop counts `i` down, and asks whether it is less than `length`.
  unfoldable pub bubble_loop : ℕ → ℤ → ℤ → Cmd (List T) (Unit {0})
  bubble_loop zero length i = starve
  bubble_loop (suc rounds) length i =
      if ltb_ℤ i length
      then (bubble_row (pos_part i) i (pos 0) >> bubble_loop rounds length (i -ℤ pos 1))
      else pure tt

  unfoldable pub bubble : ℕ → ℤ → Cmd (List T) (Unit {0})
  bubble rounds length =
      if ltb_ℤ length (pos 2) then pure tt else bubble_loop rounds length (length -ℤ pos 1)

  -- The two inner loops of `fast_sort`; the value is the index that they move.
  unfoldable pub fast_down : ℕ → T → ℤ → ℤ → Cmd (List T) ℤ
  fast_down zero key i j = starve
  fast_down (suc rounds) key i j = do
    x ← read j
    if ltb_ℤ (comp x key) (pos 0)
        then (write i x >> fast_down rounds key i (j -ℤ pos 1))
        else pure j

  unfoldable pub fast_up : ℕ → T → ℤ → ℤ → Cmd (List T) ℤ
  fast_up zero key i j = starve
  fast_up (suc rounds) key i j = do
    x ← read i
    if ltb_ℤ (pos 0) (comp x key) then (write j x >> fast_up rounds key (i +ℤ pos 1) j) else pure i

  unfoldable pub fast_loop : ℕ → T → ℤ → ℤ → Cmd (List T) (ℤ × ℤ)
  fast_loop zero key i j = starve
  fast_loop (suc rounds) key i j =
      if ltb_ℤ i j
      then (fast_down (suc rounds) key i j >>= λ down.
          fast_up (suc rounds) key i down >>= λ up. fast_loop rounds key up down)
      else pure (i, j)

  unfoldable pub fast_sort : ℕ → ℤ → ℤ → Cmd (List T) (Unit {0})
  fast_sort zero low high = starve
  fast_sort (suc rounds) low high =
      if leb_ℤ high low
      then pure tt
      else (read low >>= λ key. fast_loop (suc rounds) key low high >>= λ (i, j).
          write i key >> fast_sort rounds low (j -ℤ pos 1) >> fast_sort rounds (j +ℤ pos 1) high)

  -- The larger of two sons, if there are two.
  unfoldable pub larger_son : ℤ → ℤ → Cmd (List T) ℤ
  larger_son son end =
      if leb_ℤ (son +ℤ pos 1) end
      then (read son >>= λ a. read (son +ℤ pos 1) >>= λ b.
          pure (if ltb_ℤ (comp a b) (pos 0) then son +ℤ pos 1 else son))
      else pure son

  unfoldable pub adjust_loop : ℕ → ℤ → ℤ → ℤ → Cmd (List T) (Unit {0})
  adjust_loop zero dad son end = starve
  adjust_loop (suc rounds) dad son end =
      if leb_ℤ son end
      then (larger_son son end >>= λ son. read dad >>= λ a. read son >>= λ b.
          if ltb_ℤ (pos 0) (comp a b)
          then pure tt
          else (swap dad son >> adjust_loop rounds son (son +ℤ son +ℤ pos 1) end))
      else pure tt

  unfoldable pub adjust_heap : ℕ → ℤ → ℤ → Cmd (List T) (Unit {0})
  adjust_heap rounds start end = adjust_loop rounds start (start +ℤ start +ℤ pos 1) end

  -- The first loop of `heap_sort` for `n` sons down to the first, and the second.
  unfoldable pub build_heap : ℕ → ℕ → ℤ → Cmd (List T) (Unit {0})
  build_heap rounds zero length = pure tt
  build_heap rounds (suc n) length = adjust_heap rounds (pos n) length >> build_heap rounds n length

  unfoldable pub take_heap : ℕ → ℕ → Cmd (List T) (Unit {0})
  take_heap rounds zero = pure tt
  take_heap rounds (suc n) =
      swap (pos 0) (pos (suc n)) >> adjust_heap rounds (pos 0) (pos n) >> take_heap rounds n

  unfoldable pub heap_sort : ℕ → ℕ → Cmd (List T) (Unit {0})
  heap_sort rounds length =
      build_heap rounds (length / 2) (pos length) >> take_heap rounds (length - 1)
