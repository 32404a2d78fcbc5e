-- ===== src/Rpc/Parser/Slices.antt =====
-- How the bounds-checked copies of the parser act on a buffer that is cut into parts.
pub use mg_raffle.Base.Int.{add_pos, sub_pos}
use mg_raffle.Base.{
  ℕ, ◌+◌, ◌≡◌, ◌≤◌, refl, some, List, [], ◌∷◌, ◌++◌, arith, length, length-append, length-drop,
  take, drop, ap,
}
use mathlib.Core.List.{append_assoc}
use mg_raffle.Base.Int.{pos, min_ℤ}
use mg_raffle.Rpc.Parser.Bytes.{slice, copy_into}

pub min_left : (a b : ℕ) → a ≤ b → min_ℤ (pos a) (pos b) ≡ pos a
min_left a b h = ground arith

pub min_right : (a b : ℕ) → b ≤ a → min_ℤ (pos a) (pos b) ≡ pos b
min_right a b h = ground arith

module _ {A : Type 0} where
  pub take-append_length : (xs ys : List A) → take (length xs) (xs ++ ys) ≡ xs
  take-append_length [] ys = refl
  take-append_length (x ∷ xs) ys = ap (◌∷◌ x) (take-append_length xs ys)

  pub drop-append_length : (xs ys : List A) → drop (length xs) (xs ++ ys) ≡ ys
  drop-append_length [] ys = refl
  drop-append_length (x ∷ xs) ys = drop-append_length xs ys

  pub take_all : (xs : List A) → take (length xs) xs ≡ xs
  take_all [] = refl
  take_all (x ∷ xs) = ap (◌∷◌ x) (take_all xs)

  pub drop_all : (xs : List A) → drop (length xs) xs ≡ []
  drop_all [] = refl
  drop_all (x ∷ xs) = drop_all xs

  pub nil_of_length : (xs : List A) → length xs ≡ 0 → xs ≡ []
  nil_of_length [] e = refl
  nil_of_length (x ∷ xs) e = absurd (omega arith)

  -- Two cuts of one list: the longer front contains the shorter.
  pub cut_longer :
      (xs ys us vs : List A)
      → xs ++ ys ≡ us ++ vs
      → length xs ≤ length us
      → (m : List A) × (us ≡ xs ++ m) × (ys ≡ m ++ vs)
  cut_longer [] ys us vs e le = (us, refl, e)
  cut_longer (x ∷ xs) ys [] vs e le = absurd (omega arith)
  cut_longer (x ∷ xs) ys (u ∷ us) vs e le =
      let (m, front, back) = cut_longer xs ys us vs (cc) (omega arith) in (m, cc, back)

pub slice_middle :
    (skip h rest : List ℕ) → slice (skip ++ h ++ rest) (pos (length skip)) (pos (length h)) ≡ some h
unfolding slice
slice_middle skip h rest =
    rw (append_assoc, drop-append_length skip (h ++ rest), take-append_length h rest)
      (ground (arith, length-append skip (h ++ rest), length-append h rest))

-- Writing behind what has been read so far.
pub copy_into_front :
    (target pre chunk : List ℕ)
    → take (length pre) target ≡ pre
    → length pre + length chunk ≤ length target
    → copy_into target (pos (length pre)) chunk
      ≡ some (pre ++ chunk ++ drop (length pre + length chunk) target)
unfolding copy_into
copy_into_front target pre chunk front le = rw front (ground arith)

pub length-overwrite :
    (target pre chunk : List ℕ)
    → length pre + length chunk ≤ length target
    → length (pre ++ chunk ++ drop (length pre + length chunk) target) ≡ length target
length-overwrite target pre chunk le = omega (
  arith,
  length-append (pre ++ chunk) (drop (length pre + length chunk) target),
  length-append pre chunk,
  length-drop (length pre + length chunk) target,
)
