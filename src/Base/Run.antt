-- ===== src/Base/Run.antt =====
-- Stateful code that can fail: a command over a state either ends with a value, stops at a fault
-- (a failed assertion, a null or dangling pointer), or runs out of the rounds that it was given.
use mathlib.Core.Option.{Option, none, some}
use mathlib.Core.Bool.{Bool, true, false}

pub data Run (S : Type 0) (A : Type 0) : Type 0 where
  done : A → S → Run S A
  fault : Run S A
  out_of_fuel : Run S A

abbrev pub Cmd : Type 0 → Type 0 → Type 0
Cmd S A = S → Run S A

module _ {S A : Type 0} where
  abbrev pub pure : A → Cmd S A
  pure a s = done a s

  abbrev pub stop : Cmd S A
  stop s = fault

  abbrev pub starve : Cmd S A
  starve s = out_of_fuel

  -- The value that a run ends with.
  abbrev pub value : Run S A → Option A
  value (done a s) = some a
  value _ = none

module _ {S : Type 0} where
  abbrev pub gets : {A : Type 0} → (S → A) → Cmd S A
  gets f s = done (f s) s

  abbrev pub modify : (S → S) → Cmd S (Unit {0})
  modify f s = done tt (f s)

  -- `assert(b)`
  abbrev pub check : Bool → Cmd S (Unit {0})
  check true s = done tt s
  check false s = fault

module _ {S A B : Type 0} where
  abbrev pub and_then : Run S A → (A → Cmd S B) → Run S B
  and_then (done a s) k = k a s
  and_then fault k = fault
  and_then out_of_fuel k = out_of_fuel

  infixl 5 ◌>>=◌ ◌>>◌
  abbrev pub ◌>>=◌ : Cmd S A → (A → Cmd S B) → Cmd S B
  ◌>>=◌ m k s = and_then (m s) k

  abbrev pub ◌>>◌ : Cmd S A → Cmd S B → Cmd S B
  ◌>>◌ m n s = and_then (m s) (λ _. n)
