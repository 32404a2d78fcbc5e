-- ===== src/Utils/Lock.antt =====
-- utils/lock.h: `SpinMutex` and `SpinLock`, as the steps that threads take in any order.
use mg_raffle.Base.{ℕ, ◌≡◌, refl, Bool, true, false, arith, ◌==◌, if◌then◌else◌}

-- Where a thread is: outside, in the loop of `lock`, or between `lock` and `unlock`.
pub data Place : Type 0 where
  outside : Place
  spinning : Place
  inside : Place

pub record SpinMutex : Type 0 where
  pub mutex : Bool
  pub threads : ℕ → Place

abbrev pub go : ℕ → Place → (ℕ → Place) → ℕ → Place
go t p f u = if u == t then p else f u

-- `_mutex.test_and_set()` by a thread in the loop: the old value says whether it stays there.
unfoldable pub test_and_set : ℕ → SpinMutex → SpinMutex
test_and_set t s = record {
  mutex = true;
  threads = go t (if s.mutex then spinning else inside) s.threads;
}

-- `_mutex.clear()`
unfoldable pub clear : ℕ → SpinMutex → SpinMutex
clear t s = record { mutex = false; threads = go t outside s.threads }

pub data Step (s : SpinMutex) : SpinMutex → Type 0 where
  call_lock :
      (t : ℕ) → s.threads t ≡ outside → Step s (record s { threads = go t spinning s.threads })
  spin : (t : ℕ) → s.threads t ≡ spinning → Step s (test_and_set t s)
  call_unlock : (t : ℕ) → s.threads t ≡ inside → Step s (clear t s)

abbrev pub new_mutex : SpinMutex
new_mutex = record { mutex = false; threads = λ t. outside }

pub data Reachable : SpinMutex → Type 0 where
  start : Reachable new_mutex
  then_step : (s g : SpinMutex) → Reachable s → Step s g → Reachable g

-- A thread inside has the mutex set, and is there alone.
pub record IsHeld (s : SpinMutex) : Type 0 where
  pub set : (t : ℕ) → s.threads t ≡ inside → s.mutex ≡ true
  pub alone : (t u : ℕ) → s.threads t ≡ inside → s.threads u ≡ inside → t ≡ u

Step-IsHeld : (s g : SpinMutex) → Step s g → IsHeld s → IsHeld g
unfolding test_and_set clear
Step-IsHeld s g (call_lock t e) h = record {
  set = λ u i. ground (arith, h.set u);
  alone = λ u w i j. ground (arith, h.alone u w);
}
Step-IsHeld s g (spin t e) h = record {
  set = λ u i. refl;
  alone = λ u w i j. ground (arith, h.alone u w, h.set u, h.set w);
}
Step-IsHeld s g (call_unlock t e) h = record {
  set = λ u i. ground (arith, h.alone t u);
  alone = λ u w i j. ground (arith, h.alone u w);
}

Reachable-IsHeld : (s : SpinMutex) → Reachable s → IsHeld s
Reachable-IsHeld s start = record { set = λ t i. cc; alone = λ t u i j. cc }
Reachable-IsHeld s (then_step f g r st) = Step-IsHeld f s st (Reachable-IsHeld f r)

-- Whatever the threads do and in whatever order, two of them are never between `lock` and
-- `unlock` at once.
pub mutual_exclusion :
    (s : SpinMutex) (t u : ℕ) → Reachable s → s.threads t ≡ inside → s.threads u ≡ inside → t ≡ u
mutual_exclusion s t u r i j = (Reachable-IsHeld s r).alone t u i j
