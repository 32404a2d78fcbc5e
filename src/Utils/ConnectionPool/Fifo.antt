-- ===== src/Utils/ConnectionPool/Fifo.antt =====
-- The order in which connections come out of utils/connection_pool.h.
use mathlib.Core.List.{append_assoc, append-nil}
use mg_raffle.Base.{
  ◌≡◌, ◌≢◌, refl, sym, true, false, List, [], ◌∷◌, ◌++◌, ◌==◌, if◌then◌else◌, arith,
}
use mg_raffle.Base.Int.{pos}
use mg_raffle.Base.Run.{Run, done, fault, out_of_fuel, Cmd, pure, and_then, ◌>>=◌, ◌>>◌}
use mg_raffle.Base.Pointers.{Ptr, null, ◌∉◌}
use mg_raffle.Utils.ConnectionPool.{
  ConnectionPool, Wait, give_back, take_front, get_connection, new_guard, destroy_guard,
}

-- One call after another: a connection given, or one asked for for at most `timeout`.
pub data Op : Type 0 where
  give : Ptr → Op
  get : Op

abbrev pub given : List Op → List Ptr
given [] = []
given (give c ∷ ops) = c ∷ given ops
given (get ∷ ops) = given ops

-- A wait that nobody ends.
abbrev pub timeout_passed : List Wait
timeout_passed = record { queue = []; timed_out = true } ∷ []

abbrev pub keep : Ptr → List Ptr → List Ptr
keep c cs = if c == null then cs else c ∷ cs

-- The connections that the calls give out.
unfoldable pub run_ops : List Op → Cmd ConnectionPool (List Ptr)
run_ops [] = pure []
run_ops (give c ∷ ops) = give_back c >> run_ops ops
run_ops (get ∷ ops) = do
  c ← get_connection timeout_passed (pos 100)
  cs ← run_ops ops
  pure (keep c cs)

-- All of them are first in, first out.
abbrev pub InOrder : List Ptr → Run ConnectionPool (List Ptr) → Type 0
InOrder all (done out s) = out ++ s.pool ≡ all
InOrder all _ = ⊥

get_one :
    (c : Ptr) (cs : List Ptr)
    → get_connection timeout_passed (pos 100) (record { pool = c ∷ cs })
      ≡ done c (record { pool = cs })
unfolding get_connection take_front
get_one c cs = refl

get_none :
    get_connection timeout_passed (pos 100) (record { pool = [] })
    ≡ done null (record { pool = [] })
unfolding get_connection take_front
get_none = refl

keep-InOrder :
    (c : Ptr) (all : List Ptr) (run : Run ConnectionPool (List Ptr))
    → c ∉ (null ∷ [])
    → InOrder all run
    → InOrder (c ∷ all) (and_then run (λ cs. pure (keep c cs)))
keep-InOrder c all (done out s) real h = ground (arith, h)
keep-InOrder c all fault real h = h
keep-InOrder c all out_of_fuel real h = h

skip-InOrder :
    (all : List Ptr) (run : Run ConnectionPool (List Ptr))
    → InOrder all run
    → InOrder all (and_then run (λ cs. pure (keep null cs)))
skip-InOrder all (done out s) h = h
skip-InOrder all fault h = h
skip-InOrder all out_of_fuel h = h

-- None is null.
abbrev pub AllReal : List Ptr → Type 0
AllReal [] = Unit
AllReal (c ∷ cs) = (c ∉ (null ∷ [])) × AllReal cs

AllReal-snoc : (cs : List Ptr) (c : Ptr) → AllReal cs → c ∉ (null ∷ []) → AllReal (cs ++ c ∷ [])
AllReal-snoc [] c a r = (r, tt)
AllReal-snoc (x ∷ cs) c a r = (a.0, AllReal-snoc cs c a.1 r)

-- Connections that are not null come out in the order in which they went in, each once: those
-- given out and those still in the queue are those that were there and those that were given. No
-- call fails.
pub run_ops-InOrder :
    (ops : List Op) (cs : List Ptr)
    → AllReal cs
    → AllReal (given ops)
    → InOrder (cs ++ given ops) (run_ops ops (record { pool = cs }))
unfolding run_ops give_back
run_ops-InOrder [] cs a b = sym (append-nil cs)
run_ops-InOrder (give c ∷ ops) cs a b =
    let real : c == null ≡ false = ground (arith, b.0) in
    rw real (rw append_assoc at (run_ops-InOrder ops (cs ++ c ∷ []) (AllReal-snoc cs c a b.0) b.1))
run_ops-InOrder (get ∷ ops) [] a b = rw get_none (skip-InOrder _ _ (run_ops-InOrder ops [] tt b))
run_ops-InOrder (get ∷ ops) (c ∷ cs) a b =
    rw (get_one c cs) (keep-InOrder c _ _ a.0 (run_ops-InOrder ops cs a.1 b))

-- A guard takes the first connection of a queue that has one and puts it back behind the others.
pub guard_rotates :
    (c : Ptr) (cs : List Ptr) (waits : List Wait)
    → c ≢ null
    → (new_guard waits >>= destroy_guard) (record { pool = c ∷ cs })
      ≡ done tt (record { pool = cs ++ c ∷ [] })
unfolding new_guard destroy_guard give_back get_connection take_front
guard_rotates c cs [] real = ground arith
guard_rotates c cs (w ∷ waits) real = ground arith
