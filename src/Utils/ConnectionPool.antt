-- ===== src/Utils/ConnectionPool.antt =====
-- utils/connection_pool.h: `ConnectionPool` and `ConnectionGuard`. The mutex makes each operation
-- one step between two waits; what other threads do to the queue during a wait is an argument.
pub mod Fifo
use mg_raffle.Base.{ℕ, Bool, true, false, ◌&&◌, not, List, [], ◌∷◌, ◌++◌, ◌==◌, if◌then◌else◌}
use mg_raffle.Base.Int.{ℤ, pos, leb_ℤ}
use mg_raffle.Base.Run.{Run, done, fault, Cmd, pure, starve, check, ◌>>=◌, ◌>>◌, modify}
use mg_raffle.Base.Pointers.{Ptr, null}

pub record ConnectionPool : Type 0 where
  pub pool : List Ptr

-- The end of a wait: the queue as other threads have left it, and whether the time had passed.
pub record Wait : Type 0 where
  pub queue : List Ptr
  pub timed_out : Bool

unfoldable pub give_back : Ptr → Cmd ConnectionPool (Unit {0})
give_back connection = do
  check (not (connection == null))
  modify λ s. record s { pool = s.pool ++ connection ∷ [] }

unfoldable pub add_connection : Ptr → Cmd ConnectionPool (Unit {0})
add_connection connection = give_back connection

-- The front of the queue, or null if it is empty.
unfoldable pub take_front : Cmd ConnectionPool Ptr
take_front s = elim s.pool [
  | [] ↦ done null s
  | connection ∷ rest ↦ done connection (record s { pool = rest })
]

-- The loop while the queue is empty: without a next end of a wait, the thread waits on.
unfoldable pub get_connection : List Wait → ℤ → Cmd ConnectionPool Ptr
get_connection [] timeout s = elim s.pool [ [] ↦ starve s | _ ∷ _ ↦ take_front s ]
get_connection (w ∷ waits) timeout s =
    let later = get_connection waits timeout (record s { pool = w.queue }) in
    elim s.pool [
      | [] ↦
          if not (leb_ℤ timeout (pos 0)) && w.timed_out
          then take_front (record s { pool = w.queue })
          else later
      | _ ∷ _ ↦ take_front s
    ]

-- `ConnectionGuard` of a pool: its constructor, and its destructor.
unfoldable pub new_guard : List Wait → Cmd ConnectionPool Ptr
new_guard waits = get_connection waits (pos 100)

unfoldable pub destroy_guard : Ptr → Cmd ConnectionPool (Unit {0})
destroy_guard conn = if conn == null then pure tt else give_back conn

unfoldable pub check_available : Ptr → Bool
check_available conn = not (conn == null)
