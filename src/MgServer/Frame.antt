-- ===== src/MgServer/Frame.antt =====
-- What a connection of gencode/mg_server/server promises, byte by byte: a magic number of four
-- bytes that nothing compares, and that only the first message has; two lengths; a header and a
-- body. A part that is empty is passed over only when the next byte arrives.
pub mod Blocks
pub mod Parts
pub mod RoundTrip
use mg_raffle.Base.{ℕ, zero, suc, ◌+◌, ◌-◌, Option, none, some, List, [], ◌∷◌, ◌++◌}
use mg_raffle.Base.Int.{ℤ, pos, negsuc}
use mg_raffle.Base.Optional.{◌>>=◌}
use mg_raffle.Rpc.Parser.Bytes.{int32_at}
use mg_raffle.MgServer.Parser.{ParseType, m_magic, m_header, m_rpc_header, m_rpc_content}

pub record Message : Type 0 where
  pub head : List ℕ
  pub body : List ℕ

-- The part that is being read, the bytes that it lacks, and what has been read of the message.
pub record Frame : Type 0 where
  pub stage : ParseType
  pub left : ℕ
  pub lengths : List ℕ
  pub head : List ℕ
  pub body : List ℕ

abbrev pub frame : ParseType → ℕ → List ℕ → List ℕ → List ℕ → Frame
frame stage left lengths head body = record {
  stage = stage;
  left = left;
  lengths = lengths;
  head = head;
  body = body;
}

abbrev pub start : ℕ → Frame
start left = frame m_magic left [] [] []

abbrev pub natural : ℤ → Option ℕ
natural (pos n) = some n
natural (negsuc n) = none

abbrev pub Step : Type 0
Step = Option (Frame × List Message)

abbrev pub more_messages : List Message → Step → Step
more_messages ms none = none
more_messages ms (some (f, ns)) = some (f, ms ++ ns)

-- A part that is complete is followed by the next; `none` if a negative length comes up.
abbrev pub next_part : ParseType → List ℕ → List ℕ → List ℕ → Step
next_part m_magic ls h b = some (frame m_header 8 [] [] [], [])
next_part m_header ls h b = do n ← natural (int32_at ls 0); some (frame m_rpc_header n ls [] [], [])
next_part m_rpc_header ls h b = do
  n ← natural (int32_at ls 4)
  some (frame m_rpc_content n ls h [], [])
next_part m_rpc_content ls h b = some (start 0, record { head = h; body = b } ∷ [])

-- After the last byte of a part the next one begins.
unfoldable pub close : ℕ → Frame → Step
close zero f = next_part f.stage f.lengths f.head f.body
close (suc n) f = some (record f { left = suc n }, [])

-- The bytes `xs` belong to the part that is being read.
abbrev pub add_to : ParseType → List ℕ → List ℕ → List ℕ → List ℕ → ℕ → Frame
add_to m_magic xs ls h b n = frame m_magic n ls h b
add_to m_header xs ls h b n = frame m_header n (ls ++ xs) h b
add_to m_rpc_header xs ls h b n = frame m_rpc_header n ls (h ++ xs) b
add_to m_rpc_content xs ls h b n = frame m_rpc_content n ls h (b ++ xs)

abbrev pub add : List ℕ → Frame → Frame
add xs f = add_to f.stage xs f.lengths f.head f.body f.left

-- Empty parts are passed over, three at most.
unfoldable pub settle : ℕ → Frame → Step
settle zero f = none
settle (suc rounds) f = elim f.left [
  | suc n ↦ some (f, [])
  | zero ↦ do
    (g, ms) ← next_part f.stage f.lengths f.head f.body
    more_messages ms (settle rounds g)
]

unfoldable pub accept : ℕ → Frame → Step
unfolding settle close
accept x f = do (g, ms) ← settle 4 f; more_messages ms (close (g.left - 1) (add (x ∷ []) g))

-- The messages that a stream completes, and where it leaves off.
unfoldable pub decode : List ℕ → Frame → Step
unfolding accept
decode [] f = some (f, [])
decode (x ∷ xs) f = do (g, ms) ← accept x f; more_messages ms (decode xs g)
