-- ===== src/Rpc/Parser/Bytes.antt =====
-- Bytes in memory: 32-bit integers, and `memcpy` with its bounds.
use mg_raffle.Base.{
  ℕ, ◌+◌, ◌-◌, ◌*◌, ◌^◌, Option, none, some, List, ◌++◌, if◌then◌else◌, length, leb, ltb, take,
  drop, get_or,
}
use mg_raffle.Base.Int.{ℤ, pos, negsuc}

-- Four bytes, the lowest first: the server refuses to start on any other machine.
abbrev pub word_at : List ℕ → ℕ → ℕ
word_at bytes i =
    get_or bytes i 0
    + 256 * get_or bytes (i + 1) 0
    + 65536 * get_or bytes (i + 2) 0
    + 16777216 * get_or bytes (i + 3) 0

abbrev pub signed32 : ℕ → ℤ
signed32 w = if ltb w (2 ^ 31) then pos w else negsuc (2 ^ 32 - w - 1)

abbrev pub int32_at : List ℕ → ℕ → ℤ
int32_at bytes i = signed32 (word_at bytes i)

-- `n` bytes from `offset`, if the buffer has them.
unfoldable pub slice : List ℕ → ℤ → ℤ → Option (List ℕ)
slice bytes (pos offset) (pos n) =
    if leb (offset + n) (length bytes) then some (take n (drop offset bytes)) else none
slice bytes (pos offset) (negsuc n) = none
slice bytes (negsuc offset) n = none

-- Overwrite at `offset`, if there is room.
unfoldable pub copy_into : List ℕ → ℤ → List ℕ → Option (List ℕ)
copy_into target (pos offset) bytes =
    if leb (offset + length bytes) (length target)
    then some (take offset target ++ bytes ++ drop (offset + length bytes) target)
    else none
copy_into target (negsuc offset) bytes = none
