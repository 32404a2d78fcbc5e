-- ===== src/Rpc/Buffer/Sizes.antt =====
-- The size classes of src/buffer.h, and the bookkeeping of one `SBuffer`.
use mg_raffle.Base.{◌≡◌, ◌≢◌, ◌⊎◌, ◌↔◌, none, some, arith}
use mg_raffle.Base.Pointers.{Ptr, null}
use mg_raffle.Base.Int.{ℤ, pos, ◌+ℤ◌, ◌≤ℤ◌, ◌-ℤ◌, int_laws, zero-add}
use mg_raffle.Rpc.Buffer.{malloc_size, SBuffer, buffer_memory, new_buffer, usage, reset}

abbrev pub IsClass : ℤ → Type 0
IsClass c =
    (c ≡ pos 128) ⊎ (c ≡ pos 256) ⊎ (c ≡ pos 512) ⊎ (c ≡ pos 1024) ⊎ (c ≡ pos 2048) ⊎ (c ≡ pos 4096)

pub malloc_size-IsClass : (size c : ℤ) → malloc_size size ≡ some c → IsClass c
unfolding malloc_size
malloc_size-IsClass size c h = ground arith

-- A size that `malloc_size` gives is a class and holds the request, and no smaller class does.
pub malloc_size_least :
    (size c d : ℤ)
    → malloc_size size ≡ some c
    → IsClass d
    → size ≤ℤ d
    → IsClass c × (size ≤ℤ c) × (c ≤ℤ d)
unfolding malloc_size
malloc_size_least size c d h k le = (ground arith, ground arith, ground arith)

-- The assertion fails exactly above the largest class.
pub malloc_size-eq-none : (size : ℤ) → (malloc_size size ≡ none) ↔ (pos 4097 ≤ℤ size)
unfolding malloc_size
malloc_size-eq-none size = (λ h. ground arith, λ h. ground arith)

-- What has been used and what remains make up the buffer.
abbrev pub IsBalanced : SBuffer → Type 0
IsBalanced b = b.remainp +ℤ b.remain_size ≡ b.real_size

move : (a r len : ℤ) → a +ℤ len +ℤ (r -ℤ len) ≡ a +ℤ r
move a r len = omega int_laws

sub_nonneg : (r len : ℤ) → len ≤ℤ r → pos 0 ≤ℤ r -ℤ len
sub_nonneg r len h = omega int_laws

-- A successful `usage` moves bytes from what remains to what is used, never more than remain,
-- and `reset` takes all of that back.
pub usage-IsBalanced :
    (len : ℤ) (b c : SBuffer)
    → IsBalanced b
    → usage len b ≡ some c
    → IsBalanced c × (pos 0 ≤ℤ c.remain_size) × (reset c ≡ reset b) × IsBalanced (reset c)
unfolding usage reset
usage-IsBalanced len b c v h =
    ground
      (arith, move b.remainp b.remain_size len, sub_nonneg b.remain_size len, zero-add c.real_size)

-- Every buffer for more than 512 bytes claims more room than its constructor allocates.
pub new_buffer_overclaims :
    (fresh : Ptr) (size : ℤ) (b : SBuffer)
    → fresh ≢ null
    → pos 513 ≤ℤ size
    → new_buffer fresh size ≡ some b
    → pos 1001 ≤ℤ b.remain_size
unfolding new_buffer malloc_size
new_buffer_overclaims fresh size b ok big h = ground arith

-- A buffer for at most 512 bytes that got its memory has all of the request, inside that memory.
pub new_buffer_fits :
    (fresh : Ptr) (size : ℤ) (b : SBuffer)
    → fresh ≢ null
    → size ≤ℤ pos 512
    → new_buffer fresh size ≡ some b
    → IsBalanced b × (b.remain_size ≤ℤ buffer_memory) × (size ≤ℤ b.remain_size)
unfolding new_buffer malloc_size
new_buffer_fits fresh size b ok small h =
    (ground (arith, zero-add b.real_size), ground arith, ground arith)
