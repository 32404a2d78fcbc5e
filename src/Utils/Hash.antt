-- ===== src/Utils/Hash.antt =====
-- utils/hash.h: the hash of a sequence of bytes, on 32-bit words that wrap around.
pub mod Words
use Prim.Native.Nat.{bit_or, bit_xor}
use mg_raffle.Base.{ℕ, ◌+◌, ◌*◌, ◌/◌, ◌%◌, ◌^◌, Bool, true, List, [], ◌∷◌, if◌then◌else◌, length}

abbrev pub wrap : ℕ → ℕ
wrap n = n % 2 ^ 32

-- `memcpy` into a `uint32_t`, in the byte order of the machine.
abbrev pub copied : Bool → ℕ → ℕ → ℕ → ℕ → ℕ
copied lowest_first a b c d =
    if lowest_first
    then a + 256 * b + 65536 * c + 16777216 * d
    else d + 256 * c + 65536 * b + 16777216 * a

-- The four bytes, shifted; `<<` of an `uint8_t`.
abbrev pub shifted : ℕ → ℕ → ℕ → ℕ → ℕ
shifted a b c d = bit_or (bit_or (bit_or a (b * 2 ^ 8)) (c * 2 ^ 16)) (d * 2 ^ 24)

-- `l = {1}` sets the first member of the union, which is the `char` that is then read: the answer
-- is the same on every machine.
abbrev pub is_little : Bool
is_little = true

-- `lowest_first` is the byte order of the machine.
unfoldable pub decode_fixed32 : Bool → ℕ → ℕ → ℕ → ℕ → ℕ
decode_fixed32 lowest_first a b c d =
    if is_little then copied lowest_first a b c d else shifted a b c d

abbrev pub hash_factor : ℕ
hash_factor = 0xc6a4a793

-- `h *= m; h ^= (h >> by)`
unfoldable pub scramble : ℕ → ℕ → ℕ
scramble by h = let g = wrap (h * hash_factor) in bit_xor g (g / 2 ^ by)

-- The bytes that are left, with the cases that fall through.
unfoldable pub hash_rest : List ℕ → ℕ → ℕ
unfolding scramble
hash_rest (a ∷ b ∷ c ∷ []) h = scramble 24 (wrap (wrap (wrap (h + c * 2 ^ 16) + b * 2 ^ 8) + a))
hash_rest (a ∷ b ∷ []) h = scramble 24 (wrap (wrap (h + b * 2 ^ 8) + a))
hash_rest (a ∷ []) h = scramble 24 (wrap (h + a))
hash_rest _ h = h

unfoldable pub hash_loop : Bool → List ℕ → ℕ → ℕ
unfolding decode_fixed32 hash_rest
hash_loop lowest_first (a ∷ b ∷ c ∷ d ∷ data_left) h =
    hash_loop lowest_first data_left (scramble 16 (wrap (h + decode_fixed32 lowest_first a b c d)))
hash_loop lowest_first data_left h = hash_rest data_left h

-- `n * m` has 64 bits, and the result of `^` is cut to 32.
unfoldable pub murmur_hash : Bool → List ℕ → ℕ → ℕ
unfolding hash_loop
murmur_hash lowest_first bytes seed =
    hash_loop lowest_first bytes (wrap (bit_xor seed (length bytes * hash_factor % 2 ^ 64)))
