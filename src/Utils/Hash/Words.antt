-- ===== src/Utils/Hash/Words.antt =====
-- The words of utils/hash.h: what `|` and `^` of bytes and words are, and the hash on any machine.
use Prim.Native.Nat.{bit_or, bit_xor, digits, differ, max, bit_or-bitwise, bit_xor-bitwise}
use mg_raffle.Base.{
  length, Bool, ap, ℕ, zero, suc, ◌+◌, ◌*◌, ◌/◌, ◌%◌, ◌^◌, ◌≡◌, ◌≤◌, ◌<◌, refl, ◌∙◌, true, false,
  List, [], ◌∷◌, arith,
}
use mg_raffle.Utils.Hash.{
  wrap, copied, shifted, decode_fixed32, scramble, hash_rest, hash_loop, murmur_hash, hash_factor,
}

-- `n << by`
abbrev shift : ℕ → ℕ → ℕ
shift zero n = n
shift (suc by) n = shift by n * 2

or_digits :
    (fuel k x z : ℕ)
    → x ≤ fuel
    → x < shift k 1
    → digits (λ b. b) max fuel x (shift k z) ≡ x + shift k z
or_digits zero k zero z le lt = omega arith
or_digits zero k (suc x) z le lt = absurd (omega arith)
or_digits (suc n) k zero z le lt = omega arith
or_digits (suc n) zero (suc x) z le lt = absurd (omega arith)
or_digits (suc n) (suc k) (suc x) z le lt =
    let half : shift k z * 2 / 2 ≡ shift k z = omega arith in
    let even : shift k z * 2 % 2 ≡ 0 = omega arith in
    let ih = or_digits n k (suc x / 2) z (omega arith) (omega arith) in
    rw (half, even, ih) (omega arith)

or_disjoint : (k x z : ℕ) → x < shift k 1 → bit_or x (shift k z) ≡ x + shift k z
or_disjoint k x z lt = bit_or-bitwise x (shift k z) ∙ or_digits x k x z (omega arith) lt

differ_digits : (a b : ℕ) → a ≤ 1 → b ≤ 1 → differ a b ≤ 1
differ_digits zero b p q = q
differ_digits (suc a) zero p q = p
differ_digits (suc zero) (suc zero) p q = omega arith
differ_digits (suc (suc a)) (suc b) p q = absurd (omega arith)
differ_digits (suc zero) (suc (suc b)) p q = absurd (omega arith)

xor_digits :
    (fuel k a b : ℕ)
    → a ≤ fuel
    → a < shift k 1
    → b < shift k 1
    → digits (λ b. b) differ fuel a b < shift k 1
xor_digits zero k zero b le p q = q
xor_digits zero k (suc a) b le p q = absurd (omega arith)
xor_digits (suc n) k zero b le p q = q
xor_digits (suc n) zero (suc a) b le p q = absurd (omega arith)
xor_digits (suc n) (suc k) (suc a) b le p q = omega (
  arith,
  xor_digits n k (suc a / 2) (b / 2) (omega arith) (omega arith) (omega arith),
  differ_digits (suc a % 2) (b % 2) (omega arith) (omega arith),
)

xor_below : (a b : ℕ) → a < 2 ^ 32 → b < 2 ^ 32 → bit_xor a b < 2 ^ 32
xor_below a b p q = omega (arith, bit_xor-bitwise a b, xor_digits a 32 a b (omega arith) p q)

or_shifted : (k x z w : ℕ) → x < shift k 1 → shift k z ≡ w → bit_or x w ≡ x + w
or_shifted k x z w lt e = rw (← e) (or_disjoint k x z lt)

shifted_lem : (a b c d : ℕ) → a < 256 → b < 256 → c < 256 → shifted a b c d ≡ copied true a b c d
shifted_lem a b c d pa pb pc =
    rw
      (
        or_shifted 8 a b (b * 256) (omega arith) (omega arith),
        or_shifted 16 (a + b * 256) c (c * 65536) (omega arith) (omega arith),
        or_shifted 24 (a + b * 256 + c * 65536) d (d * 16777216) (omega arith) (omega arith),
      )
      (omega arith)

scramble_16 : (h : ℕ) → scramble 16 h < 2 ^ 32
unfolding scramble
scramble_16 h =
    let g = wrap (h * hash_factor) in xor_below g (g / 65536) (omega arith) (omega arith)

scramble_24 : (h : ℕ) → scramble 24 h < 2 ^ 32
unfolding scramble
scramble_24 h =
    let g = wrap (h * hash_factor) in xor_below g (g / 16777216) (omega arith) (omega arith)

-- Each element is a byte.
abbrev pub AllBytes : List ℕ → Type 0
AllBytes [] = Unit
AllBytes (x ∷ xs) = (x < 256) × AllBytes xs

hash_rest_below : (bytes : List ℕ) (h : ℕ) → h < 2 ^ 32 → hash_rest bytes h < 2 ^ 32
unfolding hash_rest
hash_rest_below [] h p = p
hash_rest_below (a ∷ []) h p = scramble_24 _
hash_rest_below (a ∷ b ∷ []) h p = scramble_24 _
hash_rest_below (a ∷ b ∷ c ∷ []) h p = scramble_24 _
hash_rest_below (a ∷ b ∷ c ∷ d ∷ bytes) h p = p

-- The hash as `DecodeFixed32` means it, on any machine: each word is shifted together.
abbrev pub portable_loop : List ℕ → ℕ → ℕ
portable_loop (a ∷ b ∷ c ∷ d ∷ bytes) h =
    portable_loop bytes (scramble 16 (wrap (h + shifted a b c d)))
portable_loop bytes h = hash_rest bytes h

abbrev pub portable_hash : List ℕ → ℕ → ℕ
portable_hash bytes seed =
    portable_loop bytes (wrap (bit_xor seed (length bytes * hash_factor % 2 ^ 64)))

-- Each whole word backwards; the bytes that are left stay as they are.
abbrev pub reverse_words : List ℕ → List ℕ
reverse_words (a ∷ b ∷ c ∷ d ∷ bytes) = d ∷ c ∷ b ∷ a ∷ reverse_words bytes
reverse_words bytes = bytes

length-reverse_words : (bytes : List ℕ) → length (reverse_words bytes) ≡ length bytes
length-reverse_words [] = refl
length-reverse_words (a ∷ []) = refl
length-reverse_words (a ∷ b ∷ []) = refl
length-reverse_words (a ∷ b ∷ c ∷ []) = refl
length-reverse_words (a ∷ b ∷ c ∷ d ∷ bytes) =
    ap (λ n. suc (suc (suc (suc n)))) (length-reverse_words bytes)

loop-portable :
    (bytes : List ℕ) (h : ℕ) → AllBytes bytes → hash_loop true bytes h ≡ portable_loop bytes h
unfolding hash_loop decode_fixed32
loop-portable [] h bs = refl
loop-portable (a ∷ []) h bs = refl
loop-portable (a ∷ b ∷ []) h bs = refl
loop-portable (a ∷ b ∷ c ∷ []) h bs = refl
loop-portable (a ∷ b ∷ c ∷ d ∷ bytes) h (pa, (pb, (pc, (pd, bs)))) =
    rw (shifted_lem a b c d pa pb pc)
      (loop-portable bytes (scramble 16 (wrap (h + copied true a b c d))) bs)

loop-reverse_words :
    (bytes : List ℕ) (h : ℕ) → hash_loop false bytes h ≡ hash_loop true (reverse_words bytes) h
unfolding hash_loop decode_fixed32
loop-reverse_words [] h = refl
loop-reverse_words (a ∷ []) h = refl
loop-reverse_words (a ∷ b ∷ []) h = refl
loop-reverse_words (a ∷ b ∷ c ∷ []) h = refl
loop-reverse_words (a ∷ b ∷ c ∷ d ∷ bytes) h =
    loop-reverse_words bytes (scramble 16 (wrap (h + copied false a b c d)))

loop_below :
    (lowest_first : Bool) (bytes : List ℕ) (h : ℕ)
    → h < 2 ^ 32
    → hash_loop lowest_first bytes h < 2 ^ 32
unfolding hash_loop
loop_below o [] h p = p
loop_below o (a ∷ []) h p = hash_rest_below (a ∷ []) h p
loop_below o (a ∷ b ∷ []) h p = hash_rest_below (a ∷ b ∷ []) h p
loop_below o (a ∷ b ∷ c ∷ []) h p = hash_rest_below (a ∷ b ∷ c ∷ []) h p
loop_below o (a ∷ b ∷ c ∷ d ∷ bytes) h p =
    loop_below o bytes (scramble 16 (wrap (h + decode_fixed32 o a b c d))) (scramble_16 _)

-- For a sequence of bytes: on a machine that has the lowest byte first, the hash is the one whose
-- words are shifted together; on one that has the highest byte first, it is the hash that the
-- former gives to the sequence with the bytes of each whole word backwards; and both are words of
-- 32 bits.
pub murmur_hash_lem :
    (bytes : List ℕ) (seed : ℕ)
    → AllBytes bytes
    → (murmur_hash true bytes seed ≡ portable_hash bytes seed)
      × (murmur_hash false bytes seed ≡ murmur_hash true (reverse_words bytes) seed)
      × (murmur_hash true bytes seed < 2 ^ 32)
      × (murmur_hash false bytes seed < 2 ^ 32)
unfolding murmur_hash
murmur_hash_lem bytes seed bs = (
  loop-portable bytes _ bs,
  rw (length-reverse_words bytes) (loop-reverse_words bytes _),
  loop_below true bytes _ (omega arith),
  loop_below false bytes _ (omega arith),
)
