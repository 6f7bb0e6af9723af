-- ===== src/Hash.antt =====
-- mdv_platform/generic/mdv_hash.c: the 32-bit Murmur2A hash of a buffer, its bytes taken as
-- little-endian words.
use Prim.Native.Nat.{bit_xor}
use mdb_linux.Base.{ℕ, ◌*◌, ◌/◌, ◌%◌, ◌^◌, List, [], ◌∷◌, length, decode}

-- `m`, and the values of a `uint32_t`.
abbrev m : ℕ
m = 1540483477

abbrev word_mod : ℕ
word_mod = 2 ^ 32

-- `mdv_hash_murmur_mix`: the new `h`. The new `k` is not read again.
unfoldable pub murmur_mix : ℕ → ℕ → ℕ
murmur_mix h k =
    let k1 = k * m % word_mod in
    let k2 = bit_xor k1 (k1 / 2 ^ 24) in let k3 = k2 * m % word_mod in bit_xor (h * m % word_mod) k3

-- The words of the buffer, then `t` of the one to three bytes that are left.
unfoldable pub murmur_words : List ℕ → ℕ → ℕ
unfolding murmur_mix
murmur_words (a ∷ b ∷ c ∷ d ∷ rest) h =
    murmur_words rest (murmur_mix h (decode (a ∷ b ∷ c ∷ d ∷ [])))
murmur_words (a ∷ b ∷ c ∷ []) h = murmur_mix h (bit_xor (bit_xor (c * 2 ^ 16) (b * 2 ^ 8)) a)
murmur_words (a ∷ b ∷ []) h = murmur_mix h (bit_xor (b * 2 ^ 8) a)
murmur_words (a ∷ []) h = murmur_mix h a
murmur_words [] h = murmur_mix h 0

unfoldable pub murmur2a : List ℕ → ℕ → ℕ
unfolding murmur_words murmur_mix
murmur2a buff seed =
    let h1 = murmur_mix (murmur_words buff seed) (length buff) in
    let h2 = bit_xor h1 (h1 / 2 ^ 13) in let h3 = h2 * m % word_mod in bit_xor h3 (h3 / 2 ^ 15)
