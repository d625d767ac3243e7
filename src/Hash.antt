-- ===== src/Hash.antt =====
-- util/hash.cc: the 32-bit hash that the bloom filters and the filter cache share.
use ebf_leveldb_sep_kv.Base.{ℕ, ◌+◌, ◌*◌, ◌/◌, ◌%◌, ◌^◌, bit_xor, List, [], ◌∷◌, length}
use ebf_leveldb_sep_kv.Coding.{decode_fixed32}

abbrev m : ℕ
m = 0xc6a4a793

-- `h *= m; h ^= (h >> s)` on uint32_t.
abbrev mix : ℕ → ℕ → ℕ
mix h s = let h' = h * m % 2 ^ 32 in bit_xor h' (h' / 2 ^ s)

-- The loop over four bytes at a time, and the switch on what remains.
hash_loop : List ℕ → ℕ → ℕ
hash_loop (a ∷ b ∷ c ∷ d ∷ rest) h =
    hash_loop rest (mix ((h + decode_fixed32 (a ∷ b ∷ c ∷ d ∷ [])) % 2 ^ 32) 16)
hash_loop (a ∷ b ∷ c ∷ []) h = mix (((h + c * 2 ^ 16) % 2 ^ 32 + b * 2 ^ 8) % 2 ^ 32 + a) 24
hash_loop (a ∷ b ∷ []) h = mix ((h + b * 2 ^ 8) % 2 ^ 32 + a) 24
hash_loop (a ∷ []) h = mix (h + a) 24
hash_loop [] h = h

unfoldable pub hash : List ℕ → ℕ → ℕ
unfolding hash_loop decode_fixed32
hash bytes seed = hash_loop bytes (bit_xor seed (length bytes * m % 2 ^ 64) % 2 ^ 32)
