-- ===== src/Bloom.antt =====
-- util/multi_bloom.cc: the bloom filter of one child policy, and the policy that holds several,
-- each with its own hash. Keys and filters are lists of bytes.
pub mod Bits
pub mod Child
pub mod Multi
use ebf_leveldb_sep_kv.Base.{
  ℕ, zero, suc, ◌+◌, ◌-◌, ◌*◌, ◌/◌, ◌%◌, ◌^◌, bit_and, bit_or, List, [], ◌∷◌, ◌++◌, Option, none,
  some, Bool, true, false, ltb, ◌==◌, if◌then◌else◌, length, get_or, get_elem?, set, replicate,
}
use ebf_leveldb_sep_kv.Coding.{◌>>=◌}
use ebf_leveldb_sep_kv.Hash.{hash}

-- The seeds of BloomHash's switch. `none`: the process exits on any other id.
abbrev pub bloom_seeds : List ℕ
bloom_seeds =
    0xbc9f1d34 ∷ 0x34f1d34b ∷ 0x251d34bc ∷ 0x01d34bc9 ∷ 0x1934bc9f ∷ 0x934bc9f1 ∷ 0x4bc9f193
    ∷ 0x51c2578a ∷ 0xda23562f ∷ 0x135254f2 ∷ 0xea1e4a48 ∷ 0x567925f1 ∷ []

unfoldable pub bloom_seed : ℕ → Option ℕ
bloom_seed id = get_elem? bloom_seeds id

unfoldable pub bloom_hash : List ℕ → ℕ → Option ℕ
bloom_hash key id = do seed ← bloom_seed id; some (hash key seed)

pub record ChildBloomFilterPolicy : Type 0 where
  pub bits_per_key : ℕ
  pub k : ℕ
  pub id : ℕ

-- `bits_per_key * 0.69` rounded down: below the cap of 30 the product is no whole number, and
-- lies further from one than the rounding of a double.
unfoldable pub child_policy : ℕ → ℕ → ChildBloomFilterPolicy
child_policy bits_per_key id =
    let k = bits_per_key * 69 / 100 in
    let k1 = if ltb k 1 then 1 else k in
    let k2 = if ltb 30 k1 then 30 else k1 in record { bits_per_key = bits_per_key; k = k2; id = id }

-- Rotate right by 17 bits.
unfoldable pub delta_of : ℕ → ℕ
delta_of h = bit_or (h / 2 ^ 17) (h * 2 ^ 15 % 2 ^ 32)

-- `array[bitpos/8] |= (1 << (bitpos % 8))`, and the test of that bit.
unfoldable pub set_bit : List ℕ → ℕ → List ℕ
set_bit array bitpos =
    set array (bitpos / 8) (bit_or (get_or array (bitpos / 8) 0) (2 ^ (bitpos % 8)) % 256)

unfoldable pub bit_is_clear : List ℕ → ℕ → Bool
bit_is_clear array bitpos = bit_and (get_or array (bitpos / 8) 0) (2 ^ (bitpos % 8)) == 0

-- The inner loop of CreateFilter, over the rounds that are left.
unfoldable pub set_probes : ℕ → ℕ → ℕ → ℕ → List ℕ → List ℕ
set_probes zero h delta bits array = array
set_probes (suc j) h delta bits array =
    set_probes j ((h + delta) % 2 ^ 32) delta bits (set_bit array (h % bits))

-- The outer loop, over the keys that are left.
unfoldable pub add_keys : ℕ → ℕ → ℕ → List (List ℕ) → List ℕ → Option (List ℕ)
add_keys id k bits [] array = some array
add_keys id k bits (key ∷ keys) array = do
  h ← bloom_hash key id
  add_keys id k bits keys (set_probes k h (delta_of h) bits array)

-- The size of the bit array in bytes, on size_t.
unfoldable pub filter_bytes : ℕ → ℕ → ℕ
filter_bytes n bits_per_key =
    let bits = n * bits_per_key % 2 ^ 64 in
    let bits' = if ltb bits 64 then 64 else bits in (bits' + 7) % 2 ^ 64 / 8

-- CreateFilter appends the bit array and the byte k to `dst`.
unfoldable pub create_filter : ChildBloomFilterPolicy → List (List ℕ) → List ℕ → Option (List ℕ)
create_filter p keys dst = do
  let bytes = filter_bytes (length keys) p.bits_per_key
  array ← add_keys p.id p.k (bytes * 8 % 2 ^ 64) keys (replicate bytes 0 ++ (p.k % 256 ∷ []))
  some (dst ++ array)

-- The loop of KeyMayMatch.
unfoldable pub test_probes : ℕ → ℕ → ℕ → ℕ → List ℕ → Bool
test_probes zero h delta bits array = true
test_probes (suc j) h delta bits array =
    let rest = test_probes j ((h + delta) % 2 ^ 32) delta bits array in
    if bit_is_clear array (h % bits) then false else rest

unfoldable pub key_may_match : ChildBloomFilterPolicy → List ℕ → List ℕ → Option Bool
key_may_match p key bloom_filter =
    let len = length bloom_filter in
    let bits = (len - 1) * 8 % 2 ^ 64 in
    let k = get_or bloom_filter (len - 1) 0 in
    let probed : Option Bool =
      bloom_hash key p.id >>= λ h. some (test_probes k h (delta_of h) bits bloom_filter) in
    if ltb len 2 then some false else if ltb 30 k then some true else probed
