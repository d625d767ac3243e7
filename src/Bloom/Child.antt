-- ===== src/Bloom/Child.antt =====
-- CreateFilter of one child policy against KeyMayMatch.
use ebf_leveldb_sep_kv.Base.{
  ℕ, zero, suc, ◌-◌, ◌*◌, ◌%◌, ◌^◌, ◌≤◌, ◌<◌, List, [], ◌∷◌, ◌++◌, some, true, length, get_or,
  get_elem?, replicate, All, ◌≡◌, refl, arith, length-append, length-replicate, All-map, All-append,
  All-replicate,
}
use ebf_leveldb_sep_kv.Base.Bytes.{IsByte}
use ebf_leveldb_sep_kv.Hash.{hash}
use ebf_leveldb_sep_kv.Bloom.{
  child_policy, bloom_seed, bloom_seeds, bloom_hash, delta_of, set_probes, add_keys, filter_bytes,
  create_filter, key_may_match,
}
use ebf_leveldb_sep_kv.Bloom.Bits.{
  IsArray, Covers, test_probes-Covers, set_probes-IsArray, set_probes_keeps-Covers,
  set_probes-Covers,
}
use native.Mathlib.Nat.{mod-eq_of_lt}

get_elem?_below {ℓ} :
    {A : Type ℓ} (xs : List A) (i : ℕ) → i < length xs → (a : A) × (get_elem? xs i ≡ some a)
get_elem?_below [] i h = elim h [ ]
get_elem?_below (x ∷ xs) zero h = (x, refl)
get_elem?_below (x ∷ xs) (suc i) h = get_elem?_below xs i (omega arith)

-- The twelve ids that BloomHash knows.
bloom_hash_known : (key : List ℕ) (id : ℕ) → id < 12 → (h : ℕ) × (bloom_hash key id ≡ some h)
unfolding bloom_hash bloom_seed
bloom_hash_known key id h = let (s, e) = get_elem?_below bloom_seeds id h in (hash key s, rw e)

-- The hash of a known id is the seed's, so a covered key is one whose probes are set.
pub CoversKey : ℕ → ℕ → ℕ → List ℕ → List ℕ → Type 0
CoversKey id k bits array key =
    (h : ℕ) × (bloom_hash key id ≡ some h) × Covers k h (delta_of h) bits array

module _ (bytes k id : ℕ) (positive : 0 < bytes) (known : id < 12) where
  keep_key :
      (h : ℕ) (array key : List ℕ)
      → IsArray bytes k array
      → CoversKey id k (bytes * 8) array key
      → CoversKey id k (bytes * 8) (set_probes k h (delta_of h) (bytes * 8) array) key
  unfolding CoversKey
  keep_key h array key a (g, e, c) =
      (g, e, set_probes_keeps-Covers bytes k positive k g (delta_of g) k h (delta_of h) array a c)

  pub add_keys_known :
      (keys : List (List ℕ)) (array : List ℕ) (old : List (List ℕ))
      → IsArray bytes k array
      → All (CoversKey id k (bytes * 8) array) old
      → (result : List ℕ) × (add_keys id k (bytes * 8) keys array ≡ some result)
        × IsArray bytes k result
        × All (CoversKey id k (bytes * 8) result) old
        × All (CoversKey id k (bytes * 8) result) keys
  unfolding add_keys CoversKey
  add_keys_known [] array old a c = (array, refl, a, c, tt)
  add_keys_known (key ∷ keys) array old a c =
      let (h, e) = bloom_hash_known key id known in
      let array' = set_probes k h (delta_of h) (bytes * 8) array in
      let a' = set_probes-IsArray bytes k positive k h (delta_of h) array a in
      let c' : All (CoversKey id k (bytes * 8) array') (key ∷ old) = (
        (h, e, set_probes-Covers bytes k positive k h (delta_of h) array a),
        All-map (CoversKey id k (bytes * 8) array) (CoversKey id k (bytes * 8) array') old
            (λ q. keep_key h array q a) c,
      ) in
      let (result, ran, fine, kept, more) = add_keys_known keys array' (key ∷ old) a' c' in
      (result, rw e ran, fine, kept.1, (kept.0, more))

get_or_end : (n a b d : ℕ) → get_or (replicate n a ++ (b ∷ [])) n d ≡ b
get_or_end zero a b d = refl
get_or_end (suc n) a b d = get_or_end n a b d

fresh-IsArray : (bytes k : ℕ) → k < 256 → IsArray bytes k (replicate bytes 0 ++ (k % 256 ∷ []))
fresh-IsArray bytes k h = record {
  size =
      omega
        (arith, length-append (replicate bytes 0) (k % 256 ∷ []), length-replicate {A = ℕ} bytes 0);
  wide =
      All-append IsByte (replicate bytes 0) _ (All-replicate IsByte bytes 0 (omega arith))
        (omega arith, tt);
  probes = rw (get_or_end bytes 0 (k % 256) 0) (mod-eq_of_lt h);
}

filter_bytes_bounds :
    (n b : ℕ) → n * b < 2 ^ 60 → (8 ≤ filter_bytes n b) × (filter_bytes n b < 2 ^ 58)
unfolding filter_bytes
filter_bytes_bounds n b h = ground (arith, mod-eq_of_lt {n = n * b} {m = 2 ^ 64})

child_policy_k : (b id : ℕ) → (1 ≤ (child_policy b id).k) × ((child_policy b id).k ≤ 30)
unfolding child_policy
child_policy_k b id = ground arith

child_policy_fields :
    (b id : ℕ) → ((child_policy b id).id ≡ id) × ((child_policy b id).bits_per_key ≡ b)
unfolding child_policy
child_policy_fields b id = (refl, refl)

-- A covered key is answered with true.
CoversKey-key_may_match :
    (bytes k id b' : ℕ) (array key : List ℕ)
    → 0 < bytes
    → bytes < 2 ^ 58
    → k ≤ 30
    → IsArray bytes k array
    → CoversKey id k (bytes * 8) array key
    → key_may_match (child_policy b' id) key array ≡ some true
unfolding key_may_match CoversKey
CoversKey-key_may_match bytes k id b' array key positive small few a (h, e, c) =
    rw
      (
        (child_policy_fields b' id).0,
        e,
        last,
        a.probes,
        whole,
        test_probes-Covers k h (delta_of h) (bytes * 8) array c,
      )
      (ground (arith, a.size))
  where
    last : length array - 1 ≡ bytes
    last = omega (arith, a.size)

    whole : bytes * 8 % 2 ^ 64 ≡ bytes * 8
    whole = mod-eq_of_lt (omega arith)

-- CreateFilter of a policy made by the constructor, for fewer than 2 ^ 60 bits in all and an id
-- that BloomHash knows, keeps what `dst` holds and appends a filter that KeyMayMatch answers
-- with true for every key that went in, also when the reading policy was made for another
-- number of bits per key.
pub key_may_match-create_filter :
    (b b' id : ℕ) (keys : List (List ℕ)) (dst : List ℕ)
    → id < 12
    → length keys * b < 2 ^ 60
    → (filter : List ℕ) × (create_filter (child_policy b id) keys dst ≡ some (dst ++ filter))
      × All (λ key. key_may_match (child_policy b' id) key filter ≡ some true) keys
unfolding create_filter
key_may_match-create_filter b b' id keys dst known fits =
    let k = (child_policy b id).k in
    let bytes = filter_bytes (length keys) b in
    let (some_bytes, small) = filter_bytes_bounds (length keys) b fits in
    let (one, few) = child_policy_k b id in
    let (result, ran, fine, none_before, covered) =
      add_keys_known bytes k id (omega arith) known keys _ [] (fresh-IsArray bytes k (omega arith))
        tt in
    let whole : bytes * 8 % 2 ^ 64 ≡ bytes * 8 = mod-eq_of_lt (omega arith) in
    (
      result,
      rw ((child_policy_fields b id).0, (child_policy_fields b id).1, whole, ran),
      All-map (CoversKey id k (bytes * 8) result) _ keys
          (λ key. CoversKey-key_may_match bytes k id b' result key (omega arith) small few fine)
          covered,
    )
