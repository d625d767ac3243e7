-- ===== src/Bloom/Bits.antt =====
-- The bit array of a filter: what a written probe leaves set.
use ebf_leveldb_sep_kv.Base.{
  ℕ, zero, suc, ◌+◌, ◌*◌, ◌/◌, ◌%◌, ◌^◌, ◌<◌, bit_or, List, true, false, length, get_or, All, ◌≡◌,
  refl, arith, length-set, All-set, All-get_or, get_or-set_self, get_or-set_ne, ℕ_discrete,
}
use ebf_leveldb_sep_kv.Base.Bytes.{IsByte}
use ebf_leveldb_sep_kv.Base.Bits.{set_bit_sets, set_bit_keeps, set_bit_byte}
use ebf_leveldb_sep_kv.Bloom.{set_bit, bit_is_clear, set_probes, test_probes}
use native.Mathlib.Nat.{mod-eq_of_lt, mod-lt}

-- An array of bytes with `bytes` bytes of bits, and then the byte k.
pub record IsArray (bytes k : ℕ) (array : List ℕ) : Type 0 where
  pub size : length array ≡ bytes + 1
  pub wide : All IsByte array
  pub probes : get_or array bytes 0 ≡ k

pub IsOn : List ℕ → ℕ → Type 0
IsOn array pos = bit_is_clear array pos ≡ false

set_bit-IsArray :
    (bytes k : ℕ) (array : List ℕ) (pos : ℕ)
    → pos / 8 < bytes
    → IsArray bytes k array
    → IsArray bytes k (set_bit array pos)
unfolding set_bit
set_bit-IsArray bytes k array pos h a = record {
  size = omega (arith, length-set array (pos / 8) value, a.size);
  wide = All-set IsByte array (pos / 8) value a.wide (omega arith);
  probes = rw (get_or-set_ne array (pos / 8) bytes value 0 (omega arith)) a.probes;
}
  where
    value : ℕ
    value = bit_or (get_or array (pos / 8) 0) (2 ^ (pos % 8)) % 256

set_bit-IsOn :
    (bytes k : ℕ) (array : List ℕ) (pos : ℕ)
    → pos / 8 < bytes
    → IsArray bytes k array
    → IsOn (set_bit array pos) pos
unfolding set_bit bit_is_clear IsOn
set_bit-IsOn bytes k array pos h a =
    rw (get_or-set_self array (pos / 8) _ 0 (omega (arith, a.size))) (
      rw (mod-eq_of_lt (set_bit_byte _ (pos % 8) byte (omega arith)))
        (set_bit_sets _ (pos % 8) byte (omega arith)))
  where
    byte : get_or array (pos / 8) 0 < 256
    byte = All-get_or IsByte array (pos / 8) 0 a.wide (omega arith)

set_bit_keeps-IsOn :
    (bytes k : ℕ) (array : List ℕ) (pos q : ℕ)
    → pos / 8 < bytes
    → IsArray bytes k array
    → IsOn array q
    → IsOn (set_bit array pos) q
unfolding set_bit bit_is_clear IsOn
set_bit_keeps-IsOn bytes k array pos q h a s = elim (ℕ_discrete (pos / 8) (q / 8)) [
  | yes e ↦
      rw
        (
          ← e,
          get_or-set_self array (pos / 8) _ 0 (omega (arith, a.size)),
          mod-eq_of_lt (set_bit_byte _ (pos % 8) byte (omega arith)),
        )
        (set_bit_keeps _ (q % 8) (pos % 8) byte (omega arith) (omega arith) (rw e s))
  | no n ↦ rw (get_or-set_ne array (pos / 8) (q / 8) _ 0 n) s
]
  where
    byte : get_or array (pos / 8) 0 < 256
    byte = All-get_or IsByte array (pos / 8) 0 a.wide (omega arith)

-- The probes of a key are all set.
pub Covers : ℕ → ℕ → ℕ → ℕ → List ℕ → Type 0
Covers zero h delta bits array = Unit
Covers (suc j) h delta bits array =
    IsOn array (h % bits) × Covers j ((h + delta) % 2 ^ 32) delta bits array

pub test_probes-Covers :
    (j h delta bits : ℕ) (array : List ℕ)
    → Covers j h delta bits array
    → test_probes j h delta bits array ≡ true
unfolding test_probes Covers IsOn
test_probes-Covers zero h delta bits array c = refl
test_probes-Covers (suc j) h delta bits array c =
    ground (arith, test_probes-Covers j ((h + delta) % 2 ^ 32) delta bits array c.1)

module _ (bytes k : ℕ) (positive : 0 < bytes) where
  slot : (h : ℕ) → h % (bytes * 8) / 8 < bytes
  slot h = omega (arith, mod-lt h {m = bytes * 8} (omega arith))

  pub set_probes-IsArray :
      (j h delta : ℕ) (array : List ℕ)
      → IsArray bytes k array
      → IsArray bytes k (set_probes j h delta (bytes * 8) array)
  unfolding set_probes
  set_probes-IsArray zero h delta array a = a
  set_probes-IsArray (suc j) h delta array a =
      set_probes-IsArray j ((h + delta) % 2 ^ 32) delta _
        (set_bit-IsArray bytes k array _ (slot h) a)

  set_probes-IsOn :
      (j h delta : ℕ) (array : List ℕ) (q : ℕ)
      → IsArray bytes k array
      → IsOn array q
      → IsOn (set_probes j h delta (bytes * 8) array) q
  unfolding set_probes
  set_probes-IsOn zero h delta array q a s = s
  set_probes-IsOn (suc j) h delta array q a s =
      set_probes-IsOn j ((h + delta) % 2 ^ 32) delta _ q
        (set_bit-IsArray bytes k array _ (slot h) a)
        (set_bit_keeps-IsOn bytes k array _ q (slot h) a s)

  -- Writing another key's probes keeps a key covered.
  pub set_probes_keeps-Covers :
      (i g gamma j h delta : ℕ) (array : List ℕ)
      → IsArray bytes k array
      → Covers i g gamma (bytes * 8) array
      → Covers i g gamma (bytes * 8) (set_probes j h delta (bytes * 8) array)
  unfolding Covers
  set_probes_keeps-Covers zero g gamma j h delta array a c = tt
  set_probes_keeps-Covers (suc i) g gamma j h delta array a c = (
    set_probes-IsOn j h delta array _ a c.0,
    set_probes_keeps-Covers i _ gamma j h delta array a c.1,
  )

  -- A key is covered once its probes are written.
  pub set_probes-Covers :
      (j h delta : ℕ) (array : List ℕ)
      → IsArray bytes k array
      → Covers j h delta (bytes * 8) (set_probes j h delta (bytes * 8) array)
  unfolding Covers set_probes
  set_probes-Covers zero h delta array a = tt
  set_probes-Covers (suc j) h delta array a = (
    set_probes-IsOn j ((h + delta) % 2 ^ 32) delta _ _ (set_bit-IsArray bytes k array _ (slot h) a)
        (set_bit-IsOn bytes k array _ (slot h) a),
    set_probes-Covers j ((h + delta) % 2 ^ 32) delta _ (set_bit-IsArray bytes k array _ (slot h) a),
  )
