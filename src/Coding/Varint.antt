-- ===== src/Coding/Varint.antt =====
-- The varints of util/coding.cc as groups of seven bits, lowest first, and the loop that reads
-- them back.
use ebf_leveldb_sep_kv.Base.{
  ℕ, zero, suc, ◌+◌, ◌*◌, ◌/◌, ◌%◌, ◌^◌, ◌≤◌, ◌<◌, bit_and, List, [], ◌∷◌, ◌++◌, some, ltb,
  if◌then◌else◌, lt_wf, arith, ◌≡◌, ap, length,
}
use ebf_leveldb_sep_kv.Base.Bits.{bit_and_127, bit_and_128, bit_or_128, bit_or_above}
use ebf_leveldb_sep_kv.Coding.{
  IsU32, IsU64, encode_varint32, encode_varint64_loop, encode_varint64, get_varint_loop,
}
use mathlib.Core.WellFounded.{Acc}
use native.Mathlib.Nat.{div-add-mod, mod-eq_of_lt}
use native.Mathlib.Numerals.{towards_suc}

-- The groups of `v`, for `v` below 128 ^ (k + 1).
unfoldable pub groups : ℕ → ℕ → List ℕ
groups zero v = v ∷ []
groups (suc k) v =
    let rest = groups k (v / 128) in if ltb v 128 then v ∷ [] else (v % 128 + 128) ∷ rest

pub loop-groups :
    (k v : ℕ) (w : Acc ◌<◌ v) → v < 128 ^ suc k → encode_varint64_loop v w ≡ groups k v
unfolding encode_varint64_loop groups
loop-groups zero v (Acc.intro _ smaller) h = ground arith
loop-groups (suc k) v (Acc.intro _ smaller) h = grind (
  arith,
  bit_and_127 v,
  bit_or_128 (bit_and v 127),
  λ (w : Acc ◌<◌ (v / 2 ^ 7)). loop-groups k (v / 2 ^ 7) w (omega arith),
)

pub varint64-groups : (v : ℕ) → IsU64 v → encode_varint64 v ≡ groups 9 v
unfolding encode_varint64
varint64-groups v h = loop-groups 9 v (lt_wf.apply v) (omega arith)

pub varint32-groups : (v : ℕ) → IsU32 v → encode_varint32 v ≡ groups 4 v
unfolding encode_varint32 groups
varint32-groups v h =
    ground (
      arith,
      bit_or_128 v,
      bit_or_128 (v / 2 ^ 7),
      bit_or_128 (v / 2 ^ 14),
      bit_or_128 (v / 2 ^ 21),
    )

-- One round of the loop, on the last byte and on a byte with more to come.
last_round :
    (last width b shift acc : ℕ) (rest : List ℕ)
    → b < 128
    → acc < 2 ^ shift
    → shift ≤ last
    → acc + b * 2 ^ shift < 2 ^ width
    → get_varint_loop last width (b ∷ rest) shift acc ≡ some (acc + b * 2 ^ shift, rest)
unfolding get_varint_loop
last_round last width b shift acc rest hb ha hs fits =
    let kept : b * 2 ^ shift % 2 ^ width ≡ b * 2 ^ shift = mod-eq_of_lt (omega arith) in
    ground (arith, kept, bit_and_128 b, bit_or_above shift acc b ha)

more_round :
    (last width g shift acc : ℕ) (rest : List ℕ)
    → g < 128
    → acc < 2 ^ shift
    → shift ≤ last
    → acc + g * 2 ^ shift < 2 ^ width
    → get_varint_loop last width ((g + 128) ∷ rest) shift acc
      ≡ get_varint_loop last width rest (shift + 7) (acc + g * 2 ^ shift)
unfolding get_varint_loop
more_round last width g shift acc rest hg ha hs fits =
    let low : bit_and (g + 128) 127 ≡ g = omega (arith, bit_and_127 (g + 128)) in
    let kept : bit_and (g + 128) 127 * 2 ^ shift % 2 ^ width ≡ g * 2 ^ shift =
      rw low (mod-eq_of_lt (omega arith)) in
    ground (arith, kept, bit_and_128 (g + 128), bit_or_above shift acc g ha)

seven_more : (s : ℕ) → 2 ^ (s + 7) ≡ 128 * 2 ^ s
seven_more s = simp towards_suc (omega arith)

cut_group : (v s : ℕ) → v * 2 ^ s ≡ v % 128 * 2 ^ s + v / 128 * 2 ^ (s + 7)
cut_group v s = omega (
  arith,
  ap (λ (t : ℕ). t * 2 ^ s) (div-add-mod v 128),
  ap (λ (t : ℕ). v / 128 * t) (seven_more s),
)

below_next : (v s acc : ℕ) → acc < 2 ^ s → acc + v % 128 * 2 ^ s < 2 ^ (s + 7)
below_next v s acc h = grind (arith, seven_more s)

-- With `k` more rounds to go the loop reads the groups back.
pub get_varint_loop-groups :
    (k v shift acc last width : ℕ) (rest : List ℕ)
    → v < 128 ^ suc k
    → acc < 2 ^ shift
    → shift + 7 * k ≤ last
    → acc + v * 2 ^ shift < 2 ^ width
    → get_varint_loop last width (groups k v ++ rest) shift acc ≡ some (acc + v * 2 ^ shift, rest)
unfolding groups
get_varint_loop-groups zero v shift acc last width rest hv ha hs fits =
    last_round last width v shift acc rest (omega arith) ha (omega arith) fits
get_varint_loop-groups (suc k) v shift acc last width rest hv ha hs fits = ground (
  arith,
  last_round last width v shift acc rest,
  cut_group v shift,
  below_next v shift acc,
  more_round last width (v % 128) shift acc (groups k (v / 128) ++ rest),
  get_varint_loop-groups k (v / 128) (shift + 7) (acc + v % 128 * 2 ^ shift) last width rest
      (omega arith),
)

pub length-groups : (k v : ℕ) → length (groups k v) ≤ k + 1
unfolding groups
length-groups zero v = omega arith
length-groups (suc k) v = ground (arith, length-groups k (v / 128))
