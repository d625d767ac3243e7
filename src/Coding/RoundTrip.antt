-- ===== src/Coding/RoundTrip.antt =====
-- What the readers of util/coding.cc make of the bytes that its writers append.
use ebf_leveldb_sep_kv.Base.{
  ℕ, ◌+◌, ◌*◌, ◌/◌, ◌%◌, ◌^◌, List, [], ◌∷◌, ◌++◌, some, ltb, length, take, drop, arith, ◌≡◌, refl,
  ap, length-append, Bool-cases, inl, inr, ◌≤◌,
}
use ebf_leveldb_sep_kv.Base.Bits.{bit_and_128, bit_and_255, bit_or_above, bit_or_comm}
use ebf_leveldb_sep_kv.Coding.{
  IsU32, IsU64, encode_fixed32, decode_fixed32, encode_fixed64, decode_fixed64, encode_varint32,
  encode_varint64, put_length_prefixed_slice, put_varint32, get_varint_loop,
  get_varint32_ptr_fallback, get_varint32_ptr, get_varint32, get_varint64_ptr, get_varint64,
  get_length_prefixed_slice,
}
use ebf_leveldb_sep_kv.Coding.Varint.{
  length-groups, groups, varint32-groups, varint64-groups, get_varint_loop-groups,
}
use mathlib.Core.List.{append_assoc}
use native.Mathlib.Nat.{mod-eq_of_lt}

-- A uint32 written in four bytes reads back, whatever bytes follow.
pub decode_fixed32-encode_fixed32 :
    (v : ℕ) (rest : List ℕ) → IsU32 v → decode_fixed32 (encode_fixed32 v ++ rest) ≡ v
unfolding decode_fixed32 encode_fixed32
decode_fixed32-encode_fixed32 v rest h = ground (
  arith,
  bit_and_255 v,
  bit_and_255 (v / 2 ^ 8),
  bit_and_255 (v / 2 ^ 16),
  bit_and_255 (v / 2 ^ 24),
  bit_or_above 8 (v % 256) (v / 2 ^ 8 % 256),
  bit_or_above 16 (v % 256 + v / 2 ^ 8 % 256 * 2 ^ 8) (v / 2 ^ 16 % 256),
  bit_or_above 24 (v % 256 + v / 2 ^ 8 % 256 * 2 ^ 8 + v / 2 ^ 16 % 256 * 2 ^ 16)
      (v / 2 ^ 24 % 256),
)

low_half : (v : ℕ) (rest : List ℕ) → decode_fixed32 (encode_fixed64 v ++ rest) ≡ v % 2 ^ 32
unfolding decode_fixed32 encode_fixed64
low_half v rest = ground (
  arith,
  bit_and_255 v,
  bit_and_255 (v / 2 ^ 8),
  bit_and_255 (v / 2 ^ 16),
  bit_and_255 (v / 2 ^ 24),
  bit_or_above 8 (v % 256) (v / 2 ^ 8 % 256),
  bit_or_above 16 (v % 256 + v / 2 ^ 8 % 256 * 2 ^ 8) (v / 2 ^ 16 % 256),
  bit_or_above 24 (v % 256 + v / 2 ^ 8 % 256 * 2 ^ 8 + v / 2 ^ 16 % 256 * 2 ^ 16)
      (v / 2 ^ 24 % 256),
)

high_half :
    (v : ℕ) (rest : List ℕ)
    → IsU64 v
    → decode_fixed32 (drop 4 (encode_fixed64 v ++ rest)) ≡ v / 2 ^ 32
unfolding decode_fixed32 encode_fixed64
high_half v rest h = ground (
  arith,
  bit_and_255 (v / 2 ^ 32),
  bit_and_255 (v / 2 ^ 40),
  bit_and_255 (v / 2 ^ 48),
  bit_and_255 (v / 2 ^ 56),
  bit_or_above 8 (v / 2 ^ 32 % 256) (v / 2 ^ 40 % 256),
  bit_or_above 16 (v / 2 ^ 32 % 256 + v / 2 ^ 40 % 256 * 2 ^ 8) (v / 2 ^ 48 % 256),
  bit_or_above 24 (v / 2 ^ 32 % 256 + v / 2 ^ 40 % 256 * 2 ^ 8 + v / 2 ^ 48 % 256 * 2 ^ 16)
      (v / 2 ^ 56 % 256),
)

-- A uint64 written in eight bytes reads back, whatever bytes follow.
pub decode_fixed64-encode_fixed64 :
    (v : ℕ) (rest : List ℕ) → IsU64 v → decode_fixed64 (encode_fixed64 v ++ rest) ≡ v
unfolding decode_fixed64 encode_fixed64
decode_fixed64-encode_fixed64 v rest h =
    let low : decode_fixed32 (encode_fixed64 v ++ rest) ≡ v % 2 ^ 32 = low_half v rest in
    let high : decode_fixed32 (drop 4 (encode_fixed64 v ++ rest)) ≡ v / 2 ^ 32 =
      high_half v rest h in
    let same : v / 2 ^ 32 * 2 ^ 32 % 2 ^ 64 ≡ v / 2 ^ 32 * 2 ^ 32 = omega arith in
    rw (low, high, same)
      (ground (
        arith,
        bit_or_comm (v / 2 ^ 32 * 2 ^ 32) (v % 2 ^ 32),
        bit_or_above 32 (v % 2 ^ 32) (v / 2 ^ 32),
      ))

-- The one-byte path of the reader agrees with its loop on a written varint.
fast_path :
    (v : ℕ) (rest : List ℕ)
    → get_varint32 (groups 4 v ++ rest) ≡ get_varint_loop 28 32 (groups 4 v ++ rest) 0 0
unfolding get_varint32 get_varint32_ptr get_varint32_ptr_fallback groups get_varint_loop
fast_path v rest = elim (Bool-cases (ltb v 128)) [
  | inl small ↦
      rw (small, groups)
        (ground (arith, bit_and_128 v, bit_or_above 0 0 v, mod-eq_of_lt {n = v * 1} {m = 2 ^ 32}))
  | inr large ↦ rw (large, groups) (ground (arith, bit_and_128 (v % 128 + 128)))
]

-- A uint32 written as a varint reads back, and the reader stops at its end.
pub get_varint32-encode_varint32 :
    (v : ℕ) (rest : List ℕ) → IsU32 v → get_varint32 (encode_varint32 v ++ rest) ≡ some (v, rest)
get_varint32-encode_varint32 v rest h =
    rw (varint32-groups v h, fast_path) (ground (arith, get_varint_loop-groups 4 v 0 0 28 32 rest))

-- A uint64 written as a varint reads back, and the reader stops at its end.
pub get_varint64-encode_varint64 :
    (v : ℕ) (rest : List ℕ) → IsU64 v → get_varint64 (encode_varint64 v ++ rest) ≡ some (v, rest)
unfolding get_varint64 get_varint64_ptr
get_varint64-encode_varint64 v rest h =
    rw (varint64-groups v h) (ground (arith, get_varint_loop-groups 9 v 0 0 63 64 rest))

take-append : (xs ys : List ℕ) → take (length xs) (xs ++ ys) ≡ xs
take-append [] ys = refl
take-append (x ∷ xs) ys = ap (◌∷◌ x) (take-append xs ys)

drop-append : (xs ys : List ℕ) → drop (length xs) (xs ++ ys) ≡ ys
drop-append [] ys = refl
drop-append (x ∷ xs) ys = drop-append xs ys

-- A slice below 4 GB written with its length reads back, and the rest of the input is left.
pub get-put_length_prefixed_slice :
    (s rest : List ℕ)
    → IsU32 (length s)
    → get_length_prefixed_slice (put_length_prefixed_slice [] s ++ rest) ≡ some (s, rest)
unfolding get_length_prefixed_slice put_length_prefixed_slice put_varint32
get-put_length_prefixed_slice s rest h =
    rw (append_assoc, get_varint32-encode_varint32 (length s % 2 ^ 32) (s ++ rest) (omega arith))
      (let kept : length s % 2 ^ 32 ≡ length s = mod-eq_of_lt h in
        rw (kept, take-append, drop-append) (ground (arith, length-append s rest)))

pub length-encode_varint64 : (v : ℕ) → IsU64 v → length (encode_varint64 v) ≤ 10
length-encode_varint64 v h = rw (varint64-groups v h) (length-groups 9 v)
