-- ===== src/Block/Entries.antt =====
-- table/block.cc: DecodeEntry reads an entry as the builder of table/block_builder.cc wrote it.
use ebf_leveldb_sep_kv.Base.{
  ℕ, ◌+◌, ◌^◌, ◌≤◌, ◌<◌, bit_or, List, [], ◌∷◌, ◌++◌, some, ltb, length, ◌≡◌, refl, arith,
  length-append, Bool-cases, inl, inr,
}
use ebf_leveldb_sep_kv.Base.Bits.{bit_and_128, le-bit_or, le-bit_or_right}
use ebf_leveldb_sep_kv.Coding.{IsU32, encode_varint32, get_varint32, get_varint32_ptr}
use ebf_leveldb_sep_kv.Coding.RoundTrip.{get_varint32-encode_varint32}
use ebf_leveldb_sep_kv.Block.{checked_entry, decode_varints, decode_entry}

one_byte : (a : ℕ) (p : List ℕ) → a < 128 → get_varint32 (a ∷ p) ≡ some (a, p)
unfolding get_varint32 get_varint32_ptr
one_byte a p h = ground (arith, bit_and_128 a)

-- The path for three small values reads what the other one reads.
pub decode_entry-varints :
    (input : List ℕ) → 3 ≤ length input → decode_entry input ≡ decode_varints input
unfolding decode_entry decode_varints
decode_entry-varints [] h = elim h [ ]
decode_entry-varints (a ∷ []) h = absurd (omega arith)
decode_entry-varints (a ∷ b ∷ []) h = absurd (omega arith)
decode_entry-varints (a ∷ b ∷ c ∷ p) h = elim (Bool-cases (ltb (bit_or (bit_or a b) c) 128)) [
  | inl small ↦
      let ab = le-bit_or (bit_or a b) c in
      let above_c = le-bit_or_right (bit_or a b) c in
      let above_a = le-bit_or a b in
      let above_b = le-bit_or_right a b in
      rw
        (
          small,
          one_byte a (b ∷ c ∷ p) (ground arith),
          one_byte b (c ∷ p) (ground arith),
          one_byte c p (ground arith),
        )
        refl
  | inr large ↦ rw large refl
]

pub length-encode_varint32 : (v : ℕ) → 1 ≤ length (encode_varint32 v)
unfolding encode_varint32
length-encode_varint32 v = ground arith

-- An entry: the three lengths, then the bytes of the key and the value with all that follows.
abbrev pub entry : ℕ → ℕ → ℕ → List ℕ → List ℕ
entry shared non_shared value_length body =
    encode_varint32 shared ++ (encode_varint32 non_shared ++ (encode_varint32 value_length ++ body))

pub length-entry : (s n v : ℕ) (body : List ℕ) → 3 + length body ≤ length (entry s n v body)
length-entry s n v body = omega (
  arith,
  length-append (encode_varint32 s) (encode_varint32 n ++ (encode_varint32 v ++ body)),
  length-append (encode_varint32 n) (encode_varint32 v ++ body),
  length-append (encode_varint32 v) body,
  length-encode_varint32 s,
  length-encode_varint32 n,
  length-encode_varint32 v,
)

pub decode_entry-entry :
    (s n v : ℕ) (body : List ℕ)
    → IsU32 s
    → n + v ≤ length body
    → length body < 2 ^ 32
    → decode_entry (entry s n v body) ≡ some (s, n, v, body)
unfolding decode_varints checked_entry
decode_entry-entry s n v body hs fits small =
    rw
      (
        decode_entry-varints (entry s n v body) (omega (arith, length-entry s n v body)),
        get_varint32-encode_varint32 s (encode_varint32 n ++ (encode_varint32 v ++ body)) hs,
        get_varint32-encode_varint32 n (encode_varint32 v ++ body) (omega arith),
        get_varint32-encode_varint32 v body (omega arith),
      )
      (ground arith)
