-- ===== src/DbFormat/Keys.antt =====
-- db/dbformat.cc: what is read back of an internal key and of a lookup key.
use ebf_leveldb_sep_kv.Base.{
  ℕ, ◌+◌, ◌-◌, ◌*◌, ◌/◌, ◌%◌, ◌^◌, ◌≤◌, ◌<◌, bit_and, List, [], ◌++◌, some, false, ltb, length,
  drop, ◌≡◌, refl, sym, ap, ◌∙◌, arith, length-append,
}
use mathlib.Core.List.{append-nil}
use native.Mathlib.Nat.{mod-eq_of_lt}
use ebf_leveldb_sep_kv.Base.Bits.{bit_or_above, bit_or_comm, bit_and_255}
use ebf_leveldb_sep_kv.Coding.{
  encode_fixed64, put_fixed64, decode_fixed64, encode_varint32, get_length_prefixed_slice,
  put_length_prefixed_slice, put_varint32,
}
use ebf_leveldb_sep_kv.Coding.RoundTrip.{
  decode_fixed64-encode_fixed64, get-put_length_prefixed_slice,
}
use ebf_leveldb_sep_kv.FilterBlock.Pieces.{drop-append, take-append}
use ebf_leveldb_sep_kv.DbFormat.{
  ValueType, ValueType.type_deletion, ValueType.type_value, value_type_code, max_sequence_number,
  ParsedInternalKey, pack_sequence_and_type, append_internal_key, extract_user_key, packed_number,
  value_type_of, parse_internal_key, lookup_key, memtable_key, internal_key, user_key_of,
  value_type_for_seek,
}

-- The packed number of a sequence number and a type in their ranges.
pub pack-value :
    (seq : ℕ) (t : ValueType)
    → seq ≤ max_sequence_number
    → pack_sequence_and_type seq t ≡ seq * 256 + value_type_code t
unfolding pack_sequence_and_type value_type_code
pack-value seq type_deletion h =
    rw (mod-eq_of_lt {n = seq * 2 ^ 8} {m = 2 ^ 64} (omega arith))
      (bit_or_comm (seq * 2 ^ 8) 0 ∙ bit_or_above 8 0 seq (omega arith) ∙ (omega arith))
pack-value seq type_value h =
    rw (mod-eq_of_lt {n = seq * 2 ^ 8} {m = 2 ^ 64} (omega arith))
      (bit_or_comm (seq * 2 ^ 8) 1 ∙ bit_or_above 8 1 seq (omega arith) ∙ (omega arith))

pub length-encode_fixed64 : (v : ℕ) → length (encode_fixed64 v) ≡ 8
unfolding encode_fixed64
length-encode_fixed64 v = refl

-- A key of a user key and a number.
pub split_size : (user : List ℕ) (v : ℕ) → length (user ++ encode_fixed64 v) - 8 ≡ length user
split_size user v = omega (arith, length-append user (encode_fixed64 v), length-encode_fixed64 v)

pub extract-encoded : (user : List ℕ) (v : ℕ) → extract_user_key (user ++ encode_fixed64 v) ≡ user
unfolding extract_user_key
extract-encoded user v = rw (split_size user v) (take-append user (encode_fixed64 v))

pub packed-encoded :
    (user : List ℕ) (v : ℕ) → v < 2 ^ 64 → packed_number (user ++ encode_fixed64 v) ≡ v
unfolding packed_number
packed-encoded user v h =
    rw (split_size user v, drop-append user (encode_fixed64 v))
      (ap decode_fixed64 (sym (append-nil (encode_fixed64 v)))
        ∙ decode_fixed64-encode_fixed64 v [] h)

code_small : (t : ValueType) → value_type_code t < 256
unfolding value_type_code
code_small type_deletion = omega arith
code_small type_value = omega arith

code_back : (t : ValueType) → value_type_of (value_type_code t) ≡ some t
unfolding value_type_code value_type_of
code_back type_deletion = refl
code_back type_value = refl

pub pack_fits :
    (seq : ℕ) (t : ValueType) → seq ≤ max_sequence_number → pack_sequence_and_type seq t < 2 ^ 64
pack_fits seq t h = omega (arith, pack-value seq t h, code_small t)

-- ParseInternalKey reads what AppendInternalKey wrote of a key whose sequence number is at most
-- kMaxSequenceNumber.
pub parse-append_internal_key :
    (key : ParsedInternalKey)
    → key.sequence ≤ max_sequence_number
    → parse_internal_key (append_internal_key [] key) ≡ some key
unfolding parse_internal_key append_internal_key put_fixed64
parse-append_internal_key key h =
    let v = pack_sequence_and_type key.sequence key.type in
    let value = pack-value key.sequence key.type h in
    let small = code_small key.type in
    let low : bit_and v 255 ≡ value_type_code key.type =
      omega (arith, bit_and_255 v, value, small) in
    let high : v / 2 ^ 8 ≡ key.sequence = omega (arith, value, small) in
    let long : ltb (length (key.user_key ++ encode_fixed64 v)) 8 ≡ false =
      ground (arith, length-append key.user_key (encode_fixed64 v), length-encode_fixed64 v) in
    rw
      (
        long,
        extract-encoded key.user_key v,
        packed-encoded key.user_key v (pack_fits key.sequence key.type h),
        low,
        high,
        code_back key.type,
      )
      refl

-- For a user key that leaves room for its length in 32 bits: the internal key of a LookupKey is the
-- user key with the packed number of the snapshot, its user key is the user key, and the memtable
-- key reads back as the internal key with its length before it.
pub views-lookup_key :
    (user : List ℕ) (s : ℕ)
    → length user + 8 < 2 ^ 32
    → (internal_key (lookup_key user s)
        ≡ append_internal_key []
            (record { user_key = user; sequence = s; type = value_type_for_seek }))
      × (user_key_of (lookup_key user s) ≡ user)
      × (get_length_prefixed_slice (memtable_key (lookup_key user s))
          ≡ some (internal_key (lookup_key user s), []))
unfolding internal_key lookup_key append_internal_key put_fixed64 user_key_of memtable_key
    put_length_prefixed_slice put_varint32
views-lookup_key user s h =
    let tag = encode_fixed64 (pack_sequence_and_type s value_type_for_seek) in
    let body = user ++ tag in
    let prefix = encode_varint32 ((length user + 8) % 2 ^ 32) in
    let size : length body ≡ length user + 8 = omega (
      arith,
      length-append user tag,
      length-encode_fixed64 (pack_sequence_and_type s type_value),
    ) in
    let inner : drop (length prefix) (prefix ++ body) ≡ body = drop-append prefix body in
    let user_size : length (prefix ++ body) - length prefix - 8 ≡ length user =
      omega (arith, size, length-append prefix body) in
    let same : put_length_prefixed_slice [] body ++ [] ≡ prefix ++ body =
      append-nil (put_length_prefixed_slice [] body)
      ∙ ap (λ (n : ℕ). encode_varint32 (n % 2 ^ 32) ++ body) size in
    let back : get_length_prefixed_slice (prefix ++ body) ≡ some (body, []) =
      ap get_length_prefixed_slice (sym same)
      ∙ get-put_length_prefixed_slice body [] (omega (arith, size)) in
    (
      inner,
      rw (user_size, inner) (take-append user tag),
      back ∙ ap (λ (t : List ℕ). some (t, [])) (sym inner),
    )
