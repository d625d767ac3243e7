-- ===== src/DbFormat.antt =====
-- db/dbformat.cc and db/dbformat.h: internal keys, a user key followed by eight bytes of sequence
-- number and type, and their order. Slices are lists of bytes.
pub mod Keys
pub mod Order
pub mod Transitive
use ebf_leveldb_sep_kv.Base.{
  ℕ, zero, suc, ◌+◌, ◌-◌, ◌*◌, ◌/◌, ◌%◌, ◌^◌, bit_and, bit_or, List, [], ◌∷◌, ◌++◌, Option, none,
  some, Bool, true, false, ltb, leb, ◌==◌, ◌&&◌, if◌then◌else◌, length, take, drop, map,
}
use Prim.Native.Nat.{compare, Ordering}
use ebf_leveldb_sep_kv.Coding.{encode_fixed64, put_fixed64, decode_fixed64, encode_varint32, ◌>>=◌}
use ebf_leveldb_sep_kv.Comparator.{Comparator}
use ebf_leveldb_sep_kv.Bloom.{ChildBloomFilterPolicy}
use ebf_leveldb_sep_kv.Bloom.Multi.{create_filters, key_may_match_filters}

pub data ValueType : Type 0 where
  type_deletion type_value : ValueType

-- The enumeration's values.
unfoldable pub value_type_code : ValueType → ℕ
value_type_code type_deletion = 0
value_type_code type_value = 1

abbrev pub value_type_for_seek : ValueType
value_type_for_seek = type_value

abbrev pub max_sequence_number : ℕ
max_sequence_number = 72057594037927935

pub record ParsedInternalKey : Type 0 where
  pub user_key : List ℕ
  pub sequence : ℕ
  pub type : ValueType

unfoldable pub pack_sequence_and_type : ℕ → ValueType → ℕ
pack_sequence_and_type seq t = bit_or (seq * 2 ^ 8 % 2 ^ 64) (value_type_code t)

unfoldable pub append_internal_key : List ℕ → ParsedInternalKey → List ℕ
append_internal_key result key =
    put_fixed64 (result ++ key.user_key) (pack_sequence_and_type key.sequence key.type)

unfoldable pub internal_key_encoding_length : ParsedInternalKey → ℕ
internal_key_encoding_length key = length key.user_key + 8

-- ExtractUserKey of a key of eight bytes at least.
unfoldable pub extract_user_key : List ℕ → List ℕ
extract_user_key internal_key = take (length internal_key - 8) internal_key

-- The number in the last eight bytes.
unfoldable pub packed_number : List ℕ → ℕ
packed_number internal_key = decode_fixed64 (drop (length internal_key - 8) internal_key)

-- A ValueType of a byte; ParseInternalKey refuses the bytes above kTypeValue.
unfoldable pub value_type_of : ℕ → Option ValueType
value_type_of c = if c == 0 then some type_deletion else if c == 1 then some type_value else none

-- ExtractValueType, `none` for a byte that is no type.
unfoldable pub extract_value_type : List ℕ → Option ValueType
extract_value_type internal_key = value_type_of (bit_and (packed_number internal_key) 255)

unfoldable pub parse_internal_key : List ℕ → Option ParsedInternalKey
parse_internal_key internal_key =
    let num = packed_number internal_key in
    let parsed = value_type_of (bit_and num 255) >>= (λ t.
      some
        (record { user_key = extract_user_key internal_key; sequence = num / 2 ^ 8; type = t })) in
    if ltb (length internal_key) 8 then none else parsed

-- InternalKeyComparator::Compare.
unfoldable pub compare_internal : Comparator → List ℕ → List ℕ → Ordering
compare_internal user_comparator akey bkey =
    let anum = packed_number akey in
    let bnum = packed_number bkey in
    elim (user_comparator.compare_keys (extract_user_key akey) (extract_user_key bkey)) [
      | Ordering.lt ↦ Ordering.lt
      | Ordering.gt ↦ Ordering.gt
      | Ordering.eq ↦
          if ltb bnum anum then Ordering.lt else if ltb anum bnum then Ordering.gt else Ordering.eq
    ]

abbrev pub is_lt : Ordering → Bool
is_lt Ordering.lt = true
is_lt Ordering.eq = false
is_lt Ordering.gt = false

-- The two methods of InternalKeyComparator that shorten a key take a shorter user key only where it
-- is larger, and tack on the earliest number.
unfoldable pub shortened : Comparator → List ℕ → List ℕ → List ℕ → List ℕ
shortened user_comparator key user_key tmp =
    if ltb (length tmp) (length user_key) && is_lt (user_comparator.compare_keys user_key tmp)
    then put_fixed64 tmp (pack_sequence_and_type max_sequence_number value_type_for_seek)
    else key

unfoldable pub internal_shortest_separator : Comparator → List ℕ → List ℕ → List ℕ
internal_shortest_separator user_comparator start limit =
    let user_start = extract_user_key start in
    let user_limit = extract_user_key limit in
    shortened user_comparator start user_start
      (user_comparator.find_shortest_separator user_start user_limit)

unfoldable pub internal_short_successor : Comparator → List ℕ → List ℕ
internal_short_successor user_comparator key =
    let user_key = extract_user_key key in
    shortened user_comparator key user_key
      (user_comparator.find_short_successor_begin_with user_key 8)

-- InternalFilterPolicy's CreateFilter over the strings and KeyMayMatchFilters.
unfoldable pub internal_create_filters :
    List ChildBloomFilterPolicy → List (List ℕ) → List (List ℕ) → Option (List (List ℕ))
internal_create_filters user_policy keys dsts =
    create_filters user_policy (map extract_user_key keys) dsts

unfoldable pub internal_key_may_match_filters :
    List ChildBloomFilterPolicy → List ℕ → List (List ℕ) → Option Bool
internal_key_may_match_filters user_policy key filters =
    key_may_match_filters user_policy (extract_user_key key) filters

-- LookupKey: the bytes from start_ to end_, and the lengths of the three views from their ends.
pub record LookupKey : Type 0 where
  pub bytes : List ℕ
  pub kstart : ℕ

unfoldable pub lookup_key : List ℕ → ℕ → LookupKey
lookup_key user_key s =
    let prefix = encode_varint32 ((length user_key + 8) % 2 ^ 32) in
    record {
      bytes = prefix ++ (user_key ++ encode_fixed64 (pack_sequence_and_type s value_type_for_seek));
      kstart = length prefix;
    }

unfoldable pub memtable_key : LookupKey → List ℕ
memtable_key k = k.bytes

unfoldable pub internal_key : LookupKey → List ℕ
internal_key k = drop k.kstart k.bytes

unfoldable pub user_key_of : LookupKey → List ℕ
user_key_of k = take (length k.bytes - k.kstart - 8) (drop k.kstart k.bytes)
