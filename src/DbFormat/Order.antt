-- ===== src/DbFormat/Order.antt =====
-- db/dbformat.cc: the order of internal keys, and the keys that InternalKeyComparator shortens.
use ebf_leveldb_sep_kv.Base.{
  ℕ, ◌+◌, ◌*◌, ◌^◌, ◌≤◌, ◌<◌, List, [], ◌++◌, Bool, true, false, ltb, ◌&&◌, if◌then◌else◌, length,
  ◌≡◌, ◌≢◌, refl, sym, ap, ◌∙◌, arith, Bool-cases, inl, inr, ◌⊎◌,
}
use Prim.Native.Nat.{compare, Ordering}
use ebf_leveldb_sep_kv.Coding.{encode_fixed64, put_fixed64}
use ebf_leveldb_sep_kv.Comparator.{Comparator}
use ebf_leveldb_sep_kv.Comparator.Laws.{IsComparator}
use ebf_leveldb_sep_kv.DbFormat.{
  ValueType, ValueType.type_deletion, ValueType.type_value, value_type_code, max_sequence_number,
  ParsedInternalKey, pack_sequence_and_type, append_internal_key, extract_user_key, packed_number,
  compare_internal, shortened, is_lt, internal_shortest_separator, internal_short_successor,
  value_type_for_seek,
}
use ebf_leveldb_sep_kv.DbFormat.Keys.{pack-value, extract-encoded, packed-encoded, pack_fits}

-- A comparison, and the next one where it finds no difference.
abbrev pub then_by : Ordering → Ordering → Ordering
then_by Ordering.lt next = Ordering.lt
then_by Ordering.eq next = next
then_by Ordering.gt next = Ordering.gt

-- The order as the comment in Compare says it: by user key, then by decreasing sequence number,
-- then by decreasing type.
abbrev pub key_order : Comparator → ParsedInternalKey → ParsedInternalKey → Ordering
key_order c a b = then_by (c.compare_keys a.user_key b.user_key) (
    then_by (compare b.sequence a.sequence)
      (compare (value_type_code b.type) (value_type_code a.type)))

packed_order :
    (sa sb : ℕ) (ta tb : ValueType)
    → (if ltb (sb * 256 + value_type_code tb) (sa * 256 + value_type_code ta)
        then Ordering.lt
        else if ltb (sa * 256 + value_type_code ta) (sb * 256 + value_type_code tb)
        then Ordering.gt
        else Ordering.eq)
      ≡ then_by (compare sb sa) (compare (value_type_code tb) (value_type_code ta))
unfolding value_type_code
packed_order sa sb type_deletion type_deletion = ground arith
packed_order sa sb type_deletion type_value = ground arith
packed_order sa sb type_value type_deletion = ground arith
packed_order sa sb type_value type_value = ground arith

-- The order of two packed numbers, the larger one first.
abbrev pub number_order : ℕ → ℕ → Ordering
number_order va vb =
    if ltb vb va then Ordering.lt else if ltb va vb then Ordering.gt else Ordering.eq

pub as_then_by :
    (r x : Ordering)
    → (elim r [ Ordering.lt ↦ Ordering.lt | Ordering.gt ↦ Ordering.gt | Ordering.eq ↦ x ])
      ≡ then_by r x
as_then_by Ordering.lt x = refl
as_then_by Ordering.eq x = refl
as_then_by Ordering.gt x = refl

compare_encoded :
    (c : Comparator) (ua ub : List ℕ) (va vb : ℕ)
    → va < 2 ^ 64
    → vb < 2 ^ 64
    → compare_internal c (ua ++ encode_fixed64 va) (ub ++ encode_fixed64 vb)
      ≡ then_by (c.compare_keys ua ub) (number_order va vb)
unfolding compare_internal
compare_encoded c ua ub va vb ha hb =
    let akey = ua ++ encode_fixed64 va in
    let bkey = ub ++ encode_fixed64 vb in
    as_then_by (c.compare_keys (extract_user_key akey) (extract_user_key bkey))
      (number_order (packed_number akey) (packed_number bkey))
    ∙ (λ i.
        then_by (c.compare_keys (extract-encoded ua va i) (extract-encoded ub vb i))
          (number_order (packed-encoded ua va ha i) (packed-encoded ub vb hb i)))

-- For sequence numbers up to kMaxSequenceNumber, Compare on the encoded keys is the order of the
-- parsed ones: by user key, then by decreasing sequence number, then by decreasing type.
pub compare_internal-append_internal_key :
    (c : Comparator) (a b : ParsedInternalKey)
    → a.sequence ≤ max_sequence_number
    → b.sequence ≤ max_sequence_number
    → compare_internal c (append_internal_key [] a) (append_internal_key [] b) ≡ key_order c a b
unfolding append_internal_key put_fixed64
compare_internal-append_internal_key c a b ha hb =
    compare_encoded c a.user_key b.user_key _ _ (pack_fits a.sequence a.type ha)
      (pack_fits b.sequence b.type hb)
    ∙ ap (then_by (c.compare_keys a.user_key b.user_key)) (
        (λ i. number_order (pack-value a.sequence a.type ha i) (pack-value b.sequence b.type hb i))
        ∙ packed_order a.sequence b.sequence a.type b.type)

-- The earliest number, which a shortened key gets.
abbrev earliest : ℕ
earliest = pack_sequence_and_type max_sequence_number value_type_for_seek

earliest_fits : earliest < 2 ^ 64
earliest_fits = pack_fits max_sequence_number value_type_for_seek (omega arith)

pub lt_of-is_lt : (r : Ordering) → is_lt r ≡ true → r ≡ Ordering.lt
lt_of-is_lt Ordering.lt h = refl
lt_of-is_lt Ordering.eq h = ground arith
lt_of-is_lt Ordering.gt h = ground arith

both_true : (a b : Bool) → (a && b) ≡ true → b ≡ true
both_true true b h = h
both_true false b h = ground arith

not_shorter : (a : Bool) (r : Ordering) → r ≡ Ordering.eq → (a && is_lt r) ≡ false
not_shorter true r e = rw e refl
not_shorter false r e = refl

Ordering-cases : (r : Ordering) → (r ≡ Ordering.lt) ⊎ ((r ≡ Ordering.eq) ⊎ (r ≡ Ordering.gt))
Ordering-cases Ordering.lt = inl refl
Ordering-cases Ordering.eq = inr (inl refl)
Ordering-cases Ordering.gt = inr (inr refl)

gt-not_lt : (x : Ordering) → then_by Ordering.gt x ≢ Ordering.lt
gt-not_lt x = ground arith

-- A key of a user key and a number, and what InternalKeyComparator makes of it.
module _ (c : Comparator) (laws : IsComparator c) (user : List ℕ) (v : ℕ) (fits : v < 2 ^ 64) where
  -- The key is as it was, or a larger one.
  shortened_after :
      (tmp : List ℕ)
      → (shortened c (user ++ encode_fixed64 v) user tmp ≡ user ++ encode_fixed64 v)
        ⊎ (compare_internal c
              (user ++ encode_fixed64 v)
              (shortened c (user ++ encode_fixed64 v) user tmp)
            ≡ Ordering.lt)
  unfolding shortened put_fixed64
  shortened_after tmp =
      let test = ltb (length tmp) (length user) && is_lt (c.compare_keys user tmp) in
      elim (Bool-cases test) [
        | inl taken ↦
            let larger = lt_of-is_lt (c.compare_keys user tmp) (both_true _ _ taken) in
            inr (rw (taken, compare_encoded c user tmp v earliest fits earliest_fits, larger) refl)
        | inr kept ↦ inl (rw kept refl)
      ]

  shortened_before :
      (tmp limit : List ℕ) (w : ℕ)
      → w < 2 ^ 64
      → c.compare_keys tmp limit ≡ Ordering.lt
      → compare_internal c (user ++ encode_fixed64 v) (limit ++ encode_fixed64 w) ≡ Ordering.lt
      → compare_internal c
          (shortened c (user ++ encode_fixed64 v) user tmp)
          (limit ++ encode_fixed64 w)
        ≡ Ordering.lt
  unfolding shortened put_fixed64
  shortened_before tmp limit w wide before below =
      let test = ltb (length tmp) (length user) && is_lt (c.compare_keys user tmp) in
      elim (Bool-cases test) [
        | inl taken ↦
            rw (taken, compare_encoded c tmp limit earliest w earliest_fits wide, before) refl
        | inr kept ↦ rw kept below
      ]

  separator_before :
      (limit : List ℕ) (w : ℕ)
      → w < 2 ^ 64
      → compare_internal c (user ++ encode_fixed64 v) (limit ++ encode_fixed64 w) ≡ Ordering.lt
      → compare_internal c
          (shortened c (user ++ encode_fixed64 v) user (c.find_shortest_separator user limit))
          (limit ++ encode_fixed64 w)
        ≡ Ordering.lt
  unfolding shortened
  separator_before limit w wide below =
      let tmp = c.find_shortest_separator user limit in
      let parts = sym (compare_encoded c user limit v w fits wide) ∙ below in
      elim (Ordering-cases (c.compare_keys user limit)) [
        | inl less ↦ shortened_before tmp limit w wide (laws.before_limit user limit less) below
        | inr (inl equal) ↦
            let kept =
              not_shorter (ltb (length tmp) (length user)) (c.compare_keys user tmp)
                (laws.of_equal user limit equal) in
            rw kept below
        | inr (inr more) ↦ absurd (
            gt-not_lt (number_order v w)
              (ap (λ (r : Ordering). then_by r (number_order v w)) (sym more) ∙ parts))
      ]

-- For a comparator that keeps its promises and internal keys with sequence numbers up to
-- kMaxSequenceNumber, of which the first is before the second: the separator is the first key or it
-- is strictly behind it, as the source asserts where it changes the key, and it is before the second.
pub internal_shortest_separator-between :
    (c : Comparator) (a b : ParsedInternalKey)
    → IsComparator c
    → a.sequence ≤ max_sequence_number
    → b.sequence ≤ max_sequence_number
    → compare_internal c (append_internal_key [] a) (append_internal_key [] b) ≡ Ordering.lt
    → (let separator =
          internal_shortest_separator c (append_internal_key [] a) (append_internal_key [] b) in
        ((separator ≡ append_internal_key [] a)
          ⊎ (compare_internal c (append_internal_key [] a) separator ≡ Ordering.lt))
        × (compare_internal c separator (append_internal_key [] b) ≡ Ordering.lt))
unfolding append_internal_key put_fixed64 internal_shortest_separator
internal_shortest_separator-between c a b laws ha hb below =
    let va = pack_sequence_and_type a.sequence a.type in
    let vb = pack_sequence_and_type b.sequence b.type in
    let fits = pack_fits a.sequence a.type ha in
    rw (extract-encoded a.user_key va, extract-encoded b.user_key vb)
      (
        shortened_after c laws a.user_key va fits (c.find_shortest_separator a.user_key b.user_key),
        separator_before c laws a.user_key va fits b.user_key vb (pack_fits b.sequence b.type hb)
            below,
      )

-- The successor that a table's last index entry takes is its key or strictly behind it.
pub internal_short_successor-after :
    (c : Comparator) (a : ParsedInternalKey)
    → IsComparator c
    → a.sequence ≤ max_sequence_number
    → (internal_short_successor c (append_internal_key [] a) ≡ append_internal_key [] a)
      ⊎ (compare_internal c
            (append_internal_key [] a)
            (internal_short_successor c (append_internal_key [] a))
          ≡ Ordering.lt)
unfolding append_internal_key put_fixed64 internal_short_successor
internal_short_successor-after c a laws ha =
    let va = pack_sequence_and_type a.sequence a.type in
    rw (extract-encoded a.user_key va) (
      shortened_after c laws a.user_key va (pack_fits a.sequence a.type ha)
        (c.find_short_successor_begin_with a.user_key 8))
