-- ===== src/VersionSet/Overlap.antt =====
-- db/version_set.cc: SomeFileOverlapsRange's binary search against its scan of all files.
use ebf_leveldb_sep_kv.Base.{
  ℕ, ◌≤◌, ◌<◌, ◌^◌, List, [], ◌∷◌, Option, none, some, Bool, true, false, ◌||◌, not, length,
  get_elem?, All, All-map, ◌≡◌, ◌≢◌, refl, sym, ap, ◌∙◌, arith, Bool-cases, inl, inr,
}
use Prim.Native.Nat.{compare, Ordering}
use ebf_leveldb_sep_kv.Comparator.{slice_compare, bytewise_comparator}
use ebf_leveldb_sep_kv.Coding.{put_fixed64}
use ebf_leveldb_sep_kv.VersionEdit.{FileMetaData}
use ebf_leveldb_sep_kv.DbFormat.{
  ValueType, value_type_code, ParsedInternalKey, append_internal_key, compare_internal,
  extract_user_key, is_lt, max_sequence_number, value_type_for_seek, pack_sequence_and_type,
}
use ebf_leveldb_sep_kv.DbFormat.Keys.{extract-encoded}
use ebf_leveldb_sep_kv.DbFormat.Order.{then_by, compare_internal-append_internal_key}
use ebf_leveldb_sep_kv.DbFormat.Transitive.{compare_internal_trans}
use ebf_leveldb_sep_kv.VersionSet.{
  is_gt, after_file, before_file, scan_overlaps, start_index, some_file_overlaps_range,
}
use ebf_leveldb_sep_kv.VersionSet.FindFile.{first_file, IsSorted, find_file-first_file}

-- The files of a level from 1 on: largest keys that are internal keys and ascend, and smallest
-- user keys that do not descend.
abbrev pub IsLevel : List FileMetaData → Type 0
IsLevel [] = Unit
IsLevel (f ∷ files) =
    ((key : ParsedInternalKey) × (key.sequence ≤ max_sequence_number)
      × (f.largest ≡ append_internal_key [] key))
    × All
        (λ (g : FileMetaData).
          (compare_internal bytewise_comparator f.largest g.largest ≡ Ordering.lt)
          × (slice_compare (extract_user_key f.smallest) (extract_user_key g.smallest)
              ≢ Ordering.gt))
        files
    × IsLevel files

IsLevel-IsSorted : (files : List FileMetaData) → IsLevel files → IsSorted bytewise_comparator files
IsLevel-IsSorted [] level = tt
IsLevel-IsSorted (f ∷ files) (key, above, level) =
    (All-map _ _ files (λ g p. p.0) above, IsLevel-IsSorted files level)

pub flipped : (a b : List ℕ) → is_gt (slice_compare a b) ≡ is_lt (slice_compare b a)
unfolding slice_compare
flipped [] [] = refl
flipped [] (y ∷ ys) = refl
flipped (x ∷ xs) [] = refl
flipped (x ∷ xs) (y ∷ ys) = ground (arith, flipped xs ys)

before_still :
    (a b c : List ℕ)
    → is_lt (slice_compare a b) ≡ true
    → slice_compare b c ≢ Ordering.gt
    → is_lt (slice_compare a c) ≡ true
unfolding slice_compare
before_still [] [] c h k = ground arith
before_still [] (y ∷ ys) [] h k = ground arith
before_still [] (y ∷ ys) (z ∷ zs) h k = refl
before_still (x ∷ xs) [] c h k = ground arith
before_still (x ∷ xs) (y ∷ ys) [] h k = ground arith
before_still (x ∷ xs) (y ∷ ys) (z ∷ zs) h k = ground (arith, before_still xs ys zs)

abbrev first_key : List ℕ → ParsedInternalKey
first_key user = record {
  user_key = user;
  sequence = max_sequence_number;
  type = value_type_for_seek;
}

not_before_first :
    (s : ℕ) (t : ValueType)
    → s ≤ max_sequence_number
    → is_lt (
        then_by
          (compare max_sequence_number s)
          (compare (value_type_code value_type_for_seek) (value_type_code t)))
      ≡ false
unfolding value_type_code
not_before_first s ValueType.type_deletion h = ground arith
not_before_first s ValueType.type_value h = ground arith

tied : (r x : Ordering) → is_lt x ≡ false → is_lt (then_by r x) ≡ is_lt r
tied Ordering.lt x h = refl
tied Ordering.eq x h = h
tied Ordering.gt x h = refl

extract-append : (k : ParsedInternalKey) → extract_user_key (append_internal_key [] k) ≡ k.user_key
unfolding append_internal_key put_fixed64
extract-append k = extract-encoded k.user_key (pack_sequence_and_type k.sequence k.type)

-- A file's largest key is before the first key of a user key exactly where the user key is after
-- the file.
before_first-after_file :
    (f : FileMetaData) (key : ParsedInternalKey) (user : List ℕ)
    → key.sequence ≤ max_sequence_number
    → f.largest ≡ append_internal_key [] key
    → is_lt
        (compare_internal bytewise_comparator f.largest (append_internal_key [] (first_key user)))
      ≡ after_file bytewise_comparator (some user) f
unfolding after_file bytewise_comparator
before_first-after_file f key user h e =
    ap
      (λ (x : List ℕ).
        is_lt (compare_internal bytewise_comparator x (append_internal_key [] (first_key user))))
      e
    ∙ ap is_lt (
        compare_internal-append_internal_key bytewise_comparator key (first_key user) h
          (omega arith))
    ∙ tied (slice_compare key.user_key user) _ (not_before_first key.sequence key.type h)
    ∙ sym (flipped user key.user_key)
    ∙ ap (λ (x : List ℕ). is_gt (slice_compare user x))
        (sym (extract-append key) ∙ ap extract_user_key (sym e))

before_file_later :
    (largest : Option (List ℕ)) (f g : FileMetaData)
    → before_file bytewise_comparator largest f ≡ true
    → slice_compare (extract_user_key f.smallest) (extract_user_key g.smallest) ≢ Ordering.gt
    → before_file bytewise_comparator largest g ≡ true
unfolding before_file bytewise_comparator
before_file_later none f g h k = h
before_file_later (some user) f g h k =
    before_still user (extract_user_key f.smallest) (extract_user_key g.smallest) h k

or_true : (a b : Bool) → b ≡ true → (a || b) ≡ true
or_true true b h = refl
or_true false b h = h

module _ (smallest largest : Option (List ℕ)) where
  -- Past a file that the range ends before there is no overlap.
  none_after :
      (f : FileMetaData) (files : List FileMetaData)
      → before_file bytewise_comparator largest f ≡ true
      → All
          (λ (g : FileMetaData).
            (compare_internal bytewise_comparator f.largest g.largest ≡ Ordering.lt)
            × (slice_compare (extract_user_key f.smallest) (extract_user_key g.smallest)
                ≢ Ordering.gt))
          files
      → scan_overlaps bytewise_comparator files smallest largest ≡ false
  unfolding scan_overlaps
  none_after f [] before above = refl
  none_after f (g ∷ files) before ((below, later), above) =
      let still = before_file_later largest f g before later in
      let rest = none_after f files before above in
      rw
        (or_true (after_file bytewise_comparator smallest g)
          (before_file bytewise_comparator largest g) still)
        rest

  scan-not_after :
      (f : FileMetaData) (files : List FileMetaData)
      → IsLevel (f ∷ files)
      → after_file bytewise_comparator smallest f ≡ false
      → scan_overlaps bytewise_comparator (f ∷ files) smallest largest
        ≡ not (before_file bytewise_comparator largest f)
  unfolding scan_overlaps
  scan-not_after f files (key, above, level) here =
      elim (Bool-cases (before_file bytewise_comparator largest f)) [
        | inl before ↦ rw (here, before) (none_after f files before above)
        | inr overlap ↦ rw (here, overlap) refl
      ]

-- The answer from the file at an index.
abbrev answer_at : Option (List ℕ) → List FileMetaData → ℕ → Bool
answer_at largest files index = elim (get_elem? files index) [
  | none ↦ false
  | some f ↦ not (before_file bytewise_comparator largest f)
]

search-scan :
    (user : List ℕ) (largest : Option (List ℕ)) (files : List FileMetaData)
    → IsLevel files
    → answer_at largest files
        (first_file bytewise_comparator files (append_internal_key [] (first_key user)))
      ≡ scan_overlaps bytewise_comparator files (some user) largest
unfolding scan_overlaps
search-scan user largest [] level = refl
search-scan user largest (f ∷ files) ((key, fits, e), above, level) =
    let same = before_first-after_file f key user fits e in
    elim (Bool-cases (after_file bytewise_comparator (some user) f)) [
      | inl after ↦ rw (same, after) (search-scan user largest files level)
      | inr here ↦
          let first : first_file bytewise_comparator (f ∷ files)
                (append_internal_key [] (first_key user))
              ≡ 0 =
            rw (same, here) refl in
          ap (answer_at largest (f ∷ files)) first
          ∙ sym (scan-not_after (some user) largest f files ((key, fits, e), above, level) here)
    ]

-- For fewer than 2 ^ 31 files of a level from 1 on, under the bytewise comparator: the binary search
-- of SomeFileOverlapsRange answers as its scan of all files does, for every range, open at either
-- end or not.
pub some_file_overlaps_range-scan :
    (files : List FileMetaData) (smallest largest : Option (List ℕ))
    → IsLevel files
    → length files < 2 ^ 31
    → some_file_overlaps_range bytewise_comparator true files smallest largest
      ≡ some_file_overlaps_range bytewise_comparator false files smallest largest
unfolding some_file_overlaps_range start_index scan_overlaps after_file
some_file_overlaps_range-scan [] none largest level small = refl
some_file_overlaps_range-scan (f ∷ files) none largest level small =
    sym (scan-not_after none largest f files level refl)
some_file_overlaps_range-scan files (some user) largest level small =
    ap (answer_at largest files) (
      find_file-first_file bytewise_comparator compare_internal_trans
        (append_internal_key [] (first_key user)) files (IsLevel-IsSorted files level) small)
    ∙ search-scan user largest files level
