-- ===== src/VersionSet.antt =====
-- db/version_set.cc: searches in the files of one level. A level is the list of its files, and a
-- pointer to a user key an Option.
pub mod FindFile
pub mod Overlap
use ebf_leveldb_sep_kv.Base.{
  ℕ, zero, suc, ◌+◌, ◌-◌, ◌*◌, ◌/◌, ◌%◌, ◌^◌, List, [], ◌∷◌, ◌++◌, Option, none, some, Bool, true,
  false, ltb, leb, ◌==◌, ◌&&◌, ◌||◌, not, if◌then◌else◌, length, get_elem?,
}
use Prim.Native.Nat.{compare, Ordering}
use ebf_leveldb_sep_kv.Comparator.{Comparator}
use ebf_leveldb_sep_kv.DbFormat.{
  ParsedInternalKey, append_internal_key, compare_internal, extract_user_key, is_lt,
  max_sequence_number, value_type_for_seek,
}
use ebf_leveldb_sep_kv.VersionEdit.{FileMetaData}

-- TotalFileSize, for sums below 2 ^ 63.
unfoldable pub total_file_size : List FileMetaData → ℕ
total_file_size [] = 0
total_file_size (f ∷ files) = f.file_size + total_file_size files

-- `Compare(files[mid]->largest, key) < 0`; the loop reads only places that there are.
unfoldable pub largest_before : Comparator → List FileMetaData → List ℕ → ℕ → Bool
largest_before c files key mid = elim (get_elem? files mid) [
  | none ↦ false
  | some f ↦ is_lt (compare_internal c f.largest key)
]

-- FindFile's loop; each round shortens the range, so the number of files is fuel enough.
unfoldable pub find_loop : Comparator → List FileMetaData → List ℕ → ℕ → ℕ → ℕ → ℕ
find_loop c files key zero left right = right
find_loop c files key (suc fuel) left right =
    let mid = (left + right) % 2 ^ 32 / 2 in
    let before = largest_before c files key mid in
    let rest =
      find_loop c files key fuel (if before then (mid + 1) % 2 ^ 32 else left)
        (if before then right else mid) in
    if ltb left right then rest else right

unfoldable pub find_file : Comparator → List FileMetaData → List ℕ → ℕ
find_file c files key = find_loop c files key (length files) 0 (length files % 2 ^ 32)

abbrev pub is_gt : Ordering → Bool
is_gt Ordering.lt = false
is_gt Ordering.eq = false
is_gt Ordering.gt = true

-- A NULL user key is never after a file and never before one.
unfoldable pub after_file : Comparator → Option (List ℕ) → FileMetaData → Bool
after_file ucmp none f = false
after_file ucmp (some user_key) f = is_gt (ucmp.compare_keys user_key (extract_user_key f.largest))

unfoldable pub before_file : Comparator → Option (List ℕ) → FileMetaData → Bool
before_file ucmp none f = false
before_file ucmp (some user_key) f =
    is_lt (ucmp.compare_keys user_key (extract_user_key f.smallest))

-- The scan of all files, where they may overlap each other.
unfoldable pub scan_overlaps :
    Comparator → List FileMetaData → Option (List ℕ) → Option (List ℕ) → Bool
scan_overlaps ucmp [] smallest largest = false
scan_overlaps ucmp (f ∷ files) smallest largest =
    let rest = scan_overlaps ucmp files smallest largest in
    if after_file ucmp smallest f || before_file ucmp largest f then rest else true

unfoldable pub start_index : Comparator → List FileMetaData → Option (List ℕ) → ℕ
start_index c files none = 0
start_index c files (some user_key) = find_file c files (
    append_internal_key []
      (record { user_key = user_key; sequence = max_sequence_number; type = value_type_for_seek }))

unfoldable pub some_file_overlaps_range :
    Comparator → Bool → List FileMetaData → Option (List ℕ) → Option (List ℕ) → Bool
some_file_overlaps_range c false files smallest largest = scan_overlaps c files smallest largest
some_file_overlaps_range c true files smallest largest =
    elim (get_elem? files (start_index c files smallest)) [
      | none ↦ false
      | some f ↦ not (before_file c largest f)
    ]
