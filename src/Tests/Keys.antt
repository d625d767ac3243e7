-- ===== src/Tests/Keys.antt =====
-- Internal keys over the bytewise order, and a level of two files.
use ebf_leveldb_sep_kv.Base.{◌⊎◌, List, [], ◌∷◌, some, true, false, ◌≡◌, ◌≢◌, refl, arith}
use Prim.Native.Nat.{Ordering}
use ebf_leveldb_sep_kv.Coding.{get_length_prefixed_slice, put_fixed64, encode_fixed64}
use ebf_leveldb_sep_kv.Comparator.{bytewise_comparator, slice_compare}
use ebf_leveldb_sep_kv.Comparator.Laws.{bytewise_comparator-IsComparator}
use ebf_leveldb_sep_kv.VersionEdit.{FileMetaData, file_meta}
use ebf_leveldb_sep_kv.DbFormat.{
  ParsedInternalKey, ValueType.type_deletion, ValueType.type_value, append_internal_key,
  parse_internal_key, compare_internal, internal_shortest_separator, lookup_key, internal_key,
  user_key_of, memtable_key, value_type_for_seek, extract_user_key,
}
use ebf_leveldb_sep_kv.DbFormat.Keys.{parse-append_internal_key, views-lookup_key}
use ebf_leveldb_sep_kv.DbFormat.Order.{
  key_order, compare_internal-append_internal_key, internal_shortest_separator-between,
}
use ebf_leveldb_sep_kv.DbFormat.Transitive.{compare_internal_trans}
use ebf_leveldb_sep_kv.VersionSet.{find_file, some_file_overlaps_range}
use ebf_leveldb_sep_kv.VersionSet.Overlap.{IsLevel, some_file_overlaps_range-scan}
use ebf_leveldb_sep_kv.VersionSet.FindFile.{first_file, find_file-first_file}

abbrev written : ParsedInternalKey
written = record { user_key = 97 ∷ 98 ∷ 99 ∷ []; sequence = 300; type = type_value }

abbrev deleted : ParsedInternalKey
deleted = record { user_key = 97 ∷ 101 ∷ []; sequence = 301; type = type_deletion }

parse-append_internal_key_example :
    parse_internal_key (append_internal_key [] written) ≡ some written
parse-append_internal_key_example = parse-append_internal_key written (omega arith)

compare_internal-append_internal_key_example :
    compare_internal bytewise_comparator
      (append_internal_key [] written)
      (append_internal_key [] deleted)
    ≡ key_order bytewise_comparator written deleted
compare_internal-append_internal_key_example =
    compare_internal-append_internal_key bytewise_comparator written deleted (omega arith)
      (omega arith)

written_first :
    compare_internal bytewise_comparator
      (append_internal_key [] written)
      (append_internal_key [] deleted)
    ≡ Ordering.lt
unfolding compare_internal bytewise_comparator append_internal_key slice_compare extract_user_key
    put_fixed64 encode_fixed64
written_first = refl

internal_shortest_separator-between_example :
    ((internal_shortest_separator bytewise_comparator
          (append_internal_key [] written)
          (append_internal_key [] deleted)
        ≡ append_internal_key [] written)
      ⊎ (compare_internal bytewise_comparator (append_internal_key [] written) (
            internal_shortest_separator bytewise_comparator
              (append_internal_key [] written)
              (append_internal_key [] deleted))
          ≡ Ordering.lt))
    × (compare_internal bytewise_comparator
          (internal_shortest_separator bytewise_comparator
            (append_internal_key [] written)
            (append_internal_key [] deleted))
          (append_internal_key [] deleted)
        ≡ Ordering.lt)
internal_shortest_separator-between_example =
    internal_shortest_separator-between bytewise_comparator written deleted
      bytewise_comparator-IsComparator (omega arith) (omega arith) written_first

views-lookup_key_example :
    (internal_key (lookup_key (97 ∷ []) 5)
      ≡ append_internal_key []
          (record { user_key = 97 ∷ []; sequence = 5; type = value_type_for_seek }))
    × (user_key_of (lookup_key (97 ∷ []) 5) ≡ 97 ∷ [])
    × (get_length_prefixed_slice (memtable_key (lookup_key (97 ∷ []) 5))
        ≡ some (internal_key (lookup_key (97 ∷ []) 5), []))
views-lookup_key_example = views-lookup_key (97 ∷ []) 5 (omega arith)

abbrev two_files : List FileMetaData
two_files =
    file_meta 7 4096 (append_internal_key [] written) (append_internal_key [] written)
    ∷ file_meta 8 4096 (append_internal_key [] deleted) (append_internal_key [] deleted)
    ∷ []

find_file-first_file_example :
    find_file bytewise_comparator two_files (append_internal_key [] deleted)
    ≡ first_file bytewise_comparator two_files (append_internal_key [] deleted)
unfolding file_meta
find_file-first_file_example =
    find_file-first_file bytewise_comparator compare_internal_trans (append_internal_key [] deleted)
      two_files ((written_first, tt), (tt, tt)) (omega arith)

smallest_ordered :
    slice_compare
      (extract_user_key (append_internal_key [] written))
      (extract_user_key (append_internal_key [] deleted))
    ≡ Ordering.lt
unfolding slice_compare extract_user_key append_internal_key put_fixed64 encode_fixed64
smallest_ordered = refl

not_gt : (r : Ordering) → r ≡ Ordering.lt → r ≢ Ordering.gt
not_gt r e = rw e (ground arith)

two_files-IsLevel : IsLevel two_files
unfolding file_meta
two_files-IsLevel = (
  (written, omega arith, refl),
  ((written_first, not_gt _ smallest_ordered), tt),
  ((deleted, omega arith, refl), tt, tt),
)

some_file_overlaps_range-scan_example :
    some_file_overlaps_range bytewise_comparator true two_files
      (some (97 ∷ 99 ∷ []))
      (some (97 ∷ 100 ∷ []))
    ≡ some_file_overlaps_range bytewise_comparator false two_files
        (some (97 ∷ 99 ∷ []))
        (some (97 ∷ 100 ∷ []))
some_file_overlaps_range-scan_example =
    some_file_overlaps_range-scan two_files (some (97 ∷ 99 ∷ [])) (some (97 ∷ 100 ∷ []))
      two_files-IsLevel (omega arith)
