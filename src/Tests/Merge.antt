-- ===== src/Tests/Merge.antt =====
-- Two children with a key in common.
use ebf_leveldb_sep_kv.Base.{suc, List, [], ◌∷◌, some, ◌≡◌, refl, All, map}
use ebf_leveldb_sep_kv.Comparator.{bytewise_comparator, slice_compare}
use ebf_leveldb_sep_kv.Iterator.{Entry, off, all_of}
use ebf_leveldb_sep_kv.DbIter.Bytewise.{bytewise_comparator-IsTotal}
use ebf_leveldb_sep_kv.Merger.{MergingIterator, new_merging_iterator, seek_to_first}
use ebf_leveldb_sep_kv.Merger.Merged.{
  Merges, IsNonDescending, merged_entries, seek_to_first-Merges, size,
}

abbrev two_children : MergingIterator
two_children = new_merging_iterator (
    off ((1 ∷ [], 10 ∷ []) ∷ (3 ∷ [], 30 ∷ []) ∷ [])
    ∷ off ((1 ∷ [], 11 ∷ []) ∷ (2 ∷ [], 21 ∷ []) ∷ [])
    ∷ [])

two_children-IsNonDescending :
    All (IsNonDescending bytewise_comparator) (map all_of two_children.children)
unfolding new_merging_iterator all_of bytewise_comparator slice_compare
two_children-IsNonDescending = (((refl, tt), (tt, tt)), (((refl, tt), (tt, tt)), tt))

seek_to_first-Merges_example :
    (es : List Entry) × (merged_entries bytewise_comparator
        (suc (size (map all_of two_children.children)))
        (seek_to_first bytewise_comparator two_children)
      ≡ some es)
    × Merges (map all_of two_children.children) es
    × IsNonDescending bytewise_comparator es
seek_to_first-Merges_example =
    seek_to_first-Merges bytewise_comparator two_children bytewise_comparator-IsTotal
      two_children-IsNonDescending
