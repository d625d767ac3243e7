-- ===== src/Tests/Snapshots.antt =====
-- Four updates of two keys: a key written, written again and deleted, and another key.
use ebf_leveldb_sep_kv.Base.{ℕ, List, [], ◌∷◌, some, ◌≡◌, refl, arith, map}
use mathlib.Core.List.{reverse}
use ebf_leveldb_sep_kv.Comparator.{bytewise_comparator, slice_compare}
use ebf_leveldb_sep_kv.DbFormat.{ValueType, ValueType.type_deletion, ValueType.type_value}
use ebf_leveldb_sep_kv.Iterator.{off, all_of}
use ebf_leveldb_sep_kv.DbIter.{DbIter, DbStatus.ok, new_db_iter, seek_to_first, seek_to_last, seek}
use ebf_leveldb_sep_kv.DbIter.Visible.{
  Update, entry_of, visible, shown_over, overlay, without, IsOrdered,
}
use ebf_leveldb_sep_kv.DbIter.Forward.{entries_forward}
use ebf_leveldb_sep_kv.DbIter.Backward.{seek_to_last-visible}
use ebf_leveldb_sep_kv.DbIter.StepsBack.{entries_backward}
use ebf_leveldb_sep_kv.DbIter.Seek.{not_before, entries_forward-visible}
use ebf_leveldb_sep_kv.DbIter.Bytewise.{bytewise_comparator-IsTotal}

abbrev update : ℕ → ℕ → ValueType → ℕ → Update
update key sequence type value =
    (record { user_key = key ∷ []; sequence = sequence; type = type }, value ∷ [])

abbrev updates : List Update
updates =
    update 1 9 type_deletion 0
    ∷ update 1 7 type_value 17
    ∷ update 1 3 type_value 13
    ∷ update 2 5 type_value 25
    ∷ []

abbrev fresh : DbIter
fresh = new_db_iter (off (map entry_of updates))

updates-IsOrdered : IsOrdered bytewise_comparator updates
unfolding bytewise_comparator slice_compare
updates-IsOrdered = (
  (refl, (refl, (refl, tt))),
  omega arith,
  ((refl, (refl, tt)), omega arith, ((refl, tt), omega arith, (tt, omega arith, tt))),
)

-- Before the deletion, the newer of the two values.
at_eight : visible bytewise_comparator 8 updates ≡ (1 ∷ [], 17 ∷ []) ∷ (2 ∷ [], 25 ∷ []) ∷ []
unfolding shown_over overlay without bytewise_comparator slice_compare
at_eight = refl

-- With the deletion, only the other key.
at_nine : visible bytewise_comparator 9 updates ≡ (2 ∷ [], 25 ∷ []) ∷ []
unfolding shown_over overlay without bytewise_comparator slice_compare
at_nine = refl

seek_to_last-visible_example :
    entries_backward bytewise_comparator 8 5 (seek_to_last bytewise_comparator 8 fresh)
    ≡ some (reverse (visible bytewise_comparator 8 updates), ok)
unfolding new_db_iter all_of
seek_to_last-visible_example =
    seek_to_last-visible bytewise_comparator 8 fresh updates bytewise_comparator-IsTotal
      updates-IsOrdered refl

entries_forward-visible_example :
    (entries_forward bytewise_comparator 8 5 (seek_to_first bytewise_comparator 8 fresh)
      ≡ some (visible bytewise_comparator 8 updates, ok))
    × ((target : List ℕ)
        → entries_forward bytewise_comparator 8 5 (seek bytewise_comparator 8 target fresh)
          ≡ some
              (not_before bytewise_comparator target (visible bytewise_comparator 8 updates), ok))
unfolding new_db_iter all_of
entries_forward-visible_example =
    entries_forward-visible bytewise_comparator 8 fresh updates bytewise_comparator-IsTotal
      (omega arith) updates-IsOrdered refl
