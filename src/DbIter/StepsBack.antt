-- ===== src/DbIter/StepsBack.antt =====
-- db/db_iter.cc: the rounds of FindPrevUserEntry, and Prev from where it stopped.
use ebf_leveldb_sep_kv.Base.{
  ℕ, zero, suc, ◌≤◌, List, [], ◌∷◌, Option, none, some, true, false, ltb, if◌then◌else◌, ◌≡◌, refl,
  ap,
}
use mathlib.Core.Option as Option
use ebf_leveldb_sep_kv.Comparator.{Comparator}
use ebf_leveldb_sep_kv.DbFormat.{
  ValueType, ValueType.type_deletion, ValueType.type_value, ParsedInternalKey, max_sequence_number,
}
use ebf_leveldb_sep_kv.DbFormat.Keys.{parse-append_internal_key}
use ebf_leveldb_sep_kv.Iterator.{Entry, Cursor, at}
use ebf_leveldb_sep_kv.DbIter.{
  DbIter, DbStatus, reverse as backwards, key_in, value_in, db_key, db_value, parsed_status,
  found_prev, prev_stops, save_entry, find_prev_user_entry, find_prev_at, prev_in, prev,
}
use ebf_leveldb_sep_kv.DbIter.Visible.{entry_of}

-- `for (it->SeekToLast(); it->Valid(); it->Prev())` from an iterator on.
unfoldable pub entries_backward : Comparator → ℕ → ℕ → DbIter → Option (List Entry × DbStatus)
entries_backward c s zero it = none
entries_backward c s (suc fuel) it =
    let rest = entries_backward c s fuel (prev c s it) in
    if it.valid
    then Option.map (λ r. ((db_key it, db_value it) ∷ r.0, r.1)) rest
    else some ([], it.status)

-- The entry that FindPrevUserEntry has kept.
unfoldable pub pending : ValueType → DbIter → List Entry
pending type_deletion it = []
pending type_value it = (it.saved_key, it.saved_value) ∷ []

module _ (c : Comparator) (s : ℕ) (type : ValueType) (it : DbIter) (behind ahead : List Entry)
    (p : ParsedInternalKey) (v : List ℕ) (fits : p.sequence ≤ max_sequence_number) where
  abbrev pub e : Entry
  e = entry_of (p, v)

  abbrev pub here : DbIter
  here = find_prev_user_entry c s type it (e ∷ behind) ahead

  pub passes : ltb s p.sequence ≡ true → here ≡ find_prev_user_entry c s type it behind (e ∷ ahead)
  unfolding find_prev_user_entry parsed_status
  passes h =
      let parsed = parse-append_internal_key p fits in
      rw (find_prev_user_entry, parsed, h, parsed) refl

  pub stops :
      ltb s p.sequence ≡ false
      → prev_stops c type it.saved_key p.user_key ≡ true
      → here ≡ found_prev type (record it { cursor = at behind e ahead })
  unfolding find_prev_user_entry parsed_status
  stops h q =
      let parsed = parse-append_internal_key p fits in
      rw (find_prev_user_entry, parsed, h, q, parsed) refl

  pub takes :
      ltb s p.sequence ≡ false
      → prev_stops c type it.saved_key p.user_key ≡ false
      → (t : ValueType) → p.type ≡ t
      → here ≡ find_prev_user_entry c s t (save_entry p v t it) behind (e ∷ ahead)
  unfolding find_prev_user_entry parsed_status
  takes h q t is_t =
      let parsed = parse-append_internal_key p fits in
      rw (find_prev_user_entry, parsed, h, q, parsed)
        (ap (λ d. find_prev_user_entry c s d (save_entry p v d it) behind (e ∷ ahead)) is_t)

prev-backwards :
    (c : Comparator) (s : ℕ) (it : DbIter)
    → it.direction ≡ backwards
    → prev c s it ≡ find_prev_at c s it it.cursor
unfolding prev prev_in
prev-backwards c s it h = ap (λ d. prev_in d c s it) h

key-backwards : (it : DbIter) → it.direction ≡ backwards → db_key it ≡ it.saved_key
unfolding db_key key_in
key-backwards it h = ap (λ d. key_in d it) h

value-backwards : (it : DbIter) → it.direction ≡ backwards → db_value it ≡ it.saved_value
unfolding db_value value_in
value-backwards it h = ap (λ d. value_in d it) h

module _ (c : Comparator) (s : ℕ) (fuel : ℕ) (it : DbIter) (d : it.direction ≡ backwards) where
  -- At a pair that is met, with the cursor where FindPrevUserEntry stopped.
  pub met :
      (cursor : Cursor) (later : List Entry)
      → entries_backward c s fuel
          (find_prev_at c s (record it { cursor = cursor; valid = true }) cursor)
        ≡ some (later, it.status)
      → entries_backward c s (suc fuel) (found_prev type_value (record it { cursor = cursor }))
        ≡ some ((it.saved_key, it.saved_value) ∷ later, it.status)
  unfolding entries_backward found_prev
  met cursor later h =
      let it' = record it { cursor = cursor; valid = true } in
      rw (key-backwards it' d, value-backwards it' d, prev-backwards c s it' d, h) refl

  -- With nothing behind, what was kept is the last to be met.
  pub nothing_kept :
      (ahead : List Entry)
      → entries_backward c s (suc fuel) (find_prev_user_entry c s type_deletion it [] ahead)
        ≡ some ([], it.status)
  unfolding entries_backward found_prev find_prev_user_entry
  nothing_kept ahead = refl
