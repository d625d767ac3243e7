-- ===== src/DbIter/Backward.antt =====
-- db/db_iter.cc: SeekToLast and Prev meet what the snapshot shows, from its end.
use ebf_leveldb_sep_kv.Base.{
  ℕ, zero, suc, ◌+◌, ◌≤◌, ◌<◌, List, [], ◌∷◌, ◌++◌, Option, some, true, false, ltb, length, ◌≡◌,
  refl, ap, sym, ◌∙◌, arith, Bool-cases, inl, inr, map,
}
use mathlib.Core.List.{reverse, reverse-append}
use ebf_leveldb_sep_kv.Comparator.{Comparator}
use ebf_leveldb_sep_kv.DbFormat.{
  ValueType, ValueType.type_deletion, ValueType.type_value, ParsedInternalKey, is_lt,
}
use ebf_leveldb_sep_kv.Iterator.{Entry, at, off, rewind, all_of, last_from, cursor_last}
use ebf_leveldb_sep_kv.DbIter.{
  DbIter, DbStatus, reverse as backwards, prev_stops, save_entry, find_prev_user_entry,
  find_prev_at, seek_to_last,
}
use ebf_leveldb_sep_kv.DbIter.Visible.{
  Update, entry_of, without, overlay, visible, IsOrdered, IsTotal,
}
use ebf_leveldb_sep_kv.DbIter.Forward.{type_cases}
use ebf_leveldb_sep_kv.DbIter.Unwound.{
  shown_back, unwind, shown_back-unwind, map-unwind, NoneAfter, IsOrderedBack, Cross-nil,
  unwind-IsOrderedBack, shown_back-last, keys_below, equal_keys, length-unwind,
}
use ebf_leveldb_sep_kv.DbIter.StepsBack.{
  entries_backward, pending, passes, stops, takes, met, nothing_kept,
}

module _ (c : Comparator) (total : IsTotal c) (s : ℕ) where
  -- What is met from a place on, with what was kept: what the updates show, from the end.
  abbrev Meets : ℕ → ValueType → DbIter → List Update → List Entry → Type 0
  Meets fuel type it rs ahead =
      entries_backward c s fuel (find_prev_user_entry c s type it (map entry_of rs) ahead)
      ≡ some (reverse (shown_back c s rs (pending type it)), it.status)

  end_deletion :
      (fuel : ℕ) (it : DbIter) (ahead : List Entry)
      → it.direction ≡ backwards
      → Meets (suc fuel) type_deletion it [] ahead
  unfolding shown_back pending
  end_deletion fuel it ahead d = nothing_kept c s fuel it d ahead

  end_value :
      (fuel : ℕ) (it : DbIter) (ahead : List Entry)
      → it.direction ≡ backwards
      → Meets (suc (suc fuel)) type_value it [] ahead
  unfolding shown_back pending find_prev_user_entry find_prev_at
  end_value fuel it ahead d =
      met c s (suc fuel) it d (off ahead) [] (nothing_kept c s fuel it d ahead)

  back-newer :
      (p : ParsedInternalKey) (v : List ℕ) (rs : List Update) (shown : List Entry)
      → ltb s p.sequence ≡ true
      → shown_back c s ((p, v) ∷ rs) shown ≡ shown_back c s rs shown
  unfolding shown_back
  back-newer p v rs shown h = rw h refl

  back-old :
      (p : ParsedInternalKey) (v : List ℕ) (rs : List Update) (shown : List Entry) (t : ValueType)
      → ltb s p.sequence ≡ false
      → p.type ≡ t
      → shown_back c s ((p, v) ∷ rs) shown ≡ shown_back c s rs (overlay c t p.user_key v shown)
  unfolding shown_back
  back-old p v rs shown t h e =
      rw h (ap (λ d. shown_back c s rs (overlay c d p.user_key v shown)) e)

  length-pending : (t : ValueType) (it : DbIter) → length (pending t it) ≤ 1
  unfolding pending
  length-pending type_deletion it = omega arith
  length-pending type_value it = omega arith

  -- What is kept of an entry is what it shows over what was kept before.
  overlay-pending :
      (type t : ValueType) (it : DbIter) (p : ParsedInternalKey) (v : List ℕ)
      → prev_stops c type it.saved_key p.user_key ≡ false
      → (type ≡ type_value → is_lt (c.compare_keys it.saved_key p.user_key) ≡ false)
      → overlay c t p.user_key v (pending type it) ≡ pending t (save_entry p v t it)
  unfolding overlay without pending save_entry prev_stops
  overlay-pending type_deletion type_deletion it p v q h = refl
  overlay-pending type_deletion type_value it p v q h = refl
  overlay-pending type_value type_deletion it p v q h =
      rw (equal_keys c total s p.user_key it.saved_key q (h refl)) refl
  overlay-pending type_value type_value it p v q h =
      rw (equal_keys c total s p.user_key it.saved_key q (h refl)) refl

  one_pending : (it : DbIter) → length (pending type_value it) ≡ 1
  unfolding pending
  one_pending it = refl

  none_pending : (it : DbIter) → length (pending type_deletion it) ≡ 0
  unfolding pending
  none_pending it = refl

  pending-stops :
      (type : ValueType) (it : DbIter) (k : List ℕ)
      → prev_stops c type it.saved_key k ≡ true
      → length (pending type it) ≡ 1
  unfolding pending prev_stops
  pending-stops type_deletion it k q = absurd (cc)
  pending-stops type_value it k q = refl

  -- Where an entry of an earlier key ends the scan, Prev goes on from it with nothing kept.
  ended :
      (fuel : ℕ) (rs : List Update) (type : ValueType) (it : DbIter) (ahead : List Entry)
      (p : ParsedInternalKey) (v : List ℕ)
      → it.direction ≡ backwards
      → IsOrderedBack c ((p, v) ∷ rs)
      → ltb s p.sequence ≡ false
      → prev_stops c type it.saved_key p.user_key ≡ true
      → Meets fuel type_deletion
          (record it { cursor = at (map entry_of rs) (entry_of (p, v)) ahead; valid = true })
          ((p, v) ∷ rs)
          ahead
      → Meets (suc fuel) type it ((p, v) ∷ rs) ahead
  unfolding prev_stops pending find_prev_at
  ended fuel rs type_deletion it ahead p v d o old q ih = absurd (cc)
  ended fuel rs type_value it ahead p v d o old q ih =
      let cursor = at (map entry_of rs) (entry_of (p, v)) ahead in
      let shown = shown_back c s ((p, v) ∷ rs) [] in
      let last : List Entry = (it.saved_key, it.saved_value) ∷ [] in
      let all : shown_back c s ((p, v) ∷ rs) last ≡ shown ++ last =
        shown_back-last c total s ((p, v) ∷ rs) it.saved_key it.saved_value []
          (q, keys_below c total s p.user_key it.saved_key rs q o.0) in
      ap (entries_backward c s (suc fuel))
        (stops c s type_value it (map entry_of rs) ahead p v o.1 old q)
      ∙ met c s fuel it d cursor (reverse shown) ih
      ∙ ap (λ (l : List Entry). some (l, it.status))
          (sym (ap reverse all ∙ reverse-append shown last))

  find_prev-visible :
      (fuel : ℕ) (rs : List Update) (type : ValueType) (it : DbIter) (ahead : List Entry)
      → it.direction ≡ backwards
      → IsOrderedBack c rs
      → (type ≡ type_value → NoneAfter c it.saved_key rs)
      → length rs + length (pending type it) < fuel
      → Meets fuel type it rs ahead
  unfolding save_entry
  find_prev-visible zero rs type it ahead d o h lt = elim lt [ ]
  find_prev-visible (suc fuel) [] type_deletion it ahead d o h lt = end_deletion fuel it ahead d
  find_prev-visible (suc zero) [] type_value it ahead d o h lt =
      absurd (omega (arith, one_pending it))
  find_prev-visible (suc (suc fuel)) [] type_value it ahead d o h lt = end_value fuel it ahead d
  find_prev-visible (suc fuel) ((p, v) ∷ rs) type it ahead d o h lt =
      let e = entry_of (p, v) in
      let behind = map entry_of rs in
      let fold = λ (i : DbIter). entries_backward c s (suc fuel) i in
      let met_of : List Entry → Option (List Entry × DbStatus) = λ l. some (reverse l, it.status) in
      elim (Bool-cases (ltb s p.sequence)) [
        | inl newer ↦
            ap fold (passes c s type it behind ahead p v o.1 newer)
            ∙ find_prev-visible (suc fuel) rs type it (e ∷ ahead) d o.2 (λ q. (h q).1) (omega arith)
            ∙ ap met_of (sym (back-newer p v rs (pending type it) newer))
        | inr old ↦ elim (Bool-cases (prev_stops c type it.saved_key p.user_key)) [
          | inl ends ↦ ended fuel rs type it ahead p v d o old ends (
              find_prev-visible fuel ((p, v) ∷ rs) type_deletion
                (record it { cursor = at behind e ahead; valid = true }) ahead d o
                (λ q. absurd (cc))
                (omega (
                  arith,
                  pending-stops type it p.user_key ends,
                  none_pending (record it { cursor = at behind e ahead; valid = true }),
                )))
          | inr goes ↦ elim (type_cases p.type) [
            | inl deleted ↦
                ap fold (takes c s type it behind ahead p v o.1 old goes type_deletion deleted)
                ∙ find_prev-visible (suc fuel) rs type_deletion (save_entry p v type_deletion it)
                    (e ∷ ahead) d o.2 (λ q. absurd (cc))
                    (omega (arith, length-pending type_deletion (save_entry p v type_deletion it)))
                ∙ ap met_of (
                    sym (
                      back-old p v rs (pending type it) type_deletion old deleted
                      ∙ ap (shown_back c s rs)
                          (overlay-pending type type_deletion it p v goes (λ q. (h q).0))))
            | inr put ↦
                ap fold (takes c s type it behind ahead p v o.1 old goes type_value put)
                ∙ find_prev-visible (suc fuel) rs type_value (save_entry p v type_value it)
                    (e ∷ ahead) d o.2 (λ q. o.0)
                    (omega (arith, length-pending type_value (save_entry p v type_value it)))
                ∙ ap met_of (
                    sym (
                      back-old p v rs (pending type it) type_value old put
                      ∙ ap (shown_back c s rs)
                          (overlay-pending type type_value it p v goes (λ q. (h q).0))))
          ]
        ]
      ]

all_shown :
    (c : Comparator) (s : ℕ) (us : List Update) (it : DbIter)
    → shown_back c s (unwind us []) (pending type_deletion it) ≡ visible c s us
unfolding pending shown_back
all_shown c s us it = shown_back-unwind c s us [] []

-- The last place of the internal iterator, with all entries to be met.
find_prev-last :
    (c : Comparator) (s : ℕ) (it : DbIter) (es : List Entry)
    → find_prev_at c s it (cursor_last es)
      ≡ find_prev_user_entry c s type_deletion it (rewind es []) []
unfolding find_prev_at cursor_last rewind
find_prev-last c s it [] = refl
find_prev-last c s it (e ∷ es) = from e [] es
  where
    from :
        (e : Entry) (front es : List Entry)
        → find_prev_at c s it (last_from front e es)
          ≡ find_prev_user_entry c s type_deletion it (rewind (e ∷ es) front) []
    from e front [] = refl
    from e front (x ∷ es) = from x (e ∷ front) es

-- For a total order, an internal iterator over updates in the order of their user keys, with sequence
-- numbers up to kMaxSequenceNumber, and in every state: SeekToLast and Prev meet exactly the keys
-- and values that the snapshot shows, the last one first, and the status does not change.
pub seek_to_last-visible :
    (c : Comparator) (s : ℕ) (it : DbIter) (us : List Update)
    → IsTotal c
    → IsOrdered c us
    → all_of it.cursor ≡ map entry_of us
    → entries_backward c s (suc (length us)) (seek_to_last c s it)
      ≡ some (reverse (visible c s us), it.status)
unfolding seek_to_last
seek_to_last-visible c s it us total o e =
    let turned = record it { direction = backwards; saved_value = [] } in
    let run = entries_backward c s (suc (length us)) in
    ap (λ l. run (find_prev_at c s turned (cursor_last l))) e
    ∙ ap run (find_prev-last c s turned (map entry_of us))
    ∙ ap (λ l. run (find_prev_user_entry c s type_deletion turned l [])) (map-unwind us [])
    ∙ find_prev-visible c total s (suc (length us)) (unwind us []) type_deletion turned [] refl
        (unwind-IsOrderedBack c us [] o tt (Cross-nil c us)) (λ q. absurd (cc))
        (omega (arith, length-unwind us [], none_pending c total s turned))
    ∙ ap (λ (l : List Entry). some (reverse l, it.status)) (all_shown c s us turned)
