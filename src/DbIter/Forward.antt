-- ===== src/DbIter/Forward.antt =====
-- db/db_iter.cc: SeekToFirst and Next meet what the snapshot shows.
use ebf_leveldb_sep_kv.Base.{
  ℕ, zero, suc, ◌≤◌, ◌<◌, List, [], ◌∷◌, Option, none, some, Bool, true, false, ltb, ◌&&◌, not,
  if◌then◌else◌, length, ◌≡◌, refl, ap, sym, ◌∙◌, ◌⊎◌, arith, Bool-cases, inl, inr, map,
}
use mathlib.Core.Option as Option
use ebf_leveldb_sep_kv.Comparator.{Comparator}
use ebf_leveldb_sep_kv.DbFormat.{
  ValueType, ValueType.type_deletion, ValueType.type_value, ParsedInternalKey, is_lt,
  max_sequence_number, extract_user_key,
}
use ebf_leveldb_sep_kv.DbFormat.Keys.{parse-append_internal_key}
use ebf_leveldb_sep_kv.VersionSet.{is_gt}
use ebf_leveldb_sep_kv.Iterator.{Entry, at, all_of, cursor_first, cursor_key, cursor_value}
use ebf_leveldb_sep_kv.DbIter.{
  DbIter, DbStatus, forward, db_key, db_value, parsed_status, pass, hide, stop, by_type, next_round,
  key_in, value_in, next_in, find_next_user_entry, find_next_at, seek_to_first, next,
}
use ebf_leveldb_sep_kv.DbIter.Visible.{
  Update, entry_of, extract-entry_of, without, shown_over, visible, IsOrdered, IsTotal, above,
  NotBelow, NoneBelow, shown-newer, shown-deleted, shown-value, shown-NotBelow, without-above,
  above-above, above-without,
}

-- `for (it->SeekToFirst(); it->Valid(); it->Next())` from an iterator on: the keys and values that
-- it meets, and its status at the end.
unfoldable pub entries_forward : Comparator → ℕ → ℕ → DbIter → Option (List Entry × DbStatus)
entries_forward c s zero it = none
entries_forward c s (suc fuel) it =
    let rest = entries_forward c s fuel (next c s it) in
    if it.valid
    then Option.map (λ r. ((db_key it, db_value it) ∷ r.0, r.1)) rest
    else some ([], it.status)

-- What is still to be met: all, or what is behind the key that is skipped.
unfoldable pub still : Comparator → Bool → List ℕ → List Entry → List Entry
still c true skip es = above c skip es
still c false skip es = es

pub type_cases : (t : ValueType) → (t ≡ type_deletion) ⊎ (t ≡ type_value)
type_cases type_deletion = inl refl
type_cases type_value = inr refl

module _ (c : Comparator) (s : ℕ) (skipping : Bool) (it : DbIter) (front back : List Entry)
    (p : ParsedInternalKey) (v : List ℕ) (fits : p.sequence ≤ max_sequence_number) where
  abbrev e : Entry
  e = entry_of (p, v)

  abbrev here : DbIter
  here = find_next_user_entry c s skipping it front (e ∷ back)

  passes :
      next_round c s skipping it.saved_key (some p) ≡ pass
      → here ≡ find_next_user_entry c s skipping it (e ∷ front) back
  unfolding find_next_user_entry parsed_status
  passes h =
      let parsed = parse-append_internal_key p fits in
      rw (find_next_user_entry, parsed, h, parsed) refl

  hides :
      next_round c s skipping it.saved_key (some p) ≡ hide p.user_key
      → here ≡ find_next_user_entry c s true (record it { saved_key = p.user_key }) (e ∷ front) back
  unfolding find_next_user_entry parsed_status
  hides h =
      let parsed = parse-append_internal_key p fits in
      rw (find_next_user_entry, parsed, h, parsed) refl

  stops :
      next_round c s skipping it.saved_key (some p) ≡ stop
      → here ≡ record it { cursor = at front e back; saved_key = []; valid = true }
  unfolding find_next_user_entry parsed_status
  stops h =
      let parsed = parse-append_internal_key p fits in
      rw (find_next_user_entry, parsed, h, parsed) refl

next-forward :
    (c : Comparator) (s : ℕ) (it : DbIter)
    → it.direction ≡ forward
    → next c s it
      ≡ find_next_at c s true
          (record it { saved_key = extract_user_key (cursor_key it.cursor) })
          it.cursor
unfolding next next_in
next-forward c s it h = ap (λ d. next_in d c s it) h

key-forward :
    (it : DbIter) → it.direction ≡ forward → db_key it ≡ extract_user_key (cursor_key it.cursor)
unfolding db_key key_in
key-forward it h = ap (λ d. key_in d it) h

value-forward : (it : DbIter) → it.direction ≡ forward → db_value it ≡ cursor_value it.cursor
unfolding db_value value_in
value-forward it h = ap (λ d. value_in d it) h

module _ (c : Comparator) (total : IsTotal c) (s : ℕ) where
  -- What is still to be met behind an entry that is hidden, and at one that is met.
  still-deleted :
      (skipping : Bool) (skip k : List ℕ) (rest : List Entry)
      → (skipping ≡ true → is_lt (c.compare_keys k skip) ≡ false)
      → NotBelow c k rest
      → still c skipping skip (without c k rest) ≡ still c true k rest
  unfolding still
  still-deleted true skip k rest h low =
      ap (above c skip) (without-above c k rest low) ∙ above-above c total k skip rest (h refl)
  still-deleted false skip k rest h low = without-above c k rest low

  still-hidden :
      (skipping : Bool) (skip k v : List ℕ) (rest : List Entry)
      → (skipping && not (is_gt (c.compare_keys k skip))) ≡ true
      → still c skipping skip ((k, v) ∷ without c k rest) ≡ still c skipping skip rest
  unfolding still above
  still-hidden true skip k v rest h =
      let low : is_gt (c.compare_keys k skip) ≡ false = ground arith in
      rw low (above-without c total k skip rest low)
  still-hidden false skip k v rest h = absurd (ground arith)

  still-met :
      (skipping : Bool) (skip k v : List ℕ) (rest : List Entry)
      → (skipping ≡ true → is_lt (c.compare_keys k skip) ≡ false)
      → NotBelow c k rest
      → (skipping && not (is_gt (c.compare_keys k skip))) ≡ false
      → still c skipping skip ((k, v) ∷ without c k rest) ≡ (k, v) ∷ still c true k rest
  unfolding still above
  still-met true skip k v rest h low g =
      let high : is_gt (c.compare_keys k skip) ≡ true = ground arith in
      rw high (ap (λ r. (k, v) ∷ r) (still-deleted true skip k rest h low))
  still-met false skip k v rest h low g = ap (λ r. (k, v) ∷ r) (without-above c k rest low)

  not_behind_self : (k : List ℕ) → is_gt (c.compare_keys k k) ≡ false
  not_behind_self k = rw (total.same k) refl

  nothing_ahead :
      (fuel : ℕ) (skipping : Bool) (it : DbIter) (front : List Entry)
      → entries_forward c s (suc fuel) (find_next_user_entry c s skipping it front [])
        ≡ some (still c skipping it.saved_key (visible c s []), it.status)
  unfolding entries_forward find_next_user_entry still above shown_over
  nothing_ahead fuel true it front = refl
  nothing_ahead fuel false it front = refl

  module _ (skipping : Bool) (skip : List ℕ) (p : ParsedInternalKey) where
    round-newer : ltb s p.sequence ≡ true → next_round c s skipping skip (some p) ≡ pass
    unfolding next_round
    round-newer h = rw h refl

    round-deleted :
        ltb s p.sequence ≡ false
        → p.type ≡ type_deletion
        → next_round c s skipping skip (some p) ≡ hide p.user_key
    unfolding next_round by_type
    round-deleted h t = rw h (ap (by_type c skipping skip p) t)

    round-hidden :
        ltb s p.sequence ≡ false
        → p.type ≡ type_value
        → (skipping && not (is_gt (c.compare_keys p.user_key skip))) ≡ true
        → next_round c s skipping skip (some p) ≡ pass
    unfolding next_round by_type
    round-hidden h t g = rw h (ap (by_type c skipping skip p) t ∙ rw g refl)

    round-met :
        ltb s p.sequence ≡ false
        → p.type ≡ type_value
        → (skipping && not (is_gt (c.compare_keys p.user_key skip))) ≡ false
        → next_round c s skipping skip (some p) ≡ stop
    unfolding next_round by_type
    round-met h t g = rw h (ap (by_type c skipping skip p) t ∙ rw g refl)

  -- At an entry that is met: its key and value, and then Next from it.
  met :
      (fuel : ℕ) (it : DbIter) (front back : List Entry) (p : ParsedInternalKey) (v : List ℕ)
      (later : List Entry)
      → it.direction ≡ forward
      → p.sequence ≤ max_sequence_number
      → ltb s p.sequence ≡ false
      → p.type ≡ type_value
      → entries_forward c s fuel (
          find_next_user_entry c s true
            (record it {
              saved_key = p.user_key;
              valid = true;
              cursor = at front (entry_of (p, v)) back;
            })
            (entry_of (p, v) ∷ front)
            back)
        ≡ some (later, it.status)
      → entries_forward c s
          (suc fuel)
          (record it { cursor = at front (entry_of (p, v)) back; saved_key = []; valid = true })
        ≡ some ((p.user_key, v) ∷ later, it.status)
  unfolding entries_forward cursor_key cursor_value find_next_at
  met fuel it front back p v later d fits old t h =
      let e = entry_of (p, v) in
      let it2 = record it { cursor = at front e back; saved_key = []; valid = true } in
      let it3 = record it { saved_key = p.user_key; valid = true; cursor = at front e back } in
      let key : db_key it2 ≡ p.user_key = key-forward it2 d ∙ extract-entry_of p in
      let val : db_value it2 ≡ v = value-forward it2 d in
      let go : next c s it2 ≡ find_next_user_entry c s true it3 (e ∷ front) back =
        next-forward c s it2 d
        ∙ ap (λ k. find_next_user_entry c s true (record it2 { saved_key = k }) front (e ∷ back))
            (extract-entry_of p)
        ∙ passes c s true it3 front back p v fits
            (round-hidden true p.user_key p old t (rw (not_behind_self p.user_key) refl)) in
      rw (key, val, go, h) refl

  -- From an entry on, with those ahead: what is met is what is still to be met of what they show.
  pub find_next-visible :
      (us : List Update) (fuel : ℕ) (skipping : Bool) (it : DbIter) (front : List Entry)
      → it.direction ≡ forward
      → IsOrdered c us
      → (skipping ≡ true → NoneBelow c it.saved_key us)
      → length us < fuel
      → entries_forward c s fuel (find_next_user_entry c s skipping it front (map entry_of us))
        ≡ some (still c skipping it.saved_key (visible c s us), it.status)
  find_next-visible us zero skipping it front d o h lt = elim lt [ ]
  find_next-visible [] (suc fuel) skipping it front d o h lt = nothing_ahead fuel skipping it front
  find_next-visible ((p, v) ∷ us) (suc fuel) skipping it front d o h lt =
      let e = entry_of (p, v) in
      let k = p.user_key in
      let rest = visible c s us in
      let low : NotBelow c k rest = shown-NotBelow c k s us [] o.0 tt in
      let head : skipping ≡ true → is_lt (c.compare_keys k it.saved_key) ≡ false = λ q. (h q).0 in
      let on =
        find_next-visible us (suc fuel) skipping it (e ∷ front) d o.2 (λ q. (h q).1)
          (omega arith) in
      let back = map entry_of us in
      let left = still c skipping it.saved_key in
      let as_left : List Entry → Option (List Entry × DbStatus) = λ l. some (left l, it.status) in
      let plain : List Entry → Option (List Entry × DbStatus) = λ l. some (l, it.status) in
      let fold = λ (i : DbIter). entries_forward c s (suc fuel) i in
      elim (Bool-cases (ltb s p.sequence)) [
        | inl newer ↦
            ap fold (
              passes c s skipping it front back p v o.1 (round-newer skipping it.saved_key p newer))
            ∙ on
            ∙ ap as_left (sym (shown-newer c s p v us [] newer))
        | inr old ↦ elim (type_cases p.type) [
          | inl deleted ↦
              ap fold (
                hides c s skipping it front back p v o.1
                  (round-deleted skipping it.saved_key p old deleted))
              ∙ find_next-visible us (suc fuel) true (record it { saved_key = k }) (e ∷ front) d o.2
                  (λ q. o.0) (omega arith)
              ∙ ap plain (
                  sym (
                    ap left (shown-deleted c s p v us [] old deleted)
                    ∙ still-deleted skipping it.saved_key k rest head low))
          | inr put ↦ elim (Bool-cases (skipping && not (is_gt (c.compare_keys k it.saved_key)))) [
            | inl hidden ↦
                ap fold (
                  passes c s skipping it front back p v o.1
                    (round-hidden skipping it.saved_key p old put hidden))
                ∙ on
                ∙ ap plain (
                    sym (
                      ap left (shown-value c s p v us [] old put)
                      ∙ still-hidden skipping it.saved_key k v rest hidden))
            | inr shows ↦
                ap fold (
                  stops c s skipping it front back p v o.1
                    (round-met skipping it.saved_key p old put shows))
                ∙ met fuel it front back p v (still c true k rest) d o.1 old put (
                    find_next-visible us fuel true
                      (record it { saved_key = k; valid = true; cursor = at front e back })
                      (e ∷ front) d o.2 (λ q. o.0) (omega arith))
                ∙ ap plain (
                    sym (
                      ap left (shown-value c s p v us [] old put)
                      ∙ still-met skipping it.saved_key k v rest head low shows))
          ]
        ]
      ]

first-visible :
    (c : Comparator) (s : ℕ) (it : DbIter) (us : List Update)
    → IsTotal c
    → it.direction ≡ forward
    → IsOrdered c us
    → entries_forward c s
        (suc (length us))
        (find_next_at c s false it (cursor_first (map entry_of us)))
      ≡ some (visible c s us, it.status)
unfolding find_next_at cursor_first entries_forward shown_over still
first-visible c s it [] total d o = refl
first-visible c s it (u ∷ us) total d o =
    find_next-visible c total s (u ∷ us) (suc (length (u ∷ us))) false it [] d o (λ q. absurd (cc))
      (omega arith)

-- For a total order, an internal iterator over updates in the order of their user keys, with sequence
-- numbers up to kMaxSequenceNumber, and in every state: SeekToFirst and Next meet exactly the keys
-- and values that the snapshot shows, in their order, and the status does not change.
pub seek_to_first-visible :
    (c : Comparator) (s : ℕ) (it : DbIter) (us : List Update)
    → IsTotal c
    → IsOrdered c us
    → all_of it.cursor ≡ map entry_of us
    → entries_forward c s (suc (length us)) (seek_to_first c s it)
      ≡ some (visible c s us, it.status)
unfolding seek_to_first
seek_to_first-visible c s it us total o e =
    let turned = record it { direction = forward; saved_value = [] } in
    ap (λ l. entries_forward c s (suc (length us)) (find_next_at c s false turned (cursor_first l)))
      e
    ∙ first-visible c s turned us total refl o
