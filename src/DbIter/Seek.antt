-- ===== src/DbIter/Seek.antt =====
-- db/db_iter.cc: Seek and Next meet what the snapshot shows from the target on.
use ebf_leveldb_sep_kv.Base.{
  ℕ, zero, suc, ◌≤◌, ◌<◌, List, [], ◌∷◌, Option, some, true, false, ltb, if◌then◌else◌, length, ◌≡◌,
  refl, ap, sym, ◌∙◌, ◌⊎◌, arith, All-map, Bool-cases, inl, inr, map,
}
use Prim.Native.Nat.{Ordering, compare}
use ebf_leveldb_sep_kv.Comparator.{Comparator}
use ebf_leveldb_sep_kv.DbFormat.{
  ValueType, ValueType.type_deletion, ValueType.type_value, value_type_code, value_type_for_seek,
  ParsedInternalKey, append_internal_key, compare_internal, is_lt, max_sequence_number,
}
use ebf_leveldb_sep_kv.DbFormat.Order.{then_by, compare_internal-append_internal_key}
use ebf_leveldb_sep_kv.Iterator.{Entry, Cursor, at, all_of, cursor_seek}
use ebf_leveldb_sep_kv.DbIter.{DbIter, seek_to_first, DbStatus, forward, find_next_at, seek}
use ebf_leveldb_sep_kv.DbIter.Visible.{
  Update, entry_of, without, shown_over, visible, IsOrdered, IsTotal, is_eq, NotBelow,
  shown-NotBelow, shown-newer, shown-deleted, shown-value,
}
use ebf_leveldb_sep_kv.DbIter.Forward.{
  seek_to_first-visible, entries_forward, still, type_cases, find_next-visible,
}
use ebf_leveldb_sep_kv.Merger.Smallest.{not_lt_trans}

-- The pairs whose key is not before the target.
unfoldable pub not_before : Comparator → List ℕ → List Entry → List Entry
not_before c target [] = []
not_before c target ((k, v) ∷ es) =
    let rest = not_before c target es in
    if is_lt (c.compare_keys k target) then rest else (k, v) ∷ rest

-- The key that Seek looks for: the first one of the target in the snapshot.
abbrev sought : ℕ → List ℕ → ParsedInternalKey
sought s target = record { user_key = target; sequence = s; type = value_type_for_seek }

earlier :
    (o rest : Ordering) → is_lt (then_by o rest) ≡ true → (is_lt o ≡ true) ⊎ (is_lt rest ≡ true)
earlier Ordering.lt rest h = inl refl
earlier Ordering.eq rest h = inr h
earlier Ordering.gt rest h = absurd (cc)

not_earlier : (o rest : Ordering) → is_lt (then_by o rest) ≡ false → is_lt o ≡ false
not_earlier Ordering.lt rest h = h
not_earlier Ordering.eq rest h = refl
not_earlier Ordering.gt rest h = refl

newer_of :
    (s q : ℕ) (t : ValueType)
    → is_lt
        (then_by (compare s q) (compare (value_type_code value_type_for_seek) (value_type_code t)))
      ≡ true
    → ltb s q ≡ true
unfolding value_type_code
newer_of s q type_deletion h = ground arith
newer_of s q type_value h = ground arith

module _ (c : Comparator) (total : IsTotal c) (s : ℕ) (target : List ℕ) where
  without-before :
      (k : List ℕ) (es : List Entry)
      → is_lt (c.compare_keys k target) ≡ true
      → not_before c target (without c k es) ≡ not_before c target es
  unfolding not_before without
  without-before k [] h = refl
  without-before k ((j, w) ∷ es) h = elim (Bool-cases (is_eq (c.compare_keys j k))) [
    | inl t ↦
        let low : is_lt (c.compare_keys j target) ≡ true =
          ap is_lt (total.alike j k target t) ∙ h in
        rw (t, low) (without-before k es h)
    | inr f ↦ rw f (ground (arith, without-before k es h))
  ]

  cons-before :
      (k v : List ℕ) (es : List Entry)
      → is_lt (c.compare_keys k target) ≡ true
      → not_before c target ((k, v) ∷ es) ≡ not_before c target es
  unfolding not_before
  cons-before k v es h = rw h refl

  keep_all : (es : List Entry) → NotBelow c target es → not_before c target es ≡ es
  unfolding not_before
  keep_all [] h = refl
  keep_all ((k, v) ∷ es) h = rw h.0 (ap (λ r. (k, v) ∷ r) (keep_all es h.1))

  -- An update that Seek passes shows nothing from the target on.
  passed :
      (p : ParsedInternalKey) (v : List ℕ) (us : List Update)
      → (is_lt (c.compare_keys p.user_key target) ≡ true) ⊎ (ltb s p.sequence ≡ true)
      → not_before c target (visible c s ((p, v) ∷ us)) ≡ not_before c target (visible c s us)
  passed p v us (inr newer) = ap (not_before c target) (shown-newer c s p v us [] newer)
  passed p v us (inl low) = elim (Bool-cases (ltb s p.sequence)) [
    | inl newer ↦ ap (not_before c target) (shown-newer c s p v us [] newer)
    | inr old ↦ elim (type_cases p.type) [
      | inl deleted ↦
          ap (not_before c target) (shown-deleted c s p v us [] old deleted)
          ∙ without-before p.user_key (visible c s us) low
      | inr put ↦
          ap (not_before c target) (shown-value c s p v us [] old put)
          ∙ cons-before p.user_key v (without c p.user_key (visible c s us)) low
          ∙ without-before p.user_key (visible c s us) low
    ]
  ]

  abbrev key : List ℕ
  key = append_internal_key [] (sought s target)

  nothing_left :
      (fuel : ℕ) (it : DbIter) (front : List Entry)
      → entries_forward c s
          (suc fuel)
          (find_next_at c s false it (cursor_seek (compare_internal c) key front (map entry_of [])))
        ≡ some (not_before c target (visible c s []), it.status)
  unfolding entries_forward find_next_at cursor_seek shown_over not_before
  nothing_left fuel it front = refl

  seek_past :
      (front : List Entry) (k v : List ℕ) (es : List Entry)
      → is_lt (compare_internal c k key) ≡ true
      → cursor_seek (compare_internal c) key front ((k, v) ∷ es)
        ≡ cursor_seek (compare_internal c) key ((k, v) ∷ front) es
  unfolding cursor_seek
  seek_past front k v es h = rw h refl

  seek_here :
      (front : List Entry) (k v : List ℕ) (es : List Entry)
      → is_lt (compare_internal c k key) ≡ false
      → cursor_seek (compare_internal c) key front ((k, v) ∷ es) ≡ at front (k, v) es
  unfolding cursor_seek
  seek_here front k v es h = rw h refl

  -- From an entry that is not before the target, all that is shown is.
  all_found :
      (p : ParsedInternalKey) (v : List ℕ) (us : List Update)
      → is_lt (c.compare_keys p.user_key target) ≡ false
      → IsOrdered c ((p, v) ∷ us)
      → NotBelow c target (visible c s ((p, v) ∷ us))
  all_found p v us h o =
      shown-NotBelow c target s ((p, v) ∷ us) []
        (
          h,
          All-map (λ (u : Update). is_lt (c.compare_keys u.0.user_key p.user_key) ≡ false)
              (λ (u : Update). is_lt (c.compare_keys u.0.user_key target) ≡ false) us
              (λ u q. not_lt_trans c total u.0.user_key p.user_key target q h) o.0,
        )
        tt

  cursor_seek-visible :
      (us : List Update) (fuel : ℕ) (it : DbIter) (front : List Entry)
      → it.direction ≡ forward
      → s ≤ max_sequence_number
      → IsOrdered c us
      → length us < fuel
      → entries_forward c s fuel
          (find_next_at c s false it (cursor_seek (compare_internal c) key front (map entry_of us)))
        ≡ some (not_before c target (visible c s us), it.status)
  unfolding find_next_at still
  cursor_seek-visible us zero it front d fits o lt = elim lt [ ]
  cursor_seek-visible [] (suc fuel) it front d fits o lt = nothing_left fuel it front
  cursor_seek-visible ((p, v) ∷ us) (suc fuel) it front d fits o lt =
      let order = compare_internal-append_internal_key c p (sought s target) o.1 fits in
      let rest =
        then_by (compare s p.sequence)
          (compare (value_type_code value_type_for_seek) (value_type_code p.type)) in
      let k = append_internal_key [] p in
      let run = λ (x : Cursor). entries_forward c s (suc fuel) (find_next_at c s false it x) in
      let ended : List Entry → Option (List Entry × DbStatus) = λ l. some (l, it.status) in
      elim (Bool-cases (is_lt (compare_internal c k key))) [
        | inl before ↦
            ap run (seek_past front k v (map entry_of us) before)
            ∙ cursor_seek-visible us (suc fuel) it ((k, v) ∷ front) d fits o.2 (omega arith)
            ∙ ap ended (
                sym (
                  passed p v us
                    (elim (earlier (c.compare_keys p.user_key target) rest
                      (sym (ap is_lt order) ∙ before)) [
                        | inl low ↦ inl low
                        | inr newer ↦ inr (newer_of s p.sequence p.type newer)
                      ])))
        | inr found ↦
            let high =
              not_earlier (c.compare_keys p.user_key target) rest (sym (ap is_lt order) ∙ found) in
            ap run (seek_here front k v (map entry_of us) found)
            ∙ find_next-visible c total s ((p, v) ∷ us) (suc fuel) false it front d o
                (λ q. absurd (cc)) lt
            ∙ ap ended (sym (keep_all (visible c s ((p, v) ∷ us)) (all_found p v us high o)))
      ]

-- For a total order, an internal iterator over updates in the order of their user keys, sequence
-- numbers and a snapshot up to kMaxSequenceNumber, and in every state: Seek and Next meet exactly
-- the keys and values that the snapshot shows whose key is not before the target, in their order,
-- and the status does not change.
seek-visible :
    (c : Comparator) (s : ℕ) (target : List ℕ) (it : DbIter) (us : List Update)
    → IsTotal c
    → s ≤ max_sequence_number
    → IsOrdered c us
    → all_of it.cursor ≡ map entry_of us
    → entries_forward c s (suc (length us)) (seek c s target it)
      ≡ some (not_before c target (visible c s us), it.status)
unfolding seek
seek-visible c s target it us total fits o e =
    let k = append_internal_key [] (sought s target) in
    let turned = record it { direction = forward; saved_value = []; saved_key = k } in
    ap
      (λ l.
        entries_forward c s (suc (length us))
          (find_next_at c s false turned (cursor_seek (compare_internal c) k [] l)))
      e
    ∙ cursor_seek-visible c total s target us (suc (length us)) turned [] refl fits o (omega arith)

-- For a total order, an internal iterator over updates in the order of their user keys, sequence
-- numbers and a snapshot up to kMaxSequenceNumber, and in every state: SeekToFirst and Next meet
-- exactly the keys and values that the snapshot shows, Seek and Next those whose key is not before
-- the target; both in their order and without a change of the status.
pub entries_forward-visible :
    (c : Comparator) (s : ℕ) (it : DbIter) (us : List Update)
    → IsTotal c
    → s ≤ max_sequence_number
    → IsOrdered c us
    → all_of it.cursor ≡ map entry_of us
    → (entries_forward c s (suc (length us)) (seek_to_first c s it)
        ≡ some (visible c s us, it.status))
      × ((target : List ℕ)
          → entries_forward c s (suc (length us)) (seek c s target it)
            ≡ some (not_before c target (visible c s us), it.status))
entries_forward-visible c s it us total fits o e = (
  seek_to_first-visible c s it us total o e,
  λ target. seek-visible c s target it us total fits o e,
)
