-- ===== src/DbIter/Visible.antt =====
-- db/db_iter.cc: the user keys that a snapshot shows, from the internal entries alone.
use ebf_leveldb_sep_kv.Base.{
  ℕ, ◌≤◌, List, [], ◌∷◌, Bool, true, false, ltb, not, if◌then◌else◌, ◌≡◌, refl, ap, ◌∙◌, arith, All,
  Bool-cases, inl, inr,
}
use Prim.Native.Nat.{Ordering}
use ebf_leveldb_sep_kv.Comparator.{Comparator}
use ebf_leveldb_sep_kv.DbFormat.{
  ValueType, ValueType.type_deletion, ValueType.type_value, ParsedInternalKey, append_internal_key,
  extract_user_key, is_lt, max_sequence_number, pack_sequence_and_type,
}
use ebf_leveldb_sep_kv.DbFormat.Keys.{extract-encoded}
use ebf_leveldb_sep_kv.Coding.{put_fixed64}
use ebf_leveldb_sep_kv.VersionSet.{is_gt}
use ebf_leveldb_sep_kv.Iterator.{Entry}

abbrev pub is_eq : Ordering → Bool
is_eq Ordering.lt = false
is_eq Ordering.eq = true
is_eq Ordering.gt = false

-- An update: its key with sequence number and type, and its value.
abbrev pub Update : Type 0
Update = ParsedInternalKey × List ℕ

-- The internal entry of an update.
abbrev pub entry_of : Update → Entry
entry_of (p, v) = (append_internal_key [] p, v)

pub extract-entry_of :
    (p : ParsedInternalKey) → extract_user_key (append_internal_key [] p) ≡ p.user_key
unfolding append_internal_key put_fixed64
extract-entry_of p = extract-encoded p.user_key (pack_sequence_and_type p.sequence p.type)

-- What is left of some pairs without a key.
unfoldable pub without : Comparator → List ℕ → List Entry → List Entry
without c key [] = []
without c key ((k, v) ∷ es) =
    let rest = without c key es in if is_eq (c.compare_keys k key) then rest else (k, v) ∷ rest

-- An update laid over what the older ones and the later keys show.
unfoldable pub overlay : Comparator → ValueType → List ℕ → List ℕ → List Entry → List Entry
unfolding without
overlay c type_deletion key value shown = without c key shown
overlay c type_value key value shown = (key, value) ∷ without c key shown

-- What a snapshot shows: of the updates up to its sequence number, the one in front decides a key.
unfoldable pub shown_over : Comparator → ℕ → List Update → List Entry → List Entry
unfolding overlay
shown_over c sequence [] shown = shown
shown_over c sequence ((p, v) ∷ us) shown =
    let rest = shown_over c sequence us shown in
    if ltb sequence p.sequence then rest else overlay c p.type p.user_key v rest

abbrev pub visible : Comparator → ℕ → List Update → List Entry
visible c sequence us = shown_over c sequence us []

-- The keys in their order, each sequence number in its range.
abbrev pub IsOrdered : Comparator → List Update → Type 0
IsOrdered c [] = Unit
IsOrdered c ((p, v) ∷ us) =
    All (λ (u : Update). is_lt (c.compare_keys u.0.user_key p.user_key) ≡ false) us
    × (p.sequence ≤ max_sequence_number)
    × IsOrdered c us

-- The comparator's order is total: a key equals itself, equal keys compare alike, and what is after
-- a key is after those that it is not before.
pub record IsTotal (c : Comparator) : Type 0 where
  pub same : (a : List ℕ) → c.compare_keys a a ≡ Ordering.eq
  pub alike :
      (a b x : List ℕ) → is_eq (c.compare_keys a b) ≡ true → c.compare_keys a x ≡ c.compare_keys b x
  pub after :
      (a b x : List ℕ)
      → is_gt (c.compare_keys a b) ≡ true
      → is_lt (c.compare_keys b x) ≡ false
      → is_gt (c.compare_keys a x) ≡ true
  pub flip : (a b : List ℕ) → is_gt (c.compare_keys a b) ≡ is_lt (c.compare_keys b a)

module _ (c : Comparator) where
  -- The pairs behind a key.
  unfoldable pub above : List ℕ → List Entry → List Entry
  above key [] = []
  above key ((k, v) ∷ es) =
      let rest = above key es in if is_gt (c.compare_keys k key) then (k, v) ∷ rest else rest

  -- No key is before the given one.
  abbrev pub NotBelow : List ℕ → List Entry → Type 0
  NotBelow key es = All (λ (e : Entry). is_lt (c.compare_keys e.0 key) ≡ false) es

  abbrev pub NoneBelow : List ℕ → List Update → Type 0
  NoneBelow key us = All (λ (u : Update). is_lt (c.compare_keys u.0.user_key key) ≡ false) us

  without-NotBelow :
      (key k : List ℕ) (es : List Entry) → NotBelow key es → NotBelow key (without c k es)
  unfolding without
  without-NotBelow key k [] h = tt
  without-NotBelow key k ((j, v) ∷ es) h = elim (Bool-cases (is_eq (c.compare_keys j k))) [
    | inl t ↦ rw t (without-NotBelow key k es h.1)
    | inr f ↦ rw f (h.0, without-NotBelow key k es h.1)
  ]

  overlay-NotBelow :
      (key : List ℕ) (t : ValueType) (k v : List ℕ) (es : List Entry)
      → is_lt (c.compare_keys k key) ≡ false
      → NotBelow key es
      → NotBelow key (overlay c t k v es)
  unfolding overlay
  overlay-NotBelow key type_deletion k v es e h = without-NotBelow key k es h
  overlay-NotBelow key type_value k v es e h = (e, without-NotBelow key k es h)

  -- What is shown has keys of the updates and of what was shown before.
  pub shown-NotBelow :
      (key : List ℕ) (s : ℕ) (us : List Update) (shown : List Entry)
      → NoneBelow key us
      → NotBelow key shown
      → NotBelow key (shown_over c s us shown)
  unfolding shown_over
  shown-NotBelow key s [] shown h a = a
  shown-NotBelow key s ((p, v) ∷ us) shown h a = elim (Bool-cases (ltb s p.sequence)) [
    | inl t ↦ rw t (shown-NotBelow key s us shown h.1 a)
    | inr f ↦ rw f (
        overlay-NotBelow key p.type p.user_key v (shown_over c s us shown) h.0
          (shown-NotBelow key s us shown h.1 a))
  ]

  not_eq : (o : Ordering) → is_lt o ≡ false → not (is_eq o) ≡ is_gt o
  not_eq Ordering.lt h = ground arith
  not_eq Ordering.eq h = refl
  not_eq Ordering.gt h = refl

  -- Where no key is before `key`, those other than it are those behind it.
  pub without-above :
      (key : List ℕ) (es : List Entry) → NotBelow key es → without c key es ≡ above key es
  unfolding without above
  without-above key [] h = refl
  without-above key ((k, v) ∷ es) h =
      ground (arith, not_eq (c.compare_keys k key) h.0, without-above key es h.1)

  module _ (total : IsTotal c) where
    -- Behind a later key and behind an earlier one.
    pub above-above :
        (key skip : List ℕ) (es : List Entry)
        → is_lt (c.compare_keys key skip) ≡ false
        → above skip (above key es) ≡ above key es
    unfolding above
    above-above key skip [] h = refl
    above-above key skip ((k, v) ∷ es) h = elim (Bool-cases (is_gt (c.compare_keys k key))) [
      | inl t ↦
          rw (t, total.after k key skip t h) (ap (λ r. (k, v) ∷ r) (above-above key skip es h))
      | inr f ↦ rw f (above-above key skip es h)
    ]

    -- A key that is not behind `skip` is left out anyway.
    pub above-without :
        (key skip : List ℕ) (es : List Entry)
        → is_gt (c.compare_keys key skip) ≡ false
        → above skip (without c key es) ≡ above skip es
    unfolding above without
    above-without key skip [] h = refl
    above-without key skip ((k, v) ∷ es) h = elim (Bool-cases (is_eq (c.compare_keys k key))) [
      | inl t ↦
          let low : is_gt (c.compare_keys k skip) ≡ false =
            ap is_gt (total.alike k key skip t) ∙ h in
          rw (t, low) (above-without key skip es h)
      | inr f ↦ rw f (ground (arith, above-without key skip es h))
    ]

-- The three kinds of update, by what they show.
module _ (c : Comparator) (s : ℕ) (p : ParsedInternalKey) (v : List ℕ) (us : List Update)
    (shown : List Entry) where
  abbrev rest : List Entry
  rest = shown_over c s us shown

  pub shown-newer :
      ltb s p.sequence ≡ true → shown_over c s ((p, v) ∷ us) shown ≡ shown_over c s us shown
  unfolding shown_over
  shown-newer h = rw h refl

  pub shown-deleted :
      ltb s p.sequence ≡ false
      → p.type ≡ type_deletion
      → shown_over c s ((p, v) ∷ us) shown ≡ without c p.user_key (shown_over c s us shown)
  unfolding shown_over overlay
  shown-deleted h t = rw h (ap (λ d. overlay c d p.user_key v rest) t)

  pub shown-value :
      ltb s p.sequence ≡ false
      → p.type ≡ type_value
      → shown_over c s ((p, v) ∷ us) shown
        ≡ (p.user_key, v) ∷ without c p.user_key (shown_over c s us shown)
  unfolding shown_over overlay
  shown-value h t = rw h (ap (λ d. overlay c d p.user_key v rest) t)
