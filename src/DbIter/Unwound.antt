-- ===== src/DbIter/Unwound.antt =====
-- db/db_iter.cc: what a snapshot shows, from the last update on.
use ebf_leveldb_sep_kv.Base.{
  ℕ, ◌+◌, ◌≤◌, List, [], ◌∷◌, ◌++◌, true, false, ltb, if◌then◌else◌, length, ◌≡◌, refl, ap, sym,
  ◌∙◌, arith, All, Bool-cases, inl, inr, map,
}
use Prim.Native.Nat.{Ordering}
use ebf_leveldb_sep_kv.Comparator.{Comparator}
use ebf_leveldb_sep_kv.DbFormat.{
  ValueType, ValueType.type_deletion, ValueType.type_value, is_lt, max_sequence_number,
}
use ebf_leveldb_sep_kv.VersionSet.{is_gt}
use ebf_leveldb_sep_kv.Iterator.{Entry, rewind}
use ebf_leveldb_sep_kv.DbIter.Visible.{
  Update, entry_of, without, overlay, shown_over, IsOrdered, IsTotal, is_eq,
}

-- What the updates show over some pairs, the last update first.
unfoldable pub shown_back : Comparator → ℕ → List Update → List Entry → List Entry
unfolding overlay
shown_back c s [] shown = shown
shown_back c s ((p, v) ∷ rs) shown =
    shown_back c s rs (if ltb s p.sequence then shown else overlay c p.type p.user_key v shown)

unfoldable pub unwind : List Update → List Update → List Update
unwind [] rs = rs
unwind (u ∷ us) rs = unwind us (u ∷ rs)

pub shown_back-unwind :
    (c : Comparator) (s : ℕ) (us rs : List Update) (shown : List Entry)
    → shown_back c s (unwind us rs) shown ≡ shown_back c s rs (shown_over c s us shown)
unfolding unwind shown_back shown_over
shown_back-unwind c s [] rs shown = refl
shown_back-unwind c s ((p, v) ∷ us) rs shown = shown_back-unwind c s us ((p, v) ∷ rs) shown

pub map-unwind :
    (us rs : List Update) → rewind (map entry_of us) (map entry_of rs) ≡ map entry_of (unwind us rs)
unfolding unwind rewind
map-unwind [] rs = refl
map-unwind (u ∷ us) rs = map-unwind us (u ∷ rs)

-- No key is behind the given one.
abbrev pub NoneAfter : Comparator → List ℕ → List Update → Type 0
NoneAfter c key us = All (λ (u : Update). is_lt (c.compare_keys key u.0.user_key) ≡ false) us

abbrev pub IsOrderedBack : Comparator → List Update → Type 0
IsOrderedBack c [] = Unit
IsOrderedBack c ((p, v) ∷ rs) =
    NoneAfter c p.user_key rs × (p.sequence ≤ max_sequence_number) × IsOrderedBack c rs

abbrev pub Cross : Comparator → List Update → List Update → Type 0
Cross c us rs = All (λ (u : Update). NoneAfter c u.0.user_key rs) us

Cross-cons :
    (c : Comparator) (us rs : List Update) (r : Update)
    → All (λ (u : Update). is_lt (c.compare_keys u.0.user_key r.0.user_key) ≡ false) us
    → Cross c us rs
    → Cross c us (r ∷ rs)
Cross-cons c [] rs r h x = tt
Cross-cons c (u ∷ us) rs r h x = ((h.0, x.0), Cross-cons c us rs r h.1 x.1)

pub Cross-nil : (c : Comparator) (us : List Update) → Cross c us []
Cross-nil c [] = tt
Cross-nil c (u ∷ us) = (tt, Cross-nil c us)

pub unwind-IsOrderedBack :
    (c : Comparator) (us rs : List Update)
    → IsOrdered c us
    → IsOrderedBack c rs
    → Cross c us rs
    → IsOrderedBack c (unwind us rs)
unfolding unwind
unwind-IsOrderedBack c [] rs o b x = b
unwind-IsOrderedBack c ((p, v) ∷ us) rs o b x =
    unwind-IsOrderedBack c us ((p, v) ∷ rs) o.2 (x.0, o.1, b) (Cross-cons c us rs (p, v) o.0 x.1)

module _ (c : Comparator) (total : IsTotal c) (s : ℕ) where
  -- A last pair that no update decides stays last.
  without-last :
      (k k0 v0 : List ℕ) (es : List Entry)
      → is_lt (c.compare_keys k k0) ≡ true
      → without c k (es ++ ((k0, v0) ∷ [])) ≡ without c k es ++ ((k0, v0) ∷ [])
  unfolding without
  without-last k k0 v0 [] h =
      let other : is_eq (c.compare_keys k0 k) ≡ false =
        not_same (c.compare_keys k0 k) (total.flip k0 k ∙ h) in
      rw other refl
    where
      not_same : (o : Ordering) → is_gt o ≡ true → is_eq o ≡ false
      not_same Ordering.lt e = refl
      not_same Ordering.eq e = ground arith
      not_same Ordering.gt e = refl
  without-last k k0 v0 ((j, w) ∷ es) h = ground (arith, without-last k k0 v0 es h)

  overlay-last :
      (t : ValueType) (k v k0 v0 : List ℕ) (es : List Entry)
      → is_lt (c.compare_keys k k0) ≡ true
      → overlay c t k v (es ++ ((k0, v0) ∷ [])) ≡ overlay c t k v es ++ ((k0, v0) ∷ [])
  unfolding overlay
  overlay-last type_deletion k v k0 v0 es h = without-last k k0 v0 es h
  overlay-last type_value k v k0 v0 es h = ap (λ r. (k, v) ∷ r) (without-last k k0 v0 es h)

  pub shown_back-last :
      (rs : List Update) (k0 v0 : List ℕ) (es : List Entry)
      → All (λ (u : Update). is_lt (c.compare_keys u.0.user_key k0) ≡ true) rs
      → shown_back c s rs (es ++ ((k0, v0) ∷ [])) ≡ shown_back c s rs es ++ ((k0, v0) ∷ [])
  unfolding shown_back
  shown_back-last [] k0 v0 es h = refl
  shown_back-last ((p, v) ∷ rs) k0 v0 es h = elim (Bool-cases (ltb s p.sequence)) [
    | inl newer ↦ rw newer (shown_back-last rs k0 v0 es h.1)
    | inr old ↦
        rw (old, overlay-last p.type p.user_key v k0 v0 es h.0)
          (shown_back-last rs k0 v0 (overlay c p.type p.user_key v es) h.1)
  ]

  pub keys_below :
      (k k0 : List ℕ) (rs : List Update)
      → is_lt (c.compare_keys k k0) ≡ true
      → NoneAfter c k rs
      → All (λ (u : Update). is_lt (c.compare_keys u.0.user_key k0) ≡ true) rs
  keys_below k k0 [] h a = tt
  keys_below k k0 ((p, v) ∷ rs) h a = (
    sym (total.flip k0 p.user_key) ∙ total.after k0 k p.user_key (total.flip k0 k ∙ h) a.0,
    keys_below k k0 rs h a.1,
  )

  pub equal_keys :
      (k k0 : List ℕ)
      → is_lt (c.compare_keys k k0) ≡ false
      → is_lt (c.compare_keys k0 k) ≡ false
      → is_eq (c.compare_keys k0 k) ≡ true
  equal_keys k k0 h g = neither (c.compare_keys k0 k) (total.flip k0 k ∙ h) g
    where
      neither : (o : Ordering) → is_gt o ≡ false → is_lt o ≡ false → is_eq o ≡ true
      neither Ordering.lt e f = ground arith
      neither Ordering.eq e f = refl
      neither Ordering.gt e f = ground arith

pub length-unwind : (us rs : List Update) → length (unwind us rs) ≡ length us + length rs
unfolding unwind
length-unwind [] rs = omega arith
length-unwind (u ∷ us) rs = omega (arith, length-unwind us (u ∷ rs))
