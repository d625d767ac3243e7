-- ===== src/Merger/Smallest.antt =====
-- table/merger.cc: the child that FindSmallest chooses.
use ebf_leveldb_sep_kv.Base.{
  ℕ, suc, ◌+◌, List, [], ◌∷◌, none, some, Bool, true, false, if◌then◌else◌, ◌≡◌, refl, sym, ◌∙◌,
  ◌⊎◌, arith, All, Bool-cases, inl, inr,
}
use Prim.Native.Nat.{Ordering}
use ebf_leveldb_sep_kv.Comparator.{Comparator}
use ebf_leveldb_sep_kv.DbFormat.{is_lt}
use ebf_leveldb_sep_kv.VersionSet.{is_gt}
use ebf_leveldb_sep_kv.Iterator.{Entry, Cursor, at, off}
use ebf_leveldb_sep_kv.DbIter.Visible.{IsTotal}
use ebf_leveldb_sep_kv.Merger.{Candidate, smaller, smallest_from, child_at}

-- The entries from a cursor on.
abbrev pub ahead : Cursor → List Entry
ahead (at front e back) = e ∷ back
ahead (off es) = []

-- A child with nothing ahead, and one whose key is not before the given one.
abbrev pub IsOff : Cursor → Type 0
IsOff child = ahead child ≡ []

abbrev pub NotBefore : Comparator → List ℕ → Cursor → Type 0
NotBefore c key (at front (k, v) back) = is_lt (c.compare_keys k key) ≡ false
NotBefore c key (off es) = Unit

abbrev pub OnKey : List ℕ → Cursor → Type 0
OnKey key (at front (k, v) back) = k ≡ key
OnKey key (off es) = ⊥

abbrev pub NotBeforeBest : Comparator → List ℕ → Candidate → Type 0
NotBeforeBest c key none = Unit
NotBeforeBest c key (some (i, k)) = is_lt (c.compare_keys k key) ≡ false

-- The chosen child among those from number `j` on.
abbrev pub Place : ℕ → ℕ → List ℕ → List Cursor → Type 0
Place j i k children = (n : ℕ) × (i ≡ j + n) × OnKey k (child_at children n)

-- What the loop makes of the best candidate so far and the children from number `j` on.
abbrev pub Chosen : Comparator → ℕ → Candidate → Candidate → List Cursor → Type 0
Chosen c j best none children = (best ≡ none) × All IsOff children
Chosen c j best (some (i, k)) children =
    ((best ≡ some (i, k)) ⊎ Place j i k children)
    × All (NotBefore c k) children
    × NotBeforeBest c k best

moved :
    (j i : ℕ) (k : List ℕ) (child : Cursor) (children : List Cursor)
    → Place (suc j) i k children
    → Place j i k (child ∷ children)
unfolding child_at
moved j i k child children (n, e, on) = (suc n, omega arith, on)

placed :
    (j i : ℕ) (k key : List ℕ) (front : List Entry) (v : List ℕ) (back : List Entry)
    (children : List Cursor)
    → (◌≡◌ {A = Candidate} (some (j, k)) (some (i, key))) ⊎ Place (suc j) i key children
    → Place j i key (at front (k, v) back ∷ children)
unfolding child_at
placed j i k key front v back children (inl e) = let number : j ≡ i = cc in (0, omega arith, (cc))
placed j i k key front v back children (inr m) = moved j i key (at front (k, v) back) children m

module _ (c : Comparator) (total : IsTotal c) where
  not_both : (o : Ordering) → is_gt o ≡ true → is_lt o ≡ false
  not_both Ordering.lt h = absurd (cc)
  not_both Ordering.eq h = refl
  not_both Ordering.gt h = refl

  asym : (x y : List ℕ) → is_lt (c.compare_keys x y) ≡ true → is_lt (c.compare_keys y x) ≡ false
  asym x y h = not_both (c.compare_keys y x) (total.flip y x ∙ h)

  pub not_lt_trans :
      (x y z : List ℕ)
      → is_lt (c.compare_keys x y) ≡ false
      → is_lt (c.compare_keys y z) ≡ false
      → is_lt (c.compare_keys x z) ≡ false
  not_lt_trans x y z h g = elim (Bool-cases (is_lt (c.compare_keys x z))) [
    | inr no_less ↦ no_less
    | inl less ↦
        let zy = total.after z x y (total.flip z x ∙ less) h in
        absurd (clash (is_lt (c.compare_keys y z)) (sym (total.flip z y) ∙ zy) g)
  ]
    where
      clash : (b : Bool) → b ≡ true → b ≡ false → ⊥
      clash b p q = cc

  off_choice :
      (j : ℕ) (best r : Candidate) (es : List Entry) (children : List Cursor)
      → Chosen c (suc j) best r children
      → Chosen c j best r (off es ∷ children)
  off_choice j best none es children h = (h.0, (refl, h.1))
  off_choice j best (some (i, k)) es children h =
      (elim h.0 [ inl e ↦ inl e | inr m ↦ inr (moved j i k (off es) children m) ], (tt, h.1), h.2)

  on_choice_of :
      (b : Bool) (j i0 : ℕ) (k0 : List ℕ) (r : Candidate) (front : List Entry) (k v : List ℕ)
      (back : List Entry) (children : List Cursor)
      → is_lt (c.compare_keys k k0) ≡ b
      → Chosen c (suc j) (if b then some (j, k) else some (i0, k0)) r children
      → Chosen c j (some (i0, k0)) r (at front (k, v) back ∷ children)
  on_choice_of true j i0 k0 none front k v back children e h = absurd (cc (h.0))
  on_choice_of true j i0 k0 (some (i, key)) front k v back children e h = (
    inr (placed j i k key front v back children h.0),
    (h.2, h.1),
    not_lt_trans k0 k key (asym k k0 e) h.2,
  )
  on_choice_of false j i0 k0 none front k v back children e h = absurd (cc (h.0))
  on_choice_of false j i0 k0 (some (i, key)) front k v back children e h = (
    elim h.0 [ inl s ↦ inl s | inr m ↦ inr (moved j i key (at front (k, v) back) children m) ],
    (not_lt_trans k k0 key e h.2, h.1),
    h.2,
  )

  on_choice :
      (j : ℕ) (best r : Candidate) (front : List Entry) (k v : List ℕ) (back : List Entry)
      (children : List Cursor)
      → Chosen c (suc j) (smaller c j (at front (k, v) back) best) r children
      → Chosen c j best r (at front (k, v) back ∷ children)
  unfolding smaller
  on_choice j none none front k v back children h = absurd (cc (h.0))
  on_choice j none (some (i, key)) front k v back children h =
      (inr (placed j i k key front v back children h.0), (h.2, h.1), tt)
  on_choice j (some (i0, k0)) r front k v back children h =
      on_choice_of (is_lt (c.compare_keys k k0)) j i0 k0 r front k v back children refl h

  pub smallest_from-Chosen :
      (j : ℕ) (best : Candidate) (children : List Cursor)
      → Chosen c j best (smallest_from c j best children) children
  unfolding smallest_from smaller
  smallest_from-Chosen j none [] = (refl, tt)
  smallest_from-Chosen j (some (i, k)) [] = (inl refl, tt, not_before_self k)
    where
      not_before_self : (k : List ℕ) → is_lt (c.compare_keys k k) ≡ false
      not_before_self k = rw (total.same k) refl
  smallest_from-Chosen j best (off es ∷ children) =
      off_choice j best (smallest_from c (suc j) best children) es children
        (smallest_from-Chosen (suc j) best children)
  smallest_from-Chosen j best (at front (k, v) back ∷ children) =
      let best' = smaller c j (at front (k, v) back) best in
      on_choice j best (smallest_from c (suc j) best' children) front k v back children
        (smallest_from-Chosen (suc j) best' children)
