-- ===== src/Merger/Merged.antt =====
-- table/merger.cc: SeekToFirst and Next merge what the children have.
use ebf_leveldb_sep_kv.Base.{
  ℕ, zero, suc, ◌+◌, ◌<◌, List, [], ◌∷◌, Option, none, some, false, if◌then◌else◌, length, ◌≡◌,
  refl, ap, sym, ◌∙◌, arith, All, All-map, inl, inr, map,
}
use mathlib.Core.Option as Option
use mathlib.Core.Path.{subst}
use ebf_leveldb_sep_kv.Comparator.{Comparator}
use ebf_leveldb_sep_kv.DbFormat.{is_lt}
use ebf_leveldb_sep_kv.Iterator.{
  Entry, Cursor, at, off, all_of, cursor_key, cursor_value, cursor_first, cursor_next,
}
use ebf_leveldb_sep_kv.DbIter.Visible.{IsTotal}
use ebf_leveldb_sep_kv.Merger.{
  MergingIterator, forward, Candidate, smallest_from, number_of, find_smallest, child_at,
  current_child, merged_key, merged_value, valid, turned_forward, change_at, next_of, next,
  seek_to_first,
}
use ebf_leveldb_sep_kv.Merger.Smallest.{
  ahead, IsOff, NotBefore, OnKey, Chosen, not_lt_trans, smallest_from-Chosen,
}

-- One of some lists begins with `e`, and without it they are the others.
pub data Takes : List (List Entry) → Entry → List (List Entry) → Type 0 where
  here : {es : List Entry} {ls : List (List Entry)} (e : Entry) → Takes ((e ∷ es) ∷ ls) e (es ∷ ls)
  there :
      {ls ms : List (List Entry)} {e : Entry} (es : List Entry)
      → Takes ls e ms
      → Takes (es ∷ ls) e (es ∷ ms)

-- A list that is put together from some lists, each in its order.
pub data Merges : List (List Entry) → List Entry → Type 0 where
  done : {ls : List (List Entry)} → All (λ (l : List Entry). l ≡ []) ls → Merges ls []
  pick :
      {ls ms : List (List Entry)} {e : Entry} {es : List Entry}
      → Takes ls e ms
      → Merges ms es
      → Merges ls (e ∷ es)

-- `for (it->SeekToFirst(); it->Valid(); it->Next())` from an iterator on.
unfoldable pub merged_entries : Comparator → ℕ → MergingIterator → Option (List Entry)
merged_entries c zero m = none
merged_entries c (suc fuel) m =
    let rest = merged_entries c fuel (next c m) in
    if valid m then Option.map (λ es. (merged_key m, merged_value m) ∷ es) rest else some []

-- No key is before one in front of it.
abbrev pub IsNonDescending : Comparator → List Entry → Type 0
IsNonDescending c [] = Unit
IsNonDescending c ((k, v) ∷ es) =
    All (λ (e : Entry). is_lt (c.compare_keys e.0 k) ≡ false) es × IsNonDescending c es

abbrev pub size : List (List Entry) → ℕ
size [] = 0
size (l ∷ ls) = length l + size ls

abbrev NoneBefore : Comparator → List ℕ → List Entry → Type 0
NoneBefore c key es = All (λ (e : Entry). is_lt (c.compare_keys e.0 key) ≡ false) es

abbrev aheads : List Cursor → List (List Entry)
aheads children = map ahead children

ahead-next : (f : List Entry) (e : Entry) (b : List Entry) → ahead (cursor_next (at f e b)) ≡ b
unfolding cursor_next
ahead-next f e [] = refl
ahead-next f e (x ∷ b) = refl

off-empty :
    (children : List Cursor)
    → All IsOff children
    → All (λ (l : List Entry). l ≡ []) (aheads children)
off-empty [] h = tt
off-empty (child ∷ children) h = (h.0, off-empty children h.1)

on_cases :
    (k : List ℕ) (x : Cursor)
    → OnKey k x
    → (f : List Entry) × (v : List ℕ) × (b : List Entry) × (x ≡ at f (k, v) b)
on_cases k (at f (k', v) b) h = (f, v, b, ap (λ t. at f (t, v) b) h)
on_cases k (off es) h = absurd h

-- Moving the child of a number takes its entry.
Takes-change_at :
    (children : List Cursor) (i : ℕ) (f : List Entry) (e : Entry) (b : List Entry)
    → child_at children i ≡ at f e b
    → Takes (aheads children) e (aheads (change_at cursor_next i children))
unfolding child_at change_at
Takes-change_at [] i f e b h = absurd (cc)
Takes-change_at (child ∷ children) zero f e b h =
    subst
      (λ (x : Cursor).
        Takes (ahead x ∷ aheads children) e (ahead (cursor_next x) ∷ aheads children))
      (sym h)
      (subst (λ (l : List Entry). Takes ((e ∷ b) ∷ aheads children) e (l ∷ aheads children))
        (sym (ahead-next f e b)) (here e))
Takes-change_at (child ∷ children) (suc i) f e b h =
    there (ahead child) (Takes-change_at children i f e b h)

Takes-size : {ls ms : List (List Entry)} {e : Entry} → Takes ls e ms → size ls ≡ suc (size ms)
Takes-size (here e) = omega arith
Takes-size (there es t) = omega (arith, Takes-size t)

Takes-NonDescending :
    (c : Comparator) {ls ms : List (List Entry)} {e : Entry}
    → Takes ls e ms
    → All (IsNonDescending c) ls
    → All (IsNonDescending c) ms
Takes-NonDescending c (here e) h = (h.0.1, h.1)
Takes-NonDescending c (there es t) h = (h.0, Takes-NonDescending c t h.1)

Takes-NoneBefore :
    (c : Comparator) (k : List ℕ) {ls ms : List (List Entry)} {e : Entry}
    → Takes ls e ms
    → All (NoneBefore c k) ls
    → (is_lt (c.compare_keys e.0 k) ≡ false) × All (NoneBefore c k) ms
Takes-NoneBefore c k (here e) h = (h.0.0, (h.0.1, h.1))
Takes-NoneBefore c k (there es t) h =
    let rest = Takes-NoneBefore c k t h.1 in (rest.0, (h.0, rest.1))

Merges-NoneBefore :
    (c : Comparator) (k : List ℕ) {ls : List (List Entry)} {es : List Entry}
    → Merges ls es
    → All (NoneBefore c k) ls
    → NoneBefore c k es
Merges-NoneBefore c k (done empty) h = tt
Merges-NoneBefore c k (pick t m) h =
    let both = Takes-NoneBefore c k t h in (both.0, Merges-NoneBefore c k m both.1)

module _ (c : Comparator) (total : IsTotal c) where
  -- In sorted children of which none is before a key, no entry ahead is.
  heads-NoneBefore :
      (k : List ℕ) (children : List Cursor)
      → All (NotBefore c k) children
      → All (IsNonDescending c) (aheads children)
      → All (NoneBefore c k) (aheads children)
  heads-NoneBefore k [] h s = tt
  heads-NoneBefore k (off es ∷ children) h s = (tt, heads-NoneBefore k children h.1 s.1)
  heads-NoneBefore k (at f (j, v) b ∷ children) h s = (
    (
      h.0,
      All-map (λ (e : Entry). is_lt (c.compare_keys e.0 j) ≡ false)
          (λ (e : Entry). is_lt (c.compare_keys e.0 k) ≡ false) b
          (λ e q. not_lt_trans c total e.0 j k q h.0) s.0.0,
    ),
    heads-NoneBefore k children h.1 s.1,
  )

  abbrev state : List Cursor → Candidate → MergingIterator
  state children r = record { children = children; current = number_of r; direction = forward }

  abbrev Merged : ℕ → List Cursor → Candidate → Type 0
  Merged fuel children r =
      (es : List Entry) × (merged_entries c fuel (state children r) ≡ some es)
      × Merges (aheads children) es
      × IsNonDescending c es

  round :
      (fuel : ℕ) (children : List Cursor) (r : Candidate)
      → Chosen c 0 none r children
      → All (IsNonDescending c) (aheads children)
      → size (aheads children) < suc fuel
      → ((cs : List Cursor)
          → All (IsNonDescending c) (aheads cs)
          → size (aheads cs) < fuel
          → Merged fuel cs (smallest_from c 0 none cs))
      → Merged (suc fuel) children r
  unfolding merged_entries valid number_of next next_of find_smallest turned_forward merged_key
      merged_value current_child cursor_key cursor_value
  round fuel children none ch s lt ih = ([], refl, done (off-empty children ch.1), tt)
  round fuel children (some (i, k)) (inl absent, _, _) s lt ih = absurd (cc)
  round fuel children (some (i, k)) (inr (n, e, on), low, _) s lt ih =
      let (f, v, b, child) = on_cases k (child_at children n) on in
      let number : n ≡ i = omega arith in
      let child_i : child_at children i ≡ at f (k, v) b =
        ap (child_at children) (sym number) ∙ child in
      let t = Takes-change_at children i f (k, v) b child_i in
      let cs = change_at cursor_next i children in
      let (es, run, merges, sorted) =
        ih cs (Takes-NonDescending c t s) (omega (arith, Takes-size t)) in
      let low_rest = (Takes-NoneBefore c k t (heads-NoneBefore k children low s)).1 in
      (
        (k, v) ∷ es,
        rw (child_i, run) refl,
        pick t merges,
        (Merges-NoneBefore c k merges low_rest, sorted),
      )

  rounds :
      (fuel : ℕ) (children : List Cursor)
      → All (IsNonDescending c) (aheads children)
      → size (aheads children) < fuel
      → Merged fuel children (smallest_from c 0 none children)
  rounds zero children s lt = elim lt [ ]
  rounds (suc fuel) children s lt =
      round fuel children (smallest_from c 0 none children)
        (smallest_from-Chosen c total 0 none children) s lt (rounds fuel)

ahead-first : (es : List Entry) → ahead (cursor_first es) ≡ es
unfolding cursor_first
ahead-first [] = refl
ahead-first (e ∷ es) = refl

aheads-first :
    (children : List Cursor)
    → aheads (map (λ child. cursor_first (all_of child)) children) ≡ map all_of children
aheads-first [] = refl
aheads-first (child ∷ children) =
    ap (λ l. l ∷ aheads (map (λ x. cursor_first (all_of x)) children)) (ahead-first (all_of child))
    ∙ ap (λ ls. all_of child ∷ ls) (aheads-first children)

-- For a total order and children over entries in the order of their keys, in every state: SeekToFirst
-- and Next meet a merge of the children, with all entries of each in their order, and no key is
-- before one that was met earlier.
pub seek_to_first-Merges :
    (c : Comparator) (m : MergingIterator)
    → IsTotal c
    → All (IsNonDescending c) (map all_of m.children)
    → (es : List Entry) × (merged_entries c (suc (size (map all_of m.children))) (seek_to_first c m)
        ≡ some es)
      × Merges (map all_of m.children) es
      × IsNonDescending c es
unfolding seek_to_first find_smallest
seek_to_first-Merges c m total s =
    let first = map (λ child. cursor_first (all_of child)) m.children in
    let same = aheads-first m.children in
    let (es, run, merges, sorted) =
      rounds c total (suc (size (aheads first))) first
        (subst (All (IsNonDescending c)) (sym same) s) (omega arith) in
    (
      es,
      ap (λ ls. merged_entries c (suc (size ls)) (seek_to_first c m)) (sym same) ∙ run,
      subst (λ ls. Merges ls es) same merges,
      sorted,
    )
