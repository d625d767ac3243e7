-- ===== src/Block/Scan.antt =====
-- table/block.cc: the linear search of Seek against a scan of the entries ahead.
use ebf_leveldb_sep_kv.Base.{
  ℕ, zero, suc, ◌^◌, ◌<◌, List, [], ◌∷◌, ◌++◌, Option, none, some, true, false, ltb, ◌&&◌,
  if◌then◌else◌, length, ◌≡◌, refl, ap, ◌∙◌, arith, All, All-append_right, Bool-cases, inl, inr,
}
use mathlib.Core.Option as Option
use ebf_leveldb_sep_kv.Comparator.{Comparator}
use ebf_leveldb_sep_kv.DbFormat.{is_lt}
use ebf_leveldb_sep_kv.BlockBuilder.Encoded.{next_counter}
use ebf_leveldb_sep_kv.Block.{Iter, BlockStatus, ok, value, valid, search_entries}
use ebf_leveldb_sep_kv.Block.Parsed.{Ready, parse-end, parse-entry, parse-OnEntry, after, read}

-- A sorted block: each key is before those behind it.
abbrev pub IsAscending : Comparator → List (List ℕ × List ℕ) → Type 0
IsAscending c [] = Unit
IsAscending c ((k, v) ∷ es) =
    All (λ (e : List ℕ × List ℕ). is_lt (c.compare_keys k e.0) ≡ true) es × IsAscending c es

abbrev pub IsTransitive : Comparator → Type 0
IsTransitive c =
    (x y z : List ℕ)
    → is_lt (c.compare_keys x y) ≡ true
    → is_lt (c.compare_keys y z) ≡ true
    → is_lt (c.compare_keys x z) ≡ true

-- The scan: the first entry whose key is not before the target.
unfoldable pub first_not_before :
    Comparator → List ℕ → List (List ℕ × List ℕ) → Option (List ℕ × List ℕ)
first_not_before c target [] = none
first_not_before c target ((k, v) ∷ es) =
    let rest = first_not_before c target es in
    if is_lt (c.compare_keys k target) then rest else some (k, v)

-- Where an iterator stands: on an entry, or nowhere.
unfoldable pub position : Iter → Option (List ℕ × List ℕ)
position it = if valid it then some (it.key, value it) else none

-- Where a search leaves the iterator, and its status.
abbrev pub outcome : Iter → Option (List ℕ × List ℕ) × BlockStatus
outcome it = (position it, it.status)

module _ (c : Comparator) (target : List ℕ) where
  abbrev pub Before : List ℕ × List ℕ → Type 0
  Before e = is_lt (c.compare_keys e.0 target) ≡ true

  pub first_not_before-append :
      (pre post : List (List ℕ × List ℕ))
      → All Before pre
      → first_not_before c target (pre ++ post) ≡ first_not_before c target post
  unfolding first_not_before
  first_not_before-append [] post h = refl
  first_not_before-append ((k, v) ∷ pre) post h = rw h.0 (first_not_before-append pre post h.1)

  -- What is in front of a key that is before the target is before it too.
  pub front-Before :
      (pre : List (List ℕ × List ℕ)) (k v : List ℕ) (post : List (List ℕ × List ℕ))
      → IsTransitive c
      → IsAscending c (pre ++ ((k, v) ∷ post))
      → Before (k, v)
      → All Before pre
  front-Before [] k v post trans sorted h = tt
  front-Before ((j, w) ∷ pre) k v post trans sorted h = (
    trans j k target
        (All-append_right (λ (e : List ℕ × List ℕ). is_lt (c.compare_keys j e.0) ≡ true) pre
          ((k, v) ∷ post) sorted.0).0
        h,
    front-Before pre k v post trans sorted.1 h,
  )

  -- A round that ends on an entry.
  landed :
      (it' : Iter) (k v : List ℕ) (rest : Option Iter) (scan : Option (List ℕ × List ℕ))
      → it'.key ≡ k
      → value it' ≡ v
      → valid it' ≡ true
      → it'.status ≡ ok
      → Option.map outcome rest ≡ some (scan, ok)
      → Option.map outcome
          (if true && is_lt (c.compare_keys it'.key target) then rest else some it')
        ≡ some (if is_lt (c.compare_keys k target) then scan else some (k, v), ok)
  unfolding position
  landed it' k v rest scan ek ev here st ih =
      let same : is_lt (c.compare_keys it'.key target) ≡ is_lt (c.compare_keys k target) =
        ap (λ t. is_lt (c.compare_keys t target)) ek in
      elim (Bool-cases (is_lt (c.compare_keys k target))) [
        | inl less ↦ rw (same, less) ih
        | inr past ↦ rw (same, past, here, st) (cc)
      ]

  -- From a place in the block on, the linear search agrees with the scan of what is ahead.
  pub search_entries-scan :
      (interval fuel : ℕ) (it : Iter) (before : List ℕ) (counter : ℕ) (es : List (List ℕ × List ℕ))
      (tail : List ℕ)
      → Ready interval it before counter es tail
      → All (λ e. length e.0 < 2 ^ 32) es
      → length es < fuel
      → it.status ≡ ok
      → Option.map outcome (search_entries c target fuel it)
        ≡ some (first_not_before c target es, ok)
  unfolding search_entries first_not_before position valid
  search_entries-scan interval zero it before counter es tail r h lt e = elim lt [ ]
  search_entries-scan interval (suc fuel) it before counter [] tail r h lt e =
      let past : ltb it.restarts it.restarts ≡ false = ground arith in
      rw (parse-end interval it before counter tail r, past, e) refl
  search_entries-scan interval (suc fuel) it before counter ((k, v) ∷ es) tail r h lt e =
      let on = parse-OnEntry interval it before counter k v es tail r h.0 in
      let it' = after interval it before counter k v es tail r h.0 in
      let ih =
        search_entries-scan interval fuel it' (read interval it before counter k v es tail r h.0)
          (next_counter interval counter) es tail on.ahead h.1 (omega arith) (on.kept.status ∙ e) in
      let st : it'.status ≡ ok = on.kept.status ∙ e in
      rw (parse-entry interval it before counter k v es tail r h.0) (
        landed it' k v (search_entries c target fuel it') (first_not_before c target es) on.key
          on.value_lem on.valid_lem st ih)
