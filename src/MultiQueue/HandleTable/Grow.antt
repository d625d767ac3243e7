-- ===== src/MultiQueue/HandleTable/Grow.antt =====
-- HandleTable through Resize, and Insert and Remove as a map's.
use ebf_leveldb_sep_kv.Base.{
  ℕ, zero, suc, ◌+◌, ◌-◌, ◌≤◌, ◌<◌, bit_and, List, [], ◌∷◌, Option, none, some, true, ltb, ◌==◌,
  ==_iff, ◌&&◌, if◌then◌else◌, ◌≡◌, refl, ap, sym, ◌∙◌, arith, All, Bool-cases, inl, inr,
  Option-cases, ℕ_discrete, ◌≢◌,
}
use ebf_leveldb_sep_kv.Base.Bits.{bit_and-le}
use ebf_leveldb_sep_kv.MultiQueue.HandleTable.{
  Entry, HandleTable, key_eq, is_entry, bucket, set_bucket, lookup, link, grow, first_length,
  rehash_chain, rehash, resize, insert, remove,
}
use ebf_leveldb_sep_kv.MultiQueue.HandleTable.Laws.{
  find, Distinct, IsTable, key_eq→eq, is_entry→eq, find_same, lookup-find, link-IsTable,
  lookup-link, unlink, unlink-IsTable, lookup-unlink,
}

abbrev or_else : Option ℕ → Option ℕ → Option ℕ
or_else none b = b
or_else (some a) b = some a

or_else-none : (o : Option ℕ) → or_else o none ≡ o
or_else-none none = refl
or_else-none (some a) = refl

module _ (n key_hash : ℕ) (key : List ℕ) where
  abbrev home : ℕ
  home = bit_and key_hash (n - 1)

  -- What a search finds once a chain's entries are pushed on the new buckets.
  rehash_chain-find :
      (chain : List Entry) (list : ℕ → List Entry)
      → Distinct chain
      → find key key_hash (rehash_chain n chain list home)
        ≡ or_else (find key key_hash chain) (find key key_hash (list home))
  unfolding rehash_chain find
  rehash_chain-find [] list d = refl
  rehash_chain-find (e ∷ chain) list d = elim (Bool-cases (is_entry key key_hash e)) [
    | inl found ↦
        let at_home : (home == bit_and e.hash (n - 1)) ≡ true =
          (==_iff home (bit_and e.hash (n - 1))).1
            (ap (λ (h : ℕ). bit_and h (n - 1)) (sym (is_entry→eq key key_hash e found).0)) in
        ground (
          arith,
          rehash_chain-find chain
              (set_bucket list (bit_and e.hash (n - 1)) (e ∷ list (bit_and e.hash (n - 1)))) d.1,
          at_home,
          d.0,
          find_same e key key_hash chain found,
        )
    | inr other ↦ ground (
      arith,
      rehash_chain-find chain
          (set_bucket list (bit_and e.hash (n - 1)) (e ∷ list (bit_and e.hash (n - 1)))) d.1,
      other,
      ==_iff home (bit_and e.hash (n - 1)),
    )
  ]

-- A chain of another bucket holds nothing of this hash.
absent :
    (m j hash : ℕ) (key : List ℕ) (chain : List Entry)
    → All (λ e. bit_and e.hash m ≡ j) chain
    → j ≢ bit_and hash m
    → find key hash chain ≡ none
unfolding find
absent m j hash key [] p h = refl
absent m j hash key (e ∷ chain) p h = elim (Bool-cases (is_entry key hash e)) [
  | inl found ↦ absurd (h (sym p.0 ∙ ap (λ (x : ℕ). bit_and x m) (is_entry→eq key hash e found).0))
  | inr other ↦ rw other (absent m j hash key chain p.1 h)
]

module _ (n key_hash : ℕ) (key : List ℕ) (old : ℕ → List Entry)
    (distinct : (j : ℕ) → Distinct (old j)) (b : ℕ)
    (others : (j : ℕ) → j ≢ b → find key key_hash (old j) ≡ none) where
  rehash_past :
      (left i : ℕ) (list : ℕ → List Entry)
      → b < i
      → find key key_hash (rehash n left i old list (home n key_hash key))
        ≡ find key key_hash (list (home n key_hash key))
  unfolding rehash
  rehash_past zero i list h = refl
  rehash_past (suc left) i list h =
      rehash_past left (i + 1) (rehash_chain n (old i) list) (omega arith)
      ∙ rehash_chain-find n key_hash key (old i) list (distinct i)
      ∙ rw (others i (omega arith)) refl

  rehash_through :
      (left i : ℕ) (list : ℕ → List Entry)
      → i ≤ b
      → b < i + left
      → find key key_hash (rehash n left i old list (home n key_hash key))
        ≡ or_else (find key key_hash (old b)) (find key key_hash (list (home n key_hash key)))
  unfolding rehash
  rehash_through zero i list h k = absurd (omega arith)
  rehash_through (suc left) i list h k = elim (ℕ_discrete i b) [
    | yes here ↦
        rehash_past left (i + 1) (rehash_chain n (old i) list) (omega arith)
        ∙ rehash_chain-find n key_hash key (old i) list (distinct i)
        ∙ rw here refl
    | no ahead ↦
        rehash_through left (i + 1) (rehash_chain n (old i) list) (omega arith) (omega arith)
        ∙ rw (rehash_chain-find n key_hash key (old i) list (distinct i), others i ahead) refl
  ]

-- Where each entry of a table with a bucket stands once and in its bucket, Resize changes no
-- lookup.
pub lookup-resize :
    (t : HandleTable) (key : List ℕ) (hash : ℕ)
    → 0 < t.length
    → IsTable t
    → lookup (resize t) key hash ≡ lookup t key hash
unfolding resize find
lookup-resize t key hash positive v =
    rw (lookup-find (resize t) key hash, lookup-find t key hash)
      (rehash_through (grow 33 t.elems first_length) hash key t.list v.distinct (bucket t hash)
          (λ j ne. absent (t.length - 1) j hash key (t.list j) (v.placed j) ne) t.length 0 (λ i. [])
          (omega arith) (omega (arith, bit_and-le hash (t.length - 1)))
        ∙ or_else-none (find key hash (t.list (bucket t hash))))

-- Where each entry of a table with a bucket stands once and in its bucket, Insert answers with
-- the handle that the key had. Afterwards the key finds the new handle and
-- every other key what it found before, also when the table grew.
pub lookup-insert :
    (t : HandleTable) (h : Entry) (key : List ℕ) (hash : ℕ)
    → 0 < t.length
    → IsTable t
    → (lookup (insert t h).0 key hash
        ≡ (if is_entry key hash h then some h.handle else lookup t key hash))
      × ((insert t h).1 ≡ lookup t h.key h.hash)
unfolding insert
lookup-insert t h key hash positive v = elim (Option-cases (lookup t h.key h.hash)) [
  | inr (old, e) ↦ rw (e, insert) (lookup-link t h key hash, refl)
  | inl e ↦ rw (e, insert) (fresh, refl)
]
  where
    t' : HandleTable
    t' = record (link t h) { elems = t.elems + 1 }

    v' : IsTable t'
    v' = record { placed = (link-IsTable t h v).placed; distinct = (link-IsTable t h v).distinct }

    linked : lookup t' key hash ≡ (if is_entry key hash h then some h.handle else lookup t key hash)
    linked =
        lookup-find t' key hash ∙ sym (lookup-find (link t h) key hash) ∙ lookup-link t h key hash

    fresh :
        lookup (if ltb t'.length t'.elems then resize t' else t') key hash
        ≡ (if is_entry key hash h then some h.handle else lookup t key hash)
    fresh = elim (Bool-cases (ltb t'.length t'.elems)) [
      | inl grows ↦ rw grows (lookup-resize t' key hash positive v' ∙ linked)
      | inr stays ↦ rw stays linked
    ]

-- Where each entry stands once and in its bucket, Remove answers with the handle that the key had. Afterwards the key finds nothing, every
-- other key finds what it found before, and each entry still stands once in its bucket.
pub lookup-remove :
    (t : HandleTable) (k : List ℕ) (h : ℕ) (key : List ℕ) (hash : ℕ)
    → IsTable t
    → (lookup (remove t k h).0 key hash
        ≡ (if (h == hash) && key_eq k key then none else lookup t key hash))
      × ((remove t k h).1 ≡ lookup t k h)
      × IsTable (remove t k h).0
unfolding remove unlink
lookup-remove t k h key hash v = elim (Option-cases (lookup t k h)) [
  | inr (old, e) ↦ rw (e, remove) (lookup-unlink t k h key hash v, refl, unlink-IsTable t k h v)
  | inl e ↦ rw (e, remove) (missing e, refl, v)
]
  where
    missing :
        lookup t k h ≡ none
        → lookup t key hash ≡ (if (h == hash) && key_eq k key then none else lookup t key hash)
    missing e = elim (Bool-cases ((h == hash) && key_eq k key)) [
      | inl same ↦
          let same_hash : h ≡ hash = ground arith in
          let same_key : k ≡ key = key_eq→eq k key (ground arith) in
          rw same (rw (same_hash, same_key) at e)
      | inr other ↦ rw other
    ]
