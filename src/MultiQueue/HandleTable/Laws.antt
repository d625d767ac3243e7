-- ===== src/MultiQueue/HandleTable/Laws.antt =====
-- HandleTable as a map from keys to handles, its growing aside.
use ebf_leveldb_sep_kv.Base.{
  ℕ, ◌-◌, bit_and, List, [], ◌∷◌, ◌++◌, Option, none, some, true, false, ◌==◌, ==_iff, ◌&&◌,
  if◌then◌else◌, ◌≡◌, refl, ap, sym, ◌∙◌, arith, All, Bool-cases, inl, inr,
}
use ebf_leveldb_sep_kv.MultiQueue.HandleTable.{
  Entry, HandleTable, key_eq, is_entry, find_pointer, bucket, set_bucket, lookup, head_handle,
  next_of, put_at, link,
}

-- The handle of the first entry of a chain with the key.
unfoldable pub find : List ℕ → ℕ → List Entry → Option ℕ
find key hash [] = none
find key hash (e ∷ chain) =
    let rest = find key hash chain in if is_entry key hash e then some e.handle else rest

-- No key stands twice in a chain.
abbrev pub Distinct : List Entry → Type 0
Distinct [] = Unit
Distinct (e ∷ chain) = (find e.key e.hash chain ≡ none) × Distinct chain

-- Each entry stands in the bucket of its hash, once.
pub record IsTable (t : HandleTable) : Type 0 where
  pub placed : (i : ℕ) → All (λ e. bit_and e.hash (t.length - 1) ≡ i) (t.list i)
  pub distinct : (i : ℕ) → Distinct (t.list i)

pub key_eq→eq : (a b : List ℕ) → key_eq a b ≡ true → a ≡ b
key_eq→eq [] [] h = refl
key_eq→eq [] (b ∷ bs) h = cc
key_eq→eq (a ∷ k) [] h = cc
key_eq→eq (a ∷ k) (b ∷ bs) h = ground (arith, key_eq→eq k bs)

pub key_eq_self : (a : List ℕ) → key_eq a a ≡ true
key_eq_self [] = refl
key_eq_self (a ∷ k) = ground (arith, key_eq_self k)

pub is_entry→eq :
    (key : List ℕ) (hash : ℕ) (e : Entry)
    → is_entry key hash e ≡ true
    → (e.hash ≡ hash) × (e.key ≡ key)
unfolding is_entry
is_entry→eq key hash e h = (ground arith, key_eq→eq e.key key (ground arith))

pub is_entry_self : (e : Entry) → is_entry e.key e.hash e ≡ true
unfolding is_entry
is_entry_self e = ground (arith, key_eq_self e.key)

-- Two entries with one key and hash answer to the same searches.
same_answers :
    (c e : Entry) (key : List ℕ) (hash : ℕ)
    → is_entry e.key e.hash c ≡ true
    → is_entry key hash c ≡ is_entry key hash e
unfolding is_entry
same_answers c e key hash h =
    let (same_hash, same_key) = is_entry→eq e.key e.hash c h in rw (same_hash, same_key)

-- An entry that another one does not answer for is not found by its searches.
clash :
    (c e : Entry) (key : List ℕ) (hash : ℕ)
    → is_entry e.key e.hash c ≡ false
    → is_entry key hash e ≡ true
    → is_entry key hash c ≡ false
clash c e key hash h found =
    let (same_hash, same_key) = is_entry→eq key hash e found in rw (same_hash, same_key) at h

same_test :
    (c : Entry) (k key : List ℕ) (h hash : ℕ)
    → is_entry k h c ≡ true
    → is_entry key hash c ≡ ((h == hash) && key_eq k key)
unfolding is_entry
same_test c k key h hash same =
    let (same_hash, same_key) = is_entry→eq k h c same in rw (same_hash, same_key)

other_test :
    (c : Entry) (k key : List ℕ) (h hash : ℕ)
    → is_entry k h c ≡ false
    → ((h == hash) && key_eq k key) ≡ true
    → is_entry key hash c ≡ false
other_test c k key h hash other same =
    let same_hash : h ≡ hash = ground arith in
    let same_key : k ≡ key = key_eq→eq k key (ground arith) in rw (same_hash, same_key) at other

pub find_same :
    (c : Entry) (key : List ℕ) (hash : ℕ) (chain : List Entry)
    → is_entry key hash c ≡ true
    → find c.key c.hash chain ≡ find key hash chain
find_same c key hash chain h =
    let (same_hash, same_key) = is_entry→eq key hash c h in rw (same_hash, same_key)

head_handle-find :
    (key : List ℕ) (hash : ℕ) (chain : List Entry)
    → head_handle (find_pointer key hash chain).1 ≡ find key hash chain
unfolding find_pointer find
head_handle-find key hash [] = refl
head_handle-find key hash (e ∷ chain) = ground (arith, head_handle-find key hash chain)

pub lookup-find :
    (t : HandleTable) (key : List ℕ) (hash : ℕ)
    → lookup t key hash ≡ find key hash (t.list (bucket t hash))
unfolding lookup
lookup-find t key hash = head_handle-find key hash (t.list (bucket t hash))

-- A chain after Insert and after Remove.
abbrev pub put_chain : Entry → List Entry → List Entry
put_chain e chain =
    (find_pointer e.key e.hash chain).0 ++ put_at e (find_pointer e.key e.hash chain).1

abbrev pub cut_chain : List ℕ → ℕ → List Entry → List Entry
cut_chain key hash chain =
    (find_pointer key hash chain).0 ++ next_of (find_pointer key hash chain).1

pub find-put_chain :
    (e : Entry) (key : List ℕ) (hash : ℕ) (chain : List Entry)
    → find key hash (put_chain e chain)
      ≡ (if is_entry key hash e then some e.handle else find key hash chain)
unfolding find_pointer find
find-put_chain e key hash [] = refl
find-put_chain e key hash (c ∷ chain) = elim (Bool-cases (is_entry e.key e.hash c)) [
  | inl same ↦ rw same (ground (arith, same_answers c e key hash same))
  | inr other ↦
      rw (other, find_pointer, find)
        (ground (arith, find-put_chain e key hash chain, clash c e key hash other))
]

pub find-cut_chain :
    (k key : List ℕ) (h hash : ℕ) (chain : List Entry)
    → Distinct chain
    → find key hash (cut_chain k h chain)
      ≡ (if (h == hash) && key_eq k key then none else find key hash chain)
unfolding find_pointer find
find-cut_chain k key h hash [] d = ground arith
find-cut_chain k key h hash (c ∷ chain) d = elim (Bool-cases (is_entry k h c)) [
  | inl same ↦
      rw (same, find_pointer)
        (ground (arith, same_test c k key h hash same, find_same c key hash chain, d.0))
  | inr other ↦
      rw (other, find_pointer, find)
        (ground (arith, find-cut_chain k key h hash chain d.1, other_test c k key h hash other))
]

is_entry_symm : (c e : Entry) → is_entry e.key e.hash c ≡ false → is_entry c.key c.hash e ≡ false
is_entry_symm c e h = elim (Bool-cases (is_entry c.key c.hash e)) [
  | inl same ↦ cc (is_entry_self c, clash c e c.key c.hash h same)
  | inr other ↦ other
]

pub put_chain-Distinct :
    (e : Entry) (chain : List Entry) → Distinct chain → Distinct (put_chain e chain)
unfolding find_pointer
put_chain-Distinct e [] d = (unfold find in refl, tt)
put_chain-Distinct e (c ∷ chain) d = elim (Bool-cases (is_entry e.key e.hash c)) [
  | inl same ↦ rw same (sym (find_same c e.key e.hash chain same) ∙ d.0, d.1)
  | inr other ↦
      rw (other, find_pointer)
        (
          find-put_chain e c.key c.hash chain ∙ rw (is_entry_symm c e other) d.0,
          put_chain-Distinct e chain d.1,
        )
]

cut_chain-Distinct :
    (key : List ℕ) (hash : ℕ) (chain : List Entry)
    → Distinct chain
    → Distinct (cut_chain key hash chain)
unfolding find_pointer
cut_chain-Distinct key hash [] d = tt
cut_chain-Distinct key hash (c ∷ chain) d = elim (Bool-cases (is_entry key hash c)) [
  | inl same ↦ rw same d.1
  | inr other ↦
      rw (other, find_pointer)
        (
          find-cut_chain key c.key hash c.hash chain d.1 ∙ ground (arith, d.0),
          cut_chain-Distinct key hash chain d.1,
        )
]

module _ (P : Entry → Type 0) where
  put_chain-All : (e : Entry) (chain : List Entry) → P e → All P chain → All P (put_chain e chain)
  unfolding find_pointer
  put_chain-All e [] p h = (p, tt)
  put_chain-All e (c ∷ chain) p h = elim (Bool-cases (is_entry e.key e.hash c)) [
    | inl same ↦ rw same (p, h.1)
    | inr other ↦ rw (other, find_pointer) (h.0, put_chain-All e chain p h.1)
  ]

  cut_chain-All :
      (key : List ℕ) (hash : ℕ) (chain : List Entry)
      → All P chain
      → All P (cut_chain key hash chain)
  unfolding find_pointer
  cut_chain-All key hash [] h = tt
  cut_chain-All key hash (c ∷ chain) h = elim (Bool-cases (is_entry key hash c)) [
    | inl same ↦ rw same h.1
    | inr other ↦ rw (other, find_pointer) (h.0, cut_chain-All key hash chain h.1)
  ]

pub link-IsTable : (t : HandleTable) (h : Entry) → IsTable t → IsTable (link t h)
link-IsTable t h v = record {
  placed = λ i. elim (Bool-cases (i == bucket t h.hash)) [
    | inl here ↦ rw here (
        put_chain-All (λ e. bit_and e.hash (t.length - 1) ≡ i) h (t.list (bucket t h.hash))
          (sym ((==_iff i (bucket t h.hash)).0 here))
          (rw (← (==_iff i (bucket t h.hash)).0 here) (v.placed i)))
    | inr there ↦ rw there (v.placed i)
  ];
  distinct = λ i. elim (Bool-cases (i == bucket t h.hash)) [
    | inl here ↦
        rw here (put_chain-Distinct h (t.list (bucket t h.hash)) (v.distinct (bucket t h.hash)))
    | inr there ↦ rw there (v.distinct i)
  ];
}

pub lookup-link :
    (t : HandleTable) (h : Entry) (key : List ℕ) (hash : ℕ)
    → lookup (link t h) key hash
      ≡ (if is_entry key hash h then some h.handle else lookup t key hash)
lookup-link t h key hash =
    rw (lookup-find (link t h) key hash, lookup-find t key hash)
      (elim (Bool-cases (bucket t hash == bucket t h.hash)) [
        | inl here ↦
            rw here
              (find-put_chain h key hash (t.list (bucket t h.hash)) ∙ rw ((==_iff _ _).0 here))
        | inr there ↦ rw there (elim (Bool-cases (is_entry key hash h)) [
          | inl same ↦ cc (
              (==_iff (bucket t hash) (bucket t h.hash)).1
                (ap (bucket t) (sym (is_entry→eq key hash h same).0)))
          | inr other ↦ rw other
        ])
      ])

unfoldable pub unlink : HandleTable → List ℕ → ℕ → HandleTable
unlink t key hash = record t {
  elems = t.elems - 1;
  list = set_bucket t.list (bucket t hash) (cut_chain key hash (t.list (bucket t hash)));
}

pub unlink-IsTable : (t : HandleTable) (k : List ℕ) (h : ℕ) → IsTable t → IsTable (unlink t k h)
unfolding unlink
unlink-IsTable t k h v = record {
  placed = λ i. elim (Bool-cases (i == bucket t h)) [
    | inl here ↦ rw here (
        cut_chain-All (λ e. bit_and e.hash (t.length - 1) ≡ i) k h (t.list (bucket t h))
          (rw (← (==_iff i (bucket t h)).0 here) (v.placed i)))
    | inr there ↦ rw there (v.placed i)
  ];
  distinct = λ i. elim (Bool-cases (i == bucket t h)) [
    | inl here ↦ rw here (cut_chain-Distinct k h (t.list (bucket t h)) (v.distinct (bucket t h)))
    | inr there ↦ rw there (v.distinct i)
  ];
}

pub lookup-unlink :
    (t : HandleTable) (k : List ℕ) (h : ℕ) (key : List ℕ) (hash : ℕ)
    → IsTable t
    → lookup (unlink t k h) key hash
      ≡ (if (h == hash) && key_eq k key then none else lookup t key hash)
unfolding unlink
lookup-unlink t k h key hash v =
    rw (lookup-find (unlink t k h) key hash, lookup-find t key hash)
      (elim (Bool-cases (bucket t hash == bucket t h)) [
        | inl here ↦ rw here (
            find-cut_chain k key h hash (t.list (bucket t h)) (v.distinct (bucket t h))
            ∙ rw ((==_iff (bucket t hash) (bucket t h)).0 here))
        | inr there ↦ rw there (elim (Bool-cases (h == hash)) [
          | inl same ↦ cc (
              (==_iff (bucket t hash) (bucket t h)).1
                (ap (bucket t) (sym ((==_iff h hash).0 same))))
          | inr other ↦ rw other
        ])
      ])
