-- ===== src/FilterBlock/Built.antt =====
-- table/filter_block.cc: the builder's invariant, which GenerateFilter, AddKey and StartBlock
-- preserve, and the steps that TableBuilder takes with it.
use ebf_leveldb_sep_kv.Base.{
  ℕ, zero, suc, ◌+◌, ◌*◌, ◌^◌, ◌≤◌, ◌<◌, List, [], ◌∷◌, ◌++◌, some, ◌==◌, length, get_or, replicate,
  map, All, All-map, ◌≡◌, refl, sym, ap, ◌∙◌, arith, length-append, length-map, dec_lt, Bool-cases,
  inl, inr, ==_iff,
}
use mathlib.Core.List.{append-nil}
use mathlib.Core.Path.{subst}
use ebf_leveldb_sep_kv.Bloom.Multi.{
  multi_filter, create_filters, Answer, OwnFilters, key_may_match_filters-create_filters,
}
use ebf_leveldb_sep_kv.FilterBlock.{
  FilterBlockBuilder, push_offsets, tmp_keys, generate_filter, add_key,
}
use ebf_leveldb_sep_kv.FilterBlock.Pieces.{
  joined, starts, bounds, offsets_of, add_pieces, group_filters, joined-last, bounds-starts,
  tmp_keys-joined, OwnFilters-joined, OwnFilters-length, push_offsets-add_pieces, length-add_pieces,
  group_filters_old, group_filters_new, add_pieces-even,
}

-- The pieces behind a builder: `groups` are the keys of each index that has its filters, `pending`
-- those of the next one, and `cols` each child's filters.
pub record IsBuilt (bits : List ℕ) (groups : List (List (List ℕ))) (pending : List (List ℕ))
    (cols : List (List (List ℕ))) (b : FilterBlockBuilder) : Type 0 where
  pub keys : b.keys ≡ joined pending
  pub start : b.start ≡ starts 0 pending
  pub children : length cols ≡ length (multi_filter bits)
  pub even : All (λ col. length col ≡ length groups) cols
  pub results : b.results ≡ map joined cols
  pub offsets : b.filters_offsets ≡ map (offsets_of 0) cols
  pub found :
      (j : ℕ)
      → j < length groups
      → All (λ key. Answer key (multi_filter bits) (group_filters j cols)) (get_or groups j [])

get_or-append_left :
    (xs ys : List (List (List ℕ))) (j : ℕ) → j < length xs → get_or (xs ++ ys) j [] ≡ get_or xs j []
get_or-append_left [] ys j h = elim h [ ]
get_or-append_left (x ∷ xs) ys zero h = refl
get_or-append_left (x ∷ xs) ys (suc j) h = get_or-append_left xs ys j (omega arith)

get_or-append_end :
    (xs : List (List (List ℕ))) (y : List (List ℕ)) → get_or (xs ++ (y ∷ [])) (length xs) [] ≡ y
get_or-append_end [] y = refl
get_or-append_end (x ∷ xs) y = get_or-append_end xs y

OwnFilters-empty :
    (cols : List (List (List ℕ)))
    → OwnFilters (map joined cols) (replicate (length cols) []) (map joined cols)
OwnFilters-empty [] = tt
OwnFilters-empty (col ∷ cols) = (sym (append-nil (joined col)), OwnFilters-empty cols)

pub length-starts : (n : ℕ) (ks : List (List ℕ)) → length (starts n ks) ≡ length ks
length-starts n [] = refl
length-starts n (k ∷ ks) = ap suc (length-starts (n + length k) ks)

starts-last :
    (n : ℕ) (ks : List (List ℕ)) (k : List ℕ)
    → starts n (ks ++ (k ∷ [])) ≡ starts n ks ++ ((n + length (joined ks)) ∷ [])
starts-last n [] k = ap (λ (t : ℕ). t ∷ []) (omega arith)
starts-last n (p ∷ ks) k = rw (starts-last (n + length p) ks k) (
    ap (λ (t : ℕ). n ∷ (starts (n + length p) ks ++ (t ∷ [])))
      (omega (arith, length-append p (joined ks))))

pub nil_of_length {ℓ} : {A : Type ℓ} (xs : List A) → length xs ≡ 0 → xs ≡ []
nil_of_length [] h = refl
nil_of_length (x ∷ xs) h = absurd (omega arith)

-- One more filter for each child, from the keys that were pending.
module _ (bits : List ℕ) (groups : List (List (List ℕ))) (pending : List (List ℕ))
    (cols : List (List (List ℕ))) (b : FilterBlockBuilder)
    (v : IsBuilt bits groups pending cols b) where
  one_more :
      (fs results : List (List ℕ))
      → OwnFilters (map joined cols) fs results
      → All (λ key. Answer key (multi_filter bits) fs) pending
      → IsBuilt bits (groups ++ (pending ∷ [])) [] (add_pieces cols fs) (record {
        keys = [];
        start = [];
        results = results;
        filters_offsets = push_offsets b.filters_offsets b.results;
      })
  one_more fs results own answers = record {
    keys = refl;
    start = refl;
    children = length-add_pieces cols fs ∙ v.children;
    even =
        All-map _ _ (add_pieces cols fs)
          (λ col e. omega (arith, e, length-append groups (pending ∷ [])))
          (add_pieces-even (length groups) cols fs v.even few);
    results = OwnFilters-joined cols fs results own;
    offsets = rw (v.offsets, v.results) (push_offsets-add_pieces cols fs few);
    found = λ j below. elim (dec_lt j (length groups)) [
      | yes old ↦
          subst
            (λ (p : List (List ℕ) × List (List ℕ)).
              All (λ key. Answer key (multi_filter bits) p.0) p.1)
            (λ i. (
              sym (group_filters_old (length groups) j cols fs v.even old) i,
              sym (get_or-append_left groups (pending ∷ []) j old) i,
            ))
            (v.found j old)
      | no new ↦
          let here : length groups ≡ j = omega (arith, length-append groups (pending ∷ [])) in
          subst
            (λ (t : ℕ).
              All (λ key. Answer key (multi_filter bits) (group_filters t (add_pieces cols fs)))
                (get_or (groups ++ (pending ∷ [])) t []))
            here
            (subst
              (λ (p : List (List ℕ) × List (List ℕ)).
                All (λ key. Answer key (multi_filter bits) p.0) p.1)
              (λ i. (
                sym (group_filters_new (length groups) cols fs v.even few) i,
                sym (get_or-append_end groups pending) i,
              ))
              answers)
    ];
  }
    where
      few : length fs ≡ length cols
      few = OwnFilters-length cols fs results own

  cut_keys : tmp_keys b.keys (b.start ++ (length b.keys ∷ [])) ≡ pending
  cut_keys = rw (v.keys, v.start) (rw (sym same_bounds) (tmp_keys-joined [] pending))
    where
      same_bounds : bounds 0 pending ≡ starts 0 pending ++ (length (joined pending) ∷ [])
      same_bounds =
          bounds-starts 0 pending ∙ ap (λ (t : ℕ). starts 0 pending ++ (t ∷ [])) (omega arith)

  pub generate_filter-IsBuilt :
      length bits ≤ 12
      → All (λ n. length pending * n < 2 ^ 60) bits
      → (cols' : List (List (List ℕ))) × (b' : FilterBlockBuilder) × (generate_filter
            (multi_filter bits)
            b
          ≡ some b')
        × IsBuilt bits (groups ++ (pending ∷ [])) [] cols' b'
  unfolding generate_filter
  generate_filter-IsBuilt few small = elim (Bool-cases (length b.start == 0)) [
    | inl none_added ↦
        let idle : pending ≡ [] =
          nil_of_length pending (
            omega (arith, length-starts 0 pending, ap length v.start, (==_iff _ _).0 none_added)) in
        let fs = replicate (length cols) [] in
        let own = OwnFilters-empty cols in
        (
          add_pieces cols fs,
          record {
            keys = [];
            start = [];
            results = map joined cols;
            filters_offsets = push_offsets b.filters_offsets b.results;
          },
          rw none_added (λ i. some (record {
            keys = (v.keys ∙ ap joined idle) i;
            start = (v.start ∙ ap (starts 0) idle) i;
            results = v.results i;
            filters_offsets = push_offsets b.filters_offsets b.results;
          })),
          one_more fs (map joined cols) own
              (subst (All (λ key. Answer key (multi_filter bits) fs)) (sym idle) tt),
        )
    | inr added ↦
        let sizes : length (map joined cols) ≡ length (multi_filter bits) =
          length-map cols joined ∙ v.children in
        let (fs, results, ran, own, answers) =
          key_may_match_filters-create_filters bits pending (map joined cols) few small sizes in
        let ran' : create_filters (multi_filter bits) pending b.results ≡ some results =
          rw v.results ran in
        (
          add_pieces cols fs,
          record {
            keys = [];
            start = [];
            results = results;
            filters_offsets = push_offsets b.filters_offsets b.results;
          },
          rw (added, cut_keys, ran') refl,
          one_more fs results own answers,
        )
  ]

  pub add_key-IsBuilt :
      (key : List ℕ) → IsBuilt bits groups (pending ++ (key ∷ [])) cols (add_key key b)
  unfolding add_key
  add_key-IsBuilt key = record {
    keys = rw v.keys (sym (joined-last pending key));
    start =
        rw (v.start, v.keys)
          (sym (
            starts-last 0 pending key
            ∙ ap (λ (t : ℕ). starts 0 pending ++ (t ∷ [])) (omega arith)));
    children = v.children;
    even = v.even;
    results = v.results;
    offsets = v.offsets;
    found = v.found;
  }
