-- ===== src/FilterBlock/Finished.antt =====
-- table/filter_block.cc under table/table_builder.cc: the filter blocks of a finished table.
use ebf_leveldb_sep_kv.Base.{
  ℕ, zero, suc, ◌*◌, ◌/◌, ◌^◌, ◌≤◌, ◌<◌, List, [], ◌∷◌, ◌++◌, Option, some, ◌==◌, length, get_or,
  replicate, map, All, All-map, ◌≡◌, refl, ap, arith, Bool-cases, inl, inr, ==_iff,
  length-replicate, All-replicate,
}
use mathlib.Core.Path.{subst}
use ebf_leveldb_sep_kv.Bloom.{ChildBloomFilterPolicy}
use ebf_leveldb_sep_kv.Bloom.Multi.{multi_filter, Answer}
use ebf_leveldb_sep_kv.Coding.{◌>>=◌}
use ebf_leveldb_sep_kv.FilterBlock.{
  FilterBlockBuilder, new_builder, filter_base, finish, finish_results,
}
use ebf_leveldb_sep_kv.FilterBlock.Pieces.{joined, offsets_of, group_filters}
use ebf_leveldb_sep_kv.FilterBlock.Built.{
  IsBuilt, generate_filter-IsBuilt, length-starts, nil_of_length,
}
use ebf_leveldb_sep_kv.FilterBlock.Steps.{
  BuilderStep, run, located, Ordered, In, In-All, Holds-append, Holds-below, run-IsBuilt, fewer,
}

-- What TableBuilder makes of its steps: one block for each child.
unfoldable pub table_blocks :
    List ChildBloomFilterPolicy → List BuilderStep → Option (List (List ℕ))
unfolding run
table_blocks policy steps = run policy steps (new_builder policy) >>= finish policy

-- A key's filters at its block's index answer true for it.
abbrev pub IsFound : List ℕ → ℕ → List (List (List ℕ)) → ℕ × List ℕ → Type 0
IsFound bits count cols (offset, key) =
    (offset / filter_base < count)
    × Answer key (multi_filter bits) (group_filters (offset / filter_base) cols)

new_builder-IsBuilt :
    (bits : List ℕ)
    → IsBuilt bits [] []
        (replicate (length (multi_filter bits)) [])
        (new_builder (multi_filter bits))
unfolding new_builder
new_builder-IsBuilt bits = record {
  keys = refl;
  start = refl;
  children = length-replicate (length (multi_filter bits)) [];
  even = All-replicate _ (length (multi_filter bits)) [] refl;
  results = empty_strings (length (multi_filter bits));
  offsets = empty_arrays (length (multi_filter bits));
  found = λ j h. elim h [ ];
}
  where
    empty_strings : (n : ℕ) → replicate n [] ≡ map joined (replicate n [])
    empty_strings zero = refl
    empty_strings (suc n) = λ i. [] ∷ empty_strings n i

    empty_arrays : (n : ℕ) → replicate n [] ≡ map (offsets_of 0) (replicate n [])
    empty_arrays zero = refl
    empty_arrays (suc n) = λ i. [] ∷ empty_arrays n i

-- Finish makes the last filters, from the keys that are still pending.
finish-IsBuilt :
    (bits : List ℕ) (groups : List (List (List ℕ))) (pending : List (List ℕ))
    (cols : List (List (List ℕ))) (b : FilterBlockBuilder)
    → length bits ≤ 12
    → All (λ n. length pending * n < 2 ^ 60) bits
    → IsBuilt bits groups pending cols b
    → (groups' : List (List (List ℕ))) × (cols' : List (List (List ℕ))) × (b' : FilterBlockBuilder)
      × (finish (multi_filter bits) b
          ≡ some (finish_results (map joined cols') (map (offsets_of 0) cols')))
      × IsBuilt bits groups' [] cols' b'
      × ((j : ℕ) (key : List ℕ)
          → In key (get_or (groups ++ (pending ∷ [])) j [])
          → (j < length groups') × In key (get_or groups' j []))
unfolding finish
finish-IsBuilt bits groups pending cols b few small v = elim (Bool-cases (length b.start == 0)) [
  | inl idle ↦
      let nothing : pending ≡ [] =
        nil_of_length pending
          (omega (arith, length-starts 0 pending, ap length v.start, (==_iff _ _).0 idle)) in
      let w : IsBuilt bits groups [] cols b =
        subst (λ (p : List (List ℕ)). IsBuilt bits groups p cols b) nothing v in
      (
        groups,
        cols,
        b,
        rw (idle, v.results, v.offsets) refl,
        w,
        λ j key h.
            Holds-below groups j key
              (subst (λ (p : List (List ℕ)). In key (get_or (groups ++ (p ∷ [])) j [])) nothing h),
      )
  | inr busy ↦
      let (cols', b', ran, w) = generate_filter-IsBuilt bits groups pending cols b v few small in
      (
        groups ++ (pending ∷ []),
        cols',
        b',
        rw (busy, ran, w.results, w.offsets) refl,
        w,
        λ j key h.
            Holds-below (groups ++ (pending ∷ [])) j key
              (Holds-append (groups ++ (pending ∷ [])) ([] ∷ []) j key h),
      )
]

-- For at most twelve children, at least one, with fewer than 2 ^ 60 bits for all of the table's
-- keys, and for blocks in the order of their offsets: the builder returns one block for each child,
-- the filters of its column of `cols` with their offsets behind them, `count` filters each; each
-- key's index is below `count`, and the filters at it answer true for the key.
pub table_blocks-IsFound :
    (bits : List ℕ) (steps : List BuilderStep)
    → length bits ≤ 12
    → 0 < length (multi_filter bits)
    → All (λ b. length (located 0 steps) * b < 2 ^ 60) bits
    → Ordered 0 steps
    → (count : ℕ) × (cols : List (List (List ℕ))) × (table_blocks (multi_filter bits) steps
        ≡ some (finish_results (map joined cols) (map (offsets_of 0) cols)))
      × (length cols ≡ length (multi_filter bits))
      × All (λ col. length col ≡ count) cols
      × All (IsFound bits count cols) (located 0 steps)
unfolding table_blocks
table_blocks-IsFound bits steps few some_child small order =
    let n = length (located 0 steps) in
    let (groups, pending, cols, b, ran, v, fits, all, kept) =
      run-IsBuilt bits n few some_child small steps 0 [] [] _ (new_builder (multi_filter bits))
        (new_builder-IsBuilt bits) (omega arith) order (omega arith) in
    let (groups', cols', b', finished, w, inside) =
      finish-IsBuilt bits groups pending cols b few
        (fewer bits n few some_child small (length pending) fits) v in
    (
      length groups',
      cols',
      rw ran finished,
      w.children,
      w.even,
      All-map _ (IsFound bits (length groups') cols') (located 0 steps)
          (λ p h.
            let (below, there) = inside (p.0 / filter_base) p.1 h in
            (
              below,
              In-All
                  (λ key. Answer key (multi_filter bits) (group_filters (p.0 / filter_base) cols'))
                  p.1 (get_or groups' (p.0 / filter_base) []) there
                  (w.found (p.0 / filter_base) below),
            ))
          all,
    )
