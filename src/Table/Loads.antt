-- ===== src/Table/Loads.antt =====
-- table/table.cc: AddFilters, AdjustFilters and RemoveFilters keep the reader and the table's
-- buffers together.
use ebf_leveldb_sep_kv.Base.{
  ℕ, zero, suc, ◌+◌, ◌-◌, ◌*◌, ◌≤◌, ◌<◌, List, [], ◌∷◌, ◌++◌, Option, none, some, false, ltb, ◌==◌,
  length, get_or, set, take, ◌≡◌, refl, sym, ap, ◌∙◌, arith, length-set, get_or-set_self,
  Bool-cases, Option-cases, inl, inr, ltb→lt,
}
use mathlib.Core.Path.{subst}
use ebf_leveldb_sep_kv.Bloom.{ChildBloomFilterPolicy}
use ebf_leveldb_sep_kv.FilterBlock.{
  FilterBlockReader, add_filter, remove_filters, remove_loop, get_curr_filters_num, pop_back,
}
use ebf_leveldb_sep_kv.Table.{
  TableFilters, get_region_num, region_offset, region_size, get_curr_filter_num, the_reader,
  read_filter, add_loop, add_filters, free_loop, remove_table_filters, adjust_filters,
}
use ebf_leveldb_sep_kv.Table.Loaded.{
  IsReader, IsLoaded, IsLoadedWith, IsStored, Holding, slices, get_or-slices, length-slices,
  set_region, pop_back-take, the_reader-IsReader, add_filter-IsReader,
}

region_inside :
    (t : TableFilters) (offsets block : List ℕ) (j : ℕ)
    → ((k : ℕ) → get_or offsets k 0 ≤ length block)
    → get_or offsets (j * region_offset t) 0 + region_size t offsets j ≤ length block
unfolding region_size
region_inside t offsets block j h = elim (Bool-cases (j + 1 == get_region_num t)) [
  | inl last ↦ rw last (omega (arith, h (j * region_offset t), h (length offsets - 1)))
  | inr more ↦
      rw more (omega (arith, h (j * region_offset t), h (j * region_offset t + region_offset t)))
]

one_more :
    (r : FilterBlockReader) (contents : List ℕ) {j : ℕ}
    → j < length r.curr_num_of_filters_regions
    → get_curr_filters_num (add_filter contents j r) j ≡ get_curr_filters_num r j + 1
unfolding get_curr_filters_num add_filter
one_more r contents {j} h = get_or-set_self r.curr_num_of_filters_regions j _ 0 h

module _ {ℓ} {A : Type ℓ} (f : Option FilterBlockReader) (x y : A) where
  no_reader : f ≡ none → (elim f [ none ↦ x | some r ↦ y ]) ≡ x
  no_reader e = rw e refl

  some_reader : (r : FilterBlockReader) → f ≡ some r → (elim f [ none ↦ x | some r' ↦ y ]) ≡ y
  some_reader r e = rw e refl

not_below : (a b : ℕ) → ltb a b ≡ false → b ≤ a
not_below a b h = ground arith

module _ (policy : List ChildBloomFilterPolicy) (bits : List ℕ) (blocks : List (List ℕ))
    (file : ℕ → ℕ → Option (List ℕ)) (t : TableFilters) (stored : IsStored file blocks t) (j : ℕ)
    (region : j < get_region_num t) where
  -- The table with a reader and buffers.
  abbrev with : FilterBlockReader → List (List (List ℕ)) → TableFilters
  with r d = record t { filter = some r; filter_datas = d }

  read_filter-IsReader :
      (r : FilterBlockReader) (d : List (List (List ℕ)))
      → IsReader blocks (with r d) r
      → get_curr_filters_num r j < length blocks
      → (r' : FilterBlockReader) × (d' : List (List (List ℕ))) × (b : ℕ) × (read_filter policy bits
            file
            (get_or t.filter_handles (get_curr_filters_num r j) [])
            j
            (with r d)
          ≡ some (with r' d', b))
        × IsReader blocks (with r' d') r'
        × (get_curr_filters_num r' j ≡ get_curr_filters_num r j + 1)
  unfolding read_filter get_curr_filter_num the_reader region_size region_offset get_region_num
  read_filter-IsReader r d v below =
      let i = get_curr_filters_num r j in
      let (offset, size, rest, decoded, reads) = stored.reads i below in
      let offsets = get_or t.offsets i [] in
      let block = get_or blocks i [] in
      let start = get_or offsets (j * region_offset t) 0 in
      let ran =
        reads start (region_size t offsets j) (region_inside t offsets block j (stored.inside i)) in
      let slice = get_or-slices t j i t.offsets blocks stored.arrays below in
      let contents = get_or (slices t j t.offsets blocks) i [] in
      let got : file (offset + start) (region_size t offsets j) ≡ some contents =
        ran ∙ ap some (sym slice) in
      (
        add_filter contents j r,
        set d j (get_or d j [] ++ (contents ∷ [])),
        get_or bits i 0,
        rw (read_filter, decoded, got) refl,
        add_filter-IsReader policy bits blocks (with r d) r j v region stored.arrays below,
        one_more r contents (omega (arith, v.counts)),
      )

  -- The loop of AddFilters, from the count of the filters that are there.
  add_loop-IsReader :
      (n : ℕ) (r : FilterBlockReader) (d : List (List (List ℕ))) (delta : ℕ)
      → IsReader blocks (with r d) r
      → (r' : FilterBlockReader) × (d' : List (List (List ℕ))) × (delta' : ℕ) × (add_loop policy
            bits file n j
            (get_curr_filters_num r j)
            (with r d)
            delta
          ≡ some (with r' d', delta'))
        × IsReader blocks (with r' d') r'
  unfolding add_loop
  add_loop-IsReader zero r d delta v = (r, d, delta, refl, v)
  add_loop-IsReader (suc n) r d delta v =
      let i = get_curr_filters_num r j in
      elim (Bool-cases (ltb i (length t.filter_handles))) [
        | inl more ↦
            let below = ltb→lt i (length t.filter_handles) more in
            let (r1, d1, b1, ran1, v1, next) =
              read_filter-IsReader r d v (omega (arith, below, stored.handles)) in
            let (r', d', delta', ran', v') = add_loop-IsReader n r1 d1 (delta + b1) v1 in
            (r', d', delta', rw (more, ran1, sym next) ran', v')
        | inr all ↦ (r, d, delta, rw all refl, v)
      ]

  -- A table is loaded as the reader is that the next load goes on with.
  same-IsReader :
      (r : FilterBlockReader) → IsReader blocks t r → IsReader blocks (with r t.filter_datas) r
  unfolding region_offset get_region_num region_size
  same-IsReader r v = record {
    offsets = v.offsets;
    base_lg = v.base_lg;
    region_filters = v.region_filters;
    num = v.num;
    regions = v.regions;
    counts = v.counts;
    owned = v.owned;
    loaded = v.loaded;
  }

  pub add_filters-IsReader :
      (n : ℕ)
      → IsLoaded blocks t
      → (r' : FilterBlockReader) × (d' : List (List (List ℕ))) × (delta : ℕ) × (add_filters policy
            bits file n j t
          ≡ some (with r' d', delta))
        × IsReader blocks (with r' d') r'
  unfolding add_filters
  add_filters-IsReader n v =
      let (r, made, w) = the_reader-IsReader policy bits blocks t (omega arith) v in
      let (r', d', delta, ran, w') = add_loop-IsReader n r t.filter_datas 0 (same-IsReader r w) in
      (r', d', delta, rw (add_filters, made) ran, w')

  -- One round of RemoveFilters, in the reader and in the table's buffers.
  popped : FilterBlockReader → FilterBlockReader
  popped r = record r {
    datas = set r.datas j (pop_back (get_or r.datas j []));
    curr_num_of_filters_regions =
        set r.curr_num_of_filters_regions j (get_curr_filters_num r j - 1);
  }

  popped_count :
      (r : FilterBlockReader)
      → j < length r.curr_num_of_filters_regions
      → get_curr_filters_num (popped r) j ≡ get_curr_filters_num r j - 1
  unfolding popped get_curr_filters_num
  popped_count r h = get_or-set_self r.curr_num_of_filters_regions j _ 0 h

  popped-IsReader :
      (r : FilterBlockReader) (d : List (List (List ℕ)))
      → IsReader blocks (with r d) r
      → 0 < get_curr_filters_num r j
      → IsReader blocks (with (popped r) (set d j (pop_back (get_or d j [])))) (popped r)
  unfolding popped get_curr_filters_num region_offset get_region_num region_size
  popped-IsReader r d v some_filter = record {
    offsets = v.offsets;
    base_lg = v.base_lg;
    region_filters = v.region_filters;
    num = v.num;
    regions = length-set r.datas j _ ∙ v.regions;
    counts = length-set r.curr_num_of_filters_regions j _ ∙ v.counts;
    owned = rw v.owned refl;
    loaded =
        set_region (Holding blocks t) r.datas r.curr_num_of_filters_regions j _ _
          (omega (arith, v.regions)) (omega (arith, v.counts))
          (
            omega (arith, (v.loaded j).0),
            rw (v.loaded j).1 (
                popped_slices (get_or r.curr_num_of_filters_regions j 0) some_filter
                  (v.loaded j).0),
          )
          v.loaded;
  }
    where
      popped_slices :
          (c : ℕ)
          → 0 < c
          → c ≤ length blocks
          → pop_back (take c (slices t j t.offsets blocks))
            ≡ take (c - 1) (slices t j t.offsets blocks)
      popped_slices zero positive fits = elim positive [ ]
      popped_slices (suc c) positive fits =
          let all = slices t j t.offsets blocks in
          let one : c ≡ suc c - 1 = omega arith in
          pop_back-take c all (omega (arith, length-slices t j t.offsets blocks stored.arrays))
          ∙ ap (λ (x : ℕ). take x all) one

  remove_loop-IsReader :
      (n : ℕ) (r : FilterBlockReader) (d : List (List (List ℕ))) (delta c : ℕ)
      → IsReader blocks (with r d) r
      → get_curr_filters_num r j ≡ c
      → n ≤ c
      → IsReader blocks
          (with (remove_loop bits n j r delta).0 (free_loop n j c d))
          (remove_loop bits n j r delta).0
  unfolding remove_loop free_loop popped get_region_num
  remove_loop-IsReader zero r d delta c v e fits = v
  remove_loop-IsReader (suc n) r d delta zero v e fits = absurd (omega arith)
  remove_loop-IsReader (suc n) r d delta (suc c) v e fits =
      remove_loop-IsReader n (popped r) (set d j (pop_back (get_or d j [])))
        (delta + get_or bits (get_curr_filters_num r j - 1) 0) c
        (popped-IsReader r d v (omega arith))
        (omega (arith, popped_count r (omega (arith, v.counts)))) (omega arith)

  pub remove_table_filters-IsLoaded :
      (n : ℕ)
      → IsLoaded blocks t
      → n ≤ get_curr_filter_num t j
      → IsLoaded blocks (remove_table_filters bits n j t).0
  unfolding remove_table_filters get_curr_filter_num remove_filters
  remove_table_filters-IsLoaded n v fits = elim (Option-cases t.filter) [
    | inl e ↦ rw (remove_table_filters, e) v
    | inr (r, e) ↦
        let w : IsReader blocks t r = subst (IsLoadedWith blocks t) e v in
        let count : get_curr_filter_num t j ≡ get_curr_filters_num r j =
          rw (get_curr_filter_num, e) refl in
        let enough : ltb (get_curr_filters_num r j) n ≡ false = ground (arith, count) in
        rw (remove_table_filters, e, remove_filters, enough)
          (remove_loop-IsReader n r t.filter_datas 0 (get_curr_filters_num r j) (same-IsReader r w)
            refl (omega (arith, count)))
  ]

  pub adjust_filters-IsLoaded :
      (n : ℕ)
      → IsLoaded blocks t
      → (t' : TableFilters) × (delta : ℕ) × (adjust_filters policy bits file n j t
          ≡ some (t', delta))
        × IsLoaded blocks t'
        × (t' ≡ record t { filter = t'.filter; filter_datas = t'.filter_datas })
  unfolding adjust_filters
  adjust_filters-IsLoaded n v = elim (Bool-cases (ltb 0 n)) [
    | inr idle ↦ (t, 0, rw idle refl, v, refl)
    | inl some_filters ↦ elim (Option-cases t.filter) [
      | inl e ↦
          let (r', d', delta, ran, w) = add_filters-IsReader n v in
          (with r' d', delta, rw some_filters (no_reader t.filter _ _ e ∙ ran), w, refl)
      | inr (r, e) ↦ elim (Bool-cases (ltb (get_curr_filter_num t j) n)) [
        | inl more ↦
            let (r', d', delta, ran, w) = add_filters-IsReader (n - get_curr_filter_num t j) v in
            (
              with r' d',
              delta,
              rw some_filters (some_reader t.filter _ _ r e ∙ rw more ran),
              w,
              refl,
            )
        | inr enough ↦
            (t, 0, rw some_filters (some_reader t.filter _ _ r e ∙ rw enough refl), v, refl)
      ]
    ]
  ]
