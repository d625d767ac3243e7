-- ===== src/Table/Reaches.antt =====
-- table/table.cc: the states of an open table's filters, and that each is loaded.
use ebf_leveldb_sep_kv.Base.{
  ℕ, ◌+◌, ◌≤◌, ◌<◌, List, [], Option, some, length, get_or, take, drop, ◌≡◌, refl, sym, ap, ◌∙◌,
  arith, Option-cases, inl, inr, eq_of_some,
}
use mathlib.Core.Path.{subst}
use ebf_leveldb_sep_kv.Bloom.{ChildBloomFilterPolicy}
use ebf_leveldb_sep_kv.Table.{
  TableFilters, handle_decode_from, get_region_num, get_curr_filter_num, add_filters,
  remove_table_filters, adjust_filters,
}
use ebf_leveldb_sep_kv.Table.Loaded.{IsLoaded, IsStored}
use ebf_leveldb_sep_kv.Table.Loads.{
  add_filters-IsReader, adjust_filters-IsLoaded, remove_table_filters-IsLoaded,
}

-- The states of an open table under the operations of the cache: loads for a region, loads up to a
-- count, and evictions of filters that the region has.
pub data Reaches (policy : List ChildBloomFilterPolicy) (bits : List ℕ)
    (file : ℕ → ℕ → Option (List ℕ)) (opened : TableFilters) : TableFilters → Type 0 where
  start : Reaches policy bits file opened opened
  added :
      {t t' : TableFilters} (n j delta : ℕ)
      → Reaches policy bits file opened t
      → j < get_region_num opened
      → add_filters policy bits file n j t ≡ some (t', delta)
      → Reaches policy bits file opened t'
  adjusted :
      {t t' : TableFilters} (n j delta : ℕ)
      → Reaches policy bits file opened t
      → j < get_region_num opened
      → adjust_filters policy bits file n j t ≡ some (t', delta)
      → Reaches policy bits file opened t'
  evicted :
      {t : TableFilters} (n j : ℕ)
      → Reaches policy bits file opened t
      → j < get_region_num opened
      → n ≤ get_curr_filter_num t j
      → Reaches policy bits file opened (remove_table_filters bits n j t).0

-- The file has the blocks where the handles say, and a read within a block succeeds.
pub record IsFile (file : ℕ → ℕ → Option (List ℕ)) (blocks handles : List (List ℕ)) : Type 0 where
  pub count : length handles ≡ length blocks
  pub reads :
      (i : ℕ)
      → i < length blocks
      → (offset : ℕ) × (size : ℕ) × (rest : List ℕ) × (handle_decode_from (get_or handles i [])
          ≡ some ((offset, size), rest))
        × ((at n : ℕ)
            → at + n ≤ length (get_or blocks i [])
            → file (offset + at) n ≡ some (take n (drop at (get_or blocks i []))))

abbrev pub Same : TableFilters → TableFilters → Type 0
Same opened t = t ≡ record opened { filter = t.filter; filter_datas = t.filter_datas }

remove-Same :
    (bits : List ℕ) (n j : ℕ) (t : TableFilters) → Same t (remove_table_filters bits n j t).0
unfolding remove_table_filters
remove-Same bits n j t = elim (Option-cases t.filter) [
  | inl e ↦ rw (remove_table_filters, e) refl
  | inr (r, e) ↦ rw (remove_table_filters, e) refl
]

module _ (policy : List ChildBloomFilterPolicy) (bits : List ℕ) (blocks : List (List ℕ))
    (file : ℕ → ℕ → Option (List ℕ)) (opened : TableFilters) (stored : IsStored file blocks opened)
    (fresh : IsLoaded blocks opened) where
  IsStored-by : (t : TableFilters) → Same opened t → IsStored file blocks t
  IsStored-by t same = subst (IsStored file blocks) (sym same) (record {
    handles = stored.handles;
    arrays = stored.arrays;
    inside = stored.inside;
    reads = stored.reads;
  })

  regions_by : (t : TableFilters) → Same opened t → get_region_num t ≡ get_region_num opened
  unfolding get_region_num
  regions_by t same = ap get_region_num same

  Same-trans : (t : TableFilters) → Same opened t → (t' : TableFilters) → Same t t' → Same opened t'
  Same-trans t same t' same' =
      same'
      ∙ ap (λ (x : TableFilters). record x { filter = t'.filter; filter_datas = t'.filter_datas })
          same

  -- From a loaded table whose filter blocks are where its handles say in the file, with every read
  -- within a block successful: in every state that it reaches by loads, adjustments and evictions of
  -- no more filters than a region has, the reader has the first filters of each region, as many as it
  -- counts, in the buffers that the table owns, and the rest of the table is as it was.
  pub Reaches-IsLoaded :
      (t : TableFilters) → Reaches policy bits file opened t → IsLoaded blocks t × Same opened t
  Reaches-IsLoaded t start = (fresh, refl)
  Reaches-IsLoaded t' (added {t = t} n j delta reach region ran) =
      let (loaded, same) = Reaches-IsLoaded t reach in
      let (r', d', delta', ran', v) =
        add_filters-IsReader policy bits blocks file t (IsStored-by t same) j
          (omega (arith, region, regions_by t same)) n loaded in
      subst (λ (x : TableFilters). IsLoaded blocks x × Same opened x)
        (ap (λ (p : TableFilters × ℕ). p.0) (eq_of_some (sym ran' ∙ ran)))
        (v, Same-trans t same _ refl)
  Reaches-IsLoaded t' (adjusted {t = t} n j delta reach region ran) =
      let (loaded, same) = Reaches-IsLoaded t reach in
      let (t1, delta', ran', v, same') =
        adjust_filters-IsLoaded policy bits blocks file t (IsStored-by t same) j
          (omega (arith, region, regions_by t same)) n loaded in
      subst (λ (x : TableFilters). IsLoaded blocks x × Same opened x)
        (ap (λ (p : TableFilters × ℕ). p.0) (eq_of_some (sym ran' ∙ ran)))
        (v, Same-trans t same t1 same')
  Reaches-IsLoaded t' (evicted {t = t} n j reach region few) =
      let (loaded, same) = Reaches-IsLoaded t reach in
      (
        remove_table_filters-IsLoaded policy bits blocks file t (IsStored-by t same) j
            (omega (arith, region, regions_by t same)) n loaded few,
        Same-trans t same _ (remove-Same bits n j t),
      )
