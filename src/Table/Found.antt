-- ===== src/Table/Found.antt =====
-- table/filter_block.cc over table/table.cc: what KeyMayMatch makes of the filters that are loaded.
use ebf_leveldb_sep_kv.Base.{
  ℕ, zero, suc, ◌+◌, ◌-◌, ◌*◌, ◌/◌, ◌%◌, ◌^◌, ◌≤◌, ◌<◌, List, [], ◌∷◌, ◌++◌, some, true, false, ltb,
  leb, ◌==◌, length, get_or, take, drop, map, All, ◌≡◌, refl, sym, ap, ◌∙◌, arith, length-append,
  length-map, Bool-cases, inl, inr,
}
use native.Mathlib.Nat.{mul-div_cancel, le-div_iff_mul-le, div-mul-le_self, lt-div-mul-add}
use ebf_leveldb_sep_kv.Bloom.{ChildBloomFilterPolicy}
use ebf_leveldb_sep_kv.Bloom.Multi.{Answer}
use ebf_leveldb_sep_kv.FilterBlock.{
  FilterBlockReader, collect_filters, match_filters, key_may_match, get_curr_filters_num,
}
use ebf_leveldb_sep_kv.FilterBlock.Pieces.{joined, group_filters, offsets_of, length-offsets_of}
use ebf_leveldb_sep_kv.FilterBlock.Cut.{
  pos, array_of, get_or-array_of, array_of-last, pos_mono, pos-total, take-part, piece_at,
}
use ebf_leveldb_sep_kv.Table.{TableFilters, get_region_num, region_offset, region_size}
use ebf_leveldb_sep_kv.Table.Loaded.{IsReader, slices, get_or-slices}

-- The blocks of a table: each child's filters one after the other, with something behind them, and
-- one filter for each of `count` indices.
pub record IsTable (count : ℕ) (cols : List (List (List ℕ))) (blocks : List (List ℕ))
    (t : TableFilters) : Type 0 where
  pub offsets : t.offsets ≡ map array_of cols
  pub even : All (λ col. length col ≡ count) cols
  pub small : All (λ col. length (joined col) < 2 ^ 32) cols
  pub sizes : length blocks ≡ length cols
  pub contents :
      (i : ℕ)
      → i < length cols
      → (tail : List ℕ) × (get_or blocks i [] ≡ joined (get_or cols i []) ++ tail)

All-at {ℓ} :
    {A : Type ℓ} (P : A → Type 0) (xs : List A) (i : ℕ) (d : A)
    → i < length xs
    → All P xs
    → P (get_or xs i d)
All-at P [] i d h a = elim h [ ]
All-at P (x ∷ xs) zero d h a = a.0
All-at P (x ∷ xs) (suc i) d h a = All-at P xs i d (omega arith) a.1

get_or-map :
    (cols : List (List (List ℕ))) (i : ℕ)
    → i < length cols
    → get_or (map array_of cols) i [] ≡ array_of (get_or cols i [])
get_or-map [] i h = elim h [ ]
get_or-map (c ∷ cols) zero h = refl
get_or-map (c ∷ cols) (suc i) h = get_or-map cols i (omega arith)

get_or-take : (n i : ℕ) (xs : List (List ℕ)) → i < n → get_or (take n xs) i [] ≡ get_or xs i []
get_or-take zero i xs h = elim h [ ]
get_or-take (suc n) i [] h = refl
get_or-take (suc n) zero (x ∷ xs) h = refl
get_or-take (suc n) (suc i) (x ∷ xs) h = get_or-take n i xs (omega arith)

take_next :
    (n i : ℕ) (g : ℕ) (cols : List (List (List ℕ)))
    → i < length cols
    → take (suc n) (drop i (group_filters g cols))
      ≡ get_or (get_or cols i []) g [] ∷ take n (drop (suc i) (group_filters g cols))
take_next n i g [] h = elim h [ ]
take_next n zero g (c ∷ cols) h = refl
take_next n (suc i) g (c ∷ cols) h = take_next n i g cols (omega arith)

-- One region's indices: `per` of them, of 64 KB each.
module _ (count per : ℕ) (cols : List (List (List ℕ))) (blocks : List (List ℕ)) (t : TableFilters)
    (table : IsTable count cols blocks t) (positive : 0 < per) (lg : t.base_lg ≡ 16)
    (divide : t.region_divide_size ≡ per * 2 ^ 16) where
  region_offset_is : region_offset t ≡ per
  unfolding region_offset
  region_offset_is = rw (divide, lg) (mul-div_cancel per (omega arith))

  array_at : (i : ℕ) → i < length cols → get_or t.offsets i [] ≡ array_of (get_or cols i [])
  array_at i h = rw table.offsets (get_or-map cols i h)

  col_even : (i : ℕ) → i < length cols → length (get_or cols i []) ≡ count
  col_even i h = All-at (λ col. length col ≡ count) cols i [] h table.even

  col_small : (i : ℕ) → i < length cols → length (joined (get_or cols i [])) < 2 ^ 32
  col_small i h = All-at (λ col. length (joined col) < 2 ^ 32) cols i [] h table.small

  word_at :
      (i k : ℕ)
      → i < length cols
      → k ≤ count
      → get_or (get_or t.offsets i []) k 0 ≡ pos (get_or cols i []) k
  word_at i k h below =
      rw (array_at i h)
        (get_or-array_of (get_or cols i []) k (omega (arith, col_even i h)) (col_small i h))

  regions_are :
      0 < length cols → get_region_num t ≡ (count * 2 ^ 16 + per * 2 ^ 16 - 1) / (per * 2 ^ 16)
  unfolding get_region_num
  regions_are h =
      let some_array : (length t.offsets == 0) ≡ false =
        ground (arith, ap length table.offsets, length-map cols array_of) in
      let first : length (get_or t.offsets 0 []) - 1 ≡ count = omega (
        arith,
        ap length (array_at 0 h),
        col_even 0 h,
        length-append (offsets_of 0 (get_or cols 0 [])) (length (joined (get_or cols 0 [])) ∷ []),
        length-offsets_of 0 (get_or cols 0 []),
      ) in
      rw (some_array, first, divide, lg) refl

  -- A region that is not the last one is whole.
  region_whole :
      (j g : ℕ)
      → 0 < length cols
      → j * per ≤ g
      → g < count
      → (j + 1 == get_region_num t) ≡ false
      → j * per + per ≤ count
  region_whole j g h start below other =
      let d = per * 2 ^ 16 in
      let n = count * 2 ^ 16 + per * 2 ^ 16 - 1 in
      let inside : j + 1 ≤ n / d = (le-div_iff_mul-le (omega arith)).1 (omega arith) in
      let differ : j + 2 ≤ n / d = ground (arith, inside, other, regions_are h) in
      let room : (j + 2) * d ≤ n = (le-div_iff_mul-le (omega arith)).0 differ in omega (arith, room)

  region_end :
      (i j g : ℕ)
      → i < length cols
      → j * per ≤ g
      → g < j * per + per
      → g < count
      → pos (get_or cols i []) (suc g)
        ≤ pos (get_or cols i []) (j * per) + region_size t (get_or t.offsets i []) j
  unfolding region_size
  region_end i j g h start end below =
      let col = get_or cols i [] in
      let array = get_or t.offsets i [] in
      let first = word_at i (j * per) h (omega arith) in
      elim (Bool-cases (j + 1 == get_region_num t)) [
        | inl last ↦
            let total : get_or array (length array - 1) 0 ≡ length (joined col) =
              rw (array_at i h) (array_of-last col) in
            rw (last, region_offset_is) (omega (arith, first, total, pos-total col (suc g)))
        | inr more ↦
            let whole = region_whole j g (omega arith) start below more in
            rw (more, region_offset_is)
              (omega (
                arith,
                first,
                word_at i (j * per + per) h whole,
                pos_mono col (suc g) (j * per + per) (omega arith),
              ))
      ]

  module _ (r : FilterBlockReader) (v : IsReader blocks t r) (j g : ℕ) (start : j * per ≤ g)
      (end : g < j * per + per) (below : g < count) where
    loaded_count : get_curr_filters_num r j ≤ length cols
    unfolding get_curr_filters_num
    loaded_count = omega (arith, (v.loaded j).0, table.sizes)

    -- The slice that KeyMayMatch makes of a loaded filter is the child's filter for the index.
    filter_of_index :
        (i : ℕ)
        → i < get_curr_filters_num r j
        → (let col = get_or cols i [] in
            take
              (pos col (suc g) - pos col g)
              (drop (pos col g - pos col (j * per)) (get_or (get_or r.datas j []) i []))
            ≡ get_or col g [])
    unfolding get_curr_filters_num
    filter_of_index i h =
        let col = get_or cols i [] in
        let inside : i < length cols = omega (arith, loaded_count, h) in
        let (tail, whole) = table.contents i inside in
        let arrays : length t.offsets ≡ length blocks =
          omega (arith, ap length table.offsets, length-map cols array_of, table.sizes) in
        let first = word_at i (j * per) inside (omega arith) in
        let mono = pos_mono col (j * per) g start in
        let data_ : get_or (get_or r.datas j []) i []
            ≡ take (region_size t (get_or t.offsets i []) j)
                (drop (pos col (j * per)) (joined col ++ tail)) =
          rw (v.loaded j).1 (
            get_or-take (get_or r.curr_num_of_filters_regions j 0) i (slices t j t.offsets blocks) h
            ∙ get_or-slices t j i t.offsets blocks arrays (omega (arith, table.sizes))
            ∙ rw (region_offset_is, first, whole) refl) in
        rw data_ (
          take-part (pos col (suc g) - pos col g) (pos col g - pos col (j * per))
            (region_size t (get_or t.offsets i []) j) (pos col (j * per)) (pos col g)
            (joined col ++ tail)
            (omega (
              arith,
              region_end i j g inside start end below,
              mono,
              pos_mono col g (suc g) (omega arith),
            ))
            (omega (arith, mono))
          ∙ piece_at col g tail (omega (arith, col_even i inside)))

    collect_filters-group :
        (n i : ℕ)
        → i + n ≡ get_curr_filters_num r j
        → collect_filters r j g i n ≡ some (take n (drop i (group_filters g cols)))
    unfolding collect_filters
    collect_filters-group zero i h = refl
    collect_filters-group (suc n) i h =
        let col = get_or cols i [] in
        let inside : i < length cols = omega (arith, loaded_count) in
        let next : g + 1 ≡ suc g = omega arith in
        let from_word = word_at i g inside (omega arith) in
        let to_word : get_or (get_or t.offsets i []) (g + 1) 0 ≡ pos col (suc g) =
          word_at i (g + 1) inside (omega arith) ∙ ap (pos col) next in
        let region_word = word_at i (j * per) inside (omega arith) in
        let mono = pos_mono col (j * per) g start in
        let relative : (pos col g + 2 ^ 32 - pos col (j * per)) % 2 ^ 32
            ≡ pos col g - pos col (j * per) =
          omega (arith, mono, pos-total col g, col_small i inside) in
        let ordered : leb (pos col g) (pos col (suc g)) ≡ true =
          ground (arith, pos_mono col g (suc g) (omega arith)) in
        rw
          (
            v.offsets,
            v.region_filters,
            region_offset_is,
            from_word,
            to_word,
            region_word,
            relative,
            ordered,
            filter_of_index i (omega arith),
            collect_filters-group n (i + 1) (omega arith),
          )
          (ap some (
            ap (λ (x : ℕ). get_or col g [] ∷ take n (drop x (group_filters g cols))) after
            ∙ sym (take_next n i g cols inside)))
      where
        after : i + 1 ≡ suc i
        after = omega arith

  -- A key whose filters answer true is let through, however many of them the reader has.
  pub key_may_match-IsReader :
      (policy : List ChildBloomFilterPolicy) (r : FilterBlockReader) (offset : ℕ) (key : List ℕ)
      → IsReader blocks t r
      → 0 < length cols
      → offset / 2 ^ 16 < count
      → Answer key policy (group_filters (offset / 2 ^ 16) cols)
      → key_may_match policy offset key r ≡ some true
  unfolding key_may_match match_filters
  key_may_match-IsReader policy r offset key v some_child below answer =
      let g = offset / 2 ^ 16 in
      let j = g / per in
      let c = get_curr_filters_num r j in
      let start : j * per ≤ g = div-mul-le_self g per in
      let end : g < j * per + per = lt-div-mul-add positive in
      let words : r.num ≡ count + 1 = omega (
        arith,
        v.num,
        ap length (array_at 0 some_child),
        col_even 0 some_child,
        length-append (offsets_of 0 (get_or cols 0 [])) (length (joined (get_or cols 0 [])) ∷ []),
        length-offsets_of 0 (get_or cols 0 []),
      ) in
      let index : ltb g r.num ≡ true = ground (arith, words) in
      let collected = collect_filters-group r v j g start end below c 0 (omega arith) in
      let lookup_index : offset / 2 ^ r.base_lg ≡ g =
        ap (λ (x : ℕ). offset / 2 ^ x) (v.base_lg ∙ lg) in
      let region : g / r.region_filters ≡ j =
        ap (λ (x : ℕ). g / x) (v.region_filters ∙ region_offset_is) in
      elim (Bool-cases (ltb 0 c)) [
        | inl some_filter ↦ rw (lookup_index, region, index, some_filter, collected) (answer c)
        | inr nothing ↦ rw (lookup_index, region, index, nothing) refl
      ]
