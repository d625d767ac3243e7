-- ===== src/Table/Keeps.antt =====
-- table/table.cc: whatever filters are loaded and evicted, no key of the table is lost.
use ebf_leveldb_sep_kv.Base.{
  ℕ, zero, suc, ◌+◌, ◌*◌, ◌/◌, ◌^◌, ◌≤◌, ◌<◌, List, [], ◌∷◌, ◌++◌, Option, some, true, length,
  get_or, map, All, All-map, ◌≡◌, refl, sym, ap, ◌∙◌, arith, length-append, length-map,
  Option-cases, inl, inr, dec_le, eq_of_some,
}
use mathlib.Core.Path.{subst}
use ebf_leveldb_sep_kv.Coding.{IsU32}
use ebf_leveldb_sep_kv.Bloom.{ChildBloomFilterPolicy}
use ebf_leveldb_sep_kv.Bloom.Multi.{multi_filter, Answer}
use ebf_leveldb_sep_kv.FilterBlock.{finish_results}
use ebf_leveldb_sep_kv.FilterBlock.Pieces.{joined, offsets_of, group_filters, length-offsets_of}
use ebf_leveldb_sep_kv.FilterBlock.Steps.{BuilderStep, located, Ordered}
use ebf_leveldb_sep_kv.FilterBlock.Finished.{table_blocks, IsFound, table_blocks-IsFound}
use ebf_leveldb_sep_kv.FilterBlock.Offsets.{read_offsets-contents_offsets, finish_result-tail}
use ebf_leveldb_sep_kv.FilterBlock.Cut.{array_of, get_or-array_of, pos-total, get_or_past}
use ebf_leveldb_sep_kv.Table.{TableFilters, get_region_num, table_offsets, read_meta, may_match}
use ebf_leveldb_sep_kv.Table.Loaded.{IsLoaded, IsLoadedWith, IsStored}
use ebf_leveldb_sep_kv.Table.Found.{IsTable, key_may_match-IsReader}
use ebf_leveldb_sep_kv.Table.Reaches.{Reaches, IsFile, Reaches-IsLoaded}

-- The finished blocks of the children with the filters `cols`.
blocks_of : List (List (List ℕ)) → List (List ℕ)
blocks_of cols = finish_results (map joined cols) (map (offsets_of 0) cols)

blocks_of-contents :
    (cols : List (List (List ℕ))) (i : ℕ)
    → i < length cols
    → (tail : List ℕ) × (get_or (blocks_of cols) i [] ≡ joined (get_or cols i []) ++ tail)
unfolding blocks_of finish_results
blocks_of-contents [] i h = elim h [ ]
blocks_of-contents (col ∷ cols) zero h = finish_result-tail (joined col) (offsets_of 0 col)
blocks_of-contents (col ∷ cols) (suc i) h = blocks_of-contents cols i (omega arith)

length-blocks_of : (cols : List (List (List ℕ))) → length (blocks_of cols) ≡ length cols
unfolding blocks_of finish_results
length-blocks_of [] = refl
length-blocks_of (col ∷ cols) = ap suc (length-blocks_of cols)

offsets_of-IsU32 : (at : ℕ) (col : List (List ℕ)) → All IsU32 (offsets_of at col)
offsets_of-IsU32 at [] = tt
offsets_of-IsU32 at (p ∷ col) = (omega arith, offsets_of-IsU32 (at + length p) col)

-- Blocks of less than 4 GB have filters of less than that.
blocks_of-small :
    (cols : List (List (List ℕ)))
    → All (λ block. length block < 2 ^ 32) (blocks_of cols)
    → All (λ col. length (joined col) < 2 ^ 32) cols
unfolding blocks_of finish_results
blocks_of-small [] h = tt
blocks_of-small (col ∷ cols) (small, h) =
    let (tail, e) = finish_result-tail (joined col) (offsets_of 0 col) in
    (omega (arith, small, ap length e, length-append (joined col) tail), blocks_of-small cols h)

table_offsets-blocks_of :
    (cols : List (List (List ℕ)))
    → All (λ col. length (joined col) < 2 ^ 32) cols
    → table_offsets (blocks_of cols) ≡ some (map array_of cols)
unfolding table_offsets blocks_of finish_results
table_offsets-blocks_of [] h = refl
table_offsets-blocks_of (col ∷ cols) (small, h) =
    rw
      (
        read_offsets-contents_offsets (joined col) (offsets_of 0 col) small
            (offsets_of-IsU32 0 col),
        table_offsets-blocks_of cols h,
      )
      refl

-- No word of an array lies past the filters.
array_of-inside :
    (col : List (List ℕ)) (k : ℕ)
    → length (joined col) < 2 ^ 32
    → get_or (array_of col) k 0 ≤ length (joined col)
array_of-inside col k small = elim (dec_le k (length col)) [
  | yes h ↦ omega (arith, get_or-array_of col k h small, pos-total col k)
  | no h ↦ omega (
    arith,
    get_or_past (array_of col) k (
        omega (
          arith,
          h,
          length-append (offsets_of 0 col) (length (joined col) ∷ []),
          length-offsets_of 0 col,
        )),
  )
]

blocks_of-inside :
    (cols : List (List (List ℕ))) (i k : ℕ)
    → All (λ col. length (joined col) < 2 ^ 32) cols
    → get_or (get_or (map array_of cols) i []) k 0 ≤ length (get_or (blocks_of cols) i [])
unfolding blocks_of finish_results
blocks_of-inside [] i k h = omega arith
blocks_of-inside (col ∷ cols) zero k (small, h) =
    let (tail, e) = finish_result-tail (joined col) (offsets_of 0 col) in
    omega (arith, array_of-inside col k small, ap length e, length-append (joined col) tail)
blocks_of-inside (col ∷ cols) (suc i) k (small, h) = blocks_of-inside cols i k h

-- The table that ReadMeta opens on these blocks.
abbrev opened_on : List (List (List ℕ)) → ℕ → List (List ℕ) → TableFilters
opened_on cols per handles = read_meta (map array_of cols) 16 (per * 2 ^ 16) handles

opened_on-IsStored :
    (cols : List (List (List ℕ))) (per : ℕ) (handles : List (List ℕ))
    (file : ℕ → ℕ → Option (List ℕ))
    → All (λ col. length (joined col) < 2 ^ 32) cols
    → IsFile file (blocks_of cols) handles
    → IsStored file (blocks_of cols) (opened_on cols per handles)
unfolding read_meta
opened_on-IsStored cols per handles file small f = record {
  handles = f.count;
  arrays = length-map cols array_of ∙ sym (length-blocks_of cols);
  inside = λ i k. blocks_of-inside cols i k small;
  reads = f.reads;
}

opened_on-IsLoaded :
    (cols : List (List (List ℕ))) (per : ℕ) (handles : List (List ℕ))
    → IsLoaded (blocks_of cols) (opened_on cols per handles)
unfolding read_meta get_region_num
opened_on-IsLoaded cols per handles = refl

opened_on-may_match :
    (policy : List ChildBloomFilterPolicy) (bits : List ℕ) (count per : ℕ)
    (cols : List (List (List ℕ))) (handles : List (List ℕ)) (file : ℕ → ℕ → Option (List ℕ))
    (t : TableFilters) (offset : ℕ) (key : List ℕ)
    → 0 < per
    → 0 < length cols
    → All (λ col. length col ≡ count) cols
    → All (λ col. length (joined col) < 2 ^ 32) cols
    → IsFile file (blocks_of cols) handles
    → Reaches policy bits file (opened_on cols per handles) t
    → offset / 2 ^ 16 < count
    → Answer key policy (group_filters (offset / 2 ^ 16) cols)
    → may_match policy offset key t ≡ some true
unfolding may_match read_meta
opened_on-may_match policy bits count per cols handles file t offset key positive some_child even
      small f reach below answer =
    let (loaded, same) =
      Reaches-IsLoaded policy bits (blocks_of cols) file (opened_on cols per handles)
        (opened_on-IsStored cols per handles file small f) (opened_on-IsLoaded cols per handles) t
        reach in
    let table : IsTable count cols (blocks_of cols) t = record {
      offsets = ap (λ (x : TableFilters). x.offsets) same;
      even = even;
      small = small;
      sizes = length-blocks_of cols;
      contents = blocks_of-contents cols;
    } in
    elim (Option-cases t.filter) [
      | inl e ↦ rw (may_match, e) refl
      | inr (r, e) ↦
          rw (may_match, e)
            (key_may_match-IsReader count per cols (blocks_of cols) t table positive
              (ap (λ (x : TableFilters). x.base_lg) same)
              (ap (λ (x : TableFilters). x.region_divide_size) same) policy r offset key
              (subst (IsLoadedWith (blocks_of cols) t) e loaded) some_child below answer)
    ]

-- For at most twelve children, at least one, with fewer than 2 ^ 60 bits for all of the table's
-- keys, for blocks in the order of their offsets, filter blocks of less than 4 GB, regions of a
-- whole number of 64 KB and a file whose reads succeed: in every state that the open table
-- reaches by loads and evictions of filters, each key that was added is let through to the data
-- block that it was added to.
pub may_match-Reaches :
    (bits : List ℕ) (steps : List BuilderStep) (blocks offsets handles : List (List ℕ)) (per : ℕ)
    (file : ℕ → ℕ → Option (List ℕ)) (t : TableFilters)
    → length bits ≤ 12
    → 0 < length (multi_filter bits)
    → All (λ b. length (located 0 steps) * b < 2 ^ 60) bits
    → Ordered 0 steps
    → table_blocks (multi_filter bits) steps ≡ some blocks
    → All (λ block. length block < 2 ^ 32) blocks
    → table_offsets blocks ≡ some offsets
    → 0 < per
    → IsFile file blocks handles
    → Reaches (multi_filter bits) bits file (read_meta offsets 16 (per * 2 ^ 16) handles) t
    → All
        (λ at_key. may_match (multi_filter bits) at_key.0 at_key.1 t ≡ some true)
        (located 0 steps)
unfolding blocks_of
may_match-Reaches bits steps blocks offsets handles per file t few some_child small order built fits
      read positive f reach =
    let (count, cols, ran, children, even, found) =
      table_blocks-IsFound bits steps few some_child small order in
    let e : blocks ≡ blocks_of cols = eq_of_some (sym built ∙ ran) in
    let narrow = blocks_of-small cols (subst (All (λ block. length block < 2 ^ 32)) e fits) in
    let o : offsets ≡ map array_of cols =
      eq_of_some (sym read ∙ ap table_offsets e ∙ table_offsets-blocks_of cols narrow) in
    let f' : IsFile file (blocks_of cols) handles =
      subst (λ (x : List (List ℕ)). IsFile file x handles) e f in
    let reach' : Reaches (multi_filter bits) bits file (opened_on cols per handles) t =
      subst
        (λ (x : List (List ℕ)).
          Reaches (multi_filter bits) bits file (read_meta x 16 (per * 2 ^ 16) handles) t)
        o reach in
    All-map (IsFound bits count cols) _ (located 0 steps)
      (λ p h.
        opened_on-may_match (multi_filter bits) bits count per cols handles file t p.0 p.1 positive
          (omega (arith, children)) even narrow f' reach' h.0 h.1)
      found
