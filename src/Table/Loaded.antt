-- ===== src/Table/Loaded.antt =====
-- table/table.cc: which filters the reader has of each region, after any loads and evictions.
use ebf_leveldb_sep_kv.Base.{
  ℕ, zero, suc, ◌+◌, ◌*◌, ◌≤◌, ◌<◌, List, [], ◌∷◌, ◌++◌, Option, none, some, false, ◌==◌, length,
  get_or, set, take, drop, replicate, ◌≡◌, refl, sym, ap, ◌∙◌, arith, length-set, length-replicate,
  get_or-set_self, get_or-set_ne, ℕ_discrete,
}
use mathlib.Core.Path.{subst}
use ebf_leveldb_sep_kv.Bloom.{ChildBloomFilterPolicy}
use ebf_leveldb_sep_kv.FilterBlock.{
  FilterBlockReader, new_reader, add_filter, get_curr_filters_num, pop_back,
}
use ebf_leveldb_sep_kv.Table.{
  TableFilters, handle_decode_from, get_region_num, region_offset, region_size, the_reader,
}

-- Region `j` of each filter block.
abbrev pub slices : TableFilters → ℕ → List (List ℕ) → List (List ℕ) → List (List ℕ)
slices t j [] blocks = []
slices t j (offsets ∷ rest) [] = []
slices t j (offsets ∷ rest) (block ∷ blocks) =
    take (region_size t offsets j) (drop (get_or offsets (j * region_offset t) 0) block)
    ∷ slices t j rest blocks

-- The first `count` filters of region `j`.
abbrev pub Holding : List (List ℕ) → TableFilters → ℕ → List (List ℕ) → ℕ → Type 0
Holding blocks t j data_ count =
    (count ≤ length blocks) × (data_ ≡ take count (slices t j t.offsets blocks))

-- The reader has the first filters of each region, as many as it counts, in the table's buffers.
pub record IsReader (blocks : List (List ℕ)) (t : TableFilters) (r : FilterBlockReader)
    : Type 0 where
  pub offsets : r.filter_offsets ≡ t.offsets
  pub base_lg : r.base_lg ≡ t.base_lg
  pub region_filters : r.region_filters ≡ region_offset t
  pub num : r.num ≡ length (get_or t.offsets 0 [])
  pub regions : length r.datas ≡ get_region_num t
  pub counts : length r.curr_num_of_filters_regions ≡ get_region_num t
  pub owned : r.datas ≡ t.filter_datas
  pub loaded :
      (j : ℕ) → Holding blocks t j (get_or r.datas j []) (get_or r.curr_num_of_filters_regions j 0)

abbrev pub IsLoadedWith : List (List ℕ) → TableFilters → Option FilterBlockReader → Type 0
IsLoadedWith blocks t none = t.filter_datas ≡ replicate (get_region_num t) []
IsLoadedWith blocks t (some r) = IsReader blocks t r

abbrev pub IsLoaded : List (List ℕ) → TableFilters → Type 0
IsLoaded blocks t = IsLoadedWith blocks t t.filter

-- The blocks are in the file where their handles say, and every read of a part of one succeeds.
pub record IsStored (file : ℕ → ℕ → Option (List ℕ)) (blocks : List (List ℕ)) (t : TableFilters)
    : Type 0 where
  pub handles : length t.filter_handles ≡ length blocks
  pub arrays : length t.offsets ≡ length blocks
  pub inside : (i k : ℕ) → get_or (get_or t.offsets i []) k 0 ≤ length (get_or blocks i [])
  pub reads :
      (i : ℕ)
      → i < length blocks
      → (offset : ℕ) × (size : ℕ) × (rest : List ℕ) × (handle_decode_from
            (get_or t.filter_handles i [])
          ≡ some ((offset, size), rest))
        × ((at n : ℕ)
            → at + n ≤ length (get_or blocks i [])
            → file (offset + at) n ≡ some (take n (drop at (get_or blocks i []))))

get_or-replicate {ℓ} : {A : Type ℓ} (n j : ℕ) (a : A) → get_or (replicate n a) j a ≡ a
get_or-replicate zero j a = refl
get_or-replicate (suc n) zero a = refl
get_or-replicate (suc n) (suc j) a = get_or-replicate n j a

pub length-slices :
    (t : TableFilters) (j : ℕ) (offsets blocks : List (List ℕ))
    → length offsets ≡ length blocks
    → length (slices t j offsets blocks) ≡ length blocks
length-slices t j [] [] h = refl
length-slices t j [] (b ∷ blocks) h = absurd (omega arith)
length-slices t j (o ∷ offsets) [] h = absurd (omega arith)
length-slices t j (o ∷ offsets) (b ∷ blocks) h =
    ap suc (length-slices t j offsets blocks (omega arith))

pub get_or-slices :
    (t : TableFilters) (j i : ℕ) (offsets blocks : List (List ℕ))
    → length offsets ≡ length blocks
    → i < length blocks
    → get_or (slices t j offsets blocks) i []
      ≡ take
          (region_size t (get_or offsets i []) j)
          (drop (get_or (get_or offsets i []) (j * region_offset t) 0) (get_or blocks i []))
get_or-slices t j i [] [] h below = absurd (omega arith)
get_or-slices t j i [] (b ∷ blocks) h below = absurd (omega arith)
get_or-slices t j i (o ∷ offsets) [] h below = absurd (omega arith)
get_or-slices t j zero (o ∷ offsets) (b ∷ blocks) h below = refl
get_or-slices t j (suc i) (o ∷ offsets) (b ∷ blocks) h below =
    get_or-slices t j i offsets blocks (omega arith) (omega arith)

take-suc :
    (n : ℕ) (xs : List (List ℕ))
    → n < length xs
    → take n xs ++ (get_or xs n [] ∷ []) ≡ take (suc n) xs
take-suc n [] h = elim h [ ]
take-suc zero (x ∷ xs) h = refl
take-suc (suc n) (x ∷ xs) h = ap (λ (r : List (List ℕ)). x ∷ r) (take-suc n xs (omega arith))

pub pop_back-take :
    (n : ℕ) (xs : List (List ℕ)) → suc n ≤ length xs → pop_back (take (suc n) xs) ≡ take n xs
unfolding pop_back
pop_back-take n [] h = elim h [ ]
pop_back-take zero (x ∷ xs) h = refl
pop_back-take (suc n) (x ∷ []) h = absurd (omega arith)
pop_back-take (suc n) (x ∷ y ∷ xs) h =
    ap (λ (r : List (List ℕ)). x ∷ r) (pop_back-take n (y ∷ xs) (omega arith))

-- Two lists by regions after both are replaced at `j`, at the region `i`.
pub set_region :
    (P : ℕ → List (List ℕ) → ℕ → Type 0) (xs : List (List (List ℕ))) (cs : List ℕ) (j : ℕ)
    (v : List (List ℕ)) (c : ℕ)
    → j < length xs
    → j < length cs
    → P j v c
    → ((i : ℕ) → P i (get_or xs i []) (get_or cs i 0))
    → (i : ℕ) → P i (get_or (set xs j v) i []) (get_or (set cs j c) i 0)
set_region P xs cs j v c h k p old i = elim (ℕ_discrete j i) [
  | yes e ↦
      subst (λ (n : ℕ). P n (get_or (set xs j v) n []) (get_or (set cs j c) n 0)) e
        (rw (get_or-set_self xs j v [] h, get_or-set_self cs j c 0 k) p)
  | no e ↦ rw (get_or-set_ne xs j i v [] e, get_or-set_ne cs j i c 0 e) (old i)
]

module _ (policy : List ChildBloomFilterPolicy) (bits : List ℕ) (blocks : List (List ℕ)) where
  -- The reader that a load goes on with, made where there is none.
  pub the_reader-IsReader :
      (t : TableFilters)
      → 0 < get_region_num t
      → IsLoaded blocks t
      → (r : FilterBlockReader) × (the_reader policy t ≡ some r) × IsReader blocks t r
  unfolding the_reader new_reader
  the_reader-IsReader t regions h = by_filter t.filter h
    where
      by_filter :
          (f : Option FilterBlockReader)
          → IsLoadedWith blocks t f
          → (r : FilterBlockReader) × ((elim f [
            | none ↦ new_reader policy (get_region_num t) (region_offset t) t.base_lg t.offsets
            | some r' ↦ some r'
          ])
              ≡ some r)
            × IsReader blocks t r
      by_filter none owned =
          let some_region : (get_region_num t == 0) ≡ false = ground (arith, regions) in
          (
            record {
              datas = replicate (get_region_num t) [];
              num = length (get_or t.offsets 0 []);
              base_lg = t.base_lg;
              max_num_of_filters = length policy;
              curr_num_of_filters_regions = replicate (get_region_num t) 0;
              num_regions = get_region_num t;
              region_filters = region_offset t;
              filter_offsets = t.offsets;
            },
            rw some_region refl,
            record {
              offsets = refl;
              base_lg = refl;
              region_filters = refl;
              num = refl;
              regions = length-replicate (get_region_num t) [];
              counts = length-replicate (get_region_num t) 0;
              owned = sym owned;
              loaded = λ j.
                  rw
                    (
                      get_or-replicate {A = List (List ℕ)} (get_region_num t) j [],
                      get_or-replicate {A = ℕ} (get_region_num t) j 0,
                    )
                    (omega arith, refl);
            },
          )
      by_filter (some r) v = (r, refl, v)

  -- AddFilter of region `j`'s part of the next filter.
  pub add_filter-IsReader :
      (t : TableFilters) (r : FilterBlockReader) (j : ℕ)
      → IsReader blocks t r
      → j < get_region_num t
      → length t.offsets ≡ length blocks
      → get_curr_filters_num r j < length blocks
      → (let contents = get_or (slices t j t.offsets blocks) (get_curr_filters_num r j) [] in
          IsReader blocks
            (record t {
              filter_datas = set t.filter_datas j (get_or t.filter_datas j [] ++ (contents ∷ []));
              filter = some (add_filter contents j r);
            })
            (add_filter contents j r))
  unfolding add_filter get_curr_filters_num get_region_num region_offset region_size
  add_filter-IsReader t r j v region arrays below = record {
    offsets = v.offsets;
    base_lg = v.base_lg;
    region_filters = v.region_filters;
    num = v.num;
    regions = length-set r.datas j _ ∙ v.regions;
    counts = length-set r.curr_num_of_filters_regions j _ ∙ v.counts;
    owned = rw v.owned refl;
    loaded =
        set_region (Holding blocks t) r.datas r.curr_num_of_filters_regions j _ _
          (omega (arith, v.regions)) (omega (arith, v.counts))
          (
            omega arith,
            rw (v.loaded j).1
                (take-suc c all (omega (arith, sizes)) ∙ ap (λ (x : ℕ). take x all) one),
          )
          v.loaded;
  }
    where
      c : ℕ
      c = get_or r.curr_num_of_filters_regions j 0

      all : List (List ℕ)
      all = slices t j t.offsets blocks

      sizes : length all ≡ length blocks
      sizes = length-slices t j t.offsets blocks arrays

      one : suc c ≡ c + 1
      one = omega arith
