-- ===== src/FilterBlock.antt =====
-- table/filter_block.cc: the builder of a table's filter blocks, one block for each child of the
-- policy, and the reader over the filters that are loaded. A string is the list of its bytes, and
-- a pointer to filter data the list of the bytes from there on. `none` is an exit: BloomHash's on
-- an id without a hash, or the reader's on a table without regions. What the source would read past
-- the end of a vector or a list, where its behaviour is undefined, is 0 or empty here.
pub mod Pieces
pub mod Built
pub mod Steps
pub mod Finished
pub mod Offsets
pub mod Cut
use ebf_leveldb_sep_kv.Base.{
  ℕ, zero, suc, ◌+◌, ◌-◌, ◌*◌, ◌/◌, ◌%◌, ◌^◌, List, [], ◌∷◌, ◌++◌, Option, none, some, Bool, true,
  false, ltb, leb, ◌==◌, if◌then◌else◌, length, get_or, get_elem?, set, take, drop, replicate,
}
use ebf_leveldb_sep_kv.Coding.{put_fixed32, decode_fixed32, ◌>>=◌}
use ebf_leveldb_sep_kv.Bloom.{ChildBloomFilterPolicy}
use ebf_leveldb_sep_kv.Bloom.Multi.{create_filters, key_may_match_filters}

-- kFilterBaseLg and kFilterBase: a new filter every 64 KB.
abbrev pub filter_base_lg : ℕ
filter_base_lg = 16

abbrev pub filter_base : ℕ
filter_base = 65536

pub record FilterBlockBuilder : Type 0 where
  pub keys : List ℕ
  pub start : List ℕ
  pub results : List (List ℕ)
  pub filters_offsets : List (List ℕ)

unfoldable pub new_builder : List ChildBloomFilterPolicy → FilterBlockBuilder
new_builder policy = record {
  keys = [];
  start = [];
  results = replicate (length policy) [];
  filters_offsets = replicate (length policy) [];
}

-- The loops of GenerateFilter that note where each child's next filter starts, as a uint32_t. The
-- two lists have one entry for each child.
unfoldable pub push_offsets : List (List ℕ) → List (List ℕ) → List (List ℕ)
push_offsets [] results = []
push_offsets (offsets ∷ rest) [] = offsets ∷ rest
push_offsets (offsets ∷ rest) (result ∷ results) =
    (offsets ++ (length result % 2 ^ 32 ∷ [])) ∷ push_offsets rest results

-- The keys between each two starts.
unfoldable pub tmp_keys : List ℕ → List ℕ → List (List ℕ)
tmp_keys keys [] = []
tmp_keys keys (s ∷ []) = []
tmp_keys keys (s ∷ t ∷ more) = take (t - s) (drop s keys) ∷ tmp_keys keys (t ∷ more)

unfoldable pub generate_filter :
    List ChildBloomFilterPolicy → FilterBlockBuilder → Option FilterBlockBuilder
generate_filter policy b =
    if length b.start == 0
    then some (record b { filters_offsets = push_offsets b.filters_offsets b.results })
    else create_filters policy (tmp_keys b.keys (b.start ++ (length b.keys ∷ []))) b.results
      >>= (λ results. some (record {
        keys = [];
        start = [];
        results = results;
        filters_offsets = push_offsets b.filters_offsets b.results;
      }))

-- filters_offsets_begin->size(); a policy has a child at least.
unfoldable pub filters_generated : FilterBlockBuilder → ℕ
filters_generated b = length (get_or b.filters_offsets 0 [])

-- StartBlock's `while`; each round generates one filter, so `filter_index` rounds are enough.
unfoldable pub start_loop :
    List ChildBloomFilterPolicy → ℕ → ℕ → FilterBlockBuilder → Option FilterBlockBuilder
start_loop policy filter_index zero b = some b
start_loop policy filter_index (suc fuel) b =
    let more = generate_filter policy b >>= start_loop policy filter_index fuel in
    if ltb (filters_generated b) filter_index then more else some b

unfoldable pub start_block :
    List ChildBloomFilterPolicy → ℕ → FilterBlockBuilder → Option FilterBlockBuilder
start_block policy block_offset b =
    let filter_index = block_offset / filter_base in start_loop policy filter_index filter_index b

unfoldable pub add_key : List ℕ → FilterBlockBuilder → FilterBlockBuilder
add_key key b = record b { start = b.start ++ (length b.keys ∷ []); keys = b.keys ++ key }

unfoldable pub put_offsets : List ℕ → List ℕ → List ℕ
put_offsets result [] = result
put_offsets result (offset ∷ offsets) = put_offsets (put_fixed32 result offset) offsets

-- The array of offsets, where it starts, and the encoding parameter, behind one child's filters.
unfoldable pub finish_result : List ℕ → List ℕ → List ℕ
finish_result result offsets =
    put_fixed32 (put_offsets result offsets) (length result % 2 ^ 32) ++ (filter_base_lg ∷ [])

unfoldable pub finish_results : List (List ℕ) → List (List ℕ) → List (List ℕ)
finish_results [] offsets = []
finish_results (result ∷ results) [] = result ∷ results
finish_results (result ∷ results) (offsets ∷ rest) =
    finish_result result offsets ∷ finish_results results rest

unfoldable pub finish : List ChildBloomFilterPolicy → FilterBlockBuilder → Option (List (List ℕ))
finish policy b =
    (if length b.start == 0 then some b else generate_filter policy b)
    >>= (λ b'. some (finish_results b'.results b'.filters_offsets))

-- getOffsets' part of one finished block, and getOffsets: what TableBuilder stores beside the
-- block's handle.
unfoldable pub contents_offsets : List ℕ → List ℕ
contents_offsets contents =
    let n = length contents in
    let last_word = decode_fixed32 (drop (n - 5) contents) in
    if ltb n 5
    then []
    else if ltb (n - 5) last_word
    then []
    else take (n - last_word) (drop last_word contents)

unfoldable pub get_offsets : List (List ℕ) → ℕ → List ℕ
get_offsets results which = contents_offsets (get_or results which [])

-- Table::ReadMeta's loop over the words of such an array.
unfoldable pub read_words : ℕ → List ℕ → List ℕ
read_words zero contents = []
read_words (suc n) contents = decode_fixed32 contents ∷ read_words n (drop 4 contents)

-- The array and its encoding parameter; of fewer than five bytes the source reads out of bounds.
unfoldable pub read_offsets : List ℕ → Option (List ℕ × ℕ)
read_offsets contents =
    let n = length contents in
    if ltb n 5
    then none
    else some (read_words ((n - 5) / 4 + 1) contents, get_or contents (n - 1) 0)

pub record FilterBlockReader : Type 0 where
  pub datas : List (List (List ℕ))
  pub num : ℕ
  pub base_lg : ℕ
  pub max_num_of_filters : ℕ
  pub curr_num_of_filters_regions : List ℕ
  pub num_regions : ℕ
  pub region_filters : ℕ
  pub filter_offsets : List (List ℕ)

unfoldable pub new_reader :
    List ChildBloomFilterPolicy → ℕ → ℕ → ℕ → List (List ℕ) → Option FilterBlockReader
new_reader policy region_num region_filters base_lg filter_offsets =
    if region_num == 0
    then none
    else some (record {
      datas = replicate region_num [];
      num = length (get_or filter_offsets 0 []);
      base_lg = base_lg;
      max_num_of_filters = length policy;
      curr_num_of_filters_regions = replicate region_num 0;
      num_regions = region_num;
      region_filters = region_filters;
      filter_offsets = filter_offsets;
    })

-- getCurrFiltersNum.
unfoldable pub get_curr_filters_num : FilterBlockReader → ℕ → ℕ
get_curr_filters_num r region_id = get_or r.curr_num_of_filters_regions region_id 0

unfoldable pub add_filter : List ℕ → ℕ → FilterBlockReader → FilterBlockReader
add_filter contents region_id r = record r {
  datas = set r.datas region_id (get_or r.datas region_id [] ++ (contents ∷ []));
  curr_num_of_filters_regions =
      set r.curr_num_of_filters_regions region_id (get_curr_filters_num r region_id + 1);
}

-- std::vector::pop_back.
unfoldable pub pop_back {ℓ} : {A : Type ℓ} → List A → List A
pop_back [] = []
pop_back (x ∷ []) = []
pop_back (x ∷ y ∷ xs) = x ∷ pop_back (y ∷ xs)

-- RemoveFilters' `while(n--)`, with `delta` in the unit of a build without USE_REAL_SIZE: the bits
-- per key of the removed filters.
unfoldable pub remove_loop : List ℕ → ℕ → ℕ → FilterBlockReader → ℕ → FilterBlockReader × ℕ
remove_loop bits_per_key_per_filter zero region_id r delta = (r, delta)
remove_loop bits_per_key_per_filter (suc n) region_id r delta =
    let i = get_curr_filters_num r region_id - 1 in
    let r' = record r {
      datas = set r.datas region_id (pop_back (get_or r.datas region_id []));
      curr_num_of_filters_regions = set r.curr_num_of_filters_regions region_id i;
    } in
    remove_loop bits_per_key_per_filter n region_id r' (delta + get_or bits_per_key_per_filter i 0)

unfoldable pub remove_filters : List ℕ → ℕ → ℕ → FilterBlockReader → FilterBlockReader × ℕ
remove_filters bits_per_key_per_filter n region_id r =
    if ltb (get_curr_filters_num r region_id) n
    then (r, 0)
    else remove_loop bits_per_key_per_filter n region_id r 0

-- KeyMayMatch's loop over the region's loaded filters, from filter `i` on: their slices, or `none`
-- where one is empty in the source's sense, its limit before its start.
unfoldable pub collect_filters : FilterBlockReader → ℕ → ℕ → ℕ → ℕ → Option (List (List ℕ))
collect_filters r region_id index i zero = some []
collect_filters r region_id index i (suc count) =
    let offsets = get_or r.filter_offsets i [] in
    let start = get_or offsets index 0 in
    let limit = get_or offsets (index + 1) 0 in
    let region_start =
      (start + 2 ^ 32 - get_or offsets (region_id * r.region_filters) 0) % 2 ^ 32 in
    let filter =
      take (limit - start) (drop region_start (get_or (get_or r.datas region_id []) i [])) in
    let more =
      collect_filters r region_id index (i + 1) count >>= (λ filters. some (filter ∷ filters)) in
    if leb start limit then more else none

unfoldable pub match_filters :
    List ChildBloomFilterPolicy → List ℕ → Option (List (List ℕ)) → Option Bool
match_filters policy key none = some false
match_filters policy key (some filters) = key_may_match_filters policy key filters

unfoldable pub key_may_match :
    List ChildBloomFilterPolicy → ℕ → List ℕ → FilterBlockReader → Option Bool
key_may_match policy block_offset key r =
    let index = block_offset / 2 ^ r.base_lg in
    let region_id = index / r.region_filters in
    let count = get_curr_filters_num r region_id in
    let matches = match_filters policy key (collect_filters r region_id index 0 count) in
    if ltb index r.num then (if ltb 0 count then matches else some true) else some true
