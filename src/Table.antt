-- ===== src/Table.antt =====
-- table/table.cc: the filters of one open table, which the multi-queue cache loads and evicts
-- region by region. `filter_datas` are the buffers that the table owns; the reader has pointers to
-- them. A read of the file at an offset gives its bytes or, with `none`, a failed status. The
-- result `none` of an operation is the exit of the reader's constructor on a table without regions.
pub mod Loaded
pub mod Loads
pub mod Found
pub mod Reaches
pub mod Keeps
use ebf_leveldb_sep_kv.Base.{
  ℕ, zero, suc, ◌+◌, ◌-◌, ◌*◌, ◌/◌, ◌%◌, ◌^◌, List, [], ◌∷◌, ◌++◌, Option, none, some, Bool, true,
  false, ltb, ◌==◌, if◌then◌else◌, length, get_or, set, take, drop, replicate,
}
use ebf_leveldb_sep_kv.Coding.{get_varint64, put_varint64, ◌>>=◌}
use ebf_leveldb_sep_kv.Bloom.{ChildBloomFilterPolicy}
use ebf_leveldb_sep_kv.FilterBlock.{
  FilterBlockReader, new_reader, add_filter, remove_filters, get_curr_filters_num, pop_back,
  contents_offsets, read_offsets, key_may_match,
}

-- BlockHandle::EncodeTo and DecodeFrom of table/format.cc.
unfoldable pub handle_encode_to : ℕ × ℕ → List ℕ → List ℕ
handle_encode_to (offset, size) dst = put_varint64 (put_varint64 dst offset) size

unfoldable pub handle_decode_from : List ℕ → Option ((ℕ × ℕ) × List ℕ)
handle_decode_from input = do
  (offset, rest) ← get_varint64 input
  (size, rest') ← get_varint64 rest
  some ((offset, size), rest')

pub record TableFilters : Type 0 where
  pub offsets : List (List ℕ)
  pub base_lg : ℕ
  pub region_divide_size : ℕ
  pub filter_handles : List (List ℕ)
  pub filter_datas : List (List (List ℕ))
  pub filter : Option FilterBlockReader

unfoldable pub get_region_num : TableFilters → ℕ
get_region_num t =
    let data_size = (length (get_or t.offsets 0 []) - 1) * 2 ^ t.base_lg in
    if length t.offsets == 0
    then 0
    else (data_size + t.region_divide_size - 1) / t.region_divide_size

-- `region_divide_size / (1 << base_lg_)`: the filter indices of one region.
unfoldable pub region_offset : TableFilters → ℕ
region_offset t = t.region_divide_size / 2 ^ t.base_lg

unfoldable pub region_size : TableFilters → List ℕ → ℕ → ℕ
region_size t offsets region_id =
    let loc = region_id * region_offset t in
    let start = get_or offsets loc 0 in
    if region_id + 1 == get_region_num t
    then get_or offsets (length offsets - 1) 0 - start
    else get_or offsets (loc + region_offset t) 0 - start

unfoldable pub get_curr_filter_num : TableFilters → ℕ → ℕ
get_curr_filter_num t region_id = elim t.filter [
  | none ↦ 0
  | some r ↦ get_curr_filters_num r region_id
]

-- `if(rep_->filter == NULL) rep_->filter = new FilterBlockReader(...)`.
unfoldable pub the_reader : List ChildBloomFilterPolicy → TableFilters → Option FilterBlockReader
the_reader policy t = elim t.filter [
  | none ↦ new_reader policy (get_region_num t) (region_offset t) t.base_lg t.offsets
  | some r ↦ some r
]

-- ReadFilter of one region: the next filter's part of it, and its bits per key, or 0 on an error.
unfoldable pub read_filter :
    List ChildBloomFilterPolicy
    → List ℕ
    → (ℕ → ℕ → Option (List ℕ))
    → List ℕ
    → ℕ
    → TableFilters
    → Option (TableFilters × ℕ)
read_filter policy bits_per_key_per_filter file filter_handle_value region_id t =
    let curr_filter_num = get_curr_filter_num t region_id in
    let offsets = get_or t.offsets curr_filter_num [] in
    let start = get_or offsets (region_id * region_offset t) 0 in
    elim (handle_decode_from filter_handle_value) [
      | none ↦ some (t, 0)
      | some ((offset, size), rest) ↦
          elim (file (offset + start) (region_size t offsets region_id)) [
            | none ↦ some (t, 0)
            | some contents ↦ the_reader policy t >>= (λ r. some (
              record t {
                filter_datas =
                    set t.filter_datas region_id
                      (get_or t.filter_datas region_id [] ++ (contents ∷ []));
                filter = some (add_filter contents region_id r);
              },
              get_or bits_per_key_per_filter curr_filter_num 0,
            ))
          ]
    ]

-- AddFilters' `while(n-- && ...)`. Its own count goes on after a failed read.
unfoldable pub add_loop :
    List ChildBloomFilterPolicy
    → List ℕ
    → (ℕ → ℕ → Option (List ℕ))
    → ℕ
    → ℕ
    → ℕ
    → TableFilters
    → ℕ
    → Option (TableFilters × ℕ)
add_loop policy bits file zero region_id curr_filter_num t delta = some (t, delta)
add_loop policy bits file (suc n) region_id curr_filter_num t delta =
    let more =
      read_filter policy bits file (get_or t.filter_handles curr_filter_num []) region_id t
      >>= (λ p. add_loop policy bits file n region_id (curr_filter_num + 1) p.0 (delta + p.1)) in
    if ltb curr_filter_num (length t.filter_handles) then more else some (t, delta)

unfoldable pub add_filters :
    List ChildBloomFilterPolicy
    → List ℕ
    → (ℕ → ℕ → Option (List ℕ))
    → ℕ
    → ℕ
    → TableFilters
    → Option (TableFilters × ℕ)
add_filters policy bits file n region_id t = the_reader policy t >>= (λ r.
    add_loop policy bits file n region_id (get_curr_filters_num r region_id)
      (record t { filter = some r }) 0)

-- The loop of RemoveFilters that frees the table's own buffers.
unfoldable pub free_loop : ℕ → ℕ → ℕ → List (List (List ℕ)) → List (List (List ℕ))
free_loop zero region_id curr_filter_num datas = datas
free_loop (suc n) region_id zero datas = datas
free_loop (suc n) region_id (suc curr_filter_num) datas =
    free_loop n region_id curr_filter_num
      (set datas region_id (pop_back (get_or datas region_id [])))

-- RemoveFilters of `n` filters, for an `n` that is not negative.
unfoldable pub remove_table_filters : List ℕ → ℕ → ℕ → TableFilters → TableFilters × ℕ
remove_table_filters bits n region_id t = elim t.filter [
  | none ↦ (t, 0)
  | some r ↦
      let (r', delta) = remove_filters bits n region_id r in
      (
        record t {
          filter = some r';
          filter_datas = free_loop n region_id (get_curr_filters_num r region_id) t.filter_datas;
        },
        delta,
      )
]

-- AdjustFilters: only ever adds; `n` is not negative.
unfoldable pub adjust_filters :
    List ChildBloomFilterPolicy
    → List ℕ
    → (ℕ → ℕ → Option (List ℕ))
    → ℕ
    → ℕ
    → TableFilters
    → Option (TableFilters × ℕ)
adjust_filters policy bits file n region_id t =
    let curr_filter_num = get_curr_filter_num t region_id in
    if ltb 0 n
    then elim t.filter [
      | none ↦ add_filters policy bits file n region_id t
      | some r ↦
          if ltb curr_filter_num n
          then add_filters policy bits file (n - curr_filter_num) region_id t
          else some (t, 0)
    ]
    else some (t, 0)

-- ReadMeta's offsets of each filter block, whose encoding parameter is the last block's.
unfoldable pub table_offsets : List (List ℕ) → Option (List (List ℕ))
table_offsets [] = some []
table_offsets (block ∷ blocks) = do
  (offsets, base_lg) ← read_offsets (contents_offsets block)
  rest ← table_offsets blocks
  some (offsets ∷ rest)

-- What Open and ReadMeta leave of a table whose filters are not loaded at once.
unfoldable pub read_meta : List (List ℕ) → ℕ → ℕ → List (List ℕ) → TableFilters
unfolding get_region_num
read_meta offsets base_lg region_divide_size filter_handles =
    let t : TableFilters = record {
      offsets = offsets;
      base_lg = base_lg;
      region_divide_size = region_divide_size;
      filter_handles = filter_handles;
      filter_datas = [];
      filter = none;
    } in
    record t { filter_datas = replicate (get_region_num t) [] }

-- InternalGet's test of the filters: whether the data block is looked at.
unfoldable pub may_match : List ChildBloomFilterPolicy → ℕ → List ℕ → TableFilters → Option Bool
may_match policy block_offset key t = elim t.filter [
  | none ↦ some true
  | some r ↦ key_may_match policy block_offset key r
]
