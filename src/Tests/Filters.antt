-- ===== src/Tests/Filters.antt =====
-- A table of two data blocks with three keys, and the states of its filters.
use ebf_leveldb_sep_kv.Base.{
  ℕ, zero, suc, ◌+◌, ◌*◌, ◌^◌, ◌≤◌, ◌<◌, get_or, List, [], ◌∷◌, Option, none, some, true, length,
  map, take, drop, All, ◌≡◌, refl, ap, arith,
}
use ebf_leveldb_sep_kv.Bloom.{
  add_keys, bloom_hash, bloom_seed, child_policy, create_filter, delta_of, filter_bytes, set_bit,
  set_probes,
}
use ebf_leveldb_sep_kv.Bloom.Multi.{child_policies, create_filters, multi_filter}
use ebf_leveldb_sep_kv.Coding.{
  decode_fixed32, encode_fixed32, get_varint64, get_varint64_ptr, put_fixed32,
}
use ebf_leveldb_sep_kv.FilterBlock.{
  add_key, contents_offsets, filters_generated, finish, finish_result, finish_results,
  generate_filter, get_curr_filters_num, new_builder, new_reader, push_offsets, put_offsets,
  read_offsets, read_words, start_block, start_loop, tmp_keys,
}
use ebf_leveldb_sep_kv.FilterBlock.Steps.{
  BuilderStep, BuilderStep.block_at, BuilderStep.key_added, located, run,
}
use ebf_leveldb_sep_kv.Hash.{hash}
use ebf_leveldb_sep_kv.Table.{
  TableFilters, add_filters, add_loop, get_curr_filter_num, get_region_num, handle_decode_from,
  may_match, read_filter, read_meta, table_offsets, the_reader,
}
use ebf_leveldb_sep_kv.FilterBlock.Finished.{table_blocks, IsFound, table_blocks-IsFound}
use ebf_leveldb_sep_kv.Table.Reaches.{
  Reaches, Reaches.start, Reaches.added, IsFile, Reaches-IsLoaded,
}
use ebf_leveldb_sep_kv.Table.Keeps.{may_match-Reaches}
use ebf_leveldb_sep_kv.Table.Loaded.{IsStored, IsLoaded}
use ebf_leveldb_sep_kv.FilterBlock.Pieces.{joined, offsets_of}
use ebf_leveldb_sep_kv.FilterBlock.Offsets.{read_offsets-contents_offsets}
use native.Mathlib.Nat.{zero-add}

abbrev three_keys : List BuilderStep
three_keys =
    block_at 0
    ∷ key_added (97 ∷ [])
    ∷ key_added (98 ∷ 99 ∷ [])
    ∷ block_at 70000
    ∷ key_added (100 ∷ [])
    ∷ block_at 70100
    ∷ []

abbrev its_block : List ℕ
its_block =
    0 ∷ 0 ∷ 0 ∷ 0 ∷ 128 ∷ 0 ∷ 17 ∷ 1 ∷ 2 ∷ 0 ∷ 0 ∷ 0 ∷ 8 ∷ 0 ∷ 32 ∷ 0 ∷ 0 ∷ 2 ∷ 0 ∷ 0 ∷ 0 ∷ 0 ∷ 9
    ∷ 0 ∷ 0 ∷ 0 ∷ 18 ∷ 0 ∷ 0 ∷ 0 ∷ 16 ∷ []

abbrev its_handles : List (List ℕ)
its_handles = (0 ∷ 31 ∷ []) ∷ []

-- A file that has the block alone.
abbrev its_file : ℕ → ℕ → Option (List ℕ)
its_file at n = some (take n (drop at its_block))

its_file-IsFile : IsFile its_file (its_block ∷ []) its_handles
unfolding handle_decode_from get_varint64 get_varint64_ptr
its_file-IsFile = record { count = refl; reads = reads }
  where
    reads :
        (i : ℕ)
        → i < 1
        → (offset : ℕ) × (size : ℕ) × (rest : List ℕ) × (handle_decode_from
              (get_or its_handles i [])
            ≡ some ((offset, size), rest))
          × ((at n : ℕ)
              → at + n ≤ length (get_or (its_block ∷ []) i [])
              → its_file (offset + at) n ≡ some (take n (drop at (get_or (its_block ∷ []) i []))))
    reads zero below =
        (0, 31, [], refl, λ at n h. ap (λ (x : ℕ). some (take n (drop x its_block))) (zero-add at))
    reads (suc i) below = absurd (omega arith)

abbrev opened : TableFilters
opened = read_meta ((0 ∷ 9 ∷ 18 ∷ []) ∷ []) 16 (1 * 2 ^ 16) its_handles

abbrev state_of : Option (TableFilters × ℕ) → TableFilters
state_of none = opened
state_of (some p) = p.0

abbrev one_loaded : TableFilters
one_loaded = state_of (add_filters (multi_filter (4 ∷ [])) (4 ∷ []) its_file 1 1 opened)

one_loaded-Reaches : Reaches (multi_filter (4 ∷ [])) (4 ∷ []) its_file opened one_loaded
unfolding add_filters the_reader read_meta new_reader add_loop get_curr_filters_num read_filter
    handle_decode_from get_varint64 get_varint64_ptr get_curr_filter_num get_region_num
one_loaded-Reaches = added 1 1 4 start (omega arith) refl

three_keys-built : table_blocks (multi_filter (4 ∷ [])) three_keys ≡ some (its_block ∷ [])
unfolding table_blocks start_block start_loop filters_generated add_key new_builder multi_filter
    generate_filter create_filters create_filter add_keys tmp_keys bloom_hash bloom_seed
    child_policy push_offsets finish finish_results child_policies delta_of filter_bytes set_bit
    set_probes decode_fixed32 encode_fixed32 put_fixed32 run finish_result put_offsets hash
three_keys-built = refl

its_offsets : table_offsets (its_block ∷ []) ≡ some ((0 ∷ 9 ∷ 18 ∷ []) ∷ [])
unfolding table_offsets read_offsets contents_offsets decode_fixed32 read_words
its_offsets = refl

some_child : 0 < length (multi_filter (4 ∷ []))
unfolding multi_filter
some_child = omega arith

may_match-Reaches_example :
    All
      (λ at_key. may_match (multi_filter (4 ∷ [])) at_key.0 at_key.1 one_loaded ≡ some true)
      (located 0 three_keys)
unfolding located
may_match-Reaches_example =
    may_match-Reaches (4 ∷ []) three_keys (its_block ∷ []) ((0 ∷ 9 ∷ 18 ∷ []) ∷ []) its_handles 1
      its_file one_loaded (omega arith) some_child (omega arith, tt)
      (omega arith, (omega arith, (omega arith, tt))) three_keys-built (omega arith, tt) its_offsets
      (omega arith) its_file-IsFile one_loaded-Reaches

opened-inside :
    (i k : ℕ)
    → get_or (get_or ((0 ∷ 9 ∷ 18 ∷ []) ∷ []) i []) k 0 ≤ length (get_or (its_block ∷ []) i [])
opened-inside zero zero = omega arith
opened-inside zero (suc zero) = omega arith
opened-inside zero (suc (suc zero)) = omega arith
opened-inside zero (suc (suc (suc k))) = omega arith
opened-inside (suc i) k = omega arith

opened-IsStored : IsStored its_file (its_block ∷ []) opened
unfolding read_meta
opened-IsStored = record {
  handles = refl;
  arrays = refl;
  inside = opened-inside;
  reads = its_file-IsFile.reads;
}

opened-IsLoaded : IsLoaded (its_block ∷ []) opened
unfolding read_meta get_region_num
opened-IsLoaded = refl

Reaches-IsLoaded_example :
    IsLoaded (its_block ∷ []) one_loaded
    × (one_loaded
        ≡ record opened { filter = one_loaded.filter; filter_datas = one_loaded.filter_datas })
Reaches-IsLoaded_example =
    Reaches-IsLoaded (multi_filter (4 ∷ [])) (4 ∷ []) (its_block ∷ []) its_file opened
      opened-IsStored opened-IsLoaded one_loaded one_loaded-Reaches

table_blocks-IsFound_example :
    (count : ℕ) × (cols : List (List (List ℕ))) × (table_blocks (multi_filter (4 ∷ [])) three_keys
      ≡ some (finish_results (map joined cols) (map (offsets_of 0) cols)))
    × (length cols ≡ length (multi_filter (4 ∷ [])))
    × All (λ col. length col ≡ count) cols
    × All (IsFound (4 ∷ []) count cols) (located 0 three_keys)
unfolding located
table_blocks-IsFound_example =
    table_blocks-IsFound (4 ∷ []) three_keys (omega arith) some_child (omega arith, tt)
      (omega arith, (omega arith, (omega arith, tt)))

read_offsets-contents_offsets_example :
    read_offsets (contents_offsets (finish_result (7 ∷ 8 ∷ 9 ∷ []) (0 ∷ 2 ∷ [])))
    ≡ some (0 ∷ 2 ∷ 3 ∷ [], 16)
read_offsets-contents_offsets_example =
    read_offsets-contents_offsets (7 ∷ 8 ∷ 9 ∷ []) (0 ∷ 2 ∷ []) (omega arith)
      (omega arith, (omega arith, tt))
