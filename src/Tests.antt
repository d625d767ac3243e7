-- ===== src/Tests.antt =====
-- The theorems at concrete inputs.
mod Log
mod Queue
mod Threads
mod Edit
mod Filters
mod Keys
mod Footers
mod Blocks
mod Snapshots
mod Merge
use ebf_leveldb_sep_kv.Base.{
  ℕ, zero, suc, ◌+◌, ◌*◌, ◌^◌, ◌≤◌, ◌<◌, List, [], ◌∷◌, ◌++◌, Option, none, some, Bool, true, false,
  length, ◌≡◌, refl, arith, All, ◌≢◌,
}
use ebf_leveldb_sep_kv.Coding.{
  encode_fixed32, decode_fixed32, encode_fixed64, decode_fixed64, encode_varint32, encode_varint64,
  get_varint32, get_varint64, put_length_prefixed_slice, get_length_prefixed_slice,
}
use ebf_leveldb_sep_kv.Coding.RoundTrip.{
  decode_fixed32-encode_fixed32, decode_fixed64-encode_fixed64, get_varint32-encode_varint32,
  get_varint64-encode_varint64, get-put_length_prefixed_slice,
}
use ebf_leveldb_sep_kv.Bloom.{child_policy, create_filter, key_may_match}
use ebf_leveldb_sep_kv.Bloom.Child.{key_may_match-create_filter}
use ebf_leveldb_sep_kv.Bloom.Multi.{
  multi_filter, create_filters, OwnFilters, Answer, key_may_match_filters-create_filters,
}
use ebf_leveldb_sep_kv.WriteBatch.{
  Update, Update.put_key, Update.delete_key, Status.ok, Status.out_of_fuel, iterate, append, Added,
  insert_into,
}
use ebf_leveldb_sep_kv.WriteBatch.RoundTrip.{
  built, iterate-built, Numbered, insert_into-built, iterate-append,
}
use ebf_leveldb_sep_kv.WriteBatch.Total.{iterate-ends}
use ebf_leveldb_sep_kv.VersionEdit.{VersionEdit, Message, decode_from}
use ebf_leveldb_sep_kv.VersionEdit.Total.{decode_from-ends}
use ebf_leveldb_sep_kv.Log.{WritableFile, Writer, add_record, block_size}
use ebf_leveldb_sep_kv.Log.Blocks.{add_record-ends}

decode_fixed32-encode_fixed32_example :
    decode_fixed32 (encode_fixed32 305419896 ++ (7 ∷ [])) ≡ 305419896
decode_fixed32-encode_fixed32_example =
    decode_fixed32-encode_fixed32 305419896 (7 ∷ []) (omega arith)

decode_fixed64-encode_fixed64_example :
    decode_fixed64 (encode_fixed64 1311768467463790320 ++ (7 ∷ [])) ≡ 1311768467463790320
decode_fixed64-encode_fixed64_example =
    decode_fixed64-encode_fixed64 1311768467463790320 (7 ∷ []) (omega arith)

get_varint32-encode_varint32_example :
    get_varint32 (encode_varint32 4294967295 ++ (7 ∷ [])) ≡ some (4294967295, 7 ∷ [])
get_varint32-encode_varint32_example =
    get_varint32-encode_varint32 4294967295 (7 ∷ []) (omega arith)

get_varint64-encode_varint64_example :
    get_varint64 (encode_varint64 1311768467463790320 ++ (7 ∷ []))
    ≡ some (1311768467463790320, 7 ∷ [])
get_varint64-encode_varint64_example =
    get_varint64-encode_varint64 1311768467463790320 (7 ∷ []) (omega arith)

get-put_length_prefixed_slice_example :
    get_length_prefixed_slice (put_length_prefixed_slice [] (104 ∷ 105 ∷ []) ++ (7 ∷ []))
    ≡ some (104 ∷ 105 ∷ [], 7 ∷ [])
get-put_length_prefixed_slice_example =
    get-put_length_prefixed_slice (104 ∷ 105 ∷ []) (7 ∷ []) (omega arith)

abbrev two_keys : List (List ℕ)
two_keys = (107 ∷ 49 ∷ []) ∷ (107 ∷ 50 ∷ 51 ∷ []) ∷ []

key_may_match-create_filter_example :
    (filter : List ℕ) × (create_filter (child_policy 10 1) two_keys (9 ∷ [])
      ≡ some ((9 ∷ []) ++ filter))
    × All (λ key. key_may_match (child_policy 4 1) key filter ≡ some true) two_keys
key_may_match-create_filter_example =
    key_may_match-create_filter 10 4 1 two_keys (9 ∷ []) (omega arith) (omega arith)

key_may_match_filters-create_filters_example :
    (filters : List (List ℕ)) × (results : List (List ℕ)) × (create_filters
        (multi_filter (4 ∷ 3 ∷ 3 ∷ []))
        two_keys
        ([] ∷ [] ∷ (9 ∷ []) ∷ [])
      ≡ some results)
    × OwnFilters ([] ∷ [] ∷ (9 ∷ []) ∷ []) filters results
    × All (λ key. Answer key (multi_filter (4 ∷ 3 ∷ 3 ∷ [])) filters) two_keys
unfolding multi_filter
key_may_match_filters-create_filters_example =
    key_may_match_filters-create_filters (4 ∷ 3 ∷ 3 ∷ []) two_keys ([] ∷ [] ∷ (9 ∷ []) ∷ [])
      (omega arith) (omega arith, (omega arith, (omega arith, tt))) refl

abbrev updates : List Update
updates = put_key (107 ∷ []) (118 ∷ 119 ∷ []) ∷ delete_key (108 ∷ []) ∷ []

abbrev more_updates : List Update
more_updates = put_key (108 ∷ []) [] ∷ []

iterate-built_example : iterate (built 100 updates) ≡ (updates, ok)
iterate-built_example = iterate-built 100 updates ((omega arith, omega arith), (omega arith, tt))

insert_into-built_example :
    (added : List Added) × (insert_into (built 100 updates) ≡ (added, ok))
    × Numbered 100 updates added
insert_into-built_example =
    insert_into-built 100 updates (omega arith) ((omega arith, omega arith), (omega arith, tt))

iterate-append_example :
    iterate (append (built 100 updates) (built 7 more_updates)) ≡ (updates ++ more_updates, ok)
iterate-append_example =
    iterate-append 100 7 updates more_updates ((omega arith, omega arith), (omega arith, tt))
      ((omega arith, omega arith), tt)

iterate-ends_example : (iterate (1 ∷ 2 ∷ 3 ∷ [])).1 ≢ out_of_fuel
iterate-ends_example = iterate-ends (1 ∷ 2 ∷ 3 ∷ [])

-- A file in memory, with the number of its flushes.
abbrev bytes_file : WritableFile (List ℕ × ℕ)
bytes_file = record {
  append = λ data_ f. ((f.0 ++ data_, f.1), true);
  flush = λ f. ((f.0, f.1 + 1), true);
}

abbrev near_end : Writer (List ℕ × ℕ)
near_end = record { dest = ([], 0); block_offset = 32765 }

add_record-ends_example :
    (w' : Writer (List ℕ × ℕ)) × (ok' : Bool) × (add_record bytes_file
        (λ crc bytes. crc + length bytes)
        (1 ∷ 2 ∷ 3 ∷ [])
        near_end
      ≡ some (w', ok'))
    × (w'.block_offset ≤ block_size)
add_record-ends_example =
    add_record-ends bytes_file (λ crc bytes. crc + length bytes) (1 ∷ 2 ∷ 3 ∷ []) near_end
      (omega arith)

abbrev no_edit : VersionEdit
no_edit = record {
  comparator = [];
  log_number = 0;
  prev_log_number = 0;
  next_file_number = 0;
  last_sequence = 0;
  has_comparator = false;
  has_log_number = false;
  has_prev_log_number = false;
  has_next_file_number = false;
  has_last_sequence = false;
  compact_pointers = [];
  deleted_files = [];
  new_files = [];
}

-- A log number, then a tag that is cut off.
decode_from-ends_example : (decode_from (2 ∷ 7 ∷ 200 ∷ []) no_edit).1 ≢ some Message.out_of_fuel
decode_from-ends_example = decode_from-ends (2 ∷ 7 ∷ 200 ∷ []) no_edit
