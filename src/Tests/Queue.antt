-- ===== src/Tests/Queue.antt =====
-- A cache of one region above its capacity, and a hash table of one entry.
use ebf_leveldb_sep_kv.Base.{
  ℕ, ◌+◌, ◌*◌, [], ◌∷◌, none, some, Bool, true, false, ◌==◌, ◌&&◌, if◌then◌else◌, ltb, ◌≡◌, refl,
  arith, All, bit_and, Bool-cases, inl, inr,
}
use ebf_leveldb_sep_kv.MultiQueue.HandleTable.{
  Entry, HandleTable, lookup, insert, remove, resize, is_entry, key_eq, set_bucket, empty,
}
use ebf_leveldb_sep_kv.MultiQueue.HandleTable.Laws.{IsTable, Distinct, find}
use ebf_leveldb_sep_kv.MultiQueue.HandleTable.Grow.{lookup-resize, lookup-insert, lookup-remove}
use ebf_leveldb_sep_kv.MultiQueue.State.{
  Double, Tables, Handle, State, set_at, lru_remove, lru_append, num_queue,
}
use ebf_leveldb_sep_kv.MultiQueue.Shrink.{
  may_be_shrink_usage, demote, shrink_lru, shrink_queues, expire_loop,
}
use ebf_leveldb_sep_kv.MultiQueue.Lists.{ListsAgree}
use ebf_leveldb_sep_kv.MultiQueue.Ops.{unref, settle}
use ebf_leveldb_sep_kv.MultiQueue.Unref.{unref-ListsAgree}

abbrev one_entry : Entry
one_entry = record { hash = 6; key = 107 ∷ []; handle = 5 }

abbrev one_entry_table : HandleTable
one_entry_table = record { length = 4; elems = 1; list = set_bucket (λ i. []) 2 (one_entry ∷ []) }

one_entry_table-IsTable : IsTable one_entry_table
unfolding find
one_entry_table-IsTable = record { placed = placed; distinct = distinct }
  where
    placed :
        (i : ℕ)
        → All (λ (e : Entry). bit_and e.hash 3 ≡ i) (set_bucket (λ i'. []) 2 (one_entry ∷ []) i)
    placed i = elim (Bool-cases (i == 2)) [
      | inl here ↦ rw here (ground (arith, here), tt)
      | inr there ↦ rw there tt
    ]

    distinct : (i : ℕ) → Distinct (set_bucket (λ i'. []) 2 (one_entry ∷ []) i)
    distinct i = elim (Bool-cases (i == 2)) [
      | inl here ↦ rw here (refl, tt)
      | inr there ↦ rw there tt
    ]

lookup-resize_example :
    lookup (resize one_entry_table) (107 ∷ []) 6 ≡ lookup one_entry_table (107 ∷ []) 6
lookup-resize_example =
    lookup-resize one_entry_table (107 ∷ []) 6 (omega arith) one_entry_table-IsTable

abbrev second_entry : Entry
second_entry = record { hash = 2; key = 108 ∷ []; handle = 8 }

lookup-insert_example :
    (lookup (insert one_entry_table second_entry).0 (107 ∷ []) 6 ≡ (
      if is_entry (107 ∷ []) 6 second_entry then some 8 else lookup one_entry_table (107 ∷ []) 6))
    × ((insert one_entry_table second_entry).1 ≡ lookup one_entry_table (108 ∷ []) 2)
lookup-insert_example =
    lookup-insert one_entry_table second_entry (107 ∷ []) 6 (omega arith) one_entry_table-IsTable

lookup-remove_example :
    (lookup (remove one_entry_table (107 ∷ []) 6).0 (107 ∷ []) 6 ≡ (
      if (6 == 6) && key_eq (107 ∷ []) (107 ∷ [])
      then none
      else lookup one_entry_table (107 ∷ []) 6))
    × ((remove one_entry_table (107 ∷ []) 6).1 ≡ lookup one_entry_table (107 ∷ []) 6)
    × IsTable (remove one_entry_table (107 ∷ []) 6).0
lookup-remove_example =
    lookup-remove one_entry_table (107 ∷ []) 6 (107 ∷ []) 6 one_entry_table-IsTable

-- Doubles as natural numbers, and tables that count the removed filters, of five bytes each.
abbrev whole : Double ℕ
whole = record {
  add = λ x y. x + y;
  sub = λ x y. x;
  mul = λ x y. x * y;
  of_nat = λ n. n;
  less = λ x y. ltb x y;
}

abbrev counted_tables : Tables ℕ
counted_tables = record {
  curr_filter_num = λ t i j. 1;
  remove_filter = λ t i j. (t + 1, 5);
  adjust_filters = λ t i j n. (t, 0);
  set_access = λ t i j. t;
}

abbrev region : Bool → ℕ → Handle
region cached queue = record {
  table = 0;
  key = [];
  hash = 0;
  charge = 10;
  in_cache = cached;
  refs = 1;
  fre_count = 4;
  expire_time = 0;
  queue_id = queue;
  with_file = false;
  value_id = 0;
  value_refs = 0;
  table_handle = 0;
  prev_region = none;
  next_region = none;
}

abbrev full_cache : State ℕ ℕ
full_cache = record {
  heap = set_at (λ e. region false 0) 3 (region true 1);
  next_handle = 4;
  lrus_num = 2;
  lrus = set_at (λ k. []) 1 (3 ∷ []);
  in_use = [];
  lru_lens = set_at (λ k. 0) 1 1;
  sum_freqs = set_at (λ k. 0) 1 4;
  sum_lru_len = 1;
  table = empty;
  capacity = 8;
  usage = 10;
  current_time = 5;
  life_time = 2;
  insert_count = 1;
  multi_queue_init = true;
  need_adjust = true;
  locked = true;
  expection = 0;
  change_ratio = 0;
  fps = λ k. 1;
  bits_per_key_per_filter = λ k. 4;
  bits_per_key_per_filter_sum = λ k. 4 * k;
  head_charge = 0;
  tables = 0;
}

full_cache-ListsAgree : ListsAgree full_cache
full_cache-ListsAgree = record {
  queues = λ e k. ground arith;
  using = λ e. ground arith;
  counted = λ k. ground arith;
}

abbrev shrunk_cache : State ℕ ℕ
shrunk_cache = (demote whole counted_tables (record full_cache { multi_queue_init = false }) 1 3).0

-- The same cache with a second region in use, whose release loads a filter and shrinks the cache.
abbrev in_use_cache : State ℕ ℕ
in_use_cache = record full_cache {
  heap =
      set_at (set_at (λ e. region false 0) 3 (region true 1)) 4
        (record (region true 2) { refs = 2; value_id = 1; with_file = true });
  next_handle = 5;
  lrus_num = 3;
  in_use = 4 ∷ [];
}

in_use_cache-ListsAgree : ListsAgree in_use_cache
in_use_cache-ListsAgree = record {
  queues = λ e k. ground arith;
  using = λ e. ground arith;
  counted = λ k. ground arith;
}

abbrev released_cache : State ℕ ℕ
released_cache = elim (unref whole counted_tables in_use_cache 4) [
  | none ↦ in_use_cache
  | some s ↦ s
]

releases : unref whole counted_tables in_use_cache 4 ≡ some released_cache
unfolding unref settle may_be_shrink_usage shrink_lru shrink_queues expire_loop demote lru_remove
    lru_append num_queue
releases = refl

-- The shrink took a filter of the first region.
released_usage : released_cache.usage ≡ 5
unfolding unref settle may_be_shrink_usage shrink_lru shrink_queues expire_loop demote lru_remove
    lru_append num_queue
released_usage = refl

unref-ListsAgree_example : ListsAgree released_cache
unref-ListsAgree_example =
    unref-ListsAgree whole counted_tables in_use_cache 4 in_use_cache-ListsAgree releases
