-- ===== src/MultiQueue/Insert.antt =====
-- MultiQueue::Insert of util/multi_queue.cc. A key is the eight bytes of a file's number and the
-- four of a region's; region 0 stands for the table itself.
use ebf_leveldb_sep_kv.Base.{
  ℕ, ◌+◌, ◌-◌, List, ◌++◌, Option, none, some, Bool, true, false, ltb, ◌==◌, if◌then◌else◌, take,
  drop,
}
use ebf_leveldb_sep_kv.Coding.{◌>>=◌, encode_fixed32, decode_fixed32}
use ebf_leveldb_sep_kv.Hash.{hash}
use ebf_leveldb_sep_kv.MultiQueue.HandleTable
use ebf_leveldb_sep_kv.MultiQueue.State.{
  Double, Tables, Handle, State, add64, at, write, lru_append, in_use_append, lens_up,
}
use ebf_leveldb_sep_kv.MultiQueue.Shrink.{may_be_shrink_usage}
use ebf_leveldb_sep_kv.MultiQueue.Ops.{finish_erase}

-- The key of another region of the same file.
unfoldable pub region_key : List ℕ → ℕ → List ℕ
region_key key region = take 8 key ++ encode_fixed32 region

module _ {D T : Type 0} (double : Double D) (tables : Tables T) where
  -- The handle enters the table; one that had its key is erased.
  unfoldable pub enter_table : State D T → ℕ → Option (State D T)
  enter_table s e =
      let h = at s e in
      let (table, redundant) =
        HandleTable.insert s.table (record { hash = h.hash; key = h.key; handle = e }) in
      let s1 = record s { table = table } in
      elim redundant [ none ↦ some s1 | some old ↦ finish_erase double tables s1 old ]

  -- The handle of a table, on the in-use list from the start.
  unfoldable pub insert_table : State D T → ℕ → Option (State D T)
  insert_table s e =
      let h = record (at s e) {
        queue_id = 0;
        refs = 2;
        value_refs = 0;
        in_cache = true;
        table_handle = e;
      } in
      enter_table (in_use_append (write s e h) e) e

  -- The link to the region before; `none` where the source reads through a null pointer.
  unfoldable pub link_region : State D T → ℕ → Option (State D T)
  link_region s e =
      let h = at s e in
      let before = region_key h.key (h.value_id - 1) in
      let linked = HandleTable.lookup s.table before (hash before 0) >>= λ p.
      let s1 = write s e (record h { prev_region = some p; next_region = none }) in
      some (write s1 p (record (at s1 p) { next_region = some e })) in
      if h.value_id == 1
      then some (write s e (record h { prev_region = none; next_region = none }))
      else linked

  unfoldable pub insert_region : State D T → ℕ → Option (State D T)
  insert_region s e = do
    let own = region_key (at s e).key 0
    t ← HandleTable.lookup s.table own (hash own 0)
    let s1 = write s t (record (at s t) { value_refs = (at s t).value_refs + 1 })
    let s2 = write s1 e (record (at s1 e) { table_handle = t })
    s3 ← link_region s2 e
    let s4 = write s3 e (record (at s3 e) { in_cache = true })
    let s5 = lens_up (lru_append s4 (at s4 e).queue_id e) (at s4 e).queue_id
    let s6 = record s5 {
      sum_lru_len = add64 s.sum_lru_len 1;
      usage = add64 s.usage (at s e).charge;
    }
    enter_table s6 e

  -- The new handle, with the reference that is returned.
  unfoldable pub new_handle : State D T → List ℕ → ℕ → ℕ → ℕ → Bool → Handle
  new_handle s key key_hash table charge with_file =
      let value_id = decode_fixed32 (drop 8 key) in
      record {
        table = table;
        key = key;
        hash = key_hash;
        charge = charge;
        in_cache = false;
        refs = 1;
        fre_count = 0;
        expire_time = s.current_time + s.life_time;
        queue_id = tables.curr_filter_num s.tables table value_id;
        with_file = with_file;
        value_id = value_id;
        value_refs = 0;
        table_handle = 0;
        prev_region = none;
        next_region = none;
      }

  unfoldable pub insert : State D T → List ℕ → ℕ → ℕ → ℕ → Bool → Option (State D T × ℕ)
  insert s key key_hash table charge with_file =
      let e = s.next_handle in
      let h = new_handle s key key_hash table charge with_file in
      let s1 = record (write s e h) {
        next_handle = e + 1;
        insert_count = s.insert_count + 1;
        locked = true;
      } in
      let of_table = insert_table s1 e in
      let of_region = insert_region s1 e in
      let entered =
        if h.value_id == 0 then of_table else if ltb 0 s.capacity then of_region else some s1 in
      do
        s2 ← entered
        s3 ← may_be_shrink_usage double tables s2
        some (record s3 { locked = false }, e)
