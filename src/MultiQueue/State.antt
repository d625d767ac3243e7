-- ===== src/MultiQueue/State.antt =====
-- The state of class MultiQueue in util/multi_queue.cc, and the steps on its lists. A handle is a
-- number, the memory of the handles a function; each circular list behind a dummy head is the
-- list of its handles from the oldest (`next` of the head) to the newest (`prev` of the head).
-- Arrays and vectors over the queues are functions of the queue's number. Sums of size_t wrap.
-- Two things stand outside: the arithmetic of double, and the tables whose filters the cache
-- holds (table/table.cc), which it reads and changes through four methods. `head_charge` is the
-- `charge` of the dummy head of queue 1, which the source reads and never sets.
use ebf_leveldb_sep_kv.Base.{
  ℕ, zero, suc, ◌+◌, ◌-◌, ◌/◌, ◌%◌, ◌^◌, List, [], ◌∷◌, ◌++◌, Option, none, some, Bool, true, false,
  ltb, leb, ◌==◌, if◌then◌else◌,
}
use ebf_leveldb_sep_kv.MultiQueue.HandleTable.{HandleTable}

-- The operations of double that the cache uses.
pub record Double (D : Type 0) : Type 0 where
  pub add : D → D → D
  pub sub : D → D → D
  pub mul : D → D → D
  pub of_nat : ℕ → D
  pub less : D → D → Bool

-- The tables, in a state `T`: a table's number and a handle's `value_id` name a region. A
-- removal or an adjustment answers with the change of the charge.
pub record Tables (T : Type 0) : Type 0 where
  pub curr_filter_num : T → ℕ → ℕ → ℕ
  pub remove_filter : T → ℕ → ℕ → T × ℕ
  pub adjust_filters : T → ℕ → ℕ → ℕ → T × ℕ
  pub set_access : T → ℕ → ℕ → T

pub record Handle : Type 0 where
  pub table : ℕ
  pub key : List ℕ
  pub hash : ℕ
  pub charge : ℕ
  pub in_cache : Bool
  pub refs : ℕ
  pub fre_count : ℕ
  pub expire_time : ℕ
  pub queue_id : ℕ
  pub with_file : Bool
  pub value_id : ℕ
  pub value_refs : ℕ
  pub table_handle : ℕ
  pub prev_region : Option ℕ
  pub next_region : Option ℕ

pub record State (D T : Type 0) : Type 0 where
  pub heap : ℕ → Handle
  pub next_handle : ℕ
  pub lrus_num : ℕ
  pub lrus : ℕ → List ℕ
  pub in_use : List ℕ
  pub lru_lens : ℕ → ℕ
  pub sum_freqs : ℕ → ℕ
  pub sum_lru_len : ℕ
  pub table : HandleTable
  pub capacity : ℕ
  pub usage : ℕ
  pub current_time : ℕ
  pub life_time : ℕ
  pub insert_count : ℕ
  pub multi_queue_init : Bool
  pub need_adjust : Bool
  pub locked : Bool
  pub expection : D
  pub change_ratio : D
  pub fps : ℕ → D
  pub bits_per_key_per_filter : ℕ → ℕ
  pub bits_per_key_per_filter_sum : ℕ → ℕ
  pub head_charge : ℕ
  pub tables : T

-- A write to one place of an array.
abbrev pub set_at {ℓ} : {A : Type ℓ} → (ℕ → A) → ℕ → A → ℕ → A
set_at f i v j = if j == i then v else f j

-- `x += y` and `x -= y` on size_t.
abbrev pub add64 : ℕ → ℕ → ℕ
add64 x y = (x + y) % 2 ^ 64

abbrev pub sub64 : ℕ → ℕ → ℕ
sub64 x y = (x + 2 ^ 64 - y % 2 ^ 64) % 2 ^ 64

-- `x < y` on int64_t, where a number from 2^63 on stands for itself less 2^64.
abbrev pub lt_int64 : ℕ → ℕ → Bool
lt_int64 x y = ltb ((x + 2 ^ 63) % 2 ^ 64) ((y + 2 ^ 63) % 2 ^ 64)

-- A list without a handle.
unfoldable pub without : ℕ → List ℕ → List ℕ
without e [] = []
without e (h ∷ hs) = let rest = without e hs in if h == e then hs else h ∷ rest

abbrev pub last_of : ℕ → List ℕ → ℕ
last_of d [] = d
last_of d (h ∷ hs) = last_of h hs

module _ {D T : Type 0} where
  -- A handle's fields.
  abbrev pub at : State D T → ℕ → Handle
  at s e = s.heap e

  abbrev pub write : State D T → ℕ → Handle → State D T
  write s e h = record s { heap = set_at s.heap e h }

  -- LRU_Remove: the handle leaves the list that it is on.
  unfoldable pub lru_remove : State D T → ℕ → State D T
  lru_remove s e = record s { lrus = λ k. without e (s.lrus k); in_use = without e s.in_use }

  -- LRU_Append to the list of queue `k`, which sets the handle's queue, and to the in-use list,
  -- which keeps it.
  unfoldable pub lru_append : State D T → ℕ → ℕ → State D T
  lru_append s k e = record (write s e (record (at s e) { queue_id = k })) {
    lrus = set_at s.lrus k (s.lrus k ++ (e ∷ []));
  }

  unfoldable pub in_use_append : State D T → ℕ → State D T
  in_use_append s e = record s { in_use = s.in_use ++ (e ∷ []) }

  abbrev pub lens_up : State D T → ℕ → State D T
  lens_up s k = record s { lru_lens = set_at s.lru_lens k (add64 (s.lru_lens k) 1) }

  abbrev pub lens_down : State D T → ℕ → State D T
  lens_down s k = record s { lru_lens = set_at s.lru_lens k (sub64 (s.lru_lens k) 1) }

  abbrev pub freqs_up : State D T → ℕ → ℕ → State D T
  freqs_up s k n = record s { sum_freqs = set_at s.sum_freqs k (add64 (s.sum_freqs k) n) }

  abbrev pub freqs_down : State D T → ℕ → ℕ → State D T
  freqs_down s k n = record s { sum_freqs = set_at s.sum_freqs k (sub64 (s.sum_freqs k) n) }

  -- Num_Queue: the mean of the counts of the oldest and the newest handle, or half the count.
  unfoldable pub num_queue : State D T → ℕ → ℕ → ℕ
  num_queue s k fre_count = elim (s.lrus k) [
    | [] ↦ fre_count / 2
    | h ∷ hs ↦ add64 (s.heap h).fre_count (s.heap (last_of h hs)).fre_count / 2
  ]

  unfoldable pub is_cache_full : State D T → Bool
  is_cache_full s = leb s.capacity s.usage

  unfoldable pub turn_on_adjustment : State D T → State D T
  turn_on_adjustment s = record s { need_adjust = true; locked = false }

  unfoldable pub turn_off_adjustment : State D T → State D T
  turn_off_adjustment s = record s { need_adjust = false; locked = false }

  -- GetLRUFreCount: the count of the oldest handle of the first queue from 1 on that has one;
  -- with none the source's function ends with no value.
  unfoldable pub get_lru_fre_count : State D T → ℕ → ℕ → Option ℕ
  get_lru_fre_count s zero i = none
  get_lru_fre_count s (suc left) i =
      let rest = get_lru_fre_count s left (i + 1) in
      elim (s.lrus i) [ [] ↦ rest | h ∷ hs ↦ some (s.heap h).fre_count ]

  -- AllocFilterNums, over the queues that are left: the first non-empty queue whose mean count
  -- is above `freq`, else the last non-empty one. `none`: a division by zero.
  unfoldable pub alloc_filter_nums : State D T → ℕ → ℕ → ℕ → ℕ → Option ℕ
  alloc_filter_nums s freq zero i last = some last
  alloc_filter_nums s freq (suc left) i last =
      let skip = alloc_filter_nums s freq left (i + 1) last in
      let later = alloc_filter_nums s freq left (i + 1) i in
      elim (s.lrus i) [
        | [] ↦ skip
        | h ∷ hs ↦
            if s.lru_lens i == 0
            then none
            else if ltb freq (s.sum_freqs i / s.lru_lens i)
            then some i
            else later
      ]
