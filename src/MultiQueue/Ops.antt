-- ===== src/MultiQueue/Ops.antt =====
-- The operations of class MultiQueue in util/multi_queue.cc. `none` stands for a failed assert,
-- for a division by zero and for the endless loop of a forced shrink.
use ebf_leveldb_sep_kv.Base.{
  ℕ, zero, suc, ◌+◌, ◌-◌, ◌*◌, ◌/◌, ◌%◌, ◌^◌, List, [], ◌∷◌, Option, none, some, Bool, true, false,
  ltb, ◌==◌, ◌&&◌, ◌||◌, not, if◌then◌else◌, length,
}
use ebf_leveldb_sep_kv.Coding.{◌>>=◌}
use ebf_leveldb_sep_kv.Hash.{hash}
use ebf_leveldb_sep_kv.MultiQueue.HandleTable
use ebf_leveldb_sep_kv.MultiQueue.State.{
  Double, Tables, Handle, State, add64, sub64, at, write, lru_remove, lru_append, in_use_append,
  lens_up, lens_down, freqs_up, freqs_down,
}
use ebf_leveldb_sep_kv.MultiQueue.Shrink.{may_be_shrink_usage}

module _ {D T : Type 0} (double : Double D) (tables : Tables T) where
  open double use {add, sub, mul, of_nat, less}

  unfoldable pub false_positive : State D T → ℕ → D
  false_positive s e = s.fps (tables.curr_filter_num s.tables (at s e).table (at s e).value_id)

  -- The bits of one filter of a handle in queue `k`, by its share of the charge.
  abbrev pub share : State D T → Handle → ℕ → ℕ
  share s h k = h.charge / s.bits_per_key_per_filter_sum h.queue_id * s.bits_per_key_per_filter k

  -- `x < y` and `x += y` on int, where a number from 2^31 on stands for itself less 2^32.
  abbrev pub lt_int32 : ℕ → ℕ → Bool
  lt_int32 x y = ltb ((x + 2 ^ 31) % 2 ^ 32) ((y + 2 ^ 31) % 2 ^ 32)

  abbrev pub add32 : ℕ → ℕ → ℕ
  add32 x y = (x + y) % 2 ^ 32

  -- What the expired handles of a queue would free, up to `need`, and the expectation then.
  unfoldable pub free_expired : State D T → ℕ → ℕ → List ℕ → ℕ → D → ℕ × D
  free_expired s need i [] remove change = (remove, change)
  free_expired s need i (old ∷ others) remove change =
      let h = at s old in
      let lower =
        sub (mul (of_nat h.fre_count) (s.fps (i - 1)))
          (mul (of_nat h.fre_count) (false_positive s old)) in
      let rest = free_expired s need i others (add32 remove (share s h i)) (add change lower) in
      if lt_int32 remove need && ltb h.expire_time s.current_time then rest else (remove, change)

  -- The queue whose expired handles free enough at the least expectation; 0 for none.
  unfoldable pub best_queue : State D T → ℕ → D → ℕ → ℕ → D → ℕ → D × ℕ
  best_queue s need new zero i min_exp min_i = (min_exp, min_i)
  best_queue s need new (suc left) i min_exp min_i =
      let (remove, change) = free_expired s need i (s.lrus i) 0 new in
      let better = not (lt_int32 remove need) && less change min_exp in
      best_queue s need new left (i + 1) (if better then change else min_exp)
        (if better then i else min_i)

  -- The loop that takes the filters; unlike a shrink it leaves the handle's own charge as it is.
  unfoldable pub take_filters : ℕ → State D T → ℕ → ℕ → ℕ → State D T
  take_filters zero s k need remove = s
  take_filters (suc fuel) s k need remove = elim (s.lrus k) [
    | [] ↦ s
    | old ∷ others ↦
        let h = at s old in
        let (t, delta) = tables.remove_filter s.tables h.table h.value_id in
        let s1 = record s { tables = t; usage = sub64 s.usage delta } in
        let s2 = lru_remove (freqs_down (lens_down s1 k) k h.fre_count) old in
        let s3 = lru_append (freqs_up (lens_up s2 (k - 1)) (k - 1) h.fre_count) (k - 1) old in
        let rest = take_filters fuel s3 k need (add32 remove (share s h k)) in
        if lt_int32 remove need then rest else s
  ]

  -- The handle goes up a queue, on the record only.
  abbrev pub promote : State D T → ℕ → D → State D T
  promote s e exp =
      let h = at s e in
      let s1 = freqs_up (freqs_down s h.queue_id h.fre_count) (h.queue_id + 1) h.fre_count in
      record (write s1 e (record h { queue_id = h.queue_id + 1 })) { expection = exp }

  abbrev pub count_access : State D T → ℕ → State D T
  count_access s e = write s e (record (at s e) { fre_count = add64 (at s e).fre_count 1 })

  abbrev pub oldest_charge : State D T → ℕ
  oldest_charge s = elim (s.lrus 1) [ [] ↦ s.head_charge | old ∷ others ↦ (at s old).charge ]

  unfoldable pub recompute_exp : State D T → ℕ → State D T
  recompute_exp s e =
      let h = at s e in
      let fp = false_positive s e in
      let now_exp = add s.expection fp in
      let s1 = count_access s e in
      let fre = add64 h.fre_count 1 in
      let new_exp =
        add (sub s.expection (mul (of_nat (sub64 fre 1)) fp))
          (mul (of_nat fre) (s.fps (h.queue_id + 1))) in
      let extra = if h.queue_id == 0 then oldest_charge s1 else share s1 h (h.queue_id + 1) in
      let need = add32 (sub64 s.usage s.capacity) extra in
      let (min_exp, min_i) = best_queue s1 need new_exp (s.lrus_num - 1) 1 now_exp 0 in
      let freed = take_filters (length (s1.lrus min_i)) s1 min_i need 0 in
      let stay = record s1 { expection = now_exp } in
      let worth = λ (exp : D). less (mul now_exp s.change_ratio) (sub now_exp exp) in
      if s.multi_queue_init || (h.queue_id + 1 == s.lrus_num)
      then record (freqs_up s1 h.queue_id 1) { expection = now_exp }
      else if lt_int32 0 need
      then (if not (min_i == 0) && worth min_exp then promote freed e min_exp else stay)
      else if worth new_exp
      then promote s1 e new_exp
      else stay

  -- A handle that only the cache holds goes from its queue to the in-use list.
  abbrev pub enter_use : State D T → ℕ → State D T
  enter_use s e =
      let moved = in_use_append (lru_remove s e) e in
      record (lens_down moved (at s e).queue_id) { sum_lru_len = sub64 s.sum_lru_len 1 }

  unfoldable pub ref : State D T → ℕ → Bool → State D T
  ref s e add_fre_count =
      let h = at s e in
      let s1 = if (h.refs == 1) && h.in_cache then enter_use s e else s in
      let s2 = write s1 e (record (at s1 e) { refs = (at s1 e).refs + 1 }) in
      let s3 = record s2 { tables = tables.set_access s2.tables h.table h.value_id } in
      let s4 = if ltb s.current_time h.expire_time then recompute_exp s3 e else s3 in
      let s5 = if add_fre_count then s4 else s2 in
      write s5 e (record (at s5 e) { expire_time = add64 s.current_time s.life_time })

  -- A handle that nobody uses any more goes to the end of its queue.
  abbrev pub leave_use : State D T → ℕ → State D T
  leave_use s e =
      let q = (at s e).queue_id in
      record (lens_up (lru_append (lru_remove s e) q e) q) { sum_lru_len = add64 s.sum_lru_len 1 }

  -- The filters of a released region are brought to its queue, or its queue to its filters. The
  -- charge is counted by the bits of a filter's key (the source's other way, USE_REAL_SIZE, is
  -- off).
  unfoldable pub settle : State D T → ℕ → Option (State D T)
  settle s e =
      let h = at s e in
      let filters = tables.curr_filter_num s.tables h.table h.value_id in
      let (t, delta) = tables.adjust_filters s.tables h.table h.queue_id h.value_id in
      let charge = s.bits_per_key_per_filter_sum filters in
      let grown = record (write s e (record h { charge = add64 h.charge delta })) {
        tables = t;
        usage = add64 s.usage delta;
      } in
      let moved = record (write s e (record h { queue_id = filters; charge = charge })) {
        usage = add64 s.usage charge;
      } in
      let grow = may_be_shrink_usage double tables grown in
      let move = may_be_shrink_usage double tables moved in
      if ltb 0 h.value_id && (ltb filters h.queue_id && h.with_file)
      then grow
      else if ltb 0 h.value_id && (ltb h.queue_id filters && h.with_file)
      then move
      else some s

  unfoldable pub unref : State D T → ℕ → Option (State D T)
  unref s e =
      let h = at s e in
      let s1 = write s e (record h { refs = h.refs - 1 }) in
      let freed = record s1 {
        expection = sub s.expection (mul (of_nat h.fre_count) (s.fps h.queue_id));
        locked = false;
      } in
      let released = settle s1 e >>= λ s2. some (record (leave_use s2 e) { locked = false }) in
      if h.refs == 0
      then none
      else if h.refs == 1
      then (if h.in_cache then none else some freed)
      else if h.in_cache && (h.refs == 2)
      then released
      else some (record s1 { locked = false })

  -- Lookup and Release take the mutex and leave it open.
  unfoldable pub lookup : State D T → List ℕ → ℕ → Bool → State D T × Option ℕ
  lookup s key hash get = elim (HandleTable.lookup s.table key hash) [
    | none ↦ (record s { locked = false }, none)
    | some e ↦ (record (ref s e get) { locked = false }, some e)
  ]

  unfoldable pub release : State D T → ℕ → Option (State D T)
  release s e = unref (record s { locked = true }) e

  unfoldable pub lookup_fre_count : State D T → List ℕ → ℕ
  lookup_fre_count s key = elim (HandleTable.lookup s.table key (hash key 0)) [
    | none ↦ 0
    | some e ↦ (at s e).fre_count
  ]

  unfoldable pub set_fre_count : State D T → List ℕ → ℕ → State D T
  set_fre_count s key fre = elim (HandleTable.lookup s.table key (hash key 0)) [
    | none ↦ record s { locked = false }
    | some e ↦
        let fp = false_positive s e in
        let lowered = sub s.expection (mul (of_nat (at s e).fre_count) fp) in
        record (write s e (record (at s e) { fre_count = fre })) {
          expection = add lowered (mul (of_nat fre) fp);
          locked = false;
        }
  ]

  -- FinishErase on a handle that the table gave up.
  unfoldable pub finish_erase : State D T → ℕ → Option (State D T)
  finish_erase s e =
      let h = at s e in
      let s1 = lru_remove s e in
      let s2 = record (freqs_down (lens_down s1 h.queue_id) h.queue_id h.fre_count) {
        sum_lru_len = sub64 s.sum_lru_len 1;
      } in
      let s3 = if h.refs == 1 then s2 else s1 in
      let s4 = record (write s3 e (record h { in_cache = false })) {
        usage = sub64 s.usage h.charge;
      } in
      if h.in_cache then unref s4 e else none

  unfoldable pub erase : State D T → List ℕ → ℕ → Option (State D T)
  erase s key hash =
      let (table, found) = HandleTable.remove s.table key hash in
      let s1 = record s { table = table; locked = true } in
      elim found [
        | none ↦ some (record s1 { locked = false })
        | some e ↦ finish_erase s1 e >>= λ s2. some (record s2 { locked = false })
      ]
