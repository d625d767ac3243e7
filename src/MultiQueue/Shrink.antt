-- ===== src/MultiQueue/Shrink.antt =====
-- ShrinkLRU and MayBeShrinkUsage of util/multi_queue.cc: filters are taken from the regions at the
-- old end of the queues, each of which moves down a queue, until the cache fits its capacity. `goal` and
-- `removed` are int64_t: their sums wrap, and they are compared with their sign.
use ebf_leveldb_sep_kv.Base.{
  ℕ, zero, suc, ◌+◌, ◌-◌, [], ◌∷◌, Option, none, some, Bool, false, ltb, leb, ◌==◌, ◌&&◌, not,
  if◌then◌else◌, length,
}
use ebf_leveldb_sep_kv.MultiQueue.State.{
  Double, Tables, State, add64, sub64, lt_int64, at, write, lru_remove, lru_append, lens_up,
  lens_down, freqs_up, freqs_down, num_queue,
}

-- The longest queue from 1 on, by its counter; 0 stands for the source's -1.
unfoldable pub longest : (ℕ → ℕ) → ℕ → ℕ → ℕ → ℕ → ℕ
longest lens zero i max_lens max_i = max_i
longest lens (suc left) i max_lens max_i =
    longest lens left (i + 1) (if ltb max_lens (lens i) then lens i else max_lens)
      (if ltb max_lens (lens i) then i else max_i)

module _ {D T : Type 0} (double : Double D) (tables : Tables T) where
  open double use {add, sub, mul, of_nat}

  -- The body of both loops of ShrinkLRU, on the oldest handle `old` of queue `k`: with the state
  -- it gives the charge that was removed.
  unfoldable pub demote : State D T → ℕ → ℕ → State D T × ℕ
  demote s k old =
      let h = at s old in
      let (t, delta) = tables.remove_filter s.tables h.table h.value_id in
      let fre = num_queue s (k - 1) h.fre_count in
      let lowered = sub s.expection (mul (of_nat h.fre_count) (s.fps k)) in
      let s1 = record (write s old (record h { charge = sub64 h.charge delta; fre_count = fre })) {
        tables = t;
        usage = sub64 s.usage delta;
        expection = add lowered (mul (of_nat fre) (s.fps (k - 1)));
      } in
      let s2 = lru_remove (freqs_down (lens_down s1 k) k fre) old in
      (lru_append (freqs_up (lens_up s2 (k - 1)) (k - 1) fre) (k - 1) old, delta)

  -- The inner loop: while the queue has a handle and less than `goal` is removed, the oldest one
  -- goes down if nobody uses it and it is expired. Each round shortens the queue.
  unfoldable pub expire_loop : ℕ → State D T → ℕ → ℕ → ℕ → State D T × ℕ
  expire_loop zero s k goal removed = (s, removed)
  expire_loop (suc fuel) s k goal removed = elim (s.lrus k) [
    | [] ↦ (s, removed)
    | old ∷ others ↦
        let h = at s old in
        let (s', delta) = demote s k old in
        let rest = expire_loop fuel s' k goal (add64 removed delta) in
        if lt_int64 removed goal && ((h.refs == 1) && ltb h.expire_time s.current_time)
        then rest
        else (s, removed)
  ]

  -- The outer loop, from queue `k` down to queue 1.
  unfoldable pub shrink_queues : ℕ → State D T → ℕ → ℕ → State D T × ℕ
  shrink_queues zero s goal removed = (s, removed)
  shrink_queues (suc k) s goal removed =
      let (s', removed') = expire_loop (length (s.lrus (suc k))) s (suc k) goal removed in
      let rest = shrink_queues k s' goal removed' in
      if ltb s.capacity s.usage then rest else (s, removed)

  unfoldable pub shrink_lru : State D T → ℕ → ℕ → State D T × Bool
  shrink_lru s k goal =
      let (s', removed) = shrink_queues k s goal 0 in (s', not (lt_int64 removed goal))

  -- The forced loop takes the oldest handle without a test. On an empty queue the source spins
  -- for ever, which is `none`; so it is where the fuel, the length of the queue, is used up.
  unfoldable pub force_loop : ℕ → State D T → ℕ → ℕ → ℕ → Option (State D T)
  force_loop zero s k goal removed = if lt_int64 removed goal then none else some s
  force_loop (suc fuel) s k goal removed = elim (s.lrus k) [
    | [] ↦ if lt_int64 removed goal then none else some s
    | old ∷ others ↦
        let (s', delta) = demote s k old in
        let rest = force_loop fuel s' k goal (add64 removed delta) in
        if lt_int64 removed goal then rest else some s
  ]

  unfoldable pub force_shrink : State D T → ℕ → Option (State D T)
  force_shrink s goal =
      let k = longest s.lru_lens (s.lrus_num - 1) 1 0 0 in
      if k == 0 then some s else force_loop (length (s.lrus k)) s k goal 0

  unfoldable pub may_be_shrink_usage : State D T → Option (State D T)
  may_be_shrink_usage s =
      let s0 = record s { multi_queue_init = false } in
      let (s1, enough) = shrink_lru s0 (s.lrus_num - 1) (sub64 s.usage s.capacity) in
      let forced = force_shrink s1 (sub64 s1.usage s1.capacity) in
      if leb s.capacity s.usage then (if enough then some s1 else forced) else some s
