-- ===== src/MultiQueue/Usage.antt =====
-- What a shrink takes off the usage of the cache.
use ebf_leveldb_sep_kv.Base.{ℕ, ◌+◌, ◌-◌, ◌^◌, ◌≤◌, ◌<◌, ◌≡◌}
use ebf_leveldb_sep_kv.MultiQueue.State.{Double, Tables, State}
use ebf_leveldb_sep_kv.MultiQueue.Shrink.{longest}

module _ {D T : Type 0} (double : Double D) (tables : Tables T) (most : ℕ)
    (bounded : (t : T) (i j : ℕ) → (tables.remove_filter t i j).1 ≤ most) where
  -- A shrink that began at usage `start`: what it counts as removed is off the usage, and is above
  -- the goal, the usage over the capacity, by one filter at most. No sum has wrapped.
  record Counts (start cap : ℕ) (s : State D T) (removed : ℕ) : Type 0 where
    usage : s.usage + removed ≡ start
    over : removed + cap ≤ start + most
    capacity : s.capacity ≡ cap

  -- The bounds under which the sums are exact.
  record Exact (start cap : ℕ) : Type 0 where
    small : start < 2 ^ 63
    full : cap ≤ start
    room : most ≤ cap

  module _ (start cap : ℕ) (x : Exact start cap) where
    -- The usage is within the capacity, and short of it by one filter at most.
    abbrev Within : State D T → Type 0
    Within s = (s.usage ≤ cap) × (cap ≤ s.usage + most)

    -- No queue from 1 on has a handle, by its counter.
    abbrev NoHandle : State D T → Type 0
    NoHandle s = longest s.lru_lens (s.lrus_num - 1) 1 0 0 ≡ 0
