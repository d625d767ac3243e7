-- ===== src/Tests/Threads.antt =====
-- A whole run of the filter threads, of one child and no key.
use ebf_leveldb_sep_kv.Base.{
  ℕ, ◌+◌, ◌*◌, ◌≤◌, List, [], ◌∷◌, some, true, false, length, map, ◌≡◌, refl, arith, ◌⊎◌,
}
use ebf_leveldb_sep_kv.Bloom.{
  ChildBloomFilterPolicy, child_policy, create_filter, filter_bytes, add_keys,
}
use ebf_leveldb_sep_kv.Bloom.Multi.{create_filters}
use ebf_leveldb_sep_kv.Bloom.Multi.Workers.{
  idle, storing, counting, slot, publishing, returned, State, publish, create, clear, count, here,
  Step, ask, all_asked, work, return, Reach, start, step, initial, fresh,
}
use ebf_leveldb_sep_kv.Bloom.Multi.Workers.Ends.{threads-end, threads-create_filters}

abbrev one_child : List ChildBloomFilterPolicy
one_child = child_policy 4 0 ∷ []

-- 64 bits and the number of probes.
abbrev empty_filter : List ℕ
empty_filter = 0 ∷ 0 ∷ 0 ∷ 0 ∷ 0 ∷ 0 ∷ 0 ∷ 0 ∷ 2 ∷ []

abbrev asked : State
asked = record { slots = slot [] true idle ∷ []; completed = 0; phase = publishing 1 }

abbrev final : State
final = record { slots = slot empty_filter false idle ∷ []; completed = 0; phase = returned }

made : create_filter (child_policy 4 0) [] [] ≡ some empty_filter
unfolding create_filter child_policy filter_bytes add_keys
made = refl

all_made : create_filters one_child [] ([] ∷ []) ≡ some (empty_filter ∷ [])
unfolding create_filters create_filter child_policy filter_bytes add_keys
all_made = refl

first_steps : Reach [] one_child (initial ([] ∷ [])) asked 1
unfolding initial publish
first_steps = step (start 0 refl) (ask 0 refl (omega arith))

last_steps : Reach [] one_child (initial ([] ∷ [])) final 6
unfolding initial publish
last_steps =
    step
      (step
        (step
          (step (step first_steps (all_asked refl)) (
            work (slot empty_filter true storing ∷ []) 0
              (here (create [] empty_filter 0 made refl))))
          (work (slot empty_filter false counting ∷ []) 0 (here (clear empty_filter true 0 refl))))
        (work (slot empty_filter false idle ∷ []) 1 (here (count empty_filter false 1 refl))))
      (return refl refl)

threads-end_example :
    (1 ≤ 4 * length {A = List ℕ} ([] ∷ []) + 2)
    × ((asked.phase ≡ returned) ⊎ ((t : State) × Step [] one_child asked t))
threads-end_example =
    threads-end [] one_child ([] ∷ []) (empty_filter ∷ []) refl all_made first_steps

threads-create_filters_example :
    (final.completed ≡ 0) × (final.slots ≡ map fresh (empty_filter ∷ []))
threads-create_filters_example =
    threads-create_filters [] one_child ([] ∷ []) (empty_filter ∷ []) refl all_made last_steps refl
