-- ===== src/Bloom/Multi/Workers/Invariant.antt =====
-- What holds at every point of every interleaving of the filter threads.
use ebf_leveldb_sep_kv.Base.{
  ℕ, zero, suc, ◌+◌, ◌≤◌, ◌<◌, List, [], ◌∷◌, some, Bool, true, false, length, map, ◌≡◌, refl,
  arith, ◌⊎◌, inl, inr,
}
use mathlib.Core.Path.{ap₂}
use ebf_leveldb_sep_kv.Bloom.{ChildBloomFilterPolicy, create_filter}
use ebf_leveldb_sep_kv.Bloom.Multi.{create_filters}
use ebf_leveldb_sep_kv.Bloom.Multi.Workers.{
  idle, storing, counting, Slot, slot, dst_of, publish, SlotStep, create, clear, count, WorkerStep,
  here, there, fresh,
}

-- A child's slot, from the string `d` it had, `asked` once its flag was set, with the share `c`
-- of the counter that is its own.
abbrev pub Progress : List (List ℕ) → ChildBloomFilterPolicy → List ℕ → Bool → Slot → ℕ → Type 0
Progress keys p d asked (slot d' true idle) c = (asked ≡ true) × (d' ≡ d) × (c ≡ 0)
Progress keys p d asked (slot d' false idle) c =
    ((asked ≡ false) × (d' ≡ d) × (c ≡ 0))
    ⊎ ((asked ≡ true) × (create_filter p keys d ≡ some d') × (c ≡ 1))
Progress keys p d asked (slot d' true storing) c =
    (asked ≡ true) × (create_filter p keys d ≡ some d') × (c ≡ 0)
Progress keys p d asked (slot d' false storing) c = ⊥
Progress keys p d asked (slot d' false counting) c =
    (asked ≡ true) × (create_filter p keys d ≡ some d') × (c ≡ 0)
Progress keys p d asked (slot d' true counting) c = ⊥

abbrev pub asked_at : ℕ → Bool
asked_at zero = false
asked_at (suc i) = true

abbrev pub before : ℕ → ℕ
before zero = zero
before (suc i) = i

-- The first `i` children were asked, and the counter is the sum of their shares.
abbrev pub Tracks :
    List (List ℕ) → ℕ → List ChildBloomFilterPolicy → List (List ℕ) → List Slot → ℕ → Type 0
Tracks keys i [] [] [] n = n ≡ 0
Tracks keys i (p ∷ ps) (d ∷ ds) (s ∷ ss) n =
    (c : ℕ) × (m : ℕ) × Progress keys p d (asked_at i) s c
    × Tracks keys (before i) ps ds ss m
    × (n ≡ c + m)
Tracks keys i ps ds ss n = ⊥

module _ (keys : List (List ℕ)) where
  SlotStep-Progress :
      {p : ChildBloomFilterPolicy} {s t : Slot} {n : ℕ} (d : List ℕ) (asked : Bool) (c : ℕ)
      → SlotStep keys p s t n
      → Progress keys p d asked s c
      → Progress keys p d asked t (c + n)
  SlotStep-Progress d asked c (create d' f n made e) h = ground arith
  SlotStep-Progress d asked c (clear d' true n e) h = ground arith
  SlotStep-Progress d asked c (clear d' false n e) h = absurd h
  SlotStep-Progress d asked c (count d' true n e) h = absurd h
  SlotStep-Progress d asked c (count d' false n e) h = inr (h.0, h.1, omega arith)

  pub WorkerStep-Tracks :
      {ps : List ChildBloomFilterPolicy} {ss ts : List Slot} {n : ℕ} (i : ℕ) (ds : List (List ℕ))
      (m : ℕ)
      → WorkerStep keys ps ss ts n
      → Tracks keys i ps ds ss m
      → Tracks keys i ps ds ts (m + n)
  WorkerStep-Tracks i [] m (here w) t = absurd t
  WorkerStep-Tracks i (d ∷ ds) m (here w) (c, k, h, rest, e) =
      (_, k, SlotStep-Progress d (asked_at i) c w h, rest, omega arith)
  WorkerStep-Tracks i [] m (there w) t = absurd t
  WorkerStep-Tracks i (d ∷ ds) m (there w) (c, k, h, rest, e) =
      (c, _, h, WorkerStep-Tracks (before i) ds k w rest, omega arith)

  pub publish-Tracks :
      (i : ℕ) (ps : List ChildBloomFilterPolicy) (ds : List (List ℕ)) (ss : List Slot) (m : ℕ)
      → i < length ss
      → Tracks keys i ps ds ss m
      → Tracks keys (suc i) ps ds (publish i ss) m
  unfolding publish
  publish-Tracks i [] [] [] m h t = t
  publish-Tracks zero (p ∷ ps) (d ∷ ds) (slot d' true idle ∷ ss) m h (c, k, g, rest, e) =
      (c, k, ground arith, rest, e)
  publish-Tracks zero (p ∷ ps) (d ∷ ds) (slot d' false idle ∷ ss) m h (c, k, g, rest, e) =
      (c, k, ground arith, rest, e)
  publish-Tracks zero (p ∷ ps) (d ∷ ds) (slot d' true storing ∷ ss) m h (c, k, g, rest, e) =
      cc (g.0)
  publish-Tracks zero (p ∷ ps) (d ∷ ds) (slot d' false storing ∷ ss) m h (c, k, g, rest, e) =
      absurd g
  publish-Tracks zero (p ∷ ps) (d ∷ ds) (slot d' true counting ∷ ss) m h (c, k, g, rest, e) =
      absurd g
  publish-Tracks zero (p ∷ ps) (d ∷ ds) (slot d' false counting ∷ ss) m h (c, k, g, rest, e) =
      cc (g.0)
  publish-Tracks (suc i) (p ∷ ps) (d ∷ ds) (s ∷ ss) m h (c, k, g, rest, e) =
      (c, k, g, publish-Tracks i ps ds ss k (omega arith) rest, e)
  publish-Tracks i [] [] (s ∷ ss) m h t = absurd t
  publish-Tracks i [] (d ∷ ds) ss m h t = absurd t
  publish-Tracks i (p ∷ ps) [] ss m h t = absurd t
  publish-Tracks i (p ∷ ps) (d ∷ ds) [] m h t = absurd t

  Progress-le-one :
      (p : ChildBloomFilterPolicy) (d : List ℕ) (asked : Bool) (s : Slot) (c : ℕ)
      → Progress keys p d asked s c
      → c ≤ 1
  Progress-le-one p d asked (slot d' true idle) c h = omega arith
  Progress-le-one p d asked (slot d' false idle) c h = ground arith
  Progress-le-one p d asked (slot d' true storing) c h = omega arith
  Progress-le-one p d asked (slot d' false storing) c h = absurd h
  Progress-le-one p d asked (slot d' true counting) c h = absurd h
  Progress-le-one p d asked (slot d' false counting) c h = omega arith

  Tracks-le-length :
      (i : ℕ) (ps : List ChildBloomFilterPolicy) (ds : List (List ℕ)) (ss : List Slot) (m : ℕ)
      → Tracks keys i ps ds ss m
      → m ≤ length ps
  Tracks-le-length i [] [] [] m t = omega arith
  Tracks-le-length i (p ∷ ps) (d ∷ ds) (s ∷ ss) m (c, k, g, rest, e) =
      omega
        (arith, Progress-le-one p d (asked_at i) s c g, Tracks-le-length (before i) ps ds ss k rest)
  Tracks-le-length i [] [] (s ∷ ss) m t = absurd t
  Tracks-le-length i [] (d ∷ ds) ss m t = absurd t
  Tracks-le-length i (p ∷ ps) [] ss m t = absurd t
  Tracks-le-length i (p ∷ ps) (d ∷ ds) [] m t = absurd t

  -- A child whose share is 1 has its filter, and its thread is back at the spin loop.
  Progress-one :
      (p : ChildBloomFilterPolicy) (d : List ℕ) (asked : Bool) (s : Slot) (c : ℕ)
      → Progress keys p d asked s c
      → c ≡ 1
      → (create_filter p keys d ≡ some (dst_of s)) × (s ≡ fresh (dst_of s))
  unfolding dst_of
  Progress-one p d asked (slot d' true idle) c h e = absurd (omega arith)
  Progress-one p d asked (slot d' false idle) c (inl h) e = absurd (omega arith)
  Progress-one p d asked (slot d' false idle) c (inr h) e = (h.1, refl)
  Progress-one p d asked (slot d' true storing) c h e = absurd (omega arith)
  Progress-one p d asked (slot d' false storing) c h e = absurd h
  Progress-one p d asked (slot d' true counting) c h e = absurd h
  Progress-one p d asked (slot d' false counting) c h e = absurd (omega arith)

  -- All children done: the strings are those of the children in order, and all slots are fresh.
  abbrev pub Finished : List ChildBloomFilterPolicy → List (List ℕ) → List Slot → Type 0
  Finished ps ds ss =
      (results : List (List ℕ)) × (create_filters ps keys ds ≡ some results)
      × (ss ≡ map fresh results)

  pub Tracks-Finished :
      (i : ℕ) (ps : List ChildBloomFilterPolicy) (ds : List (List ℕ)) (ss : List Slot) (m : ℕ)
      → Tracks keys i ps ds ss m
      → m ≡ length ps
      → Finished ps ds ss
  unfolding create_filters
  Tracks-Finished i [] [] [] m t e = ([], refl, refl)
  Tracks-Finished i (p ∷ ps) (d ∷ ds) (s ∷ ss) m (c, k, g, rest, f) e =
      let bound = Progress-le-one p d (asked_at i) s c g in
      let bounds = Tracks-le-length (before i) ps ds ss k rest in
      let (made, back) = Progress-one p d (asked_at i) s c g (omega arith) in
      let (results, ran, backs) = Tracks-Finished (before i) ps ds ss k rest (omega arith) in
      (dst_of s ∷ results, rw (made, ran), ap₂ (◌∷◌) back backs)
  Tracks-Finished i [] [] (s ∷ ss) m t e = absurd t
  Tracks-Finished i [] (d ∷ ds) ss m t e = absurd t
  Tracks-Finished i (p ∷ ps) [] ss m t e = absurd t
  Tracks-Finished i (p ∷ ps) (d ∷ ds) [] m t e = absurd t
