-- ===== src/Bloom/Multi/Workers/Ends.antt =====
-- Every interleaving of the filter threads comes to its end, with the filters of the children
-- in order.
use ebf_leveldb_sep_kv.Base.{
  ℕ, zero, suc, ◌+◌, ◌-◌, ◌*◌, ◌≤◌, ◌<◌, List, [], ◌∷◌, some, Bool, true, false, length, map, ◌≡◌,
  refl, ap, ◌∙◌, arith, length-map, dec_lt, ℕ_discrete, Option-cases, inl, inr, ◌⊎◌, ◌≢◌,
}
use mathlib.Core.Path.{subst}
use native.Mathlib.Numerals.{add-one}
use ebf_leveldb_sep_kv.Bloom.{ChildBloomFilterPolicy, create_filter}
use ebf_leveldb_sep_kv.Bloom.Multi.{create_filters}
use ebf_leveldb_sep_kv.Bloom.Multi.Workers.{
  idle, storing, counting, Slot, slot, Phase, publishing, waiting, returned, State, publish,
  SlotStep, create, clear, count, WorkerStep, here, there, Step, ask, all_asked, work, return,
  Reach, start, step, initial, fresh,
}
use ebf_leveldb_sep_kv.Bloom.Multi.Workers.Invariant.{
  Progress, asked_at, before, Tracks, WorkerStep-Tracks, publish-Tracks, Finished, Tracks-Finished,
}

module _ (keys : List (List ℕ)) (ps : List ChildBloomFilterPolicy) (ds : List (List ℕ)) where
  -- The invariant of a call, by the caller's phase.
  PhaseHolds : Phase → List Slot → ℕ → Type 0
  PhaseHolds (publishing i) ss n = (i ≤ length ss) × Tracks keys i ps ds ss n
  PhaseHolds waiting ss n = Tracks keys (length ss) ps ds ss n
  PhaseHolds returned ss n = (n ≡ 0) × Finished keys ps ds ss

  Holds : State → Type 0
  Holds s = PhaseHolds s.phase s.slots s.completed

Phase-cases : (p : Phase) → (p ≡ returned) ⊎ (p ≢ returned)
Phase-cases (publishing i) = inr (ground arith)
Phase-cases waiting = inr (ground arith)
Phase-cases returned = inl refl

length-publish : (i : ℕ) (ss : List Slot) → length (publish i ss) ≡ length ss
unfolding publish
length-publish i [] = refl
length-publish zero (slot d filled pc ∷ ss) = refl
length-publish (suc i) (s ∷ ss) = ap suc (length-publish i ss)

module _ (keys : List (List ℕ)) where
  length-WorkerStep :
      {ps : List ChildBloomFilterPolicy} {ss ts : List Slot} {n : ℕ}
      → WorkerStep keys ps ss ts n
      → length ts ≡ length ss
  length-WorkerStep (here w) = refl
  length-WorkerStep (there w) = ap suc (length-WorkerStep w)

  -- A thread at its spin loop with its flag clear takes no step.
  fresh_stays :
      {ps : List ChildBloomFilterPolicy} {ss ts : List Slot} {n : ℕ} (fs : List (List ℕ))
      → WorkerStep keys ps ss ts n
      → ss ≡ map fresh fs
      → ⊥
  fresh_stays [] (here w) e = cc
  fresh_stays (f ∷ fs) (here (create d g n made z)) e = cc
  fresh_stays (f ∷ fs) (here (clear d b n z)) e = cc
  fresh_stays (f ∷ fs) (here (count d b n z)) e = cc
  fresh_stays [] (there w) e = cc
  fresh_stays (f ∷ fs) (there w) e = fresh_stays fs w (cc)

initial-Tracks :
    (keys : List (List ℕ)) (ps : List ChildBloomFilterPolicy) (ds : List (List ℕ))
    → length ds ≡ length ps
    → Tracks keys 0 ps ds (map fresh ds) 0
initial-Tracks keys [] [] e = refl
initial-Tracks keys [] (d ∷ ds) e = absurd (omega arith)
initial-Tracks keys (p ∷ ps) [] e = absurd (omega arith)
initial-Tracks keys (p ∷ ps) (d ∷ ds) e =
    (0, 0, inl (refl, refl, refl), initial-Tracks keys ps ds (omega arith), refl)

-- What a slot has still to do, and a phase.
weight : Slot → ℕ
weight (slot d true idle) = 3
weight (slot d filled storing) = 2
weight (slot d filled counting) = 1
weight (slot d false idle) = 0

weights : List Slot → ℕ
weights [] = 0
weights (s ∷ ss) = weight s + weights ss

abbrev phase_weight : Phase → ℕ → ℕ
phase_weight (publishing i) n = 4 * (n - i) + 2
phase_weight waiting n = 1
phase_weight returned n = 0

measure : State → ℕ
measure s = phase_weight s.phase (length s.slots) + weights s.slots

weights-publish : (i : ℕ) (ss : List Slot) → weights (publish i ss) ≤ weights ss + 3
unfolding publish weights weight
weights-publish i [] = omega arith
weights-publish zero (slot d true pc ∷ ss) = omega arith
weights-publish zero (slot d false idle ∷ ss) = omega arith
weights-publish zero (slot d false storing ∷ ss) = omega arith
weights-publish zero (slot d false counting ∷ ss) = omega arith
weights-publish (suc i) (s ∷ ss) = omega (arith, weights-publish i ss)

weights-fresh : (ds : List (List ℕ)) → weights (map fresh ds) ≡ 0
unfolding weights weight
weights-fresh [] = refl
weights-fresh (d ∷ ds) = omega (arith, weights-fresh ds)

module _ (keys : List (List ℕ)) where
  weight-SlotStep :
      {p : ChildBloomFilterPolicy} {s t : Slot} {n : ℕ} (d : List ℕ) (asked : Bool) (c : ℕ)
      → SlotStep keys p s t n
      → Progress keys p d asked s c
      → weight t < weight s
  unfolding weight
  weight-SlotStep d asked c (create d' f n made e) h = omega arith
  weight-SlotStep d asked c (clear d' true n e) h = omega arith
  weight-SlotStep d asked c (clear d' false n e) h = absurd h
  weight-SlotStep d asked c (count d' true n e) h = absurd h
  weight-SlotStep d asked c (count d' false n e) h = omega arith

  weights-WorkerStep :
      {ps : List ChildBloomFilterPolicy} {ss ts : List Slot} {n : ℕ} (i : ℕ) (ds : List (List ℕ))
      (m : ℕ)
      → WorkerStep keys ps ss ts n
      → Tracks keys i ps ds ss m
      → weights ts < weights ss
  unfolding weights
  weights-WorkerStep i [] m (here w) t = absurd t
  weights-WorkerStep i (d ∷ ds) m (here w) (c, k, h, rest, e) =
      omega (arith, weight-SlotStep d (asked_at i) c w h)
  weights-WorkerStep i [] m (there w) t = absurd t
  weights-WorkerStep i (d ∷ ds) m (there w) (c, k, h, rest, e) =
      omega (arith, weights-WorkerStep (before i) ds k w rest)

  create_filters_inv :
      (p : ChildBloomFilterPolicy) (ps : List ChildBloomFilterPolicy) (d : List ℕ)
      (ds : List (List ℕ)) {results : List (List ℕ)}
      → create_filters (p ∷ ps) keys (d ∷ ds) ≡ some results
      → (f : List ℕ) × (create_filter p keys d ≡ some f)
        × (fs : List (List ℕ)) × (create_filters ps keys ds ≡ some fs)
  unfolding create_filters
  create_filters_inv p ps d ds e = elim (Option-cases (create_filter p keys d)) [
    | inl bad ↦ cc (rw bad at e)
    | inr (f, made) ↦ elim (Option-cases (create_filters ps keys ds)) [
      | inl bad ↦ cc (rw (made, bad) at e)
      | inr (fs, ran) ↦ (f, made, fs, ran)
    ]
  ]

  -- Where every child was asked and one is not done, a thread can go on.
  can_work :
      (i : ℕ) (ps : List ChildBloomFilterPolicy) (ds : List (List ℕ)) (ss : List Slot) (m : ℕ)
      {results : List (List ℕ)}
      → create_filters ps keys ds ≡ some results
      → Tracks keys i ps ds ss m
      → length ss ≤ i
      → m ≢ length ps
      → (ts : List Slot) × (n : ℕ) × WorkerStep keys ps ss ts n
  can_work i [] [] [] m r t h e = absurd (e t)
  can_work (suc i) (p ∷ ps) (d ∷ ds) (slot d' true idle ∷ ss) m r (c, k, g, rest, f) h e =
      let (own, made, others, ran) = create_filters_inv p ps d ds r in
      (_, 0, here (create d' own 0 (rw g.1 made) refl))
  can_work (suc i) (p ∷ ps) (d ∷ ds) (slot d' false idle ∷ ss) m r (c, k, inl g, rest, f) h e =
      cc (g.0)
  can_work (suc i) (p ∷ ps) (d ∷ ds) (slot d' false idle ∷ ss) m r (c, k, inr g, rest, f) h e =
      let (own, made, results, ran) = create_filters_inv p ps d ds r in
      let (ts, n, w) = can_work i ps ds ss k ran rest (omega arith) (omega arith) in
      (slot d' false idle ∷ ts, n, there w)
  can_work (suc i) (p ∷ ps) (d ∷ ds) (slot d' filled storing ∷ ss) m r t h e =
      (_, 0, here (clear d' filled 0 refl))
  can_work (suc i) (p ∷ ps) (d ∷ ds) (slot d' filled counting ∷ ss) m r t h e =
      (_, 1, here (count d' filled 1 refl))
  can_work zero (p ∷ ps) (d ∷ ds) (s ∷ ss) m r t h e = absurd (omega arith)
  can_work i [] [] (s ∷ ss) m r t h e = absurd t
  can_work i [] (d ∷ ds) ss m r t h e = absurd t
  can_work i (p ∷ ps) [] ss m r t h e = absurd t
  can_work i (p ∷ ps) (d ∷ ds) [] m r t h e = absurd t

module _ (keys : List (List ℕ)) (ps : List ChildBloomFilterPolicy) (ds : List (List ℕ)) where
  work-PhaseHolds :
      (phase : Phase) {ss ts : List Slot} {n : ℕ} (m : ℕ)
      → WorkerStep keys ps ss ts n
      → PhaseHolds keys ps ds phase ss m
      → PhaseHolds keys ps ds phase ts (m + n)
        × (phase_weight phase (length ts) + weights ts
            < phase_weight phase (length ss) + weights ss)
  unfolding PhaseHolds
  work-PhaseHolds (publishing i) m w (h, t) = (
    (omega (arith, length-WorkerStep keys w), WorkerStep-Tracks keys i ds m w t),
    omega (arith, length-WorkerStep keys w, weights-WorkerStep keys i ds m w t),
  )
  work-PhaseHolds waiting {ss} {ts} m w t = (
    rw (length-WorkerStep keys w) (WorkerStep-Tracks keys (length ss) ds m w t),
    omega (arith, weights-WorkerStep keys (length ss) ds m w t),
  )
  work-PhaseHolds returned m w (z, (results, ran, back)) = absurd (fresh_stays keys results w back)

  Step-Holds :
      {s t : State}
      → Step keys ps s t
      → Holds keys ps ds s
      → Holds keys ps ds t × (measure t < measure s)
  unfolding Holds PhaseHolds measure
  Step-Holds (ask {s} i e h) v =
      let (le, t) = subst (λ ph. PhaseHolds keys ps ds ph s.slots s.completed) e v in
      (
        (
          omega (arith, length-publish i s.slots),
          rw add-one (publish-Tracks keys i ps ds s.slots s.completed h t),
        ),
        rw (e, length-publish) (omega (arith, weights-publish i s.slots)),
      )
  Step-Holds (all_asked {s} e) v =
      let (le, t) = subst (λ ph. PhaseHolds keys ps ds ph s.slots s.completed) e v in
      (t, rw e (omega arith))
  Step-Holds (work {s} ts n w) v = work-PhaseHolds s.phase s.completed w v
  Step-Holds (return {s} e done) v =
      let t = subst (λ ph. PhaseHolds keys ps ds ph s.slots s.completed) e v in
      (
        (refl, Tracks-Finished keys (length s.slots) ps ds s.slots s.completed t done),
        rw e (omega arith),
      )

  Reach-Holds :
      {s : State} {n : ℕ}
      → length ds ≡ length ps
      → Reach keys ps (initial ds) s n
      → Holds keys ps ds s × (n + measure s ≤ 4 * length ds + 2)
  unfolding initial Holds PhaseHolds measure
  Reach-Holds e (start n z) = (
    (omega arith, initial-Tracks keys ps ds e),
    omega (arith, weights-fresh ds, length-map ds fresh),
  )
  Reach-Holds e (step r st) =
      let (h, bound) = Reach-Holds e r in let (h', falls) = Step-Holds st h in (h', omega arith)

  goes_on :
      (s : State) (results : List (List ℕ))
      → create_filters ps keys ds ≡ some results
      → Holds keys ps ds s
      → s.phase ≢ returned
      → (t : State) × Step keys ps s t
  unfolding Holds PhaseHolds
  goes_on s results ran h open_ = by_phase s.phase refl
    where
      by_phase : (phase : Phase) → s.phase ≡ phase → (t : State) × Step keys ps s t
      by_phase (publishing i) e =
          let (le, t) = subst (λ ph. PhaseHolds keys ps ds ph s.slots s.completed) e h in
          elim (dec_lt i (length s.slots)) [
            | yes more ↦ (_, ask i e more)
            | no last ↦ let q : i ≡ length s.slots = omega arith in (_, all_asked (rw (← q) e))
          ]
      by_phase waiting e =
          let t = subst (λ ph. PhaseHolds keys ps ds ph s.slots s.completed) e h in
          elim (ℕ_discrete s.completed (length ps)) [
            | yes done ↦ (_, return e done)
            | no busy ↦
                let (ts, n, w) =
                  can_work keys (length s.slots) ps ds s.slots s.completed ran t (omega arith)
                    busy in
                (_, work ts n w)
          ]
      by_phase returned e = absurd (open_ e)

  -- With as many strings as children, and where the children's CreateFilter one after the other gives
  -- a result: every interleaving of the caller and the threads takes at most 4 steps for a child and
  -- 2 more, and in every state of it the call has returned or some step is possible.
  pub threads-end :
      (results : List (List ℕ)) {s : State} {n : ℕ}
      → length ds ≡ length ps
      → create_filters ps keys ds ≡ some results
      → Reach keys ps (initial ds) s n
      → (n ≤ 4 * length ds + 2) × ((s.phase ≡ returned) ⊎ ((t : State) × Step keys ps s t))
  unfolding Holds PhaseHolds
  threads-end results {s} {n} e ran r =
      let (h, bound) = Reach-Holds e r in
      (
        omega arith,
        elim (Phase-cases s.phase) [
          | inl done ↦ inl done
          | inr before_return ↦ inr (goes_on s results ran h before_return)
        ],
      )

  -- With as many strings as children, and where the children's CreateFilter one after the other gives
  -- a result: when the call has returned, in whatever order the caller and the threads took their
  -- steps, the counter is back at 0, all flags are clear and all threads at their spin loop, and the
  -- strings are that result.
  pub threads-create_filters :
      (results : List (List ℕ)) {s : State} {n : ℕ}
      → length ds ≡ length ps
      → create_filters ps keys ds ≡ some results
      → Reach keys ps (initial ds) s n
      → s.phase ≡ returned
      → (s.completed ≡ 0) × (s.slots ≡ map fresh results)
  unfolding Holds PhaseHolds
  threads-create_filters results {s} {n} e ran r done =
      let (h, bound) = Reach-Holds e r in
      let (z, (fs, ran', back)) =
        subst (λ ph. PhaseHolds keys ps ds ph s.slots s.completed) done h in
      let same : fs ≡ results = cc in (z, back ∙ ap (map fresh) same)
