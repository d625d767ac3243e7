-- ===== src/MultiQueue/Invariant.antt =====
-- The lists of the cache agree with its handles through a shrink, also where Unref calls it: there
-- the handle has one reference left and still stands on the in-use list.
use ebf_leveldb_sep_kv.Base.{
  ℕ, zero, suc, ◌-◌, List, [], ◌∷◌, some, true, false, leb, ◌==◌, ◌&&◌, ltb, ◌≡◌, refl, arith, sym,
  eq_of_some, Bool-cases, inl, inr, ◌≢◌, ◌⊎◌, ℕ_discrete,
}
use mathlib.Core.Path.{subst}
use ebf_leveldb_sep_kv.MultiQueue.State.{
  Double, Tables, Handle, State, set_at, sub64, lt_int64, without, lru_remove, lru_append,
}
use ebf_leveldb_sep_kv.MultiQueue.Shrink.{
  demote, expire_loop, shrink_queues, shrink_lru, force_loop, force_shrink, longest,
  may_be_shrink_usage,
}
use ebf_leveldb_sep_kv.MultiQueue.Lists.{count, on_lru, one_if, Agree, detach, attach_queue}

pub ==_ne : (a b : ℕ) → a ≢ b → (a == b) ≡ false
==_ne a b h = ground arith

pub ==_self : (a : ℕ) → (a == a) ≡ true
==_self a = ground arith

pub List-cases : (l : List ℕ) → (l ≡ []) ⊎ ((h : ℕ) × (t : List ℕ) × (l ≡ h ∷ t))
List-cases [] = inl refl
List-cases (h ∷ t) = inr (h, t, refl)

-- Handle `e` has one reference left and still stands on the in-use list, as at the calls of
-- MayBeShrinkUsage in Unref: the lists agree with the handles as they were before its count fell.
pub record IsLeaving {D T : Type 0} (e : ℕ) (s : State D T) : Type 0 where
  pub cached : (s.heap e).in_cache ≡ true
  pub one : (s.heap e).refs ≡ 1
  pub before : Agree (set_at s.heap e (record (s.heap e) { refs = 2 })) s.lrus s.in_use s.lru_lens

module _ {D T : Type 0} (double : Double D) (tables : Tables T) where
  -- What a shrink keeps: all that its steps keep, each of which takes the oldest handle of a queue
  -- down, from the state with multi_queue_init off.
  module _ (I : State D T → Type 0)
      (cleared : (s : State D T) → I s → I (record s { multi_queue_init = false }))
      (step : (s : State D T) (k old : ℕ) (others : List ℕ)
        → I s
        → s.lrus k ≡ old ∷ others
        → I (demote double tables s k old).0) where
    expire_loop-keeps :
        (fuel : ℕ) (s : State D T) (k goal removed : ℕ)
        → I s
        → I (expire_loop double tables fuel s k goal removed).0
    unfolding expire_loop
    expire_loop-keeps zero s k goal removed a = a
    expire_loop-keeps (suc fuel) s k goal removed a = elim (List-cases (s.lrus k)) [
      | inl none_left ↦ rw (none_left, expire_loop) a
      | inr (old, others, e) ↦
          elim (Bool-cases (
            lt_int64 removed goal
            && (((s.heap old).refs == 1) && ltb (s.heap old).expire_time s.current_time))) [
              | inl go ↦
                  rw (e, expire_loop, go)
                    (expire_loop-keeps fuel (demote double tables s k old).0 k goal _
                      (step s k old others a e))
              | inr stop ↦ rw (e, expire_loop, stop) a
            ]
    ]

    shrink_queues-keeps :
        (k : ℕ) (s : State D T) (goal removed : ℕ)
        → I s
        → I (shrink_queues double tables k s goal removed).0
    unfolding shrink_queues
    shrink_queues-keeps zero s goal removed a = a
    shrink_queues-keeps (suc k) s goal removed a = elim (Bool-cases (ltb s.capacity s.usage)) [
      | inl over ↦
          rw over (shrink_queues-keeps k _ goal _ (expire_loop-keeps _ s (suc k) goal removed a))
      | inr fits ↦ rw fits a
    ]

    force_loop-keeps :
        (fuel : ℕ) (s : State D T) (k goal removed : ℕ) {s' : State D T}
        → I s
        → force_loop double tables fuel s k goal removed ≡ some s'
        → I s'
    unfolding force_loop
    force_loop-keeps zero s k goal removed a h = elim (Bool-cases (lt_int64 removed goal)) [
      | inl more ↦ cc (rw more at h)
      | inr done ↦ subst I (eq_of_some (rw done at h)) a
    ]
    force_loop-keeps (suc fuel) s k goal removed a h = elim (List-cases (s.lrus k)) [
      | inl none_left ↦ elim (Bool-cases (lt_int64 removed goal)) [
        | inl more ↦ cc (rw (none_left, force_loop, more) at h)
        | inr done ↦ subst I (eq_of_some (rw (none_left, force_loop, done) at h)) a
      ]
      | inr (old, others, e) ↦ elim (Bool-cases (lt_int64 removed goal)) [
        | inl more ↦
            force_loop-keeps fuel (demote double tables s k old).0 k goal _
              (step s k old others a e) (rw (e, force_loop, more) at h)
        | inr done ↦ subst I (eq_of_some (rw (e, force_loop, done) at h)) a
      ]
    ]

    force_shrink-keeps :
        (s : State D T) (goal : ℕ) {s' : State D T}
        → I s
        → force_shrink double tables s goal ≡ some s'
        → I s'
    unfolding force_shrink
    force_shrink-keeps s goal a h =
        elim (Bool-cases (longest s.lru_lens (s.lrus_num - 1) 1 0 0 == 0)) [
          | inl nothing ↦ subst I (eq_of_some (rw nothing at h)) a
          | inr some_queue ↦ force_loop-keeps _ s _ goal 0 a (rw some_queue at h)
        ]

    pub may_be_shrink_usage-keeps :
        (s : State D T) {s' : State D T}
        → I s
        → may_be_shrink_usage double tables s ≡ some s'
        → I s'
    unfolding may_be_shrink_usage shrink_lru
    may_be_shrink_usage-keeps s a h = elim (Bool-cases (leb s.capacity s.usage)) [
      | inr fits ↦ subst I (eq_of_some (rw fits at h)) a
      | inl full ↦
          let s0 = record s { multi_queue_init = false } in
          let goal = sub64 s.usage s.capacity in
          let a1 = shrink_queues-keeps (s.lrus_num - 1) s0 goal 0 (cleared s a) in
          elim (Bool-cases (shrink_lru double tables s0 (s.lrus_num - 1) goal).1) [
            | inl enough ↦ subst I (eq_of_some (rw (full, enough) at h)) a1
            | inr short ↦ force_shrink-keeps _ _ a1 (rw (full, short) at h)
          ]
    ]

  -- A handle that stands first on a queue's list is cached, used by nobody else, and of that queue.
  on_queue :
      (heap : ℕ → Handle) (lrus : ℕ → List ℕ) (in_use : List ℕ) (lens : ℕ → ℕ) (k old : ℕ)
      (others : List ℕ)
      → Agree heap lrus in_use lens
      → lrus k ≡ old ∷ others
      → on_lru (heap old) k ≡ true
  on_queue heap lrus in_use lens k old others a e =
      let c : count old (lrus k) ≡ one_if (on_lru (heap old) k) = a.queues old k in
      ground (arith, rw e at c)

  -- Whatever heap the lists agree with, as long as it shows the old handle as it is: the handle
  -- goes down a queue.
  demote-Agree :
      (s : State D T) (k old : ℕ) (heap heap' : ℕ → Handle)
      → Agree heap s.lrus s.in_use s.lru_lens
      → on_lru (heap old) k ≡ true
      → ((d : ℕ) → d ≢ old → heap' d ≡ heap d)
      → on_lru (heap' old) (k - 1) ≡ true
      → Agree heap'
          (demote double tables s k old).0.lrus
          (demote double tables s k old).0.in_use
          (demote double tables s k old).0.lru_lens
  unfolding demote lru_remove lru_append
  demote-Agree s k old heap heap' a here same there =
      attach_queue old heap (λ j. without old (s.lrus j)) (without old s.in_use) heap' same (k - 1)
        (set_at s.lru_lens k (sub64 (s.lru_lens k) 1))
        (detach old heap s.lrus s.in_use s.lru_lens (set_at s.lru_lens k (sub64 (s.lru_lens k) 1)) a
          (λ j. ground (arith, here)))
        (ground (arith, there)) (ground (arith, there)) (ground (arith, there))

  demoted_heap :
      (s : State D T) (k old d : ℕ) → d ≢ old → (demote double tables s k old).0.heap d ≡ s.heap d
  unfolding demote lru_remove lru_append
  demoted_heap s k old d ne = rw (==_ne d old ne) refl

  demoted_queue :
      (s : State D T) (k old : ℕ)
      → on_lru (s.heap old) k ≡ true
      → on_lru ((demote double tables s k old).0.heap old) (k - 1) ≡ true
  unfolding demote lru_remove lru_append
  demoted_queue s k old here = rw (==_self old) (ground (arith, here))

  IsLeaving-step :
      (e : ℕ) (s : State D T) (k old : ℕ) (others : List ℕ)
      → IsLeaving e s
      → s.lrus k ≡ old ∷ others
      → IsLeaving e (demote double tables s k old).0
  IsLeaving-step e s k old others l split =
      let view : ℕ → Handle = set_at s.heap e (record (s.heap e) { refs = 2 }) in
      let here : on_lru (view old) k ≡ true =
        on_queue view s.lrus s.in_use s.lru_lens k old others l.before split in
      let apart : old ≢ e = λ p. ground (arith, here, p) in
      let back : e ≢ old = λ p. apart (sym p) in
      let kept = demoted_heap s k old e back in
      let shown : on_lru (s.heap old) k ≡ true = rw (==_ne old e apart) at here in
      record {
        cached = rw kept l.cached;
        one = rw kept l.one;
        before =
            demote-Agree s k old view
              (set_at (demote double tables s k old).0.heap e
                (record ((demote double tables s k old).0.heap e) { refs = 2 }))
              l.before here
              (λ d ne. elim (ℕ_discrete d e) [
                | yes p ↦ rw (p, ==_self e, kept) refl
                | no p ↦ rw (==_ne d e p, demoted_heap s k old d ne) refl
              ])
              (rw (==_ne old e apart) (demoted_queue s k old shown));
      }

  pub may_be_shrink_usage-IsLeaving :
      (e : ℕ) (s : State D T) {s' : State D T}
      → IsLeaving e s
      → may_be_shrink_usage double tables s ≡ some s'
      → IsLeaving e s'
  may_be_shrink_usage-IsLeaving e s {s'} l h =
      may_be_shrink_usage-keeps (IsLeaving e)
        (λ t b. record { cached = b.cached; one = b.one; before = b.before }) (IsLeaving-step e) s l
        h
