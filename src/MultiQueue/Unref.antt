-- ===== src/MultiQueue/Unref.antt =====
-- The lists of the cache agree with its handles through Unref of util/multi_queue.cc.
use ebf_leveldb_sep_kv.Base.{
  ℕ, ◌-◌, ◌≢◌, ◌≤◌, ◌⊎◌, List, some, true, false, ltb, ◌==◌, ◌&&◌, ◌≡◌, refl, arith, eq_of_some,
  Bool-cases, Option-cases, inl, inr,
}
use mathlib.Core.Path.{subst}
use ebf_leveldb_sep_kv.Coding.{◌>>=◌}
use ebf_leveldb_sep_kv.MultiQueue.State.{
  Double, Tables, Handle, State, set_at, without, write, lru_remove, lru_append,
}
use ebf_leveldb_sep_kv.MultiQueue.Ops.{settle, unref, leave_use}
use ebf_leveldb_sep_kv.MultiQueue.Lists.{
  on_lru, used, Agree, ListsAgree, detach, attach_queue, stay_put,
}
use ebf_leveldb_sep_kv.MultiQueue.Invariant.{
  ==_ne, ==_self, IsLeaving, may_be_shrink_usage-IsLeaving,
}

-- A write of one handle that stands as it stood.
rewritten :
    (e : ℕ) (heap heap' : ℕ → Handle) (lrus : ℕ → List ℕ) (in_use : List ℕ) (lens : ℕ → ℕ)
    → Agree heap lrus in_use lens
    → ((d : ℕ) → d ≢ e → heap' d ≡ heap d)
    → ((k : ℕ) → on_lru (heap' e) k ≡ on_lru (heap e) k)
    → used (heap' e) ≡ used (heap e)
    → Agree heap' lrus in_use lens
rewritten e heap heap' lrus in_use lens a same on_same use_same =
    stay_put e heap lrus in_use heap' same lens a on_same use_same

twice :
    (heap : ℕ → Handle) (e d : ℕ) (h h' : Handle) → d ≢ e → set_at (set_at heap e h) e h' d ≡ heap d
twice heap e d h h' ne = rw (==_ne d e ne) refl

once :
    (heap : ℕ → Handle) (e d : ℕ) (h h' : Handle) → d ≢ e → set_at heap e h d ≡ set_at heap e h' d
once heap e d h h' ne = rw (==_ne d e ne) refl

here : (heap : ℕ → Handle) (e : ℕ) (h : Handle) → set_at heap e h e ≡ h
here heap e h = rw (==_self e) refl

-- A handle with two references is in use, whatever else is written to it.
shown_again :
    (e : ℕ) (heap : ℕ → Handle) (h h' : Handle) (lrus : ℕ → List ℕ) (in_use : List ℕ) (lens : ℕ → ℕ)
    → Agree (set_at heap e (record (heap e) { refs = 2 })) lrus in_use lens
    → (heap e).in_cache ≡ true
    → h.in_cache ≡ true
    → h.refs ≡ 2
    → Agree (set_at (set_at heap e h') e h) lrus in_use lens
shown_again e heap h h' lrus in_use lens a cached here two =
    rewritten e (set_at heap e (record (heap e) { refs = 2 })) _ lrus in_use lens a
      (λ d ne. rw (==_ne d e ne) refl) (λ k. rw (==_self e, two) (ground arith))
      (rw (==_self e, two, here, cached) refl)

module _ {D T : Type 0} (double : Double D) (tables : Tables T) where
  settle-IsLeaving :
      (e : ℕ) (s : State D T) {s' : State D T}
      → IsLeaving e s
      → settle double tables s e ≡ some s'
      → IsLeaving e s'
  unfolding settle
  settle-IsLeaving e s {s'} l h =
      let h0 = s.heap e in
      let filters = tables.curr_filter_num s.tables h0.table h0.value_id in
      elim (Bool-cases (ltb 0 h0.value_id && (ltb filters h0.queue_id && h0.with_file))) [
        | inl grow ↦
            may_be_shrink_usage-IsLeaving double tables e _
              (record {
                cached = rw (==_self e) l.cached;
                one = rw (==_self e) l.one;
                before =
                    shown_again e s.heap _ _ s.lrus s.in_use s.lru_lens l.before l.cached
                      (rw (==_self e) l.cached) refl;
              })
              (rw grow at h)
        | inr still ↦
            elim (Bool-cases (ltb 0 h0.value_id && (ltb h0.queue_id filters && h0.with_file))) [
              | inl move ↦
                  may_be_shrink_usage-IsLeaving double tables e _
                    (record {
                      cached = rw (==_self e) l.cached;
                      one = rw (==_self e) l.one;
                      before =
                          shown_again e s.heap _ _ s.lrus s.in_use s.lru_lens l.before l.cached
                            (rw (==_self e) l.cached) refl;
                    })
                    (rw (still, move) at h)
              | inr stay ↦ subst (IsLeaving e) (eq_of_some (rw (still, stay) at h)) l
            ]
      ]

  leave_use-ListsAgree :
      (e : ℕ) (s : State D T) → IsLeaving e s → ListsAgree (leave_use double tables s e)
  unfolding lru_remove lru_append
  leave_use-ListsAgree e s l =
      let view : ℕ → Handle = set_at s.heap e (record (s.heap e) { refs = 2 }) in
      attach_queue e view (λ j. without e (s.lrus j)) (without e s.in_use)
        (leave_use double tables s e).heap (λ d ne. rw (==_ne d e ne) refl) (s.heap e).queue_id
        s.lru_lens
        (detach e view s.lrus s.in_use s.lru_lens s.lru_lens l.before
          (λ k. rw (==_self e) (ground arith)))
        (rw (==_self e) l.cached) (rw (==_self e) l.one) (rw (==_self e) refl)

  released-ListsAgree :
      (s : State D T) (e : ℕ) {s' : State D T}
      → ListsAgree s
      → (s.heap e).in_cache ≡ true
      → (s.heap e).refs ≡ 2
      → (settle double tables (write s e (record (s.heap e) { refs = (s.heap e).refs - 1 })) e
          >>= λ s2. some (record (leave_use double tables s2 e) { locked = false }))
        ≡ some s'
      → ListsAgree s'
  released-ListsAgree s e {s'} a cached two h =
      let s1 = write s e (record (s.heap e) { refs = (s.heap e).refs - 1 }) in
      let l : IsLeaving e s1 = record {
        cached = rw (==_self e) cached;
        one = rw (==_self e, two) refl;
        before =
            rewritten e s.heap _ s.lrus s.in_use s.lru_lens a (λ d ne. rw (==_ne d e ne) refl)
              (λ k. rw (==_self e, two) (ground (arith, two))) (rw (==_self e, two, cached) refl);
      } in
      elim (Option-cases (settle double tables s1 e)) [
        | inl fails ↦ cc (rw fails at h)
        | inr (s2, e2) ↦
            let b = leave_use-ListsAgree e s2 (settle-IsLeaving e s1 l e2) in
            subst (λ (t : State D T). ListsAgree t) (eq_of_some (rw e2 at h))
              (record { queues = b.queues; using = b.using; counted = b.counted })
      ]

  -- Another count of references that leaves the handle where it stands.
  recounted :
      (s : State D T) (e : ℕ)
      → ListsAgree s
      → ((s.heap e).in_cache ≡ false) ⊎ (3 ≤ (s.heap e).refs)
      → Agree
          (set_at s.heap e (record (s.heap e) { refs = (s.heap e).refs - 1 }))
          s.lrus
          s.in_use
          s.lru_lens
  recounted s e a away =
      rewritten e s.heap _ s.lrus s.in_use s.lru_lens a (λ d ne. rw (==_ne d e ne) refl)
        (λ k.
          rw (==_self e) (elim away [ inl out ↦ rw out refl | inr many ↦ ground (arith, many) ]))
        (rw (==_self e) (elim away [ inl out ↦ rw out refl | inr many ↦ ground (arith, many) ]))

  -- Unref, where it returns, keeps each cached handle on exactly the list that its references and
  -- its queue name, no other handle on a list, and each counter equal to its queue's length: also
  -- through the shrink that a release with new filters brings about.
  pub unref-ListsAgree :
      (s : State D T) (e : ℕ) {s' : State D T}
      → ListsAgree s
      → unref double tables s e ≡ some s'
      → ListsAgree s'
  unfolding unref
  unref-ListsAgree s e {s'} a h =
      let h0 = s.heap e in
      elim (Bool-cases (h0.refs == 0)) [
        | inl none_left ↦ cc (rw none_left at h)
        | inr some_left ↦ elim (Bool-cases (h0.refs == 1)) [
          | inl last ↦ elim (Bool-cases h0.in_cache) [
            | inl cached ↦ cc (rw (some_left, last, cached) at h)
            | inr out ↦
                let b = rw out at (recounted s e a (inl out)) in
                subst (λ (t : State D T). ListsAgree t)
                  (eq_of_some (rw (some_left, last, out) at h))
                  (record { queues = b.queues; using = b.using; counted = b.counted })
          ]
          | inr more ↦ elim (Bool-cases (h0.in_cache && (h0.refs == 2))) [
            | inl leaves ↦
                released-ListsAgree s e a (ground (arith, leaves)) (ground (arith, leaves))
                  (rw (some_left, more, leaves) at h)
            | inr stays ↦
                let away : (h0.in_cache ≡ false) ⊎ (3 ≤ h0.refs) = elim (Bool-cases h0.in_cache) [
                  | inr out ↦ inl out
                  | inl cached ↦ inr (ground (arith, rw cached at stays, some_left, more))
                ] in
                let b = recounted s e a away in
                subst (λ (t : State D T). ListsAgree t)
                  (eq_of_some (rw (some_left, more, stays) at h))
                  (record { queues = b.queues; using = b.using; counted = b.counted })
          ]
        ]
      ]
