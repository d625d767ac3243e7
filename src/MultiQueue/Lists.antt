-- ===== src/MultiQueue/Lists.antt =====
-- The lists of the cache agree with its handles, at every step.
use ebf_leveldb_sep_kv.Base.{
  ℕ, ◌+◌, ◌-◌, ◌%◌, ◌^◌, ◌≤◌, ◌<◌, List, [], ◌∷◌, ◌++◌, Bool, true, false, ltb, ◌==◌, ◌&&◌,
  if◌then◌else◌, length, ◌≡◌, refl, arith, length-append, Bool-cases, inl, inr, ℕ_discrete, ◌∙◌,
  min, ◌≢◌,
}
use ebf_leveldb_sep_kv.MultiQueue.State.{Handle, State, set_at, add64, sub64, without}

-- How often a handle stands on a list.
abbrev pub count : ℕ → List ℕ → ℕ
count e [] = 0
count e (h ∷ hs) = (if h == e then 1 else 0) + count e hs

pub count-append : (e : ℕ) (xs ys : List ℕ) → count e (xs ++ ys) ≡ count e xs + count e ys
count-append e [] ys = omega arith
count-append e (x ∷ xs) ys = omega (arith, count-append e xs ys)

pub count-without :
    (e d : ℕ) (xs : List ℕ)
    → count d (without e xs) ≡ (if d == e then count d xs - 1 else count d xs)
unfolding without
count-without e d [] = ground arith
count-without e d (x ∷ xs) = ground (arith, count-without e d xs)

pub length-without : (e : ℕ) (xs : List ℕ) → length (without e xs) + min 1 (count e xs) ≡ length xs
unfolding without
length-without e [] = refl
length-without e (x ∷ xs) = elim (Bool-cases (x == e)) [
  | inl same ↦ rw same (omega arith)
  | inr other ↦ rw other (omega (arith, length-without e xs))
]

pub count-le-length : (e : ℕ) (xs : List ℕ) → count e xs ≤ length xs
count-le-length e [] = omega arith
count-le-length e (x ∷ xs) = ground (arith, count-le-length e xs)

abbrev pub on_lru : Handle → ℕ → Bool
on_lru h k = h.in_cache && ((h.refs == 1) && (h.queue_id == k))

abbrev pub used : Handle → Bool
used h = h.in_cache && ltb 1 h.refs

abbrev pub one_if : Bool → ℕ
one_if true = 1
one_if false = 0

-- Each cached handle stands on exactly one list, once: on that of its queue if only the cache
-- holds it, else on the in-use list. No other handle stands on a list. Each queue's counter is
-- its length, as a size_t.
pub record Agree (heap : ℕ → Handle) (lrus : ℕ → List ℕ) (in_use : List ℕ) (lens : ℕ → ℕ)
    : Type 0 where
  pub queues : (e k : ℕ) → count e (lrus k) ≡ one_if (on_lru (heap e) k)
  pub using : (e : ℕ) → count e in_use ≡ one_if (used (heap e))
  pub counted : (k : ℕ) → lens k ≡ length (lrus k) % 2 ^ 64

-- So it is, but that handle `e` stands nowhere.
pub record AgreeBut (e : ℕ) (heap : ℕ → Handle) (lrus : ℕ → List ℕ) (in_use : List ℕ) (lens : ℕ → ℕ)
    : Type 0 where
  pub queues : (d k : ℕ) → d ≢ e → count d (lrus k) ≡ one_if (on_lru (heap d) k)
  pub using : (d : ℕ) → d ≢ e → count d in_use ≡ one_if (used (heap d))
  pub no_queue : (k : ℕ) → count e (lrus k) ≡ 0
  pub no_use : count e in_use ≡ 0
  pub counted : (k : ℕ) → lens k ≡ length (lrus k) % 2 ^ 64

abbrev pub ListsAgree : {D T : Type 0} → State D T → Type 0
ListsAgree s = Agree s.heap s.lrus s.in_use s.lru_lens

module _ (e : ℕ) (heap : ℕ → Handle) (lrus : ℕ → List ℕ) (in_use : List ℕ) where
  -- The handle leaves its list, and the counter of its queue follows.
  pub detach :
      (lens lens' : ℕ → ℕ)
      → Agree heap lrus in_use lens
      → ((k : ℕ) → lens' k ≡ (if on_lru (heap e) k then sub64 (lens k) 1 else lens k))
      → AgreeBut e heap (λ k. without e (lrus k)) (without e in_use) lens'
  detach lens lens' a f = record {
    queues = λ d k ne. ground (arith, count-without e d (lrus k), a.queues d k);
    using = λ d ne. ground (arith, count-without e d in_use, a.using d);
    no_queue = λ k. ground (arith, count-without e e (lrus k), a.queues e k);
    no_use = ground (arith, count-without e e in_use, a.using e);
    counted = λ k. shorter k;
  }
    where
      shorter : (k : ℕ) → lens' k ≡ length (without e (lrus k)) % 2 ^ 64
      shorter k = elim (Bool-cases (on_lru (heap e) k)) [
        | inl here ↦
            f k
            ∙ rw here (
                let c : count e (lrus k) ≡ 1 = a.queues e k ∙ rw here refl in
                omega (arith, a.counted k, length-without e (lrus k), count-le-length e (lrus k)))
        | inr there ↦
            f k
            ∙ rw there (
                let c : count e (lrus k) ≡ 0 = a.queues e k ∙ rw there refl in
                omega (arith, a.counted k, length-without e (lrus k)))
      ]

  module _ (heap' : ℕ → Handle) (same : (d : ℕ) → d ≢ e → heap' d ≡ heap d) where
    -- The handle goes to the end of a queue.
    pub attach_queue :
        (q : ℕ) (lens : ℕ → ℕ)
        → AgreeBut e heap lrus in_use lens
        → (heap' e).in_cache ≡ true
        → (heap' e).refs ≡ 1
        → (heap' e).queue_id ≡ q
        → Agree heap' (set_at lrus q (lrus q ++ (e ∷ []))) in_use (set_at lens q (add64 (lens q) 1))
    attach_queue q lens a cached one queue = record {
      queues = λ d k. elim (ℕ_discrete d e) [
        | yes p ↦
            rw p (ground (arith, count-append e (lrus q) (e ∷ []), a.no_queue q, a.no_queue k))
        | no p ↦
            ground
              (arith, count-append d (lrus q) (e ∷ []), a.queues d q p, a.queues d k p, same d p)
      ];
      using = λ d. elim (ℕ_discrete d e) [
        | yes p ↦ rw p (ground (arith, a.no_use))
        | no p ↦ ground (arith, a.using d p, same d p)
      ];
      counted = λ k. ground (arith, length-append (lrus q) (e ∷ []), a.counted k, a.counted q);
    }

    -- The handle goes to the end of the in-use list.
    pub attach_use :
        (lens : ℕ → ℕ)
        → AgreeBut e heap lrus in_use lens
        → (heap' e).in_cache ≡ true
        → 1 < (heap' e).refs
        → Agree heap' lrus (in_use ++ (e ∷ [])) lens
    attach_use lens a cached more = record {
      queues = λ d k. elim (ℕ_discrete d e) [
        | yes p ↦ rw p (ground (arith, a.no_queue k))
        | no p ↦ ground (arith, a.queues d k p, same d p)
      ];
      using = λ d. elim (ℕ_discrete d e) [
        | yes p ↦ rw p (ground (arith, count-append e in_use (e ∷ []), a.no_use))
        | no p ↦ ground (arith, count-append d in_use (e ∷ []), a.using d p, same d p)
      ];
      counted = a.counted;
    }

    -- The handle stays off the lists.
    pub attach_nowhere :
        (lens : ℕ → ℕ)
        → AgreeBut e heap lrus in_use lens
        → (heap' e).in_cache ≡ false
        → Agree heap' lrus in_use lens
    attach_nowhere lens a gone = record {
      queues = λ d k. elim (ℕ_discrete d e) [
        | yes p ↦ rw p (ground (arith, a.no_queue k))
        | no p ↦ ground (arith, a.queues d k p, same d p)
      ];
      using = λ d. elim (ℕ_discrete d e) [
        | yes p ↦ rw p (ground (arith, a.no_use))
        | no p ↦ ground (arith, a.using d p, same d p)
      ];
      counted = a.counted;
    }

    -- The handle stays where it is.
    pub stay_put :
        (lens : ℕ → ℕ)
        → Agree heap lrus in_use lens
        → ((k : ℕ) → on_lru (heap' e) k ≡ on_lru (heap e) k)
        → used (heap' e) ≡ used (heap e)
        → Agree heap' lrus in_use lens
    stay_put lens a on_same use_same = record {
      queues = λ d k. elim (ℕ_discrete d e) [
        | yes p ↦ rw p (ground (arith, a.queues e k, on_same k))
        | no p ↦ ground (arith, a.queues d k, same d p)
      ];
      using = λ d. elim (ℕ_discrete d e) [
        | yes p ↦ rw p (ground (arith, a.using e))
        | no p ↦ ground (arith, a.using d, same d p)
      ];
      counted = a.counted;
    }
