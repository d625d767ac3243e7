-- ===== src/Bloom/Multi/Workers.antt =====
-- CreateFilter over a list of strings in util/multi_bloom.cc, as its threads run it: the caller
-- sets the `filled_` flag of each child in turn and spins until the counter of completed
-- filters reaches the number of children; the thread of a child (CreateFilter_T) spins on its
-- flag, creates its filter, clears the flag and increments the counter. A state is one point of
-- an interleaving; every atomic access is a step. The clean-up by `end_thread` is the
-- destructor's and no step here.
pub mod Invariant
pub mod Ends
use ebf_leveldb_sep_kv.Base.{
  ℕ, zero, suc, ◌+◌, ◌<◌, List, [], ◌∷◌, Option, some, Bool, true, false, length, map, ◌≡◌,
}
use ebf_leveldb_sep_kv.Bloom.{ChildBloomFilterPolicy, create_filter}

-- Where a child's thread stands: at the spin loop; the filter written; the flag cleared.
pub data Pc : Type 0 where
  idle storing counting : Pc

-- One child: the string that it appends to, its flag `filled_[id]`, and its thread.
pub data Slot : Type 0 where
  slot : List ℕ → Bool → Pc → Slot

-- The caller: at child `i` of the publishing loop, in the spin loop, or past it.
pub data Phase : Type 0 where
  publishing : ℕ → Phase
  waiting returned : Phase

pub record State : Type 0 where
  pub slots : List Slot
  pub completed : ℕ
  pub phase : Phase

unfoldable pub dst_of : Slot → List ℕ
dst_of (slot d filled pc) = d

-- `filled_[i] = true`.
unfoldable pub publish : ℕ → List Slot → List Slot
publish i [] = []
publish zero (slot d filled pc ∷ ss) = slot d true pc ∷ ss
publish (suc i) (s ∷ ss) = s ∷ publish i ss

-- The atomic steps of one thread, with what they add to the counter.
pub data SlotStep (keys : List (List ℕ)) (p : ChildBloomFilterPolicy)
    : Slot → Slot → ℕ → Type 0 where
  create :
      (d f : List ℕ) (n : ℕ)
      → create_filter p keys d ≡ some f
      → n ≡ 0
      → SlotStep keys p (slot d true idle) (slot f true storing) n
  clear :
      (d : List ℕ) (filled : Bool) (n : ℕ)
      → n ≡ 0
      → SlotStep keys p (slot d filled storing) (slot d false counting) n
  count :
      (d : List ℕ) (filled : Bool) (n : ℕ)
      → n ≡ 1
      → SlotStep keys p (slot d filled counting) (slot d filled idle) n

-- One of the threads takes a step.
pub data WorkerStep (keys : List (List ℕ))
    : List ChildBloomFilterPolicy → List Slot → List Slot → ℕ → Type 0 where
  here :
      {p : ChildBloomFilterPolicy} {ps : List ChildBloomFilterPolicy} {s t : Slot} {ss : List Slot}
      {n : ℕ}
      → SlotStep keys p s t n
      → WorkerStep keys (p ∷ ps) (s ∷ ss) (t ∷ ss) n
  there :
      {p : ChildBloomFilterPolicy} {ps : List ChildBloomFilterPolicy} {s : Slot} {ss ts : List Slot}
      {n : ℕ}
      → WorkerStep keys ps ss ts n
      → WorkerStep keys (p ∷ ps) (s ∷ ss) (s ∷ ts) n

-- One step of the caller or of a thread.
pub data Step (keys : List (List ℕ)) (ps : List ChildBloomFilterPolicy)
    : State → State → Type 0 where
  ask :
      {s : State} (i : ℕ)
      → s.phase ≡ publishing i
      → i < length s.slots
      → Step keys ps s (record s { slots = publish i s.slots; phase = publishing (i + 1) })
  all_asked :
      {s : State}
      → s.phase ≡ publishing (length s.slots)
      → Step keys ps s (record s { phase = waiting })
  work :
      {s : State} (ts : List Slot) (n : ℕ)
      → WorkerStep keys ps s.slots ts n
      → Step keys ps s (record s { slots = ts; completed = s.completed + n })
  return :
      {s : State}
      → s.phase ≡ waiting
      → s.completed ≡ length ps
      → Step keys ps s (record s { completed = 0; phase = returned })

pub data Reach (keys : List (List ℕ)) (ps : List ChildBloomFilterPolicy) (s : State)
    : State → ℕ → Type 0 where
  start : (n : ℕ) → n ≡ 0 → Reach keys ps s s n
  step : {t u : State} {n : ℕ} → Reach keys ps s t n → Step keys ps t u → Reach keys ps s u (suc n)

abbrev pub fresh : List ℕ → Slot
fresh d = slot d false idle

-- The call begins with all flags clear, all threads at their spin loop and the counter at 0.
unfoldable pub initial : List (List ℕ) → State
initial dsts = record { slots = map fresh dsts; completed = 0; phase = publishing 0 }
