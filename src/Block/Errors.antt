-- ===== src/Block/Errors.antt =====
-- table/block.cc: every operation of an iterator ends, over a block or over corrupt bytes.
use ebf_leveldb_sep_kv.Base.{
  ℕ, ◌+◌, ◌-◌, ◌/◌, ◌^◌, ◌<◌, List, Option, none, some, false, ltb, length, ◌≡◌, refl, sym, ◌∙◌,
  ◌⊎◌, arith, Bool-cases, Option-cases, inl, inr, eq_of_some,
}
use mathlib.Core.Path.{subst}
use ebf_leveldb_sep_kv.Comparator.{Comparator}
use ebf_leveldb_sep_kv.Block.{
  Iter, seek_to_restart_point, corruption_error, valid, next, seek_to_first, parse_below,
  seek_to_last, scan_back, prev, seek, new_block, new_iter, new_iterator, block_iterator,
  num_restarts_of, fuel_of, region, decode_entry,
}
use ebf_leveldb_sep_kv.Block.Corrupt.{Fits, still}
use ebf_leveldb_sep_kv.Block.Settled.{
  Settled, Anything, NotBefore, one_round, parse_below-Settled, search_entries-Settled,
  search_restarts-ends,
}

-- The states of an iterator: from its opening on by any operations that return.
pub data Reaches (c : Comparator) (start : Iter) : Iter → Type 0 where
  opened : Reaches c start start
  by_next : {it it' : Iter} → Reaches c start it → next it ≡ some it' → Reaches c start it'
  by_first : {it : Iter} → Reaches c start it → Reaches c start (seek_to_first it)
  by_last : {it it' : Iter} → Reaches c start it → seek_to_last it ≡ some it' → Reaches c start it'
  by_prev : {it it' : Iter} → Reaches c start it → prev it ≡ some it' → Reaches c start it'
  by_seek :
      {it it' : Iter} (target : List ℕ)
      → Reaches c start it
      → seek c target it ≡ some it'
      → Reaches c start it'

-- An operation with the assertion of a valid iterator: it fails, or the operation ends.
abbrev pub Asserted : Iter → Iter → Option Iter → Type 0
Asserted start it result =
    ((valid it ≡ false) × (result ≡ none))
    ⊎ ((it' : Iter) × (result ≡ some it') × Settled start it.status Anything it')

new_Fits :
    (contents : List ℕ) (it : Iter)
    → length contents < 2 ^ 32
    → new_iterator (new_block contents) ≡ block_iterator it
    → Fits it it
unfolding new_iterator new_block new_iter
new_Fits contents it h e =
    let count = num_restarts_of contents (length contents) in
    elim (Bool-cases (ltb (length contents) 4)) [
      | inl short ↦ absurd (ground (arith, short))
      | inr long ↦ elim (Bool-cases (ltb ((length contents - 4) / 4) count)) [
        | inl many ↦ absurd (ground (arith, long, many))
        | inr few ↦ ground (arith, long, few)
      ]
    ]

of_result :
    {A : Iter → Type 0} {o : Option Iter} {it' : Iter}
    → ((i : Iter) × (o ≡ some i) × A i)
    → o ≡ some it'
    → A it'
of_result {A} (i, e, a) h = subst A (eq_of_some (sym e ∙ h)) a

of_Asserted :
    {start it' : Iter} (it : Iter) {o : Option Iter}
    → Asserted start it o
    → o ≡ some it'
    → Settled start it.status Anything it'
of_Asserted it (inl (out, fails)) h = absurd (cc)
of_Asserted it (inr r) h = of_result r h

module _ (start : Iter)
    (sums : (o s n v : ℕ) (rest : List ℕ)
      → decode_entry (region start o) ≡ some (s, n, v, rest)
      → n + v < 2 ^ 32) where
  point_Fits : (i : ℕ) (it : Iter) → Fits start it → Fits start (seek_to_restart_point i it)
  unfolding seek_to_restart_point
  point_Fits i it f = still it _ f refl refl refl

  -- The rounds from a restart point on, whatever it is.
  from_point :
      (it : Iter) (i limit : ℕ)
      → Fits start it
      → (it' : Iter) × (parse_below (fuel_of it) limit (seek_to_restart_point i it) ≡ some it')
        × Settled start it.status Anything it'
  unfolding seek_to_restart_point
  from_point it i limit f =
      parse_below-Settled start sums it.status (fuel_of it) limit (seek_to_restart_point i it)
        (point_Fits i it f) refl (omega arith)

  last_ends :
      (it : Iter)
      → Fits start it
      → (it' : Iter) × (seek_to_last it ≡ some it') × Settled start it.status Anything it'
  unfolding seek_to_last
  last_ends it f = from_point it (it.num_restarts - 1) it.restarts f

  nowhere-Settled :
      (it : Iter)
      → Fits start it
      → Settled start it.status Anything
          (record it { current = it.restarts; restart_index = it.num_restarts })
  unfolding valid
  nowhere-Settled it f = record {
    fits = still it _ f refl refl refl;
    ends_so = inr (ground arith, inl refl);
  }

  prev_ends : (it : Iter) → Fits start it → Asserted start it (prev it)
  unfolding prev
  prev_ends it f = elim (Bool-cases (valid it)) [
    | inr out ↦ rw out (inl (refl, refl))
    | inl on ↦ elim (Option-cases (scan_back it it.current it.restart_index)) [
      | inl nowhere ↦
          rw (prev, on, nowhere)
            (inr (
              record it { current = it.restarts; restart_index = it.num_restarts },
              refl,
              nowhere-Settled it f,
            ))
      | inr (i, e) ↦ rw (prev, on, e) (inr (from_point it i it.current f))
    ]
  ]

  first_ends : (it : Iter) → Fits start it → Settled start it.status Anything (seek_to_first it)
  unfolding seek_to_first seek_to_restart_point
  first_ends it f =
      one_round start sums it.status (seek_to_restart_point 0 it) (point_Fits 0 it f) refl

  next_ends : (it : Iter) → Fits start it → Asserted start it (next it)
  unfolding next
  next_ends it f = elim (Bool-cases (valid it)) [
    | inr out ↦ rw out (inl (refl, refl))
    | inl on ↦ rw on (inr (_, refl, one_round start sums it.status it f refl))
  ]

  seek_ends :
      (c : Comparator) (target : List ℕ) (it : Iter)
      → Fits start it
      → (it' : Iter) × (seek c target it ≡ some it')
        × Settled start it.status (NotBefore c target) it'
  unfolding seek seek_to_restart_point corruption_error valid
  seek_ends c target it f =
      let many = f.num_restarts in
      elim (search_restarts-ends start sums it.status c target it (it.num_restarts + 1) 0
        (it.num_restarts - 1) f (omega arith) (omega arith)) [
          | inl (l, e) ↦
              rw (seek, e)
                (search_entries-Settled start sums it.status c target (fuel_of it)
                  (seek_to_restart_point l it) (point_Fits l it f) refl (omega arith))
          | inr e ↦
              rw (seek, e)
                (
                  corruption_error it,
                  refl,
                  record {
                    fits = still it _ f refl refl refl;
                    ends_so = inr (ground arith, inr refl);
                  },
                )
        ]

  Reaches-Fits :
      {c : Comparator} {it : Iter} → Fits start start → Reaches c start it → Fits start it
  Reaches-Fits f opened = f
  Reaches-Fits f (by_next {it} r e) = (of_Asserted it (next_ends it (Reaches-Fits f r)) e).fits
  Reaches-Fits f (by_first {it} r) = (first_ends it (Reaches-Fits f r)).fits
  Reaches-Fits f (by_last {it} r e) = (of_result (last_ends it (Reaches-Fits f r)) e).fits
  Reaches-Fits f (by_prev {it} r e) = (of_Asserted it (prev_ends it (Reaches-Fits f r)) e).fits
  Reaches-Fits {c} f (by_seek {it} target r e) =
      (of_result (seek_ends c target it (Reaches-Fits f r)) e).fits

-- On every contents below 4 GB, a block or corrupt bytes, of which no entry decodes to a key and a
-- value of 2^32 bytes or more together, and in every state that its iterator reaches: SeekToFirst,
-- SeekToLast and Seek return, and so do Next and Prev unless their assertion of a valid iterator
-- fails. They end on an entry within the region with the status unchanged, in the case of Seek on one
-- whose key is not before the target, or they leave the iterator invalid, with the status unchanged
-- or the error of a bad entry; never do they read behind the region.
pub operations-end :
    (c : Comparator) (contents : List ℕ) (start it : Iter)
    → length contents < 2 ^ 32
    → new_iterator (new_block contents) ≡ block_iterator start
    → ((o s n v : ℕ) (rest : List ℕ)
        → decode_entry (region start o) ≡ some (s, n, v, rest)
        → n + v < 2 ^ 32)
    → Reaches c start it
    → Asserted start it (next it)
      × Settled start it.status Anything (seek_to_first it)
      × ((it' : Iter) × (seek_to_last it ≡ some it') × Settled start it.status Anything it')
      × Asserted start it (prev it)
      × ((target : List ℕ)
          → (it' : Iter) × (seek c target it ≡ some it')
            × Settled start it.status (NotBefore c target) it')
operations-end c contents start it small e sums r =
    let f = Reaches-Fits start sums (new_Fits contents start small e) r in
    (
      next_ends start sums it f,
      first_ends start sums it f,
      last_ends start sums it f,
      prev_ends start sums it f,
      λ target. seek_ends start sums c target it f,
    )
