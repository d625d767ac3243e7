-- ===== src/Block/Settled.antt =====
-- table/block.cc: how the walks and the search of an iterator end, on arbitrary contents.
use ebf_leveldb_sep_kv.Base.{
  ℕ, zero, suc, ◌+◌, ◌-◌, ◌/◌, ◌%◌, ◌^◌, ◌<◌, List, some, true, false, ltb, ◌≡◌, refl, ◌∙◌, ◌⊎◌,
  arith, Bool-cases, inl, inr, ltb→lt,
}
use ebf_leveldb_sep_kv.Comparator.{Comparator}
use ebf_leveldb_sep_kv.DbFormat.{is_lt}
use ebf_leveldb_sep_kv.Block.{
  Iter, BlockStatus, bad_entry_in_block, found, corrupt, decode_entry, next_entry_offset, region,
  parse_next_key, valid, parse_below, search_restarts, search_entries,
}
use ebf_leveldb_sep_kv.Block.Corrupt.{Fits, Inside, Round, parse-Round, key_cases}

-- How an operation ends: on an entry with the status it began with, the entry within the region, or
-- invalid, at the end or with the error of a bad entry. `Found` holds of the entry.
pub record Settled (start : Iter) (st : BlockStatus) (Found : Iter → Type 0) (it : Iter)
    : Type 0 where
  pub fits : Fits start it
  pub ends_so :
      ((valid it ≡ true) × (it.status ≡ st) × Inside it × Found it)
      ⊎ ((valid it ≡ false) × ((it.status ≡ st) ⊎ (it.status ≡ bad_entry_in_block)))

-- The key is not before the target.
abbrev pub NotBefore : Comparator → List ℕ → Iter → Type 0
NotBefore c target it = is_lt (c.compare_keys it.key target) ≡ false

abbrev pub Anything : Iter → Type 0
Anything it = Unit

module _ (start : Iter)
    (sums : (o s n v : ℕ) (rest : List ℕ)
      → decode_entry (region start o) ≡ some (s, n, v, rest)
      → n + v < 2 ^ 32) where
  module _ (st : BlockStatus) where
    stopped :
        (Found : Iter → Type 0) (it : Iter)
        → it.status ≡ st
        → Round start it (parse_next_key it).0 (parse_next_key it).1
        → (parse_next_key it).1 ≡ false
        → Settled start st Found (parse_next_key it).0
    stopped Found it e r h = record {
      fits = r.fits;
      ends_so =
          inr ((r.off h).0, (elim (r.off h).1 [ inl same ↦ inl (same ∙ e) | inr bad ↦ inr bad ]));
    }

    landed :
        (Found : Iter → Type 0) (it : Iter)
        → it.status ≡ st
        → Round start it (parse_next_key it).0 (parse_next_key it).1
        → (parse_next_key it).1 ≡ true
        → Found (parse_next_key it).0
        → Settled start st Found (parse_next_key it).0
    landed Found it e r h p = record {
      fits = r.fits;
      ends_so = inl ((r.on h).0, (r.on h).1 ∙ e, (r.on h).5, p);
    }

    pub one_round :
        (it : Iter)
        → Fits start it
        → it.status ≡ st
        → Settled start st Anything (parse_next_key it).0
    one_round it f e =
        let r = parse-Round start sums it f in
        elim (Bool-cases (parse_next_key it).1) [
          | inl more ↦ landed Anything it e r more tt
          | inr over ↦ stopped Anything it e r over
        ]

    pub parse_below-Settled :
        (fuel limit : ℕ) (it : Iter)
        → Fits start it
        → it.status ≡ st
        → it.restarts - next_entry_offset it < fuel
        → (it' : Iter) × (parse_below fuel limit it ≡ some it') × Settled start st Anything it'
    unfolding parse_below
    parse_below-Settled zero limit it f e h = elim h [ ]
    parse_below-Settled (suc fuel) limit it f e h =
        let it' = (parse_next_key it).0 in
        let r = parse-Round start sums it f in
        elim (Bool-cases (parse_next_key it).1) [
          | inr over ↦ rw over (it', refl, stopped Anything it e r over)
          | inl more ↦ elim (Bool-cases (ltb (next_entry_offset it') limit)) [
            | inr past ↦ rw (more, past) (it', refl, landed Anything it e r more tt)
            | inl again ↦
                let (_v, s, further, within, same, inside) = r.on more in
                rw (more, again) (parse_below-Settled fuel limit it' r.fits (s ∙ e) (omega arith))
          ]
        ]

    module _ (c : Comparator) (target : List ℕ) where
      pub search_entries-Settled :
          (fuel : ℕ) (it : Iter)
          → Fits start it
          → it.status ≡ st
          → it.restarts - next_entry_offset it < fuel
          → (it' : Iter) × (search_entries c target fuel it ≡ some it')
            × Settled start st (NotBefore c target) it'
      unfolding search_entries
      search_entries-Settled zero it f e h = elim h [ ]
      search_entries-Settled (suc fuel) it f e h =
          let it' = (parse_next_key it).0 in
          let r = parse-Round start sums it f in
          elim (Bool-cases (parse_next_key it).1) [
            | inr over ↦ rw over (it', refl, stopped (NotBefore c target) it e r over)
            | inl more ↦ elim (Bool-cases (is_lt (c.compare_keys it'.key target))) [
              | inr past ↦ rw (more, past) (it', refl, landed (NotBefore c target) it e r more past)
              | inl again ↦
                  let (_v, s, further, within, same, inside) = r.on more in
                  rw (more, again) (search_entries-Settled fuel it' r.fits (s ∙ e) (omega arith))
            ]
          ]

      -- The search in the restart array ends at a restart point or at a bad entry, whatever the
      -- array holds.
      pub search_restarts-ends :
          (it : Iter) (fuel left right : ℕ)
          → Fits start it
          → right - left < fuel
          → right < 2 ^ 30
          → ((l : ℕ) × (search_restarts c target it fuel left right ≡ found l))
            ⊎ (search_restarts c target it fuel left right ≡ corrupt)
      unfolding search_restarts
      search_restarts-ends it zero left right f h small = absurd (omega arith)
      search_restarts-ends it (suc fuel) left right f h small =
          let mid = (left + right + 1) % 2 ^ 32 / 2 in
          elim (Bool-cases (ltb left right)) [
            | inr over ↦ rw over (inl (left, refl))
            | inl more ↦
                let less : left < right = ltb→lt left right more in
                elim (key_cases start sums it mid f) [
                  | inl bad ↦ rw (more, bad) (inr refl)
                  | inr (k, e) ↦ elim (Bool-cases (is_lt (c.compare_keys k target))) [
                    | inl up ↦
                        rw (more, e, up)
                          (search_restarts-ends it fuel mid right f (omega arith) small)
                    | inr down ↦
                        rw (more, e, down)
                          (search_restarts-ends it fuel left (mid - 1) f (omega arith)
                            (omega arith))
                  ]
                ]
          ]
