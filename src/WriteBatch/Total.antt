-- ===== src/WriteBatch/Total.antt =====
-- db/write_batch.cc: the loop of Iterate ends on every input, so the model's fuel suffices.
use ebf_leveldb_sep_kv.Base.{
  ℕ, zero, suc, ◌+◌, ◌%◌, ◌^◌, ◌≤◌, List, [], ◌∷◌, ltb, ◌==◌, if◌then◌else◌, length, drop, arith,
  ◌≡◌, ◌≢◌, refl, inl, inr, Bool-cases, Option-cases,
}
use ebf_leveldb_sep_kv.Coding.{get_length_prefixed_slice}
use ebf_leveldb_sep_kv.Coding.Shorter.{slice-shorter}
use ebf_leveldb_sep_kv.WriteBatch.{
  Status, Status.ok, Status.too_small, Status.wrong_count, Status.bad_put, Status.bad_delete,
  Status.unknown_tag, Status.out_of_fuel, Record, Record.update, Record.stop, read_put, read_delete,
  read_record, iterate_loop, iterate, status_or, count,
}

-- A record read from `n` bytes leaves at most as many, and a status is one of the source's.
abbrev Sound : ℕ → Record → Type 0
Sound n (update u rest) = length rest ≤ n
Sound n (stop status) = status ≢ out_of_fuel

read_put-Sound : (input : List ℕ) → Sound (length input) (read_put input)
unfolding read_put
read_put-Sound input = elim (Option-cases (get_length_prefixed_slice input)) [
  | inl nothing ↦ rw (Sound, nothing) (ground arith)
  | inr (first, read) ↦
      let (key, rest) = first in
      elim (Option-cases (get_length_prefixed_slice rest)) [
        | inl nothing ↦ rw (Sound, read, nothing) (ground arith)
        | inr (second, read') ↦
            let (value, rest') = second in
            rw (Sound, read, read')
              (omega
                (arith, slice-shorter input key rest read, slice-shorter rest value rest' read'))
      ]
]

read_delete-Sound : (input : List ℕ) → Sound (length input) (read_delete input)
unfolding read_delete
read_delete-Sound input = elim (Option-cases (get_length_prefixed_slice input)) [
  | inl nothing ↦ rw (Sound, nothing) (ground arith)
  | inr (first, read) ↦
      let (key, rest) = first in rw (Sound, read) (slice-shorter input key rest read)
]

read_record-Sound : (tag : ℕ) (input : List ℕ) → Sound (length input) (read_record tag input)
unfolding read_record
read_record-Sound tag input = elim (Bool-cases (tag == 1)) [
  | inl put_tag ↦ rw put_tag (read_put-Sound input)
  | inr other ↦ elim (Bool-cases (tag == 0)) [
    | inl delete_tag ↦ rw (other, delete_tag) (read_delete-Sound input)
    | inr unknown ↦ rw (other, unknown) (ground arith)
  ]
]

one_record :
    (fuel tag : ℕ) (input : List ℕ) (found : ℕ) (r : Record)
    → read_record tag input ≡ r
    → Sound (length input) r
    → ((rest : List ℕ)
        → length rest ≤ length input
        → (iterate_loop fuel rest (found + 1)).2 ≢ out_of_fuel)
    → (iterate_loop (suc fuel) (tag ∷ input) found).2 ≢ out_of_fuel
unfolding iterate_loop
one_record fuel tag input found (stop status) e sound deeper = rw (iterate_loop, e) sound
one_record fuel tag input found (update u rest) e sound deeper =
    rw (iterate_loop, e) (deeper rest sound)

iterate_loop-ends :
    (fuel : ℕ) (input : List ℕ) (found : ℕ)
    → length input ≤ fuel
    → (iterate_loop fuel input found).2 ≢ out_of_fuel
unfolding iterate_loop
iterate_loop-ends fuel [] found h = ground arith
iterate_loop-ends zero (tag ∷ input) found h = absurd (omega arith)
iterate_loop-ends (suc fuel) (tag ∷ input) found h =
    one_record fuel tag input found (read_record tag input) refl (read_record-Sound tag input)
      (λ rest short. iterate_loop-ends fuel rest (found + 1) (omega arith))

status_or-ends : (s s' : Status) → s ≢ out_of_fuel → s' ≢ out_of_fuel → status_or s s' ≢ out_of_fuel
unfolding status_or
status_or-ends ok s' h h' = h'
status_or-ends too_small s' h h' = h
status_or-ends bad_put s' h h' = h
status_or-ends bad_delete s' h h' = h
status_or-ends unknown_tag s' h h' = h
status_or-ends wrong_count s' h h' = h
status_or-ends out_of_fuel s' h h' = h

counted :
    (found : ℕ) (rep : List ℕ)
    → (if found % 2 ^ 32 == count rep then ok else wrong_count) ≢ out_of_fuel
counted found rep = ground arith

-- Iterate ends on every contents of a batch: the loop consumes a byte of the input per record at
-- least, so the fuel, the length of the input, never runs out.
pub iterate-ends : (rep : List ℕ) → (iterate rep).1 ≢ out_of_fuel
unfolding iterate
iterate-ends rep = elim (Bool-cases (ltb (length rep) 12)) [
  | inl small ↦ rw small (ground arith)
  | inr large ↦ rw large (
      status_or-ends _ _ (iterate_loop-ends (length (drop 12 rep)) (drop 12 rep) 0 (omega arith))
        (counted (iterate_loop (length (drop 12 rep)) (drop 12 rep) 0).1 rep))
]
