-- ===== src/Block/RoundTrip.antt =====
-- table/block.cc: the entries of a finished block, read by SeekToFirst and Next.
use ebf_leveldb_sep_kv.Base.{
  true, ℕ, zero, suc, ◌+◌, ◌-◌, ◌%◌, ◌^◌, ◌≤◌, ◌<◌, List, [], ◌∷◌, ◌++◌, Option, none, some, false,
  ltb, if◌then◌else◌, length, drop, ◌≡◌, refl, ap, ◌∙◌, arith, All, length-append,
}
use mathlib.Core.Option as Option
use ebf_leveldb_sep_kv.BlockBuilder.{new_builder, finish}
use ebf_leveldb_sep_kv.BlockBuilder.Encoded.{
  add_all, next_counter, one, encoded, with_lengths, shared_of, block_of, finish-block_of,
}
use ebf_leveldb_sep_kv.Coding.{◌>>=◌}
use ebf_leveldb_sep_kv.Block.{
  Iter, BlockStatus, ok, BlockIterator, error_iterator, empty_iterator, block_iterator, new_block,
  new_iter, new_iterator, next_entry_offset, restart_point, seek_to_restart_point, parse_next_key,
  next, seek_to_first, value, valid,
}
use ebf_leveldb_sep_kv.Block.Parsed.{Ready, parse-end, parse-entry, parse-OnEntry, after, read}
use ebf_leveldb_sep_kv.Block.Entries.{length-entry}
use ebf_leveldb_sep_kv.Block.Opened.{opened, iter_of, tail_of, body_small, restart_point-array}

-- `for (iter->SeekToFirst(); iter->Valid(); iter->Next())` from an iterator on: the keys and
-- values that it meets, and its status at the end.
unfoldable pub entries_from : ℕ → Iter → Option (List (List ℕ × List ℕ) × BlockStatus)
entries_from zero it = none
entries_from (suc fuel) it =
    let rest = next it >>= λ it'. entries_from fuel it' in
    if valid it
    then Option.map (λ r. ((it.key, value it) ∷ r.0, r.1)) rest
    else some ([], it.status)

unfoldable pub entries : BlockIterator → Option (List (List ℕ × List ℕ) × BlockStatus)
unfolding entries_from
entries error_iterator = none
entries empty_iterator = some ([], ok)
entries (block_iterator it) = entries_from (it.restarts + 1) (seek_to_first it)

-- A round of the loop on a valid iterator.
one_entry :
    (fuel : ℕ) (it : Iter)
    → valid it ≡ true
    → entries_from (suc fuel) it
      ≡ Option.map (λ r. ((it.key, value it) ∷ r.0, r.1)) (entries_from fuel (parse_next_key it).0)
unfolding entries_from next
one_entry fuel it h = rw h refl

-- The iterator that ParseNextKey leaves, with the entries that are still ahead.
entries-Ready :
    (interval fuel : ℕ) (it : Iter) (before : List ℕ) (counter : ℕ) (es : List (List ℕ × List ℕ))
    (tail : List ℕ)
    → Ready interval it before counter es tail
    → All (λ e. length e.0 < 2 ^ 32) es
    → length es < fuel
    → it.status ≡ ok
    → entries_from fuel (parse_next_key it).0 ≡ some (es, ok)
unfolding entries_from valid
entries-Ready interval zero it before counter es tail r h lt e = elim lt [ ]
entries-Ready interval (suc fuel) it before counter [] tail r h lt e =
    let past : ltb it.restarts it.restarts ≡ false = ground arith in
    rw (parse-end interval it before counter tail r, past, e) refl
entries-Ready interval (suc fuel) it before counter ((k, v) ∷ es) tail r h lt e =
    let on = parse-OnEntry interval it before counter k v es tail r h.0 in
    let it' = after interval it before counter k v es tail r h.0 in
    let ih =
      entries-Ready interval fuel it' (read interval it before counter k v es tail r h.0)
        (next_counter interval counter) es tail on.ahead h.1 (omega arith) (on.kept.status ∙ e) in
    rw (parse-entry interval it before counter k v es tail r h.0) (
      one_entry fuel it' on.valid_lem
      ∙ ap (Option.map (λ r. ((it'.key, value it') ∷ r.0, r.1))) ih
      ∙ ap (λ x. some ((x, value it') ∷ es, ok)) on.key
      ∙ ap (λ x. some ((k, x) ∷ es, ok)) on.value_lem)

-- Each entry takes three bytes at least.
pub length-encoded :
    (interval counter : ℕ) (last : List ℕ) (es : List (List ℕ × List ℕ))
    → length es ≤ length (encoded interval counter last es)
unfolding encoded one with_lengths
length-encoded interval counter last [] = omega arith
length-encoded interval counter last ((k, v) ∷ es) =
    let s = shared_of interval counter last k in
    omega (
      arith,
      length-append (one interval counter last k v)
          (encoded interval (next_counter interval counter) k es),
      length-entry (s % 2 ^ 32) ((length k - s) % 2 ^ 32) (length v % 2 ^ 32) (drop s k ++ v),
      length-encoded interval (next_counter interval counter) k es,
    )

module _ (interval : ℕ) (es : List (List ℕ × List ℕ))
    (fits : length (block_of interval es) < 2 ^ 32) where
  first_Ready :
      Ready interval
        (seek_to_restart_point 0 (iter_of interval es fits))
        []
        0
        es
        (tail_of interval es fits)
  unfolding seek_to_restart_point next_entry_offset new_iter
  first_Ready =
      let start : restart_point (iter_of interval es fits) 0 ≡ 0 =
        restart_point-array interval es fits (iter_of interval es fits) 0 refl refl (omega arith) in
      record {
        bytes = refl;
        end = omega arith;
        at = rw start refl;
        small = body_small interval es fits;
        key_small = omega arith;
      }

-- For keys below 4 GB and a block below 4 GB: the block that Finish leaves after an Add for each
-- pair opens, and SeekToFirst and Next meet exactly the pairs in their order, with the status OK
-- at the end.
pub entries-finish :
    (interval : ℕ) (es : List (List ℕ × List ℕ))
    → All (λ e. length e.0 < 2 ^ 32) es
    → length (finish (add_all interval es new_builder)).buffer < 2 ^ 32
    → entries (new_iterator (new_block (finish (add_all interval es new_builder)).buffer))
      ≡ some (es, ok)
unfolding entries seek_to_first seek_to_restart_point new_iter
entries-finish interval es keys small =
    let whole = finish-block_of interval es in
    let fits : length (block_of interval es) < 2 ^ 32 = omega (arith, small, ap length whole) in
    let it = iter_of interval es fits in
    rw (whole, opened interval es fits)
      (entries-Ready interval (it.restarts + 1) (seek_to_restart_point 0 it) [] 0 es
        (tail_of interval es fits) (first_Ready interval es fits) keys
        (omega (arith, length-encoded interval 0 [] es)) refl)
