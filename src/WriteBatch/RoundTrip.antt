-- ===== src/WriteBatch/RoundTrip.antt =====
-- db/write_batch.cc: what Put, Delete, Append and SetSequence make of a batch, and what Iterate and
-- InsertInto read back from it.
use ebf_leveldb_sep_kv.Base.{
  ℕ, zero, suc, ◌+◌, ◌%◌, ◌^◌, ◌≤◌, List, [], ◌∷◌, ◌++◌, length, drop, ltb, true, false, ◌==◌,
  arith, ◌∙◌, ◌≡◌, refl, sym, ap, length-append, All, All-append, get_elem?, some, ◌<◌,
}
use ebf_leveldb_sep_kv.Coding.{
  IsU32, IsU64, encode_varint32, encode_fixed32, encode_fixed64, put_length_prefixed_slice,
  put_varint32,
}
use ebf_leveldb_sep_kv.Coding.RoundTrip.{
  decode_fixed32-encode_fixed32, decode_fixed64-encode_fixed64, get-put_length_prefixed_slice,
}
use ebf_leveldb_sep_kv.WriteBatch.{
  Update, Update.put_key, Update.delete_key, Status.ok, Record.update, clear, count, set_count,
  sequence, set_sequence, put, delete, read_put, read_delete, read_record, iterate_loop, iterate,
  Added, add_updates, insert_into, append, status_or,
}
use mathlib.Core.Option as Option
use mathlib.Core.List.{append_assoc, append-nil}

unfoldable pub record_of : Update → List ℕ
record_of (put_key key value) =
    1 ∷ (put_length_prefixed_slice [] key ++ put_length_prefixed_slice [] value)
record_of (delete_key key) = 0 ∷ put_length_prefixed_slice [] key

unfoldable pub records : List Update → List ℕ
records [] = []
records (u ∷ us) = record_of u ++ records us

-- The contents of a batch: a sequence number and the updates, oldest first.
unfoldable pub contents : ℕ → List Update → List ℕ
contents seq us = encode_fixed64 seq ++ (encode_fixed32 (length us % 2 ^ 32) ++ records us)

unfoldable pub apply : List ℕ → Update → List ℕ
apply rep (put_key key value) = put rep key value
apply rep (delete_key key) = delete rep key

unfoldable pub apply_all : List ℕ → List Update → List ℕ
apply_all rep [] = rep
apply_all rep (u ∷ us) = apply_all (apply rep u) us

abbrev pub Fits : Update → Type 0
Fits (put_key key value) = IsU32 (length key) × IsU32 (length value)
Fits (delete_key key) = IsU32 (length key)

records-append : (us vs : List Update) → records (us ++ vs) ≡ records us ++ records vs
unfolding records
records-append [] vs = refl
records-append (u ∷ us) vs = rw (records-append us vs, append_assoc) refl

set_count-contents :
    (seq n m : ℕ) (body : List ℕ)
    → set_count (encode_fixed64 seq ++ (encode_fixed32 n ++ body)) m
      ≡ encode_fixed64 seq ++ (encode_fixed32 (m % 2 ^ 32) ++ body)
unfolding set_count encode_fixed64 encode_fixed32
set_count-contents seq n m body = refl

count-contents : (seq : ℕ) (us : List Update) → count (contents seq us) ≡ length us % 2 ^ 32
unfolding count contents encode_fixed64
count-contents seq us =
    decode_fixed32-encode_fixed32 (length us % 2 ^ 32) (records us) (omega arith)

slice-append :
    (dst s : List ℕ) → put_length_prefixed_slice dst s ≡ dst ++ put_length_prefixed_slice [] s
unfolding put_length_prefixed_slice put_varint32
slice-append dst s = append_assoc dst (encode_varint32 (length s % 2 ^ 32)) s

body-append :
    (seq n : ℕ) (body more : List ℕ)
    → (encode_fixed64 seq ++ (encode_fixed32 n ++ body)) ++ more
      ≡ encode_fixed64 seq ++ (encode_fixed32 n ++ (body ++ more))
unfolding encode_fixed64 encode_fixed32
body-append seq n body more = refl

grown :
    (seq : ℕ) (us vs : List Update)
    → set_count (contents seq us) (length us % 2 ^ 32 + length vs % 2 ^ 32) ++ records vs
      ≡ contents seq (us ++ vs)
unfolding contents
grown seq us vs =
    rw (set_count-contents, body-append, records-append, length-append us vs)
      (let total : (length us % 2 ^ 32 + length vs % 2 ^ 32) % 2 ^ 32
            ≡ (length us + length vs) % 2 ^ 32 =
          omega arith in
        rw (total) refl)

-- Put or Delete on a batch appends the update to it.
pub apply-contents :
    (seq : ℕ) (us : List Update) (u : Update)
    → apply (contents seq us) u ≡ contents seq (us ++ (u ∷ []))
unfolding apply put delete records record_of
apply-contents seq us (put_key key value) =
    rw
      (
        count-contents,
        sym (grown seq us (put_key key value ∷ [])),
        slice-append,
        slice-append (set_count _ _ ++ _) key,
        append_assoc,
        append_assoc,
        append-nil,
      )
      refl
apply-contents seq us (delete_key key) =
    rw
      (
        count-contents,
        sym (grown seq us (delete_key key ∷ [])),
        slice-append,
        append_assoc,
        append-nil,
      )
      refl

body-contents : (seq : ℕ) (us : List Update) → drop 12 (contents seq us) ≡ records us
unfolding contents encode_fixed64 encode_fixed32
body-contents seq us = refl

-- Clear leaves an empty batch.
clear-contents : clear ≡ contents 0 []
unfolding clear contents records encode_fixed64 encode_fixed32
clear-contents = refl

pub apply_all-contents :
    (seq : ℕ) (us vs : List Update) → apply_all (contents seq us) vs ≡ contents seq (us ++ vs)
unfolding apply_all
apply_all-contents seq us [] = rw (append-nil) refl
apply_all-contents seq us (v ∷ vs) =
    rw (apply-contents seq us v, apply_all-contents seq (us ++ (v ∷ [])) vs, append_assoc) refl

pub set_sequence-contents :
    (seq new : ℕ) (us : List Update) → set_sequence (contents seq us) new ≡ contents new us
unfolding set_sequence contents encode_fixed64
set_sequence-contents seq new us = refl

-- A batch as Clear, SetSequence and then the updates' Puts and Deletes make it.
unfoldable pub built : ℕ → List Update → List ℕ
built seq us = apply_all (set_sequence clear seq) us

pub built-contents : (seq : ℕ) (us : List Update) → built seq us ≡ contents seq us
unfolding built
built-contents seq us =
    rw (clear-contents, set_sequence-contents, apply_all-contents seq [] us) refl

-- Append adds the updates of the second batch behind those of the first, and keeps the first's
-- sequence number.
pub append-contents :
    (seq seq' : ℕ) (us vs : List Update)
    → append (contents seq us) (contents seq' vs) ≡ contents seq (us ++ vs)
unfolding append
append-contents seq seq' us vs =
    rw (count-contents, count-contents, sym (grown seq us vs), body-contents) refl

read_put-slices :
    (key value rest : List ℕ)
    → Fits (put_key key value)
    → read_put ((put_length_prefixed_slice [] key ++ put_length_prefixed_slice [] value) ++ rest)
      ≡ update (put_key key value) rest
unfolding read_put
read_put-slices key value rest (small_key, small_value) =
    rw
      (
        append_assoc,
        read_put,
        get-put_length_prefixed_slice key (put_length_prefixed_slice [] value ++ rest) small_key,
        get-put_length_prefixed_slice value rest small_value,
      )
      refl

read_delete-slice :
    (key rest : List ℕ)
    → Fits (delete_key key)
    → read_delete (put_length_prefixed_slice [] key ++ rest) ≡ update (delete_key key) rest
unfolding read_delete
read_delete-slice key rest small =
    rw (read_delete, get-put_length_prefixed_slice key rest small) refl

shorter : (xs ys : List ℕ) → length ys ≤ length (xs ++ ys)
shorter xs ys = omega (arith, length-append xs ys)

read_record-record_of :
    (u : Update) (us : List Update)
    → Fits u
    → (tag : ℕ) × (input : List ℕ) × (record_of u ++ records us ≡ tag ∷ input)
      × (read_record tag input ≡ update u (records us))
      × (length (records us) ≤ length input)
unfolding read_record record_of
read_record-record_of (put_key key value) us fit =
    (1, _, refl, read_put-slices key value (records us) fit, shorter _ (records us))
read_record-record_of (delete_key key) us fit =
    (0, _, refl, read_delete-slice key (records us) fit, shorter _ (records us))

one_record :
    (u : Update) (us : List Update) (fuel found : ℕ)
    → Fits u
    → length (record_of u ++ records us) ≤ suc fuel
    → (length (records us) ≤ fuel
        → iterate_loop fuel (records us) (found + 1) ≡ (us, found + 1 + length us, ok))
    → iterate_loop (suc fuel) (record_of u ++ records us) found
      ≡ (u ∷ us, found + 1 + length us, ok)
unfolding iterate_loop
one_record u us fuel found fit h rest =
    let (tag, input, split, read, short) = read_record-record_of u us fit in
    let size : length (record_of u ++ records us) ≡ suc (length input) = ap length split in
    rw (split, iterate_loop, read, rest (omega arith)) refl

-- The loop of Iterate on written records hands on every update.
iterate_loop-records :
    (us : List Update) (fuel found : ℕ)
    → length (records us) ≤ fuel
    → All Fits us
    → iterate_loop fuel (records us) found ≡ (us, found + length us, ok)
unfolding records iterate_loop
iterate_loop-records [] fuel found h fits = ap (λ n. ([], n, ok)) (omega arith)
iterate_loop-records (u ∷ us) zero found h (fit, fits) =
    let (tag, input, split, read, short) = read_record-record_of u us fit in
    let size : length (record_of u ++ records us) ≡ suc (length input) = ap length split in
    absurd (omega arith)
iterate_loop-records (u ∷ us) (suc fuel) found h (fit, fits) =
    one_record u us fuel found fit h (λ short. iterate_loop-records us fuel (found + 1) short fits)
    ∙ ap (λ n. (u ∷ us, n, ok)) (omega arith)

sized : (seq : ℕ) (us : List Update) → length (contents seq us) ≡ 12 + length (records us)
unfolding contents encode_fixed64 encode_fixed32
sized seq us = omega arith

iterate-contents : (seq : ℕ) (us : List Update) → All Fits us → iterate (contents seq us) ≡ (us, ok)
unfolding iterate status_or
iterate-contents seq us fits =
    rw
      (
        iterate,
        body-contents,
        iterate_loop-records us (length (records us)) 0 (omega arith) fits,
        count-contents,
        sized,
      )
      (let big : ltb (12 + length (records us)) 12 ≡ false = ground arith in
        let same : ((0 + length us) % 2 ^ 32 == length us % 2 ^ 32) ≡ true = ground arith in
        rw (big, same) refl)

-- Iterate on a batch that Clear, SetSequence and then Puts and Deletes made, of slices below 4 GB,
-- hands on exactly these updates in their order and returns OK.
pub iterate-built : (seq : ℕ) (us : List Update) → All Fits us → iterate (built seq us) ≡ (us, ok)
unfolding iterate
iterate-built seq us fits = rw (built-contents, iterate-contents seq us fits) refl

-- The entry of the memtable for an update with a sequence number.
unfoldable pub entry_of : ℕ → Update → Added
entry_of n (put_key key value) = record { seq = n; type = 1; key = key; value = value }
entry_of n (delete_key key) = record { seq = n; type = 0; key = key; value = [] }

-- The memtable entry at a place is that of the update there, with that many numbers behind `seq`;
-- there are no others.
abbrev pub Numbered : ℕ → List Update → List Added → Type 0
Numbered seq us added =
    (i : ℕ) → get_elem? added i ≡ Option.map (entry_of ((seq + i) % 2 ^ 64)) (get_elem? us i)

added-Numbered :
    (seq : ℕ) (u : Update) (us : List Update) (later : List Added)
    → seq < 2 ^ 64
    → Numbered ((seq + 1) % 2 ^ 64) us later
    → Numbered seq (u ∷ us) (entry_of seq u ∷ later)
added-Numbered seq u us later h rest zero =
    let same : seq ≡ (seq + 0) % 2 ^ 64 = omega arith in ap (λ n. some (entry_of n u)) same
added-Numbered seq u us later h rest (suc i) =
    let same : ((seq + 1) % 2 ^ 64 + i) % 2 ^ 64 ≡ (seq + suc i) % 2 ^ 64 = omega arith in
    rest i ∙ ap (λ n. Option.map (entry_of n) (get_elem? us i)) same

updates-Numbered :
    (seq : ℕ) (us : List Update) → seq < 2 ^ 64 → Numbered seq us (add_updates seq us)
unfolding add_updates entry_of
updates-Numbered seq [] h = λ i. refl
updates-Numbered seq (put_key key value ∷ us) h =
    added-Numbered seq (put_key key value) us _ h
      (updates-Numbered ((seq + 1) % 2 ^ 64) us (omega arith))
updates-Numbered seq (delete_key key ∷ us) h =
    added-Numbered seq (delete_key key) us _ h
      (updates-Numbered ((seq + 1) % 2 ^ 64) us (omega arith))

-- InsertInto on a batch that Clear, SetSequence of a uint64 and then Puts and Deletes made, of slices
-- below 4 GB, returns OK and adds to the memtable one entry for each update: at each place
-- the type, key and value of the update there, with the batch's sequence number and the place added
-- to it, as a uint64.
pub insert_into-built :
    (seq : ℕ) (us : List Update)
    → IsU64 seq
    → All Fits us
    → (added : List Added) × (insert_into (built seq us) ≡ (added, ok)) × Numbered seq us added
unfolding insert_into sequence contents
insert_into-built seq us h fits = (
  add_updates seq us,
  rw (iterate-built seq us fits, built-contents, decode_fixed64-encode_fixed64 seq _ h) refl,
  updates-Numbered seq us h,
)

-- Iterate and Append: a batch that is built from slices below 4 GB and then has another such batch
-- appended iterates over the updates of the first and then those of the second, and returns OK.
pub iterate-append :
    (seq seq' : ℕ) (us vs : List Update)
    → All Fits us
    → All Fits vs
    → iterate (append (built seq us) (built seq' vs)) ≡ (us ++ vs, ok)
iterate-append seq seq' us vs fits fits' =
    rw (built-contents, built-contents, append-contents)
      (iterate-contents seq (us ++ vs) (All-append Fits us vs fits fits'))
