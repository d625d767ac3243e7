-- ===== src/WriteBatch.antt =====
-- db/write_batch.cc: a batch of updates as one string, `rep`: eight bytes of sequence number, four
-- of count, and the records. An `int` count is kept as its 32 bits.
pub mod RoundTrip
pub mod Total
use ebf_leveldb_sep_kv.Base.{
  ℕ, zero, suc, ◌+◌, ◌-◌, ◌%◌, ◌^◌, List, [], ◌∷◌, ◌++◌, Option, none, some, Bool, true, false, ltb,
  ◌==◌, if◌then◌else◌, length, take, drop, replicate,
}
use ebf_leveldb_sep_kv.Coding.{
  encode_fixed32, encode_fixed64, decode_fixed32, decode_fixed64, put_length_prefixed_slice,
  get_length_prefixed_slice,
}

abbrev pub header : ℕ
header = 12

abbrev pub type_deletion : ℕ
type_deletion = 0

abbrev pub type_value : ℕ
type_value = 1

-- What Iterate hands to its handler.
pub data Update : Type 0 where
  put_key : List ℕ → List ℕ → Update
  delete_key : List ℕ → Update

-- The statuses of Iterate. `out_of_fuel` is none of the source's: the model's loop gave up.
pub data Status : Type 0 where
  ok too_small bad_put bad_delete unknown_tag wrong_count out_of_fuel : Status

unfoldable pub clear : List ℕ
clear = replicate header 0

unfoldable pub approximate_size : List ℕ → ℕ
approximate_size rep = length rep

unfoldable pub count : List ℕ → ℕ
count rep = decode_fixed32 (drop 8 rep)

unfoldable pub set_count : List ℕ → ℕ → List ℕ
set_count rep n = take 8 rep ++ (encode_fixed32 (n % 2 ^ 32) ++ drop 12 rep)

unfoldable pub sequence : List ℕ → ℕ
sequence rep = decode_fixed64 rep

unfoldable pub set_sequence : List ℕ → ℕ → List ℕ
set_sequence rep seq = encode_fixed64 seq ++ drop 8 rep

unfoldable pub put : List ℕ → List ℕ → List ℕ → List ℕ
put rep key value =
    let tagged = set_count rep (count rep + 1) ++ (type_value ∷ []) in
    put_length_prefixed_slice (put_length_prefixed_slice tagged key) value

unfoldable pub delete : List ℕ → List ℕ → List ℕ
delete rep key =
    put_length_prefixed_slice (set_count rep (count rep + 1) ++ (type_deletion ∷ [])) key

-- One record behind its tag: the update and what follows it, or the status that ends the loop.
pub data Record : Type 0 where
  update : Update → List ℕ → Record
  stop : Status → Record

unfoldable pub read_put : List ℕ → Record
read_put input = elim (get_length_prefixed_slice input) [
  | none ↦ stop bad_put
  | some (key, rest) ↦ elim (get_length_prefixed_slice rest) [
    | none ↦ stop bad_put
    | some (value, rest') ↦ update (put_key key value) rest'
  ]
]

unfoldable pub read_delete : List ℕ → Record
read_delete input = elim (get_length_prefixed_slice input) [
  | none ↦ stop bad_delete
  | some (key, rest) ↦ update (delete_key key) rest
]

unfoldable pub read_record : ℕ → List ℕ → Record
read_record tag input =
    if tag == type_value
    then read_put input
    else if tag == type_deletion
    then read_delete input
    else stop unknown_tag

-- The loop of Iterate: the updates handed on, how many records were begun, and the status.
unfoldable pub iterate_loop : ℕ → List ℕ → ℕ → List Update × ℕ × Status
iterate_loop fuel [] found = ([], found, ok)
iterate_loop zero (tag ∷ input) found = ([], found, out_of_fuel)
iterate_loop (suc fuel) (tag ∷ input) found = elim (read_record tag input) [
  | stop status ↦ ([], found + 1, status)
  | update u rest ↦ let (us, n, status) = iterate_loop fuel rest (found + 1) in (u ∷ us, n, status)
]

-- The check behind the loop is reached when no return ended it.
unfoldable pub status_or : Status → Status → Status
status_or ok behind = behind
status_or status behind = status

-- Each record takes a byte at least, so the length of the input is fuel enough.
unfoldable pub iterate : List ℕ → List Update × Status
iterate rep =
    let input = drop header rep in
    let (us, found, status) = iterate_loop (length input) input 0 in
    let counted = if found % 2 ^ 32 == count rep then ok else wrong_count in
    if ltb (length rep) header then ([], too_small) else (us, status_or status counted)

-- What MemTableInserter adds: sequence number, type, key and value.
pub record Added : Type 0 where
  pub seq : ℕ
  pub type : ℕ
  pub key : List ℕ
  pub value : List ℕ

unfoldable pub add_updates : ℕ → List Update → List Added
add_updates seq [] = []
add_updates seq (put_key key value ∷ us) =
    record { seq = seq; type = type_value; key = key; value = value }
    ∷ add_updates ((seq + 1) % 2 ^ 64) us
add_updates seq (delete_key key ∷ us) =
    record { seq = seq; type = type_deletion; key = key; value = [] }
    ∷ add_updates ((seq + 1) % 2 ^ 64) us

unfoldable pub insert_into : List ℕ → List Added × Status
insert_into rep = let (us, status) = iterate rep in (add_updates (sequence rep) us, status)

-- The assert on the size of `src` is its caller's: every batch has a header.
unfoldable pub append : List ℕ → List ℕ → List ℕ
append dst src = set_count dst (count dst + count src) ++ drop header src
