-- ===== src/VersionEdit.antt =====
-- db/version_edit.cc and db/version_edit.h: an edit of the set of table files, its setters, and its
-- form in the manifest. An internal key is the list of its bytes, and a level, an `int`, a natural
-- number. `deleted_files`, a std::set of pairs, is their ascending list.
pub mod Total
pub mod Written
pub mod RoundTrip
pub mod Fields
use ebf_leveldb_sep_kv.Base.{
  ℕ, zero, suc, ◌%◌, ◌^◌, List, [], ◌∷◌, ◌++◌, Option, none, some, Bool, true, false, ltb, ◌==◌,
  if◌then◌else◌, length,
}
use ebf_leveldb_sep_kv.Coding.{
  put_varint32, put_varint64, put_length_prefixed_slice, get_varint32, get_varint64,
  get_length_prefixed_slice, ◌>>=◌,
}

-- config::kNumLevels of db/dbformat.h.
abbrev pub num_levels : ℕ
num_levels = 8

pub record FileMetaData : Type 0 where
  pub refs : ℕ
  pub allowed_seeks : ℕ
  pub number : ℕ
  pub file_size : ℕ
  pub smallest : List ℕ
  pub largest : List ℕ
  pub access_time : ℕ

pub record VersionEdit : Type 0 where
  pub comparator : List ℕ
  pub log_number : ℕ
  pub prev_log_number : ℕ
  pub next_file_number : ℕ
  pub last_sequence : ℕ
  pub has_comparator : Bool
  pub has_log_number : Bool
  pub has_prev_log_number : Bool
  pub has_next_file_number : Bool
  pub has_last_sequence : Bool
  pub compact_pointers : List (ℕ × List ℕ)
  pub deleted_files : List (ℕ × ℕ)
  pub new_files : List (ℕ × FileMetaData)

-- The messages of DecodeFrom; `out_of_fuel` is none of the source's: the model's loop gave up.
pub data Message : Type 0 where
  comparator_name log_number' previous_log_number next_file_number' last_sequence_number : Message
  compaction_pointer deleted_file new_file_entry unknown_tag invalid_tag out_of_fuel : Message

-- Clear leaves the compaction pointers as they are.
unfoldable pub clear : VersionEdit → VersionEdit
clear e = record {
  comparator = [];
  log_number = 0;
  prev_log_number = 0;
  next_file_number = 0;
  last_sequence = 0;
  has_comparator = false;
  has_log_number = false;
  has_prev_log_number = false;
  has_next_file_number = false;
  has_last_sequence = false;
  compact_pointers = e.compact_pointers;
  deleted_files = [];
  new_files = [];
}

unfoldable pub set_comparator_name : List ℕ → VersionEdit → VersionEdit
set_comparator_name name e = record e { has_comparator = true; comparator = name }

unfoldable pub set_log_number : ℕ → VersionEdit → VersionEdit
set_log_number num e = record e { has_log_number = true; log_number = num }

unfoldable pub set_prev_log_number : ℕ → VersionEdit → VersionEdit
set_prev_log_number num e = record e { has_prev_log_number = true; prev_log_number = num }

unfoldable pub set_next_file : ℕ → VersionEdit → VersionEdit
set_next_file num e = record e { has_next_file_number = true; next_file_number = num }

unfoldable pub set_last_sequence : ℕ → VersionEdit → VersionEdit
set_last_sequence seq e = record e { has_last_sequence = true; last_sequence = seq }

unfoldable pub set_compact_pointer : ℕ → List ℕ → VersionEdit → VersionEdit
set_compact_pointer level key e = record e {
  compact_pointers = e.compact_pointers ++ ((level, key) ∷ []);
}

-- FileMetaData's constructor, with what AddFile and DecodeFrom fill in.
unfoldable pub file_meta : ℕ → ℕ → List ℕ → List ℕ → FileMetaData
file_meta number size smallest largest = record {
  refs = 0;
  allowed_seeks = 2 ^ 30;
  number = number;
  file_size = size;
  smallest = smallest;
  largest = largest;
  access_time = 0;
}

unfoldable pub add_file : ℕ → ℕ → ℕ → List ℕ → List ℕ → VersionEdit → VersionEdit
add_file level number size smallest largest e = record e {
  new_files = e.new_files ++ ((level, file_meta number size smallest largest) ∷ []);
}

-- std::set::insert: pairs in the order of their levels, then of their numbers; no doubles.
unfoldable pub set_insert : ℕ × ℕ → List (ℕ × ℕ) → List (ℕ × ℕ)
set_insert file [] = file ∷ []
set_insert (level, number) ((level', number') ∷ files) =
    let later = (level', number') ∷ set_insert (level, number) files in
    let kept = (level', number') ∷ files in
    if ltb level level'
    then (level, number) ∷ kept
    else if ltb level' level
    then later
    else if ltb number number'
    then (level, number) ∷ kept
    else if ltb number' number
    then later
    else kept

unfoldable pub delete_file : ℕ → ℕ → VersionEdit → VersionEdit
delete_file level number e = record e { deleted_files = set_insert (level, number) e.deleted_files }

-- EncodeTo, an optional field or a loop at a time.
unfoldable pub encode_comparator : List ℕ → VersionEdit → List ℕ
encode_comparator dst e =
    if e.has_comparator then put_length_prefixed_slice (put_varint32 dst 1) e.comparator else dst

unfoldable pub encode_number : ℕ → Bool → ℕ → List ℕ → List ℕ
encode_number tag has number dst = if has then put_varint64 (put_varint32 dst tag) number else dst

unfoldable pub encode_compact_pointers : List ℕ → List (ℕ × List ℕ) → List ℕ
encode_compact_pointers dst [] = dst
encode_compact_pointers dst ((level, key) ∷ pointers) =
    encode_compact_pointers
      (put_length_prefixed_slice (put_varint32 (put_varint32 dst 5) (level % 2 ^ 32)) key) pointers

unfoldable pub encode_deleted_files : List ℕ → List (ℕ × ℕ) → List ℕ
encode_deleted_files dst [] = dst
encode_deleted_files dst ((level, number) ∷ files) =
    encode_deleted_files (put_varint64 (put_varint32 (put_varint32 dst 6) (level % 2 ^ 32)) number)
      files

unfoldable pub encode_new_files : List ℕ → List (ℕ × FileMetaData) → List ℕ
encode_new_files dst [] = dst
encode_new_files dst ((level, f) ∷ files) =
    let numbered =
      put_varint64 (put_varint64 (put_varint32 (put_varint32 dst 7) (level % 2 ^ 32)) f.number)
        f.file_size in
    encode_new_files
      (put_length_prefixed_slice (put_length_prefixed_slice numbered f.smallest) f.largest) files

unfoldable pub encode_to : List ℕ → VersionEdit → List ℕ
encode_to dst e =
    let d1 = encode_comparator dst e in
    let d2 = encode_number 2 e.has_log_number e.log_number d1 in
    let d3 = encode_number 9 e.has_prev_log_number e.prev_log_number d2 in
    let d4 = encode_number 3 e.has_next_file_number e.next_file_number d3 in
    let d5 = encode_number 4 e.has_last_sequence e.last_sequence d4 in
    let d6 = encode_compact_pointers d5 e.compact_pointers in
    let d7 = encode_deleted_files d6 e.deleted_files in encode_new_files d7 e.new_files

unfoldable pub get_internal_key : List ℕ → Option (List ℕ × List ℕ)
get_internal_key input = get_length_prefixed_slice input

unfoldable pub get_level : List ℕ → Option (ℕ × List ℕ)
get_level input = do
  (v, rest) ← get_varint32 input
  if ltb v num_levels then some (v, rest) else none

unfoldable pub read_compact_pointer : List ℕ → VersionEdit → Option (VersionEdit × List ℕ)
read_compact_pointer input e = do
  (level, input1) ← get_level input
  (key, input2) ← get_internal_key input1
  some (set_compact_pointer level key e, input2)

unfoldable pub read_deleted_file : List ℕ → VersionEdit → Option (VersionEdit × List ℕ)
read_deleted_file input e = do
  (level, input1) ← get_level input
  (number, input2) ← get_varint64 input1
  some (delete_file level number e, input2)

unfoldable pub read_new_file : List ℕ → VersionEdit → Option (VersionEdit × List ℕ)
read_new_file input e = do
  (level, input1) ← get_level input
  (number, input2) ← get_varint64 input1
  (size, input3) ← get_varint64 input2
  (smallest, input4) ← get_internal_key input3
  (largest, input5) ← get_internal_key input4
  some (add_file level number size smallest largest e, input5)

unfoldable pub read_comparator : List ℕ → VersionEdit → Option (VersionEdit × List ℕ)
read_comparator input e = do
  (str, rest) ← get_length_prefixed_slice input
  some (set_comparator_name str e, rest)

unfoldable pub read_number :
    (ℕ → VersionEdit → VersionEdit) → List ℕ → VersionEdit → Option (VersionEdit × List ℕ)
read_number set input e = do (number, rest) ← get_varint64 input; some (set number e, rest)

-- The switch on the tag: the message of a failed read, and the read.
unfoldable pub read_field : ℕ → List ℕ → VersionEdit → Message × Option (VersionEdit × List ℕ)
read_field tag input e =
    if tag == 1
    then (comparator_name, read_comparator input e)
    else if tag == 2
    then (log_number', read_number set_log_number input e)
    else if tag == 9
    then (previous_log_number, read_number set_prev_log_number input e)
    else if tag == 3
    then (next_file_number', read_number set_next_file input e)
    else if tag == 4
    then (last_sequence_number, read_number set_last_sequence input e)
    else if tag == 5
    then (compaction_pointer, read_compact_pointer input e)
    else if tag == 6
    then (deleted_file, read_deleted_file input e)
    else if tag == 7
    then (new_file_entry, read_new_file input e)
    else (unknown_tag, none)

-- The message when no tag can be read: none at the end of the input.
unfoldable pub at_end : List ℕ → Option Message
at_end [] = none
at_end (_ ∷ _) = some invalid_tag

-- The loop of DecodeFrom and the test behind it: the edit as far as it was read, and the message.
unfoldable pub decode_loop : ℕ → List ℕ → VersionEdit → VersionEdit × Option Message
decode_loop zero input e = elim (get_varint32 input) [
  | none ↦ (e, at_end input)
  | some _ ↦ (e, some out_of_fuel)
]
decode_loop (suc fuel) input e = elim (get_varint32 input) [
  | none ↦ (e, at_end input)
  | some (tag, rest) ↦
      let (message, field) = read_field tag rest e in
      elim field [ none ↦ (e, some message) | some (e', rest') ↦ decode_loop fuel rest' e' ]
]

-- Each tag takes a byte at least, so the length of the input is fuel enough.
unfoldable pub decode_from : List ℕ → VersionEdit → VersionEdit × Option Message
decode_from src e = decode_loop (length src) src (clear e)
