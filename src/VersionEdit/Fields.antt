-- ===== src/VersionEdit/Fields.antt =====
-- db/version_edit.cc: an edit as the sequence of its fields, which EncodeTo writes one after the
-- other and which DecodeFrom reads one in a round.
use ebf_leveldb_sep_kv.Base.{ℕ, ◌<◌, List, [], ◌∷◌, ◌++◌, some, length, arith, ◌≡◌, refl}
use ebf_leveldb_sep_kv.Coding.{
  IsU32, IsU64, encode_varint32, encode_varint64, put_length_prefixed_slice,
}
use ebf_leveldb_sep_kv.Coding.RoundTrip.{
  get_varint32-encode_varint32, get_varint64-encode_varint64, get-put_length_prefixed_slice,
}
use ebf_leveldb_sep_kv.VersionEdit.{
  VersionEdit, get_internal_key, get_level, read_comparator, read_number, read_compact_pointer,
  read_deleted_file, read_new_file, read_field, num_levels, set_log_number, set_prev_log_number,
  set_next_file, set_last_sequence, set_comparator_name, set_compact_pointer, delete_file, add_file,
}
use mathlib.Core.List.{append_assoc}

pub data Field : Type 0 where
  comparator_field : List ℕ → Field
  log_number_field prev_log_number_field next_file_field last_sequence_field : ℕ → Field
  compact_pointer_field : ℕ → List ℕ → Field
  deleted_file_field : ℕ → ℕ → Field
  new_file_field : ℕ → ℕ → ℕ → List ℕ → List ℕ → Field

unfoldable pub slice : List ℕ → List ℕ
slice s = put_length_prefixed_slice [] s

unfoldable pub field_body : Field → List ℕ
field_body (comparator_field name) = slice name
field_body (log_number_field n) = encode_varint64 n
field_body (prev_log_number_field n) = encode_varint64 n
field_body (next_file_field n) = encode_varint64 n
field_body (last_sequence_field n) = encode_varint64 n
field_body (compact_pointer_field level key) = encode_varint32 level ++ slice key
field_body (deleted_file_field level number) = encode_varint32 level ++ encode_varint64 number
field_body (new_file_field level number size smallest largest) =
    encode_varint32 level
    ++ (encode_varint64 number ++ (encode_varint64 size ++ (slice smallest ++ slice largest)))

unfoldable pub field_tag : Field → ℕ
field_tag (comparator_field name) = 1
field_tag (log_number_field n) = 2
field_tag (prev_log_number_field n) = 9
field_tag (next_file_field n) = 3
field_tag (last_sequence_field n) = 4
field_tag (compact_pointer_field level key) = 5
field_tag (deleted_file_field level number) = 6
field_tag (new_file_field level number size smallest largest) = 7

unfoldable pub fields_bytes : List Field → List ℕ
fields_bytes [] = []
fields_bytes (f ∷ fs) = (field_tag f ∷ field_body f) ++ fields_bytes fs

unfoldable pub apply_field : Field → VersionEdit → VersionEdit
apply_field (comparator_field name) e = set_comparator_name name e
apply_field (log_number_field n) e = set_log_number n e
apply_field (prev_log_number_field n) e = set_prev_log_number n e
apply_field (next_file_field n) e = set_next_file n e
apply_field (last_sequence_field n) e = set_last_sequence n e
apply_field (compact_pointer_field level key) e = set_compact_pointer level key e
apply_field (deleted_file_field level number) e = delete_file level number e
apply_field (new_file_field level number size smallest largest) e =
    add_file level number size smallest largest e

unfoldable pub apply_fields : List Field → VersionEdit → VersionEdit
apply_fields [] e = e
apply_fields (f ∷ fs) e = apply_fields fs (apply_field f e)

-- The numbers of a field are in their types' range, and its level is one of the tree's.
abbrev pub FieldFits : Field → Type 0
FieldFits (comparator_field name) = IsU32 (length name)
FieldFits (log_number_field n) = IsU64 n
FieldFits (prev_log_number_field n) = IsU64 n
FieldFits (next_file_field n) = IsU64 n
FieldFits (last_sequence_field n) = IsU64 n
FieldFits (compact_pointer_field level key) = (level < num_levels) × IsU32 (length key)
FieldFits (deleted_file_field level number) = (level < num_levels) × IsU64 number
FieldFits (new_file_field level number size smallest largest) =
    (level < num_levels)
    × IsU64 number
    × IsU64 size
    × IsU32 (length smallest)
    × IsU32 (length largest)

read_level :
    (level : ℕ) (rest : List ℕ)
    → level < num_levels
    → get_level (encode_varint32 level ++ rest) ≡ some (level, rest)
unfolding get_level
read_level level rest h =
    rw (get_level, get_varint32-encode_varint32 level rest (omega arith)) (ground arith)

read_key :
    (key rest : List ℕ)
    → IsU32 (length key)
    → get_internal_key (slice key ++ rest) ≡ some (key, rest)
unfolding get_internal_key slice
read_key key rest h = get-put_length_prefixed_slice key rest h

-- The message of a field's read does not matter where it succeeds.
pub read_field-body :
    (f : Field) (rest : List ℕ) (e : VersionEdit)
    → FieldFits f
    → (read_field (field_tag f) (field_body f ++ rest) e).1 ≡ some (apply_field f e, rest)
unfolding read_field field_tag field_body apply_field read_comparator read_number
    read_compact_pointer read_deleted_file read_new_file slice
read_field-body (comparator_field name) rest e h =
    rw (read_comparator, get-put_length_prefixed_slice name rest h) refl
read_field-body (log_number_field n) rest e h =
    rw (read_number, get_varint64-encode_varint64 n rest h) refl
read_field-body (prev_log_number_field n) rest e h =
    rw (read_number, get_varint64-encode_varint64 n rest h) refl
read_field-body (next_file_field n) rest e h =
    rw (read_number, get_varint64-encode_varint64 n rest h) refl
read_field-body (last_sequence_field n) rest e h =
    rw (read_number, get_varint64-encode_varint64 n rest h) refl
read_field-body (compact_pointer_field level key) rest e (h, k) =
    rw
      (
        append_assoc,
        read_compact_pointer,
        read_level level (slice key ++ rest) h,
        read_key key rest k,
      )
      refl
read_field-body (deleted_file_field level number) rest e (h, k) =
    rw
      (
        append_assoc,
        read_deleted_file,
        read_level level (encode_varint64 number ++ rest) h,
        get_varint64-encode_varint64 number rest k,
      )
      refl
read_field-body (new_file_field level number size smallest largest) rest e (h, n, s, sm, la) =
    rw
      (
        append_assoc,
        append_assoc,
        append_assoc,
        append_assoc,
        read_new_file,
        read_level level _ h,
        get_varint64-encode_varint64 number _ n,
        get_varint64-encode_varint64 size _ s,
        read_key smallest _ sm,
        read_key largest rest la,
      )
      refl
