-- ===== src/Tests/Edit.antt =====
-- A version edit with some of its fields set.
use ebf_leveldb_sep_kv.Base.{[], ◌∷◌, none, true, false, ◌≡◌, refl, arith, inl}
use ebf_leveldb_sep_kv.VersionEdit.{VersionEdit, file_meta, encode_to, decode_from}
use ebf_leveldb_sep_kv.VersionEdit.Written.{
  fields, optional, pointer_fields, deleted_fields, new_fields,
}
use ebf_leveldb_sep_kv.VersionEdit.RoundTrip.{IsEdit, decode_from-encode_to}

abbrev some_edit : VersionEdit
some_edit = record {
  comparator = 99 ∷ [];
  log_number = 300;
  prev_log_number = 0;
  next_file_number = 0;
  last_sequence = 70000;
  has_comparator = true;
  has_log_number = true;
  has_prev_log_number = false;
  has_next_file_number = false;
  has_last_sequence = true;
  compact_pointers = (1, 107 ∷ []) ∷ [];
  deleted_files = (0, 9) ∷ (2, 4) ∷ [];
  new_files = (3, file_meta 12 4096 (97 ∷ []) (122 ∷ [])) ∷ [];
}

abbrev old_edit : VersionEdit
old_edit = record some_edit { compact_pointers = (5, 108 ∷ []) ∷ [] }

some_edit-IsEdit : IsEdit some_edit
unfolding fields optional pointer_fields deleted_fields new_fields file_meta
some_edit-IsEdit = record {
  fits = (
    omega arith,
    (
      omega arith,
      (
        omega arith,
        (
          (omega arith, omega arith),
          (
            (omega arith, omega arith),
            (
              (omega arith, omega arith),
              ((omega arith, omega arith, omega arith, omega arith, omega arith), tt),
            ),
          ),
        ),
      ),
    ),
  );
  comparator = tt;
  log_number = tt;
  prev_log_number = refl;
  next_file_number = refl;
  last_sequence = tt;
  deleted_files = ((inl (omega arith), tt), (tt, tt));
  new_files = (refl, tt);
}

decode_from-encode_to_example :
    decode_from (encode_to [] some_edit) old_edit
    ≡ (record some_edit { compact_pointers = (5, 108 ∷ []) ∷ (1, 107 ∷ []) ∷ [] }, none)
decode_from-encode_to_example = decode_from-encode_to some_edit old_edit some_edit-IsEdit
