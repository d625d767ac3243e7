-- ===== src/VersionEdit/RoundTrip.antt =====
-- db/version_edit.cc: what DecodeFrom makes of what EncodeTo writes.
use ebf_leveldb_sep_kv.Base.{
  ℕ, zero, suc, ◌≤◌, ◌<◌, List, [], ◌∷◌, ◌++◌, none, some, Bool, true, false, length, arith, ◌≡◌,
  refl, sym, ap, ◌∙◌, All, All-append_right, length-append, ◌⊎◌,
}
use mathlib.Core.Path.{subst}
use ebf_leveldb_sep_kv.Coding.{get_varint32, get_varint32_ptr, get_varint32_ptr_fallback}
use ebf_leveldb_sep_kv.VersionEdit.{
  VersionEdit, FileMetaData, file_meta, at_end, decode_loop, decode_from, clear, encode_to,
  set_insert, set_log_number, set_prev_log_number, set_next_file, set_last_sequence,
  set_comparator_name, set_compact_pointer, delete_file, add_file,
}
use ebf_leveldb_sep_kv.VersionEdit.Fields.{
  Field, Field.comparator_field, Field.log_number_field, Field.prev_log_number_field,
  Field.next_file_field, Field.last_sequence_field, Field.compact_pointer_field,
  Field.deleted_file_field, Field.new_file_field, field_body, field_tag, fields_bytes, apply_field,
  apply_fields, FieldFits, read_field-body,
}
use ebf_leveldb_sep_kv.VersionEdit.Written.{
  optional, pointer_fields, deleted_fields, new_fields, fields, encode_to-fields,
}
use mathlib.Core.List.{append_assoc, append-nil}

read_tag :
    (f : Field) (rest : List ℕ) → get_varint32 (field_tag f ∷ rest) ≡ some (field_tag f, rest)
unfolding get_varint32 get_varint32_ptr field_tag
read_tag (comparator_field name) rest = refl
read_tag (log_number_field n) rest = refl
read_tag (prev_log_number_field n) rest = refl
read_tag (next_file_field n) rest = refl
read_tag (last_sequence_field n) rest = refl
read_tag (compact_pointer_field level key) rest = refl
read_tag (deleted_file_field level number) rest = refl
read_tag (new_file_field level number size smallest largest) rest = refl

-- The loop of DecodeFrom applies the fields in their order.
decode_loop-fields_bytes :
    (fs : List Field) (fuel : ℕ) (e : VersionEdit)
    → All FieldFits fs
    → length (fields_bytes fs) ≤ fuel
    → decode_loop fuel (fields_bytes fs) e ≡ (apply_fields fs e, none)
unfolding decode_loop fields_bytes apply_fields get_varint32 get_varint32_ptr
    get_varint32_ptr_fallback at_end
decode_loop-fields_bytes [] zero e fits h = refl
decode_loop-fields_bytes [] (suc fuel) e fits h = refl
decode_loop-fields_bytes (f ∷ fs) zero e fits h = elim h [ ]
decode_loop-fields_bytes (f ∷ fs) (suc fuel) e (fit, fits) h =
    rw
      (
        decode_loop,
        read_tag f (field_body f ++ fields_bytes fs),
        read_field-body f (fields_bytes fs) e fit,
      )
      (decode_loop-fields_bytes fs fuel (apply_field f e) fits
        (omega (arith, length-append (field_body f) (fields_bytes fs))))

apply_fields-append :
    (fs gs : List Field) (e : VersionEdit)
    → apply_fields (fs ++ gs) e ≡ apply_fields gs (apply_fields fs e)
unfolding apply_fields
apply_fields-append [] gs e = refl
apply_fields-append (f ∷ fs) gs e = apply_fields-append fs gs (apply_field f e)

-- A value that is not set is the one that Clear leaves.
abbrev pub Unset {ℓ} : {A : Type ℓ} → A → Bool → A → Type ℓ
Unset none_value true v = Unit
Unset none_value false v = v ≡ none_value

-- One deleted file comes before another in the set's order.
abbrev pub Before : ℕ × ℕ → ℕ × ℕ → Type 0
Before (level, number) (level', number') =
    (level < level') ⊎ ((level ≡ level') × (number < number'))

abbrev pub Ascends : List (ℕ × ℕ) → Type 0
Ascends [] = Unit
Ascends (f ∷ fs) = All (Before f) fs × Ascends fs

abbrev pub IsFresh : ℕ × FileMetaData → Type 0
IsFresh (level, f) = f ≡ file_meta f.number f.file_size f.smallest f.largest

-- An edit as its setters make it of a new one: numbers in their types' range, nothing in a field
-- that is not set, deleted files ascending, and new files as AddFile makes them.
pub record IsEdit (e : VersionEdit) : Type 0 where
  pub fits : All FieldFits (fields e)
  pub comparator : Unset [] e.has_comparator e.comparator
  pub log_number : Unset 0 e.has_log_number e.log_number
  pub prev_log_number : Unset 0 e.has_prev_log_number e.prev_log_number
  pub next_file_number : Unset 0 e.has_next_file_number e.next_file_number
  pub last_sequence : Unset 0 e.has_last_sequence e.last_sequence
  pub deleted_files : Ascends e.deleted_files
  pub new_files : All IsFresh e.new_files

module _ (t : VersionEdit) where
  set_comparator :
      (has : Bool) (v : List ℕ)
      → t.has_comparator ≡ false
      → t.comparator ≡ []
      → Unset [] has v
      → apply_fields (optional has (comparator_field v)) t
        ≡ record t { has_comparator = has; comparator = v }
  unfolding apply_fields apply_field optional set_comparator_name
  set_comparator true v p q u = refl
  set_comparator false v p q u =
      let r = q ∙ sym u in λ i. record t { has_comparator = p i; comparator = r i }

  set_log :
      (has : Bool) (v : ℕ)
      → t.has_log_number ≡ false
      → t.log_number ≡ 0
      → Unset 0 has v
      → apply_fields (optional has (log_number_field v)) t
        ≡ record t { has_log_number = has; log_number = v }
  unfolding apply_fields apply_field optional set_log_number
  set_log true v p q u = refl
  set_log false v p q u =
      let r = q ∙ sym u in λ i. record t { has_log_number = p i; log_number = r i }

  set_prev_log :
      (has : Bool) (v : ℕ)
      → t.has_prev_log_number ≡ false
      → t.prev_log_number ≡ 0
      → Unset 0 has v
      → apply_fields (optional has (prev_log_number_field v)) t
        ≡ record t { has_prev_log_number = has; prev_log_number = v }
  unfolding apply_fields apply_field optional set_prev_log_number
  set_prev_log true v p q u = refl
  set_prev_log false v p q u =
      let r = q ∙ sym u in λ i. record t { has_prev_log_number = p i; prev_log_number = r i }

  set_next :
      (has : Bool) (v : ℕ)
      → t.has_next_file_number ≡ false
      → t.next_file_number ≡ 0
      → Unset 0 has v
      → apply_fields (optional has (next_file_field v)) t
        ≡ record t { has_next_file_number = has; next_file_number = v }
  unfolding apply_fields apply_field optional set_next_file
  set_next true v p q u = refl
  set_next false v p q u =
      let r = q ∙ sym u in λ i. record t { has_next_file_number = p i; next_file_number = r i }

  set_last :
      (has : Bool) (v : ℕ)
      → t.has_last_sequence ≡ false
      → t.last_sequence ≡ 0
      → Unset 0 has v
      → apply_fields (optional has (last_sequence_field v)) t
        ≡ record t { has_last_sequence = has; last_sequence = v }
  unfolding apply_fields apply_field optional set_last_sequence
  set_last true v p q u = refl
  set_last false v p q u =
      let r = q ∙ sym u in λ i. record t { has_last_sequence = p i; last_sequence = r i }

set_pointers :
    (ps : List (ℕ × List ℕ)) (t : VersionEdit)
    → apply_fields (pointer_fields ps) t ≡ record t { compact_pointers = t.compact_pointers ++ ps }
unfolding apply_fields apply_field pointer_fields set_compact_pointer
set_pointers [] t =
    let r = sym (append-nil t.compact_pointers) in λ i. record t { compact_pointers = r i }
set_pointers ((level, key) ∷ ps) t =
    set_pointers ps (set_compact_pointer level key t)
    ∙ ap (λ (xs : List (ℕ × List ℕ)). record t { compact_pointers = xs })
        (append_assoc t.compact_pointers ((level, key) ∷ []) ps)

set_insert-last :
    (f : ℕ × ℕ) (fs : List (ℕ × ℕ)) → All (λ g. Before g f) fs → set_insert f fs ≡ fs ++ (f ∷ [])
unfolding set_insert
set_insert-last f [] h = refl
set_insert-last (level, number) ((level', number') ∷ fs) (b, h) =
    ground (arith, set_insert-last (level, number) fs h)

Ascends-Before :
    (fs : List (ℕ × ℕ)) (f : ℕ × ℕ) (gs : List (ℕ × ℕ))
    → Ascends (fs ++ (f ∷ gs))
    → All (λ g. Before g f) fs
Ascends-Before [] f gs h = tt
Ascends-Before (g ∷ fs) f gs (b, h) =
    ((All-append_right (Before g) fs (f ∷ gs) b).0, Ascends-Before fs f gs h)

set_deleted :
    (fs : List (ℕ × ℕ)) (t : VersionEdit)
    → Ascends (t.deleted_files ++ fs)
    → apply_fields (deleted_fields fs) t ≡ record t { deleted_files = t.deleted_files ++ fs }
unfolding apply_fields apply_field deleted_fields delete_file
set_deleted [] t h =
    let r = sym (append-nil t.deleted_files) in λ i. record t { deleted_files = r i }
set_deleted ((level, number) ∷ fs) t h =
    let f : ℕ × ℕ = (level, number) in
    let e = set_insert-last f t.deleted_files (Ascends-Before t.deleted_files f fs h) in
    let whole : set_insert f t.deleted_files ++ fs ≡ t.deleted_files ++ (f ∷ fs) =
      ap (λ (xs : List (ℕ × ℕ)). xs ++ fs) e ∙ append_assoc t.deleted_files (f ∷ []) fs in
    set_deleted fs (delete_file level number t) (subst Ascends (sym whole) h)
    ∙ ap (λ (xs : List (ℕ × ℕ)). record t { deleted_files = xs }) whole

set_new :
    (fs : List (ℕ × FileMetaData)) (t : VersionEdit)
    → All IsFresh fs
    → apply_fields (new_fields fs) t ≡ record t { new_files = t.new_files ++ fs }
unfolding apply_fields apply_field new_fields add_file
set_new [] t h = let r = sym (append-nil t.new_files) in λ i. record t { new_files = r i }
set_new ((level, f) ∷ fs) t (fresh, h) =
    set_new fs (add_file level f.number f.file_size f.smallest f.largest t) h
    ∙ ap (λ (xs : List (ℕ × FileMetaData)). record t { new_files = xs })
        (append_assoc t.new_files
            ((level, file_meta f.number f.file_size f.smallest f.largest) ∷ []) fs
          ∙ ap (λ m. t.new_files ++ ((level, m) ∷ fs)) (sym fresh))

-- The fields of an edit, applied to a cleared one, make the edit again, with the compaction pointers
-- behind those that Clear has left.
apply_fields-fields :
    (e old : VersionEdit)
    → IsEdit e
    → apply_fields (fields e) (clear old)
      ≡ record e { compact_pointers = old.compact_pointers ++ e.compact_pointers }
unfolding fields clear
apply_fields-fields e old v =
    let t0 = clear old in
    let t1 = record t0 { has_comparator = e.has_comparator; comparator = e.comparator } in
    let t2 = record t1 { has_log_number = e.has_log_number; log_number = e.log_number } in
    let t3 = record t2 {
      has_prev_log_number = e.has_prev_log_number;
      prev_log_number = e.prev_log_number;
    } in
    let t4 = record t3 {
      has_next_file_number = e.has_next_file_number;
      next_file_number = e.next_file_number;
    } in
    let t5 = record t4 {
      has_last_sequence = e.has_last_sequence;
      last_sequence = e.last_sequence;
    } in
    let t6 = record t5 { compact_pointers = old.compact_pointers ++ e.compact_pointers } in
    let t7 = record t6 { deleted_files = e.deleted_files } in
    rw
      (
        apply_fields-append,
        set_comparator t0 e.has_comparator e.comparator refl refl v.comparator,
        apply_fields-append,
        set_log t1 e.has_log_number e.log_number refl refl v.log_number,
        apply_fields-append,
        set_prev_log t2 e.has_prev_log_number e.prev_log_number refl refl v.prev_log_number,
        apply_fields-append,
        set_next t3 e.has_next_file_number e.next_file_number refl refl v.next_file_number,
        apply_fields-append,
        set_last t4 e.has_last_sequence e.last_sequence refl refl v.last_sequence,
        apply_fields-append,
        set_pointers e.compact_pointers t5,
        apply_fields-append,
        set_deleted e.deleted_files t6 v.deleted_files,
        set_new e.new_files t7 v.new_files,
      )
      refl

-- DecodeFrom reads what EncodeTo wrote of an edit made by the setters, without an error, and gives
-- the edit again. Only the compaction pointers are those of the edit behind the ones that the object
-- held before: Clear does not reset them.
pub decode_from-encode_to :
    (e old : VersionEdit)
    → IsEdit e
    → decode_from (encode_to [] e) old
      ≡ (record e { compact_pointers = old.compact_pointers ++ e.compact_pointers }, none)
unfolding decode_from
decode_from-encode_to e old v =
    rw
      (
        encode_to-fields [] e v.fits,
        decode_loop-fields_bytes (fields e) (length (fields_bytes (fields e))) (clear old) v.fits
            (omega arith),
        apply_fields-fields e old v,
      )
      refl
