-- ===== src/VersionEdit/Written.antt =====
-- db/version_edit.cc: EncodeTo writes the fields of an edit one after the other.
use ebf_leveldb_sep_kv.Base.{
  ℕ, ◌%◌, ◌^◌, ◌<◌, List, [], ◌∷◌, ◌++◌, Bool, true, false, length, if◌then◌else◌, arith, ◌≡◌, refl,
  sym, ap, ◌∙◌, All, All-append_left, All-append_right,
}
use ebf_leveldb_sep_kv.Coding.{
  encode_varint32, encode_varint64, put_varint32, put_varint64, put_length_prefixed_slice,
}
use ebf_leveldb_sep_kv.VersionEdit.{
  VersionEdit, FileMetaData, num_levels, encode_comparator, encode_number, encode_compact_pointers,
  encode_deleted_files, encode_new_files, encode_to,
}
use ebf_leveldb_sep_kv.VersionEdit.Fields.{
  Field, Field.comparator_field, Field.log_number_field, Field.prev_log_number_field,
  Field.next_file_field, Field.last_sequence_field, Field.compact_pointer_field,
  Field.deleted_file_field, Field.new_file_field, slice, field_body, field_tag, fields_bytes,
  FieldFits,
}
use mathlib.Core.List.{append_assoc, append-nil}

fields_bytes-append :
    (fs gs : List Field) → fields_bytes (fs ++ gs) ≡ fields_bytes fs ++ fields_bytes gs
unfolding fields_bytes
fields_bytes-append [] gs = refl
fields_bytes-append (f ∷ fs) gs = rw (fields_bytes-append fs gs, append_assoc) refl

-- An optional field.
unfoldable pub optional : Bool → Field → List Field
optional true f = f ∷ []
optional false f = []

unfoldable pub pointer_fields : List (ℕ × List ℕ) → List Field
pointer_fields [] = []
pointer_fields ((level, key) ∷ ps) = compact_pointer_field level key ∷ pointer_fields ps

unfoldable pub deleted_fields : List (ℕ × ℕ) → List Field
deleted_fields [] = []
deleted_fields ((level, number) ∷ fs) = deleted_file_field level number ∷ deleted_fields fs

unfoldable pub new_fields : List (ℕ × FileMetaData) → List Field
new_fields [] = []
new_fields ((level, f) ∷ fs) =
    new_file_field level f.number f.file_size f.smallest f.largest ∷ new_fields fs

-- The fields of an edit, in the order of EncodeTo.
unfoldable pub fields : VersionEdit → List Field
fields e =
    optional e.has_comparator (comparator_field e.comparator)
    ++ (optional e.has_log_number (log_number_field e.log_number)
        ++ (optional e.has_prev_log_number (prev_log_number_field e.prev_log_number)
            ++ (optional e.has_next_file_number (next_file_field e.next_file_number)
                ++ (optional e.has_last_sequence (last_sequence_field e.last_sequence)
                    ++ (pointer_fields e.compact_pointers
                        ++ (deleted_fields e.deleted_files ++ new_fields e.new_files))))))

slice-append : (dst s : List ℕ) → put_length_prefixed_slice dst s ≡ dst ++ slice s
unfolding put_length_prefixed_slice put_varint32 slice
slice-append dst s = append_assoc dst (encode_varint32 (length s % 2 ^ 32)) s

put_tag-append :
    (dst : List ℕ) (f : Field) → put_varint32 dst (field_tag f) ≡ dst ++ (field_tag f ∷ [])
unfolding put_varint32 field_tag encode_varint32
put_tag-append dst (comparator_field name) = refl
put_tag-append dst (log_number_field n) = refl
put_tag-append dst (prev_log_number_field n) = refl
put_tag-append dst (next_file_field n) = refl
put_tag-append dst (last_sequence_field n) = refl
put_tag-append dst (compact_pointer_field level key) = refl
put_tag-append dst (deleted_file_field level number) = refl
put_tag-append dst (new_file_field level number size smallest largest) = refl

-- `dst` with one field behind it.
with_field : List ℕ → Field → List ℕ
with_field dst f = dst ++ (field_tag f ∷ field_body f)

with_field-fields :
    (dst : List ℕ) (f : Field) (fs : List Field)
    → with_field dst f ++ fields_bytes fs ≡ dst ++ fields_bytes (f ∷ fs)
unfolding with_field fields_bytes
with_field-fields dst f fs = append_assoc dst (field_tag f ∷ field_body f) (fields_bytes fs)

optional-append :
    (dst written : List ℕ) (has : Bool) (f : Field)
    → written ≡ with_field dst f
    → (if has then written else dst) ≡ dst ++ fields_bytes (optional has f)
unfolding with_field fields_bytes optional
optional-append dst written true f e = rw (e, append-nil) refl
optional-append dst written false f e = rw append-nil refl

comparator-append :
    (dst : List ℕ) (e : VersionEdit)
    → encode_comparator dst e
      ≡ dst ++ fields_bytes (optional e.has_comparator (comparator_field e.comparator))
unfolding encode_comparator
comparator-append dst e =
    let f = comparator_field e.comparator in
    optional-append dst (put_length_prefixed_slice (put_varint32 dst 1) e.comparator)
      e.has_comparator f
      (unfold with_field field_body field_tag in
        (rw (put_tag-append dst f, slice-append (dst ++ (1 ∷ [])) e.comparator, append_assoc) refl))

number-append :
    (dst : List ℕ) (has : Bool) (n : ℕ) (f : Field)
    → field_body f ≡ encode_varint64 n
    → encode_number (field_tag f) has n dst ≡ dst ++ fields_bytes (optional has f)
unfolding encode_number
number-append dst has n f e =
    optional-append dst (put_varint64 (put_varint32 dst (field_tag f)) n) has f
      (unfold with_field put_varint64 in (rw (put_tag-append dst f, append_assoc, e) refl))

level-append :
    (dst : List ℕ) (f : Field) (level : ℕ)
    → level < num_levels
    → put_varint32 (put_varint32 dst (field_tag f)) (level % 2 ^ 32)
      ≡ dst ++ (field_tag f ∷ encode_varint32 level)
unfolding put_varint32
level-append dst f level h =
    let kept : level % 2 ^ 32 ≡ level = omega arith in
    rw (put_tag-append dst f, kept, append_assoc) refl

pointer-append :
    (dst : List ℕ) (level : ℕ) (key : List ℕ)
    → level < num_levels
    → put_length_prefixed_slice (put_varint32 (put_varint32 dst 5) (level % 2 ^ 32)) key
      ≡ with_field dst (compact_pointer_field level key)
unfolding with_field field_tag field_body
pointer-append dst level key h =
    rw (level-append dst (compact_pointer_field level key) level h, slice-append, append_assoc) refl

pointers-append :
    (ps : List (ℕ × List ℕ)) (dst : List ℕ)
    → All FieldFits (pointer_fields ps)
    → encode_compact_pointers dst ps ≡ dst ++ fields_bytes (pointer_fields ps)
unfolding encode_compact_pointers pointer_fields
pointers-append [] dst fits = unfold fields_bytes in (sym (append-nil dst))
pointers-append ((level, key) ∷ ps) dst (fit, fits) =
    let f = compact_pointer_field level key in
    ap (λ d. encode_compact_pointers d ps) (pointer-append dst level key fit.0)
    ∙ pointers-append ps (with_field dst f) fits
    ∙ with_field-fields dst f (pointer_fields ps)

deleted-append :
    (dst : List ℕ) (level number : ℕ)
    → level < num_levels
    → put_varint64 (put_varint32 (put_varint32 dst 6) (level % 2 ^ 32)) number
      ≡ with_field dst (deleted_file_field level number)
unfolding with_field field_tag field_body put_varint64
deleted-append dst level number h =
    rw (level-append dst (deleted_file_field level number) level h, append_assoc) refl

deleted_files-append :
    (fs : List (ℕ × ℕ)) (dst : List ℕ)
    → All FieldFits (deleted_fields fs)
    → encode_deleted_files dst fs ≡ dst ++ fields_bytes (deleted_fields fs)
unfolding encode_deleted_files deleted_fields
deleted_files-append [] dst fits = unfold fields_bytes in (sym (append-nil dst))
deleted_files-append ((level, number) ∷ fs) dst (fit, fits) =
    let f = deleted_file_field level number in
    ap (λ d. encode_deleted_files d fs) (deleted-append dst level number fit.0)
    ∙ deleted_files-append fs (with_field dst f) fits
    ∙ with_field-fields dst f (deleted_fields fs)

new_file-append :
    (dst : List ℕ) (level number size : ℕ) (smallest largest : List ℕ)
    → level < num_levels
    → put_length_prefixed_slice
        (put_length_prefixed_slice
          (put_varint64
            (put_varint64 (put_varint32 (put_varint32 dst 7) (level % 2 ^ 32)) number)
            size)
          smallest)
        largest
      ≡ with_field dst (new_file_field level number size smallest largest)
unfolding with_field field_tag field_body put_varint64
new_file-append dst level number size smallest largest h =
    rw
      (
        level-append dst (new_file_field level number size smallest largest) level h,
        slice-append _ largest,
        slice-append _ smallest,
        append_assoc,
        append_assoc,
        append_assoc,
        append_assoc,
      )
      refl

new_files-append :
    (fs : List (ℕ × FileMetaData)) (dst : List ℕ)
    → All FieldFits (new_fields fs)
    → encode_new_files dst fs ≡ dst ++ fields_bytes (new_fields fs)
unfolding encode_new_files new_fields
new_files-append [] dst fits = unfold fields_bytes in (sym (append-nil dst))
new_files-append ((level, m) ∷ fs) dst (fit, fits) =
    let f = new_file_field level m.number m.file_size m.smallest m.largest in
    ap (λ d. encode_new_files d fs)
      (new_file-append dst level m.number m.file_size m.smallest m.largest fit.0)
    ∙ new_files-append fs (with_field dst f) fits
    ∙ with_field-fields dst f (new_fields fs)

-- EncodeTo appends the fields of an edit, in their order, to what stands in the string.
pub encode_to-fields :
    (dst : List ℕ) (e : VersionEdit)
    → All FieldFits (fields e)
    → encode_to dst e ≡ dst ++ fields_bytes (fields e)
unfolding encode_to fields
encode_to-fields dst e fits =
    let P = FieldFits in
    let c = optional e.has_comparator (comparator_field e.comparator) in
    let f2 = log_number_field e.log_number in
    let f9 = prev_log_number_field e.prev_log_number in
    let f3 = next_file_field e.next_file_number in
    let f4 = last_sequence_field e.last_sequence in
    let ps = pointer_fields e.compact_pointers in
    let ds = deleted_fields e.deleted_files in
    let ns = new_fields e.new_files in
    let r6 : All P (ps ++ (ds ++ ns)) = All-append_right P (optional e.has_last_sequence f4) _ (
      All-append_right P (optional e.has_next_file_number f3) _ (
        All-append_right P (optional e.has_prev_log_number f9) _
          (All-append_right P (optional e.has_log_number f2) _ (All-append_right P c _ fits)))) in
    let r7 : All P (ds ++ ns) = All-append_right P ps _ r6 in
    let n2 : (d : List ℕ)
        → encode_number 2 e.has_log_number e.log_number d
          ≡ d ++ fields_bytes (optional e.has_log_number f2) =
      λ d. unfold field_tag field_body in (number-append d e.has_log_number e.log_number f2 refl) in
    let n9 : (d : List ℕ)
        → encode_number 9 e.has_prev_log_number e.prev_log_number d
          ≡ d ++ fields_bytes (optional e.has_prev_log_number f9) =
      λ d.
        unfold field_tag field_body in
        (number-append d e.has_prev_log_number e.prev_log_number f9 refl) in
    let n3 : (d : List ℕ)
        → encode_number 3 e.has_next_file_number e.next_file_number d
          ≡ d ++ fields_bytes (optional e.has_next_file_number f3) =
      λ d.
        unfold field_tag field_body in
        (number-append d e.has_next_file_number e.next_file_number f3 refl) in
    let n4 : (d : List ℕ)
        → encode_number 4 e.has_last_sequence e.last_sequence d
          ≡ d ++ fields_bytes (optional e.has_last_sequence f4) =
      λ d.
        unfold field_tag field_body in
        (number-append d e.has_last_sequence e.last_sequence f4 refl) in
    rw
      (
        comparator-append dst e,
        n2,
        n9,
        n3,
        n4,
        pointers-append e.compact_pointers _ (All-append_left P ps _ r6),
        deleted_files-append e.deleted_files _ (All-append_left P ds _ r7),
        new_files-append e.new_files _ (All-append_right P ds ns r7),
      )
      (simp (fields_bytes-append, append_assoc))
