-- ===== src/VersionEdit/Total.antt =====
-- db/version_edit.cc: the loop of DecodeFrom ends on every input.
use ebf_leveldb_sep_kv.Base.{
  ℕ, zero, suc, ◌≤◌, List, [], ◌∷◌, Option, none, some, ltb, ◌==◌, length, arith, ◌≡◌, ◌≢◌, refl,
  inl, inr, Bool-cases, either, Option-cases,
}
use ebf_leveldb_sep_kv.Coding.{get_varint32, get_varint64, get_length_prefixed_slice, ◌>>=◌}
use ebf_leveldb_sep_kv.Coding.Shorter.{get_varint32-shorter, get_varint64-shorter, slice-shorter}
use ebf_leveldb_sep_kv.VersionEdit.{
  VersionEdit, Message, Message.out_of_fuel, Message.comparator_name, Message.log_number',
  Message.previous_log_number, Message.next_file_number', Message.last_sequence_number,
  Message.compaction_pointer, Message.deleted_file, Message.new_file_entry, Message.unknown_tag,
  get_internal_key, get_level, read_comparator, read_number, read_compact_pointer,
  read_deleted_file, read_new_file, read_field, at_end, decode_loop, decode_from, clear, num_levels,
  set_log_number, set_prev_log_number, set_next_file, set_last_sequence, set_comparator_name,
  set_compact_pointer, delete_file, add_file,
}

-- A read leaves at most `n` bytes.
NoLonger : {A : Type 0} → ℕ → Option (A × List ℕ) → Type 0
NoLonger n none = Unit
NoLonger n (some (a, rest)) = length rest ≤ n

bind-NoLonger :
    {A B : Type 0} (n : ℕ) (o : Option (A × List ℕ)) (f : A × List ℕ → Option (B × List ℕ))
    → NoLonger n o
    → ((a : A) (rest : List ℕ) → length rest ≤ n → NoLonger n (f (a, rest)))
    → NoLonger n (o >>= f)
unfolding NoLonger
bind-NoLonger n none f h k = tt
bind-NoLonger n (some (a, rest)) f h k = k a rest h

of_some :
    {A : Type 0} (n : ℕ) (o : Option (A × List ℕ))
    → ((a : A) (rest : List ℕ) → o ≡ some (a, rest) → length rest ≤ n)
    → NoLonger n o
unfolding NoLonger
of_some n none h = tt
of_some n (some (a, rest)) h = h a rest refl

read : {A : Type 0} (n : ℕ) (a : A) (rest : List ℕ) → length rest ≤ n → NoLonger n (some (a, rest))
unfolding NoLonger
read n a rest h = h

varint32 : (n : ℕ) (input : List ℕ) → length input ≤ n → NoLonger n (get_varint32 input)
varint32 n input h = of_some n _ (λ v rest e. omega (arith, get_varint32-shorter input v rest e))

varint64 : (n : ℕ) (input : List ℕ) → length input ≤ n → NoLonger n (get_varint64 input)
varint64 n input h = of_some n _ (λ v rest e. omega (arith, get_varint64-shorter input v rest e))

slice : (n : ℕ) (input : List ℕ) → length input ≤ n → NoLonger n (get_length_prefixed_slice input)
slice n input h = of_some n _ (λ s rest e. omega (arith, slice-shorter input s rest e))

key : (n : ℕ) (input : List ℕ) → length input ≤ n → NoLonger n (get_internal_key input)
unfolding get_internal_key
key n input h = slice n input h

level : (n : ℕ) (input : List ℕ) → length input ≤ n → NoLonger n (get_level input)
unfolding get_level
level n input h = bind-NoLonger n (get_varint32 input) _ (varint32 n input h) (λ v rest le.
    elim (Bool-cases (ltb v num_levels)) [
      | inl small ↦ rw small (read n v rest le)
      | inr large ↦ rw large (unfold NoLonger in tt)
    ])

comparator : (input : List ℕ) (e : VersionEdit) → NoLonger (length input) (read_comparator input e)
unfolding read_comparator
comparator input e =
    let n = length input in
    bind-NoLonger n (get_length_prefixed_slice input) _ (slice n input (omega arith))
      (λ s rest le. read n (set_comparator_name s e) rest le)

number :
    (set : ℕ → VersionEdit → VersionEdit) (input : List ℕ) (e : VersionEdit)
    → NoLonger (length input) (read_number set input e)
unfolding read_number
number set input e =
    let n = length input in
    bind-NoLonger n (get_varint64 input) _ (varint64 n input (omega arith))
      (λ v rest le. read n (set v e) rest le)

compact_pointer :
    (input : List ℕ) (e : VersionEdit) → NoLonger (length input) (read_compact_pointer input e)
unfolding read_compact_pointer
compact_pointer input e =
    let n = length input in
    bind-NoLonger n (get_level input) _ (level n input (omega arith)) (λ l input1 le1.
      bind-NoLonger n (get_internal_key input1) _ (key n input1 le1)
        (λ k input2 le2. read n (set_compact_pointer l k e) input2 le2))

deleted_file' :
    (input : List ℕ) (e : VersionEdit) → NoLonger (length input) (read_deleted_file input e)
unfolding read_deleted_file
deleted_file' input e =
    let n = length input in
    bind-NoLonger n (get_level input) _ (level n input (omega arith)) (λ l input1 le1.
      bind-NoLonger n (get_varint64 input1) _ (varint64 n input1 le1)
        (λ v input2 le2. read n (delete_file l v e) input2 le2))

new_file : (input : List ℕ) (e : VersionEdit) → NoLonger (length input) (read_new_file input e)
unfolding read_new_file
new_file input e =
    let n = length input in
    bind-NoLonger n (get_level input) _ (level n input (omega arith)) (λ l input1 le1.
      bind-NoLonger n (get_varint64 input1) _ (varint64 n input1 le1) (λ v input2 le2.
        bind-NoLonger n (get_varint64 input2) _ (varint64 n input2 le2) (λ size input3 le3.
          bind-NoLonger n (get_internal_key input3) _ (key n input3 le3) (λ small input4 le4.
            bind-NoLonger n (get_internal_key input4) _ (key n input4 le4)
              (λ large input5 le5. read n (add_file l v size small large e) input5 le5)))))

-- The message of a read is one of the source's, and the read leaves at most `n` bytes.
Sound : ℕ → Message × Option (VersionEdit × List ℕ) → Type 0
Sound n t = (t.0 ≢ out_of_fuel) × NoLonger n t.1

sound :
    (n : ℕ) (m : Message) (o : Option (VersionEdit × List ℕ))
    → m ≢ out_of_fuel
    → NoLonger n o
    → Sound n (m, o)
unfolding Sound
sound n m o h k = (h, k)

read_field-Sound :
    (tag : ℕ) (input : List ℕ) (e : VersionEdit) → Sound (length input) (read_field tag input e)
unfolding read_field
read_field-Sound tag input e =
    let n = length input in
    let P = Sound n in
    either P (tag == 1)
      (sound n comparator_name (read_comparator input e) (ground arith) (comparator input e))
      (either P (tag == 2)
        (sound n log_number' (read_number set_log_number input e) (ground arith)
          (number set_log_number input e))
        (either P (tag == 9)
          (sound n previous_log_number (read_number set_prev_log_number input e) (ground arith)
            (number set_prev_log_number input e))
          (either P (tag == 3)
            (sound n next_file_number' (read_number set_next_file input e) (ground arith)
              (number set_next_file input e))
            (either P (tag == 4)
              (sound n last_sequence_number (read_number set_last_sequence input e) (ground arith)
                (number set_last_sequence input e))
              (either P (tag == 5)
                (sound n compaction_pointer (read_compact_pointer input e) (ground arith)
                  (compact_pointer input e))
                (either P (tag == 6)
                  (sound n deleted_file (read_deleted_file input e) (ground arith)
                    (deleted_file' input e))
                  (either P (tag == 7)
                    (sound n new_file_entry (read_new_file input e) (ground arith)
                      (new_file input e))
                    (sound n unknown_tag none (ground arith) (unfold NoLonger in tt)))))))))

at_end-ends : (input : List ℕ) → at_end input ≢ some out_of_fuel
unfolding at_end
at_end-ends [] = ground arith
at_end-ends (b ∷ input) = ground arith

decode_loop-ends :
    (fuel : ℕ) (input : List ℕ) (e : VersionEdit)
    → length input ≤ fuel
    → (decode_loop fuel input e).1 ≢ some out_of_fuel
unfolding decode_loop Sound NoLonger
decode_loop-ends zero input e h = elim (Option-cases (get_varint32 input)) [
  | inl nothing ↦ rw (decode_loop, nothing) (at_end-ends input)
  | inr (found, tagged) ↦ absurd (omega (arith, get_varint32-shorter input found.0 found.1 tagged))
]
decode_loop-ends (suc fuel) input e h = elim (Option-cases (get_varint32 input)) [
  | inl nothing ↦ rw (decode_loop, nothing) (at_end-ends input)
  | inr (found, tagged) ↦
      let (tag, rest) = found in
      let (named, shorter) = read_field-Sound tag rest e in
      let less_left = get_varint32-shorter input tag rest tagged in
      elim (Option-cases (read_field tag rest e).1) [
        | inl failed ↦ rw (decode_loop, tagged, failed) (ground (arith, named))
        | inr (field, done) ↦
            let (e', rest') = field in
            let short : length rest' ≤ length rest = rw done at shorter in
            rw (decode_loop, tagged, done) (decode_loop-ends fuel rest' e' (omega arith))
      ]
]

-- DecodeFrom ends on every input: each round of its loop takes a byte at least, so the fuel, the
-- length of the input, never runs out.
pub decode_from-ends : (src : List ℕ) (e : VersionEdit) → (decode_from src e).1 ≢ some out_of_fuel
unfolding decode_from
decode_from-ends src e = decode_loop-ends (length src) src (clear e) (omega arith)
