-- ===== src/BlockBuilder/Encoded.antt =====
-- table/block_builder.cc: the bytes and the restart points that a run of Add leaves, entry by entry.
use ebf_leveldb_sep_kv.Base.{
  ℕ, ◌+◌, ◌-◌, ◌%◌, ◌^◌, ◌≤◌, List, [], ◌∷◌, ◌++◌, ltb, ◌==◌, if◌then◌else◌, length, take, drop,
  ◌≡◌, refl, ap, sym, ◌∙◌, arith, length-append, Bool-cases, inl, inr, take-append-drop, ==_iff,
}
use mathlib.Core.List.{append_assoc, append-nil}
use ebf_leveldb_sep_kv.Coding.{encode_varint32, put_varint32, encode_fixed32, put_fixed32}
use ebf_leveldb_sep_kv.BlockBuilder.{
  BlockBuilder, new_builder, common_prefix, add_entry, add, append_restarts, finish,
}

-- One Add for each pair of a key and a value.
unfoldable pub add_all : ℕ → List (List ℕ × List ℕ) → BlockBuilder → BlockBuilder
add_all interval [] b = b
add_all interval ((k, v) ∷ es) b = add_all interval es (add interval k v b)

take-common_prefix :
    (last key : List ℕ) → take (common_prefix last key) last ≡ take (common_prefix last key) key
unfolding common_prefix
take-common_prefix [] key = refl
take-common_prefix (x ∷ xs) [] = refl
take-common_prefix (x ∷ xs) (y ∷ ys) = elim (Bool-cases (x == y)) [
  | inl same ↦ rw same (rw ((==_iff x y).0 same) (ap (λ t. y ∷ t) (take-common_prefix xs ys)))
  | inr other ↦ rw other refl
]

common_prefix-le : (last key : List ℕ) → common_prefix last key ≤ length key
unfolding common_prefix
common_prefix-le [] key = omega arith
common_prefix-le (x ∷ xs) [] = omega arith
common_prefix-le (x ∷ xs) (y ∷ ys) = ground (arith, common_prefix-le xs ys)

common_prefix-le_last : (last key : List ℕ) → common_prefix last key ≤ length last
unfolding common_prefix
common_prefix-le_last [] key = omega arith
common_prefix-le_last (x ∷ xs) [] = omega arith
common_prefix-le_last (x ∷ xs) (y ∷ ys) = ground (arith, common_prefix-le_last xs ys)

-- The lengths of an entry and what follows them.
unfoldable pub with_lengths : ℕ → List ℕ → List ℕ → List ℕ → List ℕ
with_lengths shared key value body =
    encode_varint32 (shared % 2 ^ 32)
    ++ (encode_varint32 ((length key - shared) % 2 ^ 32)
        ++ (encode_varint32 (length value % 2 ^ 32) ++ body))

with_lengths-append :
    (s : ℕ) (k v body rest : List ℕ)
    → with_lengths s k v body ++ rest ≡ with_lengths s k v (body ++ rest)
unfolding with_lengths
with_lengths-append s k v body rest = simp append_assoc

entry_buffer :
    (s : ℕ) (k v : List ℕ) (b : BlockBuilder)
    → (add_entry k v s b).buffer ≡ b.buffer ++ with_lengths s k v (drop s k ++ v)
unfolding add_entry put_varint32 with_lengths
entry_buffer s k v b = simp append_assoc

entry_key :
    (s : ℕ) (k v : List ℕ) (b : BlockBuilder)
    → take s b.last_key ≡ take s k
    → (add_entry k v s b).last_key ≡ k
unfolding add_entry
entry_key s k v b e = rw e (take-append-drop s k)

-- The words of the restart array.
unfoldable pub words : List ℕ → List ℕ
words [] = []
words (r ∷ rs) = encode_fixed32 r ++ words rs

append_restarts-words : (rs buffer : List ℕ) → append_restarts rs buffer ≡ buffer ++ words rs
unfolding append_restarts put_fixed32 words
append_restarts-words [] buffer = sym (append-nil buffer)
append_restarts-words (r ∷ rs) buffer =
    append_restarts-words rs (buffer ++ encode_fixed32 r)
    ∙ append_assoc buffer (encode_fixed32 r) (words rs)

-- The builder at a restart point.
abbrev restarted : BlockBuilder → BlockBuilder
restarted b = record b { restarts = b.restarts ++ (length b.buffer % 2 ^ 32 ∷ []); counter = 0 }

module _ (interval : ℕ) where
  -- The prefix that an entry shares with the key before it; none at a restart point.
  unfoldable pub shared_of : ℕ → List ℕ → List ℕ → ℕ
  shared_of counter last key = if ltb counter interval then common_prefix last key else 0

  unfoldable pub next_counter : ℕ → ℕ
  next_counter counter = if ltb counter interval then counter + 1 else 1

  unfoldable pub one : ℕ → List ℕ → List ℕ → List ℕ → List ℕ
  unfolding with_lengths shared_of
  one counter last key value =
      let s = shared_of counter last key in with_lengths s key value (drop s key ++ value)

  unfoldable pub encoded : ℕ → List ℕ → List (List ℕ × List ℕ) → List ℕ
  unfolding one next_counter
  encoded counter last [] = []
  encoded counter last ((k, v) ∷ es) = one counter last k v ++ encoded (next_counter counter) k es

  unfoldable pub mark : ℕ → ℕ → List ℕ
  mark counter at = if ltb counter interval then [] else at % 2 ^ 32 ∷ []

  -- The restart points that a run adds to those it found, from a buffer of size `at`.
  unfoldable pub points : ℕ → ℕ → List ℕ → List (List ℕ × List ℕ) → List ℕ
  unfolding mark one next_counter
  points at counter last [] = []
  points at counter last ((k, v) ∷ es) =
      mark counter at ++ points (at + length (one counter last k v)) (next_counter counter) k es

  pub take-shared_of :
      (counter : ℕ) (last key : List ℕ)
      → take (shared_of counter last key) last ≡ take (shared_of counter last key) key
  unfolding shared_of
  take-shared_of counter last key = elim (Bool-cases (ltb counter interval)) [
    | inl t ↦ rw t (take-common_prefix last key)
    | inr f ↦ rw f refl
  ]

  pub shared_of-le : (counter : ℕ) (last key : List ℕ) → shared_of counter last key ≤ length key
  unfolding shared_of
  shared_of-le counter last key = ground (arith, common_prefix-le last key)

  pub shared_of-le_last :
      (counter : ℕ) (last key : List ℕ) → shared_of counter last key ≤ length last
  unfolding shared_of
  shared_of-le_last counter last key = ground (arith, common_prefix-le_last last key)

  pub add_buffer :
      (k v : List ℕ) (b : BlockBuilder)
      → (add interval k v b).buffer ≡ b.buffer ++ one b.counter b.last_key k v
  unfolding add one shared_of
  add_buffer k v b = elim (Bool-cases (ltb b.counter interval)) [
    | inl t ↦ rw t (entry_buffer (common_prefix b.last_key k) k v b)
    | inr f ↦ rw f (entry_buffer 0 k v (restarted b))
  ]

  pub add_key : (k v : List ℕ) (b : BlockBuilder) → (add interval k v b).last_key ≡ k
  unfolding add
  add_key k v b = elim (Bool-cases (ltb b.counter interval)) [
    | inl t ↦ rw t (entry_key (common_prefix b.last_key k) k v b (take-common_prefix b.last_key k))
    | inr f ↦ rw f (entry_key 0 k v (restarted b) refl)
  ]

  pub add_counter :
      (k v : List ℕ) (b : BlockBuilder) → (add interval k v b).counter ≡ next_counter b.counter
  unfolding add add_entry next_counter
  add_counter k v b = ground arith

  pub add_restarts :
      (k v : List ℕ) (b : BlockBuilder)
      → (add interval k v b).restarts ≡ b.restarts ++ mark b.counter (length b.buffer)
  unfolding add add_entry mark
  add_restarts k v b = elim (Bool-cases (ltb b.counter interval)) [
    | inl t ↦ rw t (sym (append-nil b.restarts))
    | inr f ↦ rw f refl
  ]

  add_finished : (k v : List ℕ) (b : BlockBuilder) → (add interval k v b).finished ≡ b.finished
  unfolding add add_entry
  add_finished k v b = ground arith

  pub add_all_buffer :
      (es : List (List ℕ × List ℕ)) (b : BlockBuilder)
      → (add_all interval es b).buffer ≡ b.buffer ++ encoded b.counter b.last_key es
  unfolding add_all encoded
  add_all_buffer [] b = sym (append-nil b.buffer)
  add_all_buffer ((k, v) ∷ es) b =
      let b' = add interval k v b in
      add_all_buffer es b'
      ∙ rw (add_buffer k v b, add_key k v b, add_counter k v b)
          (append_assoc b.buffer (one b.counter b.last_key k v)
            (encoded (next_counter b.counter) k es))

  pub add_all_restarts :
      (es : List (List ℕ × List ℕ)) (b : BlockBuilder)
      → (add_all interval es b).restarts
        ≡ b.restarts ++ points (length b.buffer) b.counter b.last_key es
  unfolding add_all points
  add_all_restarts [] b = sym (append-nil b.restarts)
  add_all_restarts ((k, v) ∷ es) b =
      let b' = add interval k v b in
      let size : length (b.buffer ++ one b.counter b.last_key k v)
          ≡ length b.buffer + length (one b.counter b.last_key k v) =
        length-append b.buffer (one b.counter b.last_key k v) in
      add_all_restarts es b'
      ∙ rw (add_restarts k v b, add_buffer k v b, add_key k v b, add_counter k v b, size)
          (append_assoc b.restarts (mark b.counter (length b.buffer)) _)

  add_all_finished :
      (es : List (List ℕ × List ℕ)) (b : BlockBuilder)
      → (add_all interval es b).finished ≡ b.finished
  unfolding add_all
  add_all_finished [] b = refl
  add_all_finished ((k, v) ∷ es) b = add_all_finished es (add interval k v b) ∙ add_finished k v b

  -- The entries of a block, its restart points and its bytes.
  abbrev pub entries_of : List (List ℕ × List ℕ) → List ℕ
  entries_of es = encoded 0 [] es

  abbrev pub restarts_of : List (List ℕ × List ℕ) → List ℕ
  restarts_of es = 0 ∷ points 0 0 [] es

  abbrev pub block_of : List (List ℕ × List ℕ) → List ℕ
  block_of es =
      entries_of es ++ (words (restarts_of es) ++ encode_fixed32 (length (restarts_of es) % 2 ^ 32))

  pub finish-block_of :
      (es : List (List ℕ × List ℕ))
      → (finish (add_all interval es new_builder)).buffer ≡ block_of es
  unfolding finish new_builder put_fixed32
  finish-block_of es =
      rw
        (
          add_all_finished es new_builder,
          add_all_buffer es new_builder,
          add_all_restarts es new_builder,
          append_restarts-words (restarts_of es) (entries_of es),
        )
        (append_assoc (entries_of es) (words (restarts_of es)) _)
