-- ===== src/Block/Opened.antt =====
-- table/block.cc: the iterator over the bytes of a finished block, and its restart points.
use ebf_leveldb_sep_kv.Base.{
  ℕ, zero, suc, ◌+◌, ◌-◌, ◌*◌, ◌/◌, ◌%◌, ◌^◌, ◌<◌, List, [], ◌∷◌, ◌++◌, false, ltb, ◌==◌, length,
  get_or, drop, ◌≡◌, refl, ap, sym, ◌∙◌, arith, length-append, All, All-append, Bool-cases, inl,
  inr,
}
use mathlib.Core.List.{append_assoc, append-nil}
use native.Mathlib.Nat.{mod-eq_of_lt}
use ebf_leveldb_sep_kv.Coding.{IsU32, encode_fixed32, decode_fixed32}
use ebf_leveldb_sep_kv.Coding.RoundTrip.{decode_fixed32-encode_fixed32}
use ebf_leveldb_sep_kv.FilterBlock.Cut.{drop-far}
use ebf_leveldb_sep_kv.BlockBuilder.Encoded.{
  words, mark, points, entries_of, restarts_of, block_of, one, next_counter,
}
use ebf_leveldb_sep_kv.Block.{
  Iter, num_restarts_of, new_block, new_iter, new_iterator, block_iterator, restart_point,
}

four : (v : ℕ) → length (encode_fixed32 v) ≡ 4
unfolding encode_fixed32
four v = refl

pub length-words : (rs : List ℕ) → length (words rs) ≡ 4 * length rs
unfolding words
length-words [] = refl
length-words (r ∷ rs) =
    omega (arith, length-append (encode_fixed32 r) (words rs), four r, length-words rs)

-- A word of the array reads back, wherever the array starts.
word_at :
    (rs tail : List ℕ) (i : ℕ)
    → All IsU32 rs
    → i < length rs
    → decode_fixed32 (drop (i * 4) (words rs ++ tail)) ≡ get_or rs i 0
unfolding words
word_at [] tail i h lt = elim lt [ ]
word_at (r ∷ rs) tail zero h lt =
    rw (append_assoc (encode_fixed32 r) (words rs) tail)
      (decode_fixed32-encode_fixed32 r (words rs ++ tail) h.0)
word_at (r ∷ rs) tail (suc i) h lt =
    rw
      (
        append_assoc (encode_fixed32 r) (words rs) tail,
        drop-far (encode_fixed32 r) (words rs ++ tail) (suc i * 4) (i * 4) (omega (arith, four r)),
      )
      (word_at rs tail i h.1 (omega arith))

points_small :
    (interval at counter : ℕ) (last : List ℕ) (es : List (List ℕ × List ℕ))
    → All IsU32 (points interval at counter last es)
unfolding points
points_small interval at counter last [] = tt
points_small interval at counter last ((k, v) ∷ es) =
    All-append IsU32 (mark interval counter at)
      (points interval (at + length (one interval counter last k v)) (next_counter interval counter)
        k es)
      (mark_small interval at counter)
      (points_small interval (at + length (one interval counter last k v))
        (next_counter interval counter) k es)
  where
    mark_small : (interval at counter : ℕ) → All IsU32 (mark interval counter at)
    mark_small interval at counter = elim (Bool-cases (ltb counter interval)) [
      | inl t ↦ rw (mark, t) tt
      | inr f ↦ rw (mark, f) (omega arith, tt)
    ]

module _ (interval : ℕ) (es : List (List ℕ × List ℕ))
    (fits : length (block_of interval es) < 2 ^ 32) where
  abbrev body : List ℕ
  body = entries_of interval es

  abbrev array : List ℕ
  array = restarts_of interval es

  abbrev count : ℕ
  count = length array

  abbrev pub tail_of : List ℕ
  tail_of = words array ++ encode_fixed32 (count % 2 ^ 32)

  size_lem : length (block_of interval es) ≡ length body + 4 * count + 4
  size_lem = omega (
    arith,
    length-append body (words array ++ encode_fixed32 (count % 2 ^ 32)),
    length-append (words array) (encode_fixed32 (count % 2 ^ 32)),
    length-words array,
    four (count % 2 ^ 32),
  )

  pub count_small : count % 2 ^ 32 ≡ count
  count_small = mod-eq_of_lt (omega (arith, size_lem))

  pub count_bound : 4 * count + 4 < 2 ^ 32
  count_bound = omega (arith, size_lem)

  pub body_small : length body < 2 ^ 32
  body_small = omega (arith, size_lem)

  last_word : num_restarts_of (block_of interval es) (length (block_of interval es)) ≡ count
  unfolding num_restarts_of
  last_word =
      let w = encode_fixed32 (count % 2 ^ 32) in
      let at : length (block_of interval es) - 4 ≡ length body + 4 * count =
        omega (arith, size_lem) in
      rw
        (
          at,
          drop-far body (words array ++ w) (length body + 4 * count) (4 * count) refl,
          drop-far (words array) w (4 * count) 0 (omega (arith, length-words array)),
        )
        (ap decode_fixed32 (sym (append-nil w))
          ∙ decode_fixed32-encode_fixed32 (count % 2 ^ 32) [] (omega arith)
          ∙ count_small)

  abbrev pub iter_of : Iter
  iter_of = new_iter (block_of interval es) (length body) count

  -- A finished block opens, with the iterator before its first entry.
  pub opened : new_iterator (new_block (block_of interval es)) ≡ block_iterator iter_of
  unfolding new_iterator new_block
  opened =
      let size = size_lem in
      let n = last_word in
      let wide : ltb (length (block_of interval es)) 4 ≡ false = ground arith in
      let room : ltb ((length (block_of interval es) - 4) / 4) count ≡ false = ground arith in
      let some_restart : (count == 0) ≡ false = ground arith in
      let place : (length (block_of interval es) - (1 + count) % 2 ^ 32 * 4) % 2 ^ 32
          ≡ length body =
        omega arith in
      rw (wide, n, room, n, wide, some_restart, place) refl

  pub restart_point-array :
      (it : Iter) (i : ℕ)
      → it.contents ≡ block_of interval es
      → it.restarts ≡ length body
      → i < count
      → restart_point it i ≡ get_or array i 0
  unfolding restart_point
  restart_point-array it i bytes at h =
      rw (bytes, at, drop-far body tail_of (length body + i * 4) (i * 4) refl)
        (word_at array (encode_fixed32 (count % 2 ^ 32)) i
          (omega arith, points_small interval 0 0 [] es) h)
