-- ===== src/FilterBlock/Offsets.antt =====
-- table/filter_block.cc and table/table.cc: the array of offsets behind a child's filters, as
-- Finish writes it, getOffsets cuts it out and ReadMeta reads it.
use ebf_leveldb_sep_kv.Base.{
  ℕ, zero, suc, ◌+◌, ◌-◌, ◌*◌, ◌/◌, ◌%◌, ◌^◌, ◌<◌, List, [], ◌∷◌, ◌++◌, some, false, ltb, length,
  get_or, take, drop, All, All-append, ◌≡◌, refl, sym, ap, ◌∙◌, arith, length-append,
}
use mathlib.Core.List.{append_assoc, append-nil}
use native.Mathlib.Nat.{mod-eq_of_lt}
use ebf_leveldb_sep_kv.Coding.{IsU32, encode_fixed32, put_fixed32, decode_fixed32}
use ebf_leveldb_sep_kv.Coding.RoundTrip.{decode_fixed32-encode_fixed32}
use ebf_leveldb_sep_kv.FilterBlock.{
  put_offsets, finish_result, contents_offsets, read_words, read_offsets, filter_base_lg,
}
use ebf_leveldb_sep_kv.FilterBlock.Pieces.{drop-append}

encoded : List ℕ → List ℕ
encoded [] = []
encoded (v ∷ vs) = encode_fixed32 v ++ encoded vs

length-encode_fixed32 : (v : ℕ) → length (encode_fixed32 v) ≡ 4
unfolding encode_fixed32
length-encode_fixed32 v = refl

length-encoded : (vs : List ℕ) → length (encoded vs) ≡ 4 * length vs
unfolding encoded
length-encoded [] = refl
length-encoded (v ∷ vs) = omega (
  arith,
  length-append (encode_fixed32 v) (encoded vs),
  length-encode_fixed32 v,
  length-encoded vs,
)

put_offsets-encoded : (result vs : List ℕ) → put_offsets result vs ≡ result ++ encoded vs
unfolding put_offsets encoded put_fixed32
put_offsets-encoded result [] = sym (append-nil result)
put_offsets-encoded result (v ∷ vs) =
    put_offsets-encoded (result ++ encode_fixed32 v) vs
    ∙ append_assoc result (encode_fixed32 v) (encoded vs)

drop_four : (v : ℕ) (rest : List ℕ) → drop 4 (encode_fixed32 v ++ rest) ≡ rest
unfolding encode_fixed32
drop_four v rest = refl

read_words-encoded :
    (vs rest : List ℕ) → All IsU32 vs → read_words (length vs) (encoded vs ++ rest) ≡ vs
unfolding read_words encoded
read_words-encoded [] rest h = refl
read_words-encoded (v ∷ vs) rest (fits, h) =
    rw (append_assoc (encode_fixed32 v) (encoded vs) rest) (
      let first = decode_fixed32-encode_fixed32 v (encoded vs ++ rest) fits in
      let more : read_words (length vs) (drop 4 (encode_fixed32 v ++ (encoded vs ++ rest))) ≡ vs =
        rw (drop_four v (encoded vs ++ rest)) (read_words-encoded vs rest h) in
      λ i. first i ∷ more i)

-- The finished block, with the offsets and their own start as one array of words.
finish_result-words :
    (result vs : List ℕ)
    → length result < 2 ^ 32
    → finish_result result vs
      ≡ result ++ ((encoded vs ++ encode_fixed32 (length result)) ++ (filter_base_lg ∷ []))
unfolding finish_result put_fixed32
finish_result-words result vs small =
    rw (put_offsets-encoded result vs, mod-eq_of_lt small)
      (append_assoc (result ++ encoded vs) (encode_fixed32 (length result)) (16 ∷ [])
        ∙ append_assoc result (encoded vs) (encode_fixed32 (length result) ++ (16 ∷ []))
        ∙ ap (λ (t : List ℕ). result ++ t)
            (sym (append_assoc (encoded vs) (encode_fixed32 (length result)) (16 ∷ []))))

encoded-last : (vs : List ℕ) (v : ℕ) → encoded (vs ++ (v ∷ [])) ≡ encoded vs ++ encode_fixed32 v
unfolding encoded
encoded-last [] v = append-nil (encode_fixed32 v)
encoded-last (w ∷ vs) v =
    rw (encoded-last vs v) (sym (append_assoc (encode_fixed32 w) (encoded vs) (encode_fixed32 v)))

get_or-last_byte : (xs : List ℕ) (b n : ℕ) → n ≡ length xs → get_or (xs ++ (b ∷ [])) n 0 ≡ b
get_or-last_byte [] b n h = rw h refl
get_or-last_byte (x ∷ xs) b zero h = absurd (omega arith)
get_or-last_byte (x ∷ xs) b (suc n) h = get_or-last_byte xs b n (omega arith)

take-whole {ℓ} : {A : Type ℓ} (n : ℕ) (xs : List A) → n ≡ length xs → take n xs ≡ xs
take-whole n [] h = rw h refl
take-whole zero (x ∷ xs) h = absurd (omega arith)
take-whole (suc n) (x ∷ xs) h = ap (λ t. x ∷ t) (take-whole n xs (omega arith))

drop-front {ℓ} : {A : Type ℓ} (n : ℕ) (xs ys : List A) → n ≡ length xs → drop n (xs ++ ys) ≡ ys
drop-front n xs ys h = rw h (drop-append xs ys)

-- The array of a finished block, cut out where its last word says.
contents_offsets-finish_result :
    (result vs : List ℕ)
    → length result < 2 ^ 32
    → contents_offsets (finish_result result vs)
      ≡ (encoded vs ++ encode_fixed32 (length result)) ++ (filter_base_lg ∷ [])
unfolding contents_offsets
contents_offsets-finish_result result vs small =
    let last = encode_fixed32 (length result) in
    let array = (encoded vs ++ last) ++ (16 ∷ []) in
    let sizes : length array ≡ 4 * length vs + 5 = omega (
      arith,
      length-append (encoded vs ++ last) (16 ∷ []),
      length-append (encoded vs) last,
      length-encoded vs,
      length-encode_fixed32 (length result),
    ) in
    let whole : length (result ++ array) ≡ length result + 4 * length vs + 5 =
      omega (arith, sizes, length-append result array) in
    let split : result ++ array ≡ (result ++ encoded vs) ++ (last ++ (16 ∷ [])) =
      ap (λ (t : List ℕ). result ++ t) (append_assoc (encoded vs) last (16 ∷ []))
      ∙ sym (append_assoc result (encoded vs) (last ++ (16 ∷ []))) in
    let word : decode_fixed32 (drop (length (result ++ array) - 5) (result ++ array))
        ≡ length result =
      rw split (
        rw
          (drop-front (length ((result ++ encoded vs) ++ (last ++ (16 ∷ []))) - 5)
            (result ++ encoded vs) (last ++ (16 ∷ []))
            (omega (
              arith,
              ap length split,
              whole,
              length-append result (encoded vs),
              length-encoded vs,
            )))
          (decode_fixed32-encode_fixed32 (length result) (16 ∷ []) small)) in
    let long : ltb (length (result ++ array)) 5 ≡ false = ground (arith, whole) in
    let inside : ltb (length (result ++ array) - 5) (length result) ≡ false =
      ground (arith, whole) in
    rw (finish_result-words result vs small, word, long, inside, drop-append result array)
      (take-whole (length (result ++ array) - length result) array (omega (arith, whole, sizes)))

-- For filters of less than 4 GB and offsets of 32 bits: what ReadMeta reads of the array that
-- getOffsets cuts from a finished block are the offsets, behind them the filters' total size, and
-- the encoding parameter.
pub read_offsets-contents_offsets :
    (result vs : List ℕ)
    → length result < 2 ^ 32
    → All IsU32 vs
    → read_offsets (contents_offsets (finish_result result vs))
      ≡ some (vs ++ (length result ∷ []), filter_base_lg)
unfolding read_offsets
read_offsets-contents_offsets result vs small fits =
    let words = vs ++ (length result ∷ []) in
    let same : encoded vs ++ encode_fixed32 (length result) ≡ encoded words =
      sym (encoded-last vs (length result)) in
    let array = encoded words ++ (16 ∷ []) in
    let count : length words ≡ length vs + 1 =
      omega (arith, length-append vs (length result ∷ [])) in
    let sizes : length array ≡ 4 * length vs + 5 =
      omega (arith, length-append (encoded words) (16 ∷ []), length-encoded words, count) in
    let long : ltb (length array) 5 ≡ false = ground (arith, sizes) in
    let rounds : (length array - 5) / 4 + 1 ≡ length words = omega (arith, sizes, count) in
    let fine : All IsU32 words = All-append IsU32 vs (length result ∷ []) fits (small, tt) in
    let last : get_or array (length array - 1) 0 ≡ 16 =
      get_or-last_byte (encoded words) 16 (length array - 1)
        (omega (arith, length-append (encoded words) (16 ∷ []))) in
    rw
      (
        contents_offsets-finish_result result vs small,
        same,
        long,
        rounds,
        read_words-encoded words (16 ∷ []) fine,
        last,
      )
      refl

-- A finished block starts with its filters.
pub finish_result-tail :
    (result vs : List ℕ) → (tail : List ℕ) × (finish_result result vs ≡ result ++ tail)
unfolding finish_result put_fixed32
finish_result-tail result vs =
    let own = encode_fixed32 (length result % 2 ^ 32) in
    (
      encoded vs ++ (own ++ (16 ∷ [])),
      rw (put_offsets-encoded result vs) (
          append_assoc (result ++ encoded vs) own (16 ∷ [])
          ∙ append_assoc result (encoded vs) (own ++ (16 ∷ []))),
    )
