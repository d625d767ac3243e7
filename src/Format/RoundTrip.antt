-- ===== src/Format/RoundTrip.antt =====
-- table/format.cc: a footer reads back.
use ebf_leveldb_sep_kv.Base.{
  ℕ, zero, suc, ◌-◌, ◌/◌, ◌%◌, ◌^◌, ◌≤◌, List, [], ◌∷◌, ◌++◌, some, length, take, drop, replicate,
  ◌≡◌, refl, ap, ◌∙◌, arith, length-append, length-replicate,
}
use mathlib.Core.List.{append_assoc}
use ebf_leveldb_sep_kv.Coding.{
  IsU64, encode_varint64, put_varint64, encode_fixed32, put_fixed32, decode_fixed32,
}
use ebf_leveldb_sep_kv.Coding.RoundTrip.{
  length-encode_varint64, get_varint64-encode_varint64, decode_fixed32-encode_fixed32,
}
use ebf_leveldb_sep_kv.FilterBlock.Cut.{drop-far}
use ebf_leveldb_sep_kv.Table.{handle_encode_to, handle_decode_from}
use ebf_leveldb_sep_kv.Format.{
  Footer, FooterResult.decoded, footer_encode, footer_decode, resized, table_magic_number,
}

-- A handle reads back, and the rest of the input is left.
pub handle_decode-encode :
    (offset size : ℕ) (rest : List ℕ)
    → IsU64 offset
    → IsU64 size
    → handle_decode_from (handle_encode_to (offset, size) [] ++ rest) ≡ some ((offset, size), rest)
unfolding handle_decode_from handle_encode_to put_varint64
handle_decode-encode offset size rest h k =
    rw
      (
        append_assoc (encode_varint64 offset) (encode_varint64 size) rest,
        get_varint64-encode_varint64 offset (encode_varint64 size ++ rest) h,
        get_varint64-encode_varint64 size rest k,
      )
      refl

handle_encode-append :
    (p : ℕ × ℕ) (dst : List ℕ) → handle_encode_to p dst ≡ dst ++ handle_encode_to p []
unfolding handle_encode_to put_varint64
handle_encode-append (offset, size) dst =
    append_assoc dst (encode_varint64 offset) (encode_varint64 size)

length-handle_encode :
    (offset size : ℕ) → IsU64 offset → IsU64 size → length (handle_encode_to (offset, size) []) ≤ 20
unfolding handle_encode_to put_varint64
length-handle_encode offset size h k = omega (
  arith,
  length-append (encode_varint64 offset) (encode_varint64 size),
  length-encode_varint64 offset h,
  length-encode_varint64 size k,
)

take-short {ℓ} : {A : Type ℓ} (n : ℕ) (xs : List A) → length xs ≤ n → take n xs ≡ xs
take-short zero [] h = refl
take-short zero (x ∷ xs) h = absurd (omega arith)
take-short (suc n) [] h = refl
take-short (suc n) (x ∷ xs) h = ap (λ t. x ∷ t) (take-short n xs (omega arith))

four : (v : ℕ) → length (encode_fixed32 v) ≡ 4
unfolding encode_fixed32
four v = refl

-- The two halves of the magic number behind the forty bytes of the handles.
module _ (body rest : List ℕ) (size : length body ≡ 40) where
  abbrev lo : ℕ
  lo = table_magic_number % 2 ^ 32

  abbrev hi : ℕ
  hi = table_magic_number / 2 ^ 32

  abbrev whole : List ℕ
  whole = body ++ (encode_fixed32 lo ++ (encode_fixed32 hi ++ rest))

  low_word : decode_fixed32 (drop 40 whole) ≡ lo
  low_word =
      rw
        (drop-far body (encode_fixed32 lo ++ (encode_fixed32 hi ++ rest)) 40 0
          (omega (arith, size)))
        (decode_fixed32-encode_fixed32 lo (encode_fixed32 hi ++ rest) (omega arith))

  past_low : drop 44 whole ≡ encode_fixed32 hi ++ rest
  past_low =
      drop-far body (encode_fixed32 lo ++ (encode_fixed32 hi ++ rest)) 44 4 (omega (arith, size))
      ∙ drop-far (encode_fixed32 lo) (encode_fixed32 hi ++ rest) 4 0 (omega (arith, four lo))

  high_word : decode_fixed32 (drop 44 whole) ≡ hi
  high_word = rw past_low (decode_fixed32-encode_fixed32 hi rest (omega arith))

  past_end : drop 48 whole ≡ rest
  past_end =
      drop-far body (encode_fixed32 lo ++ (encode_fixed32 hi ++ rest)) 48 8 (omega (arith, size))
      ∙ drop-far (encode_fixed32 lo) (encode_fixed32 hi ++ rest) 8 4 (omega (arith, four lo))
      ∙ drop-far (encode_fixed32 hi) rest 4 0 (omega (arith, four hi))

-- For handles of 64-bit numbers: DecodeFrom reads the footer that EncodeTo wrote, and leaves what is
-- behind it.
pub footer_decode-encode :
    (f : Footer) (rest : List ℕ)
    → IsU64 f.metaindex_handle.0
    → IsU64 f.metaindex_handle.1
    → IsU64 f.index_handle.0
    → IsU64 f.index_handle.1
    → footer_decode (footer_encode f ++ rest) ≡ decoded f rest
unfolding footer_decode footer_encode put_fixed32 resized
footer_decode-encode f rest h0 h1 h2 h3 =
    let m = handle_encode_to f.metaindex_handle [] in
    let x = handle_encode_to f.index_handle [] in
    let handles : handle_encode_to f.index_handle m ≡ m ++ x =
      handle_encode-append f.index_handle m in
    let sizes = length-append m x in
    let sm = length-handle_encode f.metaindex_handle.0 f.metaindex_handle.1 h0 h1 in
    let sx = length-handle_encode f.index_handle.0 f.index_handle.1 h2 h3 in
    let zeros = replicate (40 - length (m ++ x)) 0 in
    let body = (m ++ x) ++ zeros in
    let size : length body ≡ 40 = omega (
      arith,
      length-append (m ++ x) zeros,
      length-replicate {A = ℕ} (40 - length (m ++ x)) 0,
      sizes,
      sm,
      sx,
    ) in
    let short : take 40 (m ++ x) ≡ m ++ x = take-short 40 (m ++ x) (omega (arith, sizes, sm, sx)) in
    let magic = encode_fixed32 (hi body rest size) ++ rest in
    let split : ((body ++ encode_fixed32 (lo body rest size)) ++ encode_fixed32 (hi body rest size))
          ++ rest
        ≡ whole body rest size =
      append_assoc (body ++ encode_fixed32 (lo body rest size)) (encode_fixed32 (hi body rest size))
        rest
      ∙ append_assoc body (encode_fixed32 (lo body rest size)) magic in
    let start : whole body rest size
        ≡ m ++ (x ++ (zeros ++ (encode_fixed32 (lo body rest size) ++ magic))) =
      append_assoc (m ++ x) zeros (encode_fixed32 (lo body rest size) ++ magic)
      ∙ append_assoc m x (zeros ++ (encode_fixed32 (lo body rest size) ++ magic)) in
    let first : handle_decode_from (whole body rest size)
        ≡ some (f.metaindex_handle, x ++ (zeros ++ (encode_fixed32 (lo body rest size) ++ magic))) =
      ap handle_decode_from start
      ∙ handle_decode-encode f.metaindex_handle.0 f.metaindex_handle.1 _ h0 h1 in
    let second =
      handle_decode-encode f.index_handle.0 f.index_handle.1
        (zeros ++ (encode_fixed32 (lo body rest size) ++ magic)) h2 h3 in
    let bytes : footer_encode f ++ rest ≡ whole body rest size = rw (handles, short) split in
    rw (bytes, low_word body rest size, high_word body rest size, first, second)
      (ap (decoded f) (ap (drop 48) bytes ∙ past_end body rest size))
