-- ===== src/Coding.antt =====
-- util/coding.cc and util/coding.h: little-endian fixed-width integers, varints and
-- length-prefixed slices. A slice or a string is the list of its bytes, and a pointer with its
-- limit is the list of the bytes between them; `none` is the source's NULL or `false`.
-- The fixed-width functions follow the portable branch, which writes each byte out; on a
-- little-endian machine the source copies the same four or eight bytes by memcpy.
pub mod RoundTrip
pub mod Shorter
mod Varint
use ebf_leveldb_sep_kv.Base.{
  ℕ, zero, suc, ◌+◌, ◌-◌, ◌*◌, ◌/◌, ◌%◌, ◌^◌, ◌≤◌, ◌<◌, bit_and, bit_or, List, [], ◌∷◌, ◌++◌,
  Option, none, some, ltb, leb, ◌==◌, if◌then◌else◌, length, get_or, take, drop, lt_wf, dec_le,
  arith,
}
use mathlib.Core.Logic.{dite}
use mathlib.Core.WellFounded.{Acc}

abbrev pub IsU32 : ℕ → Type 0
IsU32 v = v < 2 ^ 32

abbrev pub IsU64 : ℕ → Type 0
IsU64 v = v < 2 ^ 64

-- Option's bind, for `&&` chains of reads.
infixl 5 ◌>>=◌
abbrev pub ◌>>=◌ {ℓ κ} : {A : Type ℓ} {B : Type κ} → Option A → (A → Option B) → Option B
none >>= f = none
some a >>= f = f a

unfoldable pub encode_fixed32 : ℕ → List ℕ
encode_fixed32 value =
    bit_and value 255
    ∷ bit_and (value / 2 ^ 8) 255
    ∷ bit_and (value / 2 ^ 16) 255
    ∷ bit_and (value / 2 ^ 24) 255
    ∷ []

unfoldable pub encode_fixed64 : ℕ → List ℕ
encode_fixed64 value =
    bit_and value 255
    ∷ bit_and (value / 2 ^ 8) 255
    ∷ bit_and (value / 2 ^ 16) 255
    ∷ bit_and (value / 2 ^ 24) 255
    ∷ bit_and (value / 2 ^ 32) 255
    ∷ bit_and (value / 2 ^ 40) 255
    ∷ bit_and (value / 2 ^ 48) 255
    ∷ bit_and (value / 2 ^ 56) 255
    ∷ []

unfoldable pub put_fixed32 : List ℕ → ℕ → List ℕ
put_fixed32 dst value = dst ++ encode_fixed32 value

unfoldable pub put_fixed64 : List ℕ → ℕ → List ℕ
put_fixed64 dst value = dst ++ encode_fixed64 value

-- The bytes at `ptr`; what lies past the end of the list reads as 0.
unfoldable pub decode_fixed32 : List ℕ → ℕ
decode_fixed32 ptr =
    bit_or (bit_or (bit_or (get_or ptr 0 0) (get_or ptr 1 0 * 2 ^ 8)) (get_or ptr 2 0 * 2 ^ 16))
      (get_or ptr 3 0 * 2 ^ 24)

unfoldable pub decode_fixed64 : List ℕ → ℕ
unfolding decode_fixed32
decode_fixed64 ptr =
    let lo = decode_fixed32 ptr in
    let hi = decode_fixed32 (drop 4 ptr) in bit_or (hi * 2 ^ 32 % 2 ^ 64) lo

-- `*(ptr++) = v | B` keeps the low byte.
abbrev more_byte : ℕ → ℕ
more_byte v = bit_or v 128 % 256

unfoldable pub encode_varint32 : ℕ → List ℕ
encode_varint32 v =
    if ltb v (2 ^ 7)
    then v % 256 ∷ []
    else if ltb v (2 ^ 14)
    then more_byte v ∷ v / 2 ^ 7 % 256 ∷ []
    else if ltb v (2 ^ 21)
    then more_byte v ∷ more_byte (v / 2 ^ 7) ∷ v / 2 ^ 14 % 256 ∷ []
    else if ltb v (2 ^ 28)
    then more_byte v ∷ more_byte (v / 2 ^ 7) ∷ more_byte (v / 2 ^ 14) ∷ v / 2 ^ 21 % 256 ∷ []
    else more_byte v
      ∷ more_byte (v / 2 ^ 7)
      ∷ more_byte (v / 2 ^ 14)
      ∷ more_byte (v / 2 ^ 21)
      ∷ v / 2 ^ 28 % 256
      ∷ []

unfoldable pub put_varint32 : List ℕ → ℕ → List ℕ
put_varint32 dst v = dst ++ encode_varint32 v

-- `while (v >= B)`, by recursion on the falling `v`.
pub shift_falls : (v : ℕ) → 128 ≤ v → v / 2 ^ 7 < v
shift_falls v h = omega arith

unfoldable pub encode_varint64_loop : (v : ℕ) → Acc ◌<◌ v → List ℕ
encode_varint64_loop v (Acc.intro _ smaller) =
    dite (dec_le 128 v)
      (λ h.
        more_byte (bit_and v 127) ∷ encode_varint64_loop (v / 2 ^ 7) (smaller _ (shift_falls v h)))
      (λ _. v % 256 ∷ [])

unfoldable pub encode_varint64 : ℕ → List ℕ
unfolding encode_varint64_loop lt_wf dec_le
encode_varint64 v = encode_varint64_loop v (lt_wf.apply v)

unfoldable pub put_varint64 : List ℕ → ℕ → List ℕ
put_varint64 dst v = dst ++ encode_varint64 v

unfoldable pub put_length_prefixed_slice : List ℕ → List ℕ → List ℕ
put_length_prefixed_slice dst value = put_varint32 dst (length value % 2 ^ 32) ++ value

unfoldable pub varint_length_loop : (v : ℕ) → Acc ◌<◌ v → ℕ → ℕ
varint_length_loop v (Acc.intro _ smaller) len =
    dite (dec_le 128 v)
      (λ h. varint_length_loop (v / 2 ^ 7) (smaller _ (shift_falls v h)) (len + 1)) (λ _. len)

unfoldable pub varint_length : ℕ → ℕ
unfolding varint_length_loop lt_wf dec_le
varint_length v = varint_length_loop v (lt_wf.apply v) 1

-- The loop of GetVarint32PtrFallback (`last` 28, a result of 32 bits) and of GetVarint64Ptr
-- (63 and 64 bits): it ends when `shift` passes `last` or the input ends.
unfoldable pub get_varint_loop : ℕ → ℕ → List ℕ → ℕ → ℕ → Option (ℕ × List ℕ)
get_varint_loop last width [] shift result = none
get_varint_loop last width (byte ∷ p) shift result =
    let group = bit_and byte 127 * 2 ^ shift % 2 ^ width in
    let more = get_varint_loop last width p (shift + 7) (bit_or result group) in
    if leb shift last
    then if bit_and byte 128 == 0
      then some (bit_or result (byte * 2 ^ shift % 2 ^ width), p)
      else more
    else none

unfoldable pub get_varint32_ptr_fallback : List ℕ → Option (ℕ × List ℕ)
unfolding get_varint_loop
get_varint32_ptr_fallback p = get_varint_loop 28 32 p 0 0

-- The inlined fast path for one byte.
unfoldable pub get_varint32_ptr : List ℕ → Option (ℕ × List ℕ)
get_varint32_ptr [] = get_varint32_ptr_fallback []
get_varint32_ptr (b ∷ p) =
    if bit_and b 128 == 0 then some (b, p) else get_varint32_ptr_fallback (b ∷ p)

-- The input slice becomes the rest.
unfoldable pub get_varint32 : List ℕ → Option (ℕ × List ℕ)
get_varint32 input = get_varint32_ptr input

unfoldable pub get_varint64_ptr : List ℕ → Option (ℕ × List ℕ)
unfolding get_varint_loop
get_varint64_ptr p = get_varint_loop 63 64 p 0 0

unfoldable pub get_varint64 : List ℕ → Option (ℕ × List ℕ)
get_varint64 input = get_varint64_ptr input

-- The slice that was read, and the rest of the input.
unfoldable pub get_length_prefixed_slice : List ℕ → Option (List ℕ × List ℕ)
get_length_prefixed_slice input = do
  (len, rest) ← get_varint32 input
  if leb len (length rest) then some (take len rest, drop len rest) else none
