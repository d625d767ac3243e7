-- ===== src/Coding/Shorter.antt =====
-- util/coding.cc: what a reader leaves of its input is shorter than the input.
use ebf_leveldb_sep_kv.Base.{
  ℕ, zero, suc, ◌+◌, ◌*◌, ◌%◌, ◌^◌, ◌≤◌, ◌<◌, bit_and, bit_or, List, [], ◌∷◌, Option, none, some,
  leb, ◌==◌, if◌then◌else◌, length, take, drop, arith, ◌≡◌, sym, ap, inl, inr, Bool-cases,
  Option-cases, eq_of_some,
}
use ebf_leveldb_sep_kv.Coding.{
  get_varint_loop, get_varint32, get_varint32_ptr, get_varint32_ptr_fallback, get_varint64,
  get_varint64_ptr, get_length_prefixed_slice,
}

rest_of :
    {A : Type 0} {a b : A} {p q : List ℕ}
    → ◌≡◌ {A = Option (A × List ℕ)} (some (a, p)) (some (b, q))
    → p ≡ q
rest_of {A} e = ap (λ (t : A × List ℕ). t.1) (eq_of_some e)

get_varint_loop-shorter :
    (last width : ℕ) (p : List ℕ) (shift result v : ℕ) (rest : List ℕ)
    → get_varint_loop last width p shift result ≡ some (v, rest)
    → length rest < length p
unfolding get_varint_loop
get_varint_loop-shorter last width [] shift result v rest e = ground arith
get_varint_loop-shorter last width (byte ∷ p) shift result v rest e =
    let deeper =
      get_varint_loop-shorter last width p (shift + 7)
        (bit_or result (bit_and byte 127 * 2 ^ shift % 2 ^ width)) v rest in
    elim (Bool-cases (leb shift last)) [
      | inr past ↦ absurd (ground (arith, rw past at e))
      | inl at_most ↦ elim (Bool-cases (bit_and byte 128 == 0)) [
        | inl done ↦
            let same : rest ≡ p = sym (rest_of (rw (at_most, done) at e)) in rw same (omega arith)
        | inr more ↦ omega (arith, deeper (rw (at_most, more) at e))
      ]
    ]

pub get_varint32-shorter :
    (input : List ℕ) (v : ℕ) (rest : List ℕ)
    → get_varint32 input ≡ some (v, rest)
    → length rest < length input
unfolding get_varint32 get_varint32_ptr get_varint32_ptr_fallback get_varint_loop
get_varint32-shorter [] v rest e = ground arith
get_varint32-shorter (b ∷ p) v rest e = elim (Bool-cases (bit_and b 128 == 0)) [
  | inl done ↦ let same : rest ≡ p = sym (rest_of (rw done at e)) in rw same (omega arith)
  | inr more ↦ get_varint_loop-shorter 28 32 (b ∷ p) 0 0 v rest (rw more (rw more at e))
]

length-drop : (n : ℕ) (xs : List ℕ) → length (drop n xs) ≤ length xs
length-drop zero xs = omega arith
length-drop (suc n) [] = omega arith
length-drop (suc n) (x ∷ xs) = omega (arith, length-drop n xs)

pub slice-shorter :
    (input s rest : List ℕ)
    → get_length_prefixed_slice input ≡ some (s, rest)
    → length rest ≤ length input
unfolding get_length_prefixed_slice
slice-shorter input s rest e = elim (Option-cases (get_varint32 input)) [
  | inl nothing ↦ absurd (ground (arith, rw nothing at e))
  | inr (found, read) ↦
      let (len, behind) = found in
      let cut : (if leb len (length behind) then some (take len behind, drop len behind) else none)
          ≡ some (s, rest) =
        rw read at e in
      elim (Bool-cases (leb len (length behind))) [
        | inr short ↦ absurd (ground (arith, rw short at cut))
        | inl enough ↦
            let same : drop len behind ≡ rest = rest_of (rw enough at cut) in
            rw (sym same)
              (omega (arith, length-drop len behind, get_varint32-shorter input len behind read))
      ]
]

pub get_varint64-shorter :
    (input : List ℕ) (v : ℕ) (rest : List ℕ)
    → get_varint64 input ≡ some (v, rest)
    → length rest < length input
unfolding get_varint64 get_varint64_ptr
get_varint64-shorter input v rest e = get_varint_loop-shorter 63 64 input 0 0 v rest e
