-- ===== src/DbFormat/Transitive.antt =====
-- db/dbformat.cc over util/comparator.cc: the bytewise order of internal keys is transitive.
use ebf_leveldb_sep_kv.Base.{ℕ, List, [], ◌∷◌, ◌≡◌, refl, sym, ap, ◌∙◌, arith, ◌⊎◌, inl, inr}
use Prim.Native.Nat.{Ordering}
use ebf_leveldb_sep_kv.Comparator.{slice_compare, bytewise_comparator}
use ebf_leveldb_sep_kv.DbFormat.{compare_internal, extract_user_key, packed_number}
use ebf_leveldb_sep_kv.DbFormat.Order.{then_by, number_order, as_then_by}
use mathlib.Core.Path.{subst}

pub slice_compare_trans :
    (a b c : List ℕ)
    → slice_compare a b ≡ Ordering.lt
    → slice_compare b c ≡ Ordering.lt
    → slice_compare a c ≡ Ordering.lt
unfolding slice_compare
slice_compare_trans [] [] c h k = ground arith
slice_compare_trans [] (y ∷ ys) [] h k = ground arith
slice_compare_trans [] (y ∷ ys) (z ∷ zs) h k = refl
slice_compare_trans (x ∷ xs) [] c h k = ground arith
slice_compare_trans (x ∷ xs) (y ∷ ys) [] h k = ground arith
slice_compare_trans (x ∷ xs) (y ∷ ys) (z ∷ zs) h k = ground (arith, slice_compare_trans xs ys zs)

pub eq_of-slice_compare : (a b : List ℕ) → slice_compare a b ≡ Ordering.eq → a ≡ b
unfolding slice_compare
eq_of-slice_compare [] [] h = refl
eq_of-slice_compare [] (y ∷ ys) h = ground arith
eq_of-slice_compare (x ∷ xs) [] h = ground arith
eq_of-slice_compare (x ∷ xs) (y ∷ ys) h =
    let (first, rest) = parts h in let e = eq_of-slice_compare xs ys rest in λ i. first i ∷ e i
  where
    parts :
        slice_compare (x ∷ xs) (y ∷ ys) ≡ Ordering.eq
        → (x ≡ y) × (slice_compare xs ys ≡ Ordering.eq)
    parts h = ground arith

lt_parts :
    (r o : Ordering)
    → then_by r o ≡ Ordering.lt
    → (r ≡ Ordering.lt) ⊎ ((r ≡ Ordering.eq) × (o ≡ Ordering.lt))
lt_parts Ordering.lt o h = inl refl
lt_parts Ordering.eq o h = inr (refl, h)
lt_parts Ordering.gt o h = ground arith

number_order_trans :
    (u v w : ℕ)
    → number_order u v ≡ Ordering.lt
    → number_order v w ≡ Ordering.lt
    → number_order u w ≡ Ordering.lt
number_order_trans u v w h k = ground arith

internal_parts :
    (x y : List ℕ)
    → compare_internal bytewise_comparator x y
      ≡ then_by
          (slice_compare (extract_user_key x) (extract_user_key y))
          (number_order (packed_number x) (packed_number y))
unfolding compare_internal bytewise_comparator
internal_parts x y =
    as_then_by (slice_compare (extract_user_key x) (extract_user_key y))
      (number_order (packed_number x) (packed_number y))

-- The order of internal keys under the bytewise comparator is transitive.
pub compare_internal_trans :
    (x y z : List ℕ)
    → compare_internal bytewise_comparator x y ≡ Ordering.lt
    → compare_internal bytewise_comparator y z ≡ Ordering.lt
    → compare_internal bytewise_comparator x z ≡ Ordering.lt
compare_internal_trans x y z h k =
    let ux = extract_user_key x in
    let uy = extract_user_key y in
    let uz = extract_user_key z in
    let last = number_order (packed_number x) (packed_number z) in
    internal_parts x z ∙ (elim (lt_parts _ _ (sym (internal_parts x y) ∙ h)) [
      | inl less ↦ elim (lt_parts _ _ (sym (internal_parts y z) ∙ k)) [
        | inl less' ↦
            ap (λ (r : Ordering). then_by r last) (slice_compare_trans ux uy uz less less')
        | inr (equal, o) ↦
            ap (λ (r : Ordering). then_by r last)
              (subst (λ (u : List ℕ). slice_compare ux u ≡ Ordering.lt)
                (eq_of-slice_compare uy uz equal) less)
      ]
      | inr (equal, o) ↦
          let same : slice_compare ux uz ≡ slice_compare uy uz =
            ap (λ (u : List ℕ). slice_compare u uz) (eq_of-slice_compare ux uy equal) in
          elim (lt_parts _ _ (sym (internal_parts y z) ∙ k)) [
            | inl less ↦ ap (λ (r : Ordering). then_by r last) (same ∙ less)
            | inr (equal', o') ↦
                ap (λ (r : Ordering). then_by r last) (same ∙ equal')
                ∙ number_order_trans (packed_number x) (packed_number y) (packed_number z) o o'
          ]
    ])
