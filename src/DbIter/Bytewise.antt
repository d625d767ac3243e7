-- ===== src/DbIter/Bytewise.antt =====
-- util/comparator.cc: the bytewise order is total, as db/db_iter.cc needs it of an order.
use ebf_leveldb_sep_kv.Base.{List, true, false, ◌≡◌, refl, ap, sym, ◌∙◌, ◌⊎◌, arith, inl, inr, ℕ}
use Prim.Native.Nat.{Ordering}
use ebf_leveldb_sep_kv.Comparator.{bytewise_comparator, slice_compare}
use ebf_leveldb_sep_kv.Comparator.Laws.{slice_compare_self}
use ebf_leveldb_sep_kv.DbFormat.{is_lt}
use ebf_leveldb_sep_kv.DbFormat.Order.{lt_of-is_lt}
use ebf_leveldb_sep_kv.DbFormat.Transitive.{slice_compare_trans, eq_of-slice_compare}
use ebf_leveldb_sep_kv.VersionSet.{is_gt}
use ebf_leveldb_sep_kv.VersionSet.Overlap.{flipped}
use ebf_leveldb_sep_kv.DbIter.Visible.{IsTotal, is_eq}

eq_of-is_eq : (o : Ordering) → is_eq o ≡ true → o ≡ Ordering.eq
eq_of-is_eq Ordering.lt h = ground arith
eq_of-is_eq Ordering.eq h = refl
eq_of-is_eq Ordering.gt h = ground arith

not_lt : (o : Ordering) → is_lt o ≡ false → (o ≡ Ordering.eq) ⊎ (is_gt o ≡ true)
not_lt Ordering.lt h = absurd (cc)
not_lt Ordering.eq h = inl refl
not_lt Ordering.gt h = inr refl

after_both :
    (a b x : List ℕ)
    → is_gt (slice_compare a b) ≡ true
    → is_lt (slice_compare b x) ≡ false
    → is_gt (slice_compare a x) ≡ true
after_both a b x h g = elim (not_lt (slice_compare b x) g) [
  | inl same ↦ ap (λ t. is_gt (slice_compare a t)) (sym (eq_of-slice_compare b x same)) ∙ h
  | inr behind ↦
      let xb = lt_of-is_lt (slice_compare x b) (sym (flipped b x) ∙ behind) in
      let ba = lt_of-is_lt (slice_compare b a) (sym (flipped a b) ∙ h) in
      flipped a x ∙ ap is_lt (slice_compare_trans x b a xb ba)
]

pub bytewise_comparator-IsTotal : IsTotal bytewise_comparator
unfolding bytewise_comparator
bytewise_comparator-IsTotal = record {
  same = slice_compare_self;
  alike = λ a b x h.
      ap (λ t. slice_compare t x) (eq_of-slice_compare a b (eq_of-is_eq (slice_compare a b) h));
  after = after_both;
  flip = flipped;
}
