-- ===== src/Comparator/Laws.antt =====
-- util/comparator.cc: what a comparator promises its clients, and that the bytewise one keeps it.
use ebf_leveldb_sep_kv.Base.{ℕ, zero, suc, ◌≤◌, List, [], ◌∷◌, length, ◌≡◌, refl, ◌≢◌, arith}
use Prim.Native.Nat.{Ordering}
use ebf_leveldb_sep_kv.Comparator.{
  Comparator, slice_compare, shortest_separator, short_successor, short_successor_begin_with,
  bytewise_comparator,
}

-- What the documentation of include/leveldb/comparator.h asks for: the keys that compare as equal
-- are the equal ones, a separator lies from the start on and before the limit, and a successor, of
-- the key or of its part from a position on, is not before its key.
pub record IsComparator (c : Comparator) : Type 0 where
  pub same : (a : List ℕ) → c.compare_keys a a ≡ Ordering.eq
  pub identical : (a b : List ℕ) → c.compare_keys a b ≡ Ordering.eq → a ≡ b
  pub at_start : (a b : List ℕ) → c.compare_keys a (c.find_shortest_separator a b) ≢ Ordering.gt
  pub before_limit :
      (a b : List ℕ)
      → c.compare_keys a b ≡ Ordering.lt
      → c.compare_keys (c.find_shortest_separator a b) b ≡ Ordering.lt
  pub of_equal :
      (a b : List ℕ)
      → c.compare_keys a b ≡ Ordering.eq
      → c.compare_keys a (c.find_shortest_separator a b) ≡ Ordering.eq
  pub short_successor : (a : List ℕ) → c.compare_keys a (c.find_short_successor a) ≢ Ordering.gt
  pub successor_begin_with :
      (a : List ℕ) (pos : ℕ)
      → c.compare_keys a (c.find_short_successor_begin_with a pos) ≢ Ordering.gt

pub slice_compare_self : (a : List ℕ) → slice_compare a a ≡ Ordering.eq
unfolding slice_compare
slice_compare_self [] = refl
slice_compare_self (x ∷ xs) = ground (arith, slice_compare_self xs)

separator_at_start : (a b : List ℕ) → slice_compare a (shortest_separator a b) ≢ Ordering.gt
unfolding slice_compare shortest_separator
separator_at_start [] b = ground arith
separator_at_start (x ∷ xs) [] = ground (arith, slice_compare_self xs)
separator_at_start (x ∷ xs) (y ∷ ys) =
    ground (arith, slice_compare_self xs, separator_at_start xs ys)

separator_before_limit :
    (a b : List ℕ)
    → slice_compare a b ≡ Ordering.lt
    → slice_compare (shortest_separator a b) b ≡ Ordering.lt
unfolding slice_compare shortest_separator
separator_before_limit [] b h = h
separator_before_limit (x ∷ xs) [] h = ground arith
separator_before_limit (x ∷ xs) (y ∷ ys) h = ground (arith, separator_before_limit xs ys)

separator_of_equal :
    (a b : List ℕ)
    → slice_compare a b ≡ Ordering.eq
    → slice_compare a (shortest_separator a b) ≡ Ordering.eq
unfolding slice_compare shortest_separator
separator_of_equal [] b h = refl
separator_of_equal (x ∷ xs) [] h = ground (arith, slice_compare_self xs)
separator_of_equal (x ∷ xs) (y ∷ ys) h = ground (arith, separator_of_equal xs ys)

successor_after :
    (a : List ℕ) (pos : ℕ) → slice_compare a (short_successor_begin_with a pos) ≢ Ordering.gt
unfolding slice_compare short_successor_begin_with
successor_after [] pos = ground arith
successor_after (b ∷ bs) (suc pos) = ground (arith, successor_after bs pos)
successor_after (b ∷ bs) zero = ground (arith, successor_after bs zero)

identical_keys : (a b : List ℕ) → slice_compare a b ≡ Ordering.eq → a ≡ b
unfolding slice_compare
identical_keys [] [] h = refl
identical_keys [] (y ∷ ys) h = absurd (ground arith)
identical_keys (x ∷ xs) [] h = absurd (ground arith)
identical_keys (x ∷ xs) (y ∷ ys) h = ground (arith, identical_keys xs ys)

pub bytewise_comparator-IsComparator : IsComparator bytewise_comparator
unfolding bytewise_comparator short_successor
bytewise_comparator-IsComparator = record {
  same = slice_compare_self;
  identical = identical_keys;
  at_start = separator_at_start;
  before_limit = separator_before_limit;
  of_equal = separator_of_equal;
  short_successor = λ a. successor_after a zero;
  successor_begin_with = successor_after;
}

-- A separator and a successor are never longer than their key.
pub length-shortest_separator : (a b : List ℕ) → length (shortest_separator a b) ≤ length a
unfolding shortest_separator
length-shortest_separator [] b = omega arith
length-shortest_separator (x ∷ xs) [] = omega arith
length-shortest_separator (x ∷ xs) (y ∷ ys) = ground (arith, length-shortest_separator xs ys)
