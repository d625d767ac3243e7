-- ===== src/Comparator.antt =====
-- util/comparator.cc: the interface Comparator and the bytewise order. A comparison's int is its
-- sign, as an Ordering.
pub mod Laws
use ebf_leveldb_sep_kv.Base.{
  ℕ, zero, suc, ◌+◌, List, [], ◌∷◌, Bool, true, false, ltb, ◌==◌, ◌&&◌, if◌then◌else◌,
}
use Prim.Native.Nat.{compare, Ordering}

-- Compare and the three methods that shorten a key.
pub record Comparator : Type 0 where
  pub compare_keys : List ℕ → List ℕ → Ordering
  pub find_shortest_separator : List ℕ → List ℕ → List ℕ
  pub find_short_successor : List ℕ → List ℕ
  pub find_short_successor_begin_with : List ℕ → ℕ → List ℕ

-- Slice::compare: memcmp on the common length, then the shorter one first.
unfoldable pub slice_compare : List ℕ → List ℕ → Ordering
slice_compare [] [] = Ordering.eq
slice_compare [] (y ∷ ys) = Ordering.lt
slice_compare (x ∷ xs) [] = Ordering.gt
slice_compare (x ∷ xs) (y ∷ ys) = elim (compare x y) [
  | Ordering.lt ↦ Ordering.lt
  | Ordering.eq ↦ slice_compare xs ys
  | Ordering.gt ↦ Ordering.gt
]

-- FindShortestSeparator, which keeps the common prefix and then looks at one byte of each.
unfoldable pub shortest_separator : List ℕ → List ℕ → List ℕ
shortest_separator [] limit = []
shortest_separator (x ∷ xs) [] = x ∷ xs
shortest_separator (x ∷ xs) (y ∷ ys) =
    let rest = shortest_separator xs ys in
    if x == y then x ∷ rest else if ltb x 255 && ltb (x + 1) y then (x + 1) ∷ [] else x ∷ xs

-- FindShortSuccessorBeginWith: the first byte from `pos` on that can be incremented is the last.
unfoldable pub short_successor_begin_with : List ℕ → ℕ → List ℕ
short_successor_begin_with [] pos = []
short_successor_begin_with (b ∷ bs) (suc pos) = b ∷ short_successor_begin_with bs pos
short_successor_begin_with (b ∷ bs) zero =
    let rest = short_successor_begin_with bs zero in if b == 255 then b ∷ rest else (b + 1) ∷ []

unfoldable pub short_successor : List ℕ → List ℕ
short_successor key = short_successor_begin_with key zero

-- BytewiseComparatorImpl.
unfoldable pub bytewise_comparator : Comparator
bytewise_comparator = record {
  compare_keys = slice_compare;
  find_shortest_separator = shortest_separator;
  find_short_successor = short_successor;
  find_short_successor_begin_with = short_successor_begin_with;
}
