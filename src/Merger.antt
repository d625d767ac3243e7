-- ===== src/Merger.antt =====
-- table/merger.cc: the iterator over the entries of several iterators in the order of their keys.
-- A child is a cursor, and current_ its number; an IteratorWrapper keeps what its child answers.
pub mod Smallest
pub mod Merged
use ebf_leveldb_sep_kv.Base.{
  ℕ, zero, suc, ◌-◌, List, [], ◌∷◌, Option, none, some, Bool, true, false, ◌==◌, ◌&&◌,
  if◌then◌else◌, length, get_elem?, map,
}
use mathlib.Core.Option as Option
use Prim.Native.Nat.{Ordering}
use ebf_leveldb_sep_kv.Comparator.{Comparator}
use ebf_leveldb_sep_kv.DbFormat.{is_lt}
use ebf_leveldb_sep_kv.VersionSet.{is_gt}
use ebf_leveldb_sep_kv.Iterator.{
  Entry, Cursor, at, off, all_of, cursor_valid, cursor_key, cursor_value, cursor_first, cursor_next,
  cursor_prev, cursor_last, cursor_seek,
}

pub data MergeDirection : Type 0 where
  forward reverse : MergeDirection

pub record MergingIterator : Type 0 where
  pub children : List Cursor
  pub current : Option ℕ
  pub direction : MergeDirection

unfoldable pub new_merging_iterator : List Cursor → MergingIterator
new_merging_iterator children = record { children = children; current = none; direction = forward }

-- A candidate: the number of a child and its key.
abbrev pub Candidate : Type 0
Candidate = Option (ℕ × List ℕ)

unfoldable pub smaller : Comparator → ℕ → Cursor → Candidate → Candidate
smaller c i (off es) best = best
smaller c i (at front (k, v) back) none = some (i, k)
smaller c i (at front (k, v) back) (some (j, key)) =
    if is_lt (c.compare_keys k key) then some (i, k) else some (j, key)

-- The loop of FindSmallest, from child `i` on.
unfoldable pub smallest_from : Comparator → ℕ → Candidate → List Cursor → Candidate
unfolding smaller
smallest_from c i best [] = best
smallest_from c i best (child ∷ children) =
    smallest_from c (suc i) (smaller c i child best) children

unfoldable pub number_of : Candidate → Option ℕ
number_of none = none
number_of (some (i, k)) = some i

unfoldable pub find_smallest : Comparator → MergingIterator → MergingIterator
unfolding smallest_from number_of
find_smallest c m = record m { current = number_of (smallest_from c 0 none m.children) }

unfoldable pub larger : Comparator → ℕ → Cursor → Candidate → Candidate
larger c i (off es) best = best
larger c i (at front (k, v) back) none = some (i, k)
larger c i (at front (k, v) back) (some (j, key)) =
    if is_gt (c.compare_keys k key) then some (i, k) else some (j, key)

-- The loop of FindLargest, which goes from the last child to the first.
unfoldable pub largest_from : Comparator → ℕ → List Cursor → Candidate
unfolding larger
largest_from c i [] = none
largest_from c i (child ∷ children) = larger c i child (largest_from c (suc i) children)

unfoldable pub find_largest : Comparator → MergingIterator → MergingIterator
unfolding largest_from number_of
find_largest c m = record m { current = number_of (largest_from c 0 m.children) }

unfoldable pub valid : MergingIterator → Bool
valid m = elim m.current [ none ↦ false | some i ↦ true ]

-- The child that current_ points to.
unfoldable pub child_at : List Cursor → ℕ → Cursor
child_at [] i = off []
child_at (child ∷ children) zero = child
child_at (child ∷ children) (suc i) = child_at children i

unfoldable pub current_child : MergingIterator → Cursor
unfolding child_at
current_child m = elim m.current [ none ↦ off [] | some i ↦ child_at m.children i ]

unfoldable pub merged_key : MergingIterator → List ℕ
unfolding current_child cursor_key
merged_key m = cursor_key (current_child m)

unfoldable pub merged_value : MergingIterator → List ℕ
unfolding current_child cursor_value
merged_value m = cursor_value (current_child m)

unfoldable pub seek_to_first : Comparator → MergingIterator → MergingIterator
unfolding find_smallest all_of cursor_first
seek_to_first c m =
    record (find_smallest c
      (record m { children = map (λ child. cursor_first (all_of child)) m.children })) {
        direction = forward;
      }

unfoldable pub seek_to_last : Comparator → MergingIterator → MergingIterator
unfolding find_largest all_of cursor_last
seek_to_last c m =
    record (find_largest c
      (record m { children = map (λ child. cursor_last (all_of child)) m.children })) {
        direction = reverse;
      }

unfoldable pub seek : Comparator → List ℕ → MergingIterator → MergingIterator
unfolding find_smallest all_of cursor_seek
seek c target m =
    record (find_smallest c (record m {
      children = map (λ child. cursor_seek c.compare_keys target [] (all_of child)) m.children;
    })) { direction = forward }

-- A change at the child of a number, and at all others.
unfoldable pub change_at : (Cursor → Cursor) → ℕ → List Cursor → List Cursor
change_at f i [] = []
change_at f zero (child ∷ children) = f child ∷ children
change_at f (suc i) (child ∷ children) = child ∷ change_at f i children

unfoldable pub change_others : (Cursor → Cursor) → ℕ → List Cursor → List Cursor
change_others f i [] = []
change_others f zero (child ∷ children) = child ∷ map f children
change_others f (suc i) (child ∷ children) = f child ∷ change_others f i children

-- Next's change of direction for a child: behind the current key.
unfoldable pub past_equal : Comparator → List ℕ → Cursor → Cursor
unfolding cursor_next
past_equal c key (off es) = off es
past_equal c key (at front (k, v) back) = elim (c.compare_keys key k) [
  | Ordering.lt ↦ at front (k, v) back
  | Ordering.eq ↦ cursor_next (at front (k, v) back)
  | Ordering.gt ↦ at front (k, v) back
]

unfoldable pub behind_key : Comparator → List ℕ → Cursor → Cursor
unfolding past_equal all_of cursor_seek
behind_key c key child = past_equal c key (cursor_seek c.compare_keys key [] (all_of child))

-- Prev's change of direction for a child: in front of the current key.
unfoldable pub step_back : Cursor → Cursor
unfolding cursor_prev cursor_last
step_back (off es) = cursor_last es
step_back (at front e back) = cursor_prev (at front e back)

unfoldable pub before_key : Comparator → List ℕ → Cursor → Cursor
unfolding step_back all_of cursor_seek
before_key c key child = step_back (cursor_seek c.compare_keys key [] (all_of child))

-- The children after a change of direction, if there is one.
unfoldable pub turned_forward : MergeDirection → Comparator → List ℕ → ℕ → List Cursor → List Cursor
unfolding change_others behind_key
turned_forward forward c key i children = children
turned_forward reverse c key i children = change_others (behind_key c key) i children

unfoldable pub turned_back : MergeDirection → Comparator → List ℕ → ℕ → List Cursor → List Cursor
unfolding change_others before_key
turned_back forward c key i children = change_others (before_key c key) i children
turned_back reverse c key i children = children

-- Next, of a valid iterator whose current_ is child `i`.
unfoldable pub next_of : Option ℕ → Comparator → MergingIterator → MergingIterator
unfolding find_smallest merged_key turned_forward change_at cursor_next
next_of none c m = m
next_of (some i) c m = find_smallest c (record m {
  children = change_at cursor_next i (turned_forward m.direction c (merged_key m) i m.children);
  direction = forward;
})

unfoldable pub next : Comparator → MergingIterator → MergingIterator
unfolding next_of
next c m = next_of m.current c m

unfoldable pub prev_of : Option ℕ → Comparator → MergingIterator → MergingIterator
unfolding find_largest merged_key turned_back change_at cursor_prev
prev_of none c m = m
prev_of (some i) c m = find_largest c (record m {
  children = change_at cursor_prev i (turned_back m.direction c (merged_key m) i m.children);
  direction = reverse;
})

unfoldable pub prev : Comparator → MergingIterator → MergingIterator
unfolding prev_of
prev c m = prev_of m.current c m
