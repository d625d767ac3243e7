-- ===== src/VersionSet/FindFile.antt =====
-- db/version_set.cc: FindFile's binary search against a search from the first file on.
use ebf_leveldb_sep_kv.Base.{
  ℕ, zero, suc, ◌+◌, ◌/◌, ◌%◌, ◌^◌, ◌≤◌, ◌<◌, List, [], ◌∷◌, false, ltb, if◌then◌else◌, length, All,
  ◌≡◌, ◌≢◌, refl, sym, ◌∙◌, arith, Bool-cases, inl, inr, ltb→lt,
}
use Prim.Native.Nat.{Ordering}
use native.Mathlib.Nat.{mod-eq_of_lt}
use ebf_leveldb_sep_kv.Comparator.{Comparator}
use ebf_leveldb_sep_kv.DbFormat.{compare_internal, is_lt}
use ebf_leveldb_sep_kv.DbFormat.Order.{lt_of-is_lt}
use ebf_leveldb_sep_kv.VersionEdit.{FileMetaData}
use ebf_leveldb_sep_kv.VersionSet.{largest_before, find_loop, find_file}

-- The first file whose largest key is not before the key, or the number of files.
abbrev pub first_file : Comparator → List FileMetaData → List ℕ → ℕ
first_file c [] key = 0
first_file c (f ∷ files) key =
    let rest = first_file c files key in
    if is_lt (compare_internal c f.largest key) then suc rest else 0

-- A level's files are sorted: where a file's largest key is before the key, so are those of the
-- files in front of it.
abbrev pub IsSorted : Comparator → List FileMetaData → Type 0
IsSorted c [] = Unit
IsSorted c (f ∷ files) =
    All (λ (g : FileMetaData). compare_internal c f.largest g.largest ≡ Ordering.lt) files
    × IsSorted c files

-- The order on internal keys, of which a search needs that it is transitive.
abbrev pub IsTransitive : Comparator → Type 0
IsTransitive c =
    (x y z : List ℕ)
    → compare_internal c x y ≡ Ordering.lt
    → compare_internal c y z ≡ Ordering.lt
    → compare_internal c x z ≡ Ordering.lt

is_lt_not : (r : Ordering) → r ≡ Ordering.lt → is_lt r ≢ false
is_lt_not Ordering.lt e = ground arith
is_lt_not Ordering.eq e = ground arith
is_lt_not Ordering.gt e = ground arith

not_below : (a b : ℕ) → ltb a b ≡ false → b ≤ a
not_below a b h = ground arith

ltb-suc : (a b : ℕ) → ltb a b ≡ ltb (suc a) (suc b)
ltb-suc a b = ground arith

ltb_zero : (a : ℕ) → false ≡ ltb a 0
ltb_zero a = ground arith

module _ (c : Comparator) (transitive : IsTransitive c) (key : List ℕ) where
  none_before :
      (f : FileMetaData) (files : List FileMetaData)
      → is_lt (compare_internal c f.largest key) ≡ false
      → All (λ (g : FileMetaData). compare_internal c f.largest g.largest ≡ Ordering.lt) files
      → (i : ℕ) → largest_before c files key i ≡ false
  unfolding largest_before
  none_before f [] h sorted i = refl
  none_before f (g ∷ files) h (below, sorted) zero =
      elim (Bool-cases (is_lt (compare_internal c g.largest key))) [
        | inl before ↦
            let less = lt_of-is_lt (compare_internal c g.largest key) before in
            let all = transitive f.largest g.largest key below less in
            absurd (is_lt_not (compare_internal c f.largest key) all h)
        | inr after ↦ after
      ]
  none_before f (g ∷ files) h (below, sorted) (suc i) = none_before f files h sorted i

  largest_before-first_file :
      (files : List FileMetaData)
      → IsSorted c files
      → (i : ℕ) → i < length files
      → largest_before c files key i ≡ ltb i (first_file c files key)
  unfolding largest_before
  largest_before-first_file [] sorted i h = elim h [ ]
  largest_before-first_file (f ∷ files) (first, sorted) zero h =
      elim (Bool-cases (is_lt (compare_internal c f.largest key))) [
        | inl before ↦ rw before (ground arith)
        | inr after ↦ rw after (ground arith)
      ]
  largest_before-first_file (f ∷ files) (first, sorted) (suc i) h =
      let rest = largest_before-first_file files sorted i (omega arith) in
      elim (Bool-cases (is_lt (compare_internal c f.largest key))) [
        | inl before ↦ rw before (rest ∙ ltb-suc i (first_file c files key))
        | inr after ↦ rw after (none_before f files after first i ∙ ltb_zero (suc i))
      ]

  length-first_file : (files : List FileMetaData) → first_file c files key ≤ length files
  length-first_file [] = omega arith
  length-first_file (f ∷ files) = ground (arith, length-first_file files)

  find_loop-first_file :
      (files : List FileMetaData)
      → IsSorted c files
      → length files < 2 ^ 31
      → (fuel left right : ℕ) → left ≤ first_file c files key
      → first_file c files key ≤ right
      → right ≤ length files
      → right ≤ left + fuel
      → find_loop c files key fuel left right ≡ first_file c files key
  unfolding find_loop
  find_loop-first_file files sorted small zero left right low high fits enough = omega arith
  find_loop-first_file files sorted small (suc fuel) left right low high fits enough =
      let mid = (left + right) % 2 ^ 32 / 2 in
      elim (Bool-cases (ltb left right)) [
        | inr done ↦ rw done (omega (arith, not_below left right done))
        | inl more ↦
            let room = ltb→lt left right more in
            let test = largest_before-first_file files sorted mid (omega arith) in
            elim (Bool-cases (largest_before c files key mid)) [
              | inl before ↦
                  let passed = ltb→lt mid (first_file c files key) (sym test ∙ before) in
                  let next : (mid + 1) % 2 ^ 32 ≡ mid + 1 = omega arith in
                  rw (more, before, next)
                    (find_loop-first_file files sorted small fuel (mid + 1) right
                      (omega (arith, passed)) high fits (omega arith))
              | inr after ↦
                  let stopped = not_below mid (first_file c files key) (sym test ∙ after) in
                  rw (more, after)
                    (find_loop-first_file files sorted small fuel left mid low
                      (omega (arith, stopped)) (omega arith) (omega arith))
            ]
      ]

  -- For fewer than 2 ^ 31 files with ascending largest keys, and a comparator whose order on
  -- internal keys is transitive: FindFile returns the index of the first file whose largest key is
  -- not before the key, or the number of files.
  pub find_file-first_file :
      (files : List FileMetaData)
      → IsSorted c files
      → length files < 2 ^ 31
      → find_file c files key ≡ first_file c files key
  unfolding find_file
  find_file-first_file files sorted small =
      rw (mod-eq_of_lt {n = length files} {m = 2 ^ 32} (omega arith)) (
        find_loop-first_file files sorted small (length files) 0 (length files) (omega arith)
          (length-first_file files) (omega arith) (omega arith))
