-- ===== src/FilterBlock/Cut.antt =====
-- table/filter_block.cc: a filter cut out of its child's block by the offsets.
use ebf_leveldb_sep_kv.Base.{
  ℕ, zero, suc, ◌+◌, ◌-◌, ◌^◌, ◌≤◌, ◌<◌, List, [], ◌∷◌, ◌++◌, length, get_or, take, drop, ◌≡◌, refl,
  sym, ap, ◌∙◌, arith, length-append,
}
use mathlib.Core.List.{append_assoc}
use native.Mathlib.Nat.{mod-eq_of_lt}
use ebf_leveldb_sep_kv.FilterBlock.Pieces.{joined, offsets_of, take-append}

-- Where piece `i` starts.
abbrev pub pos : List (List ℕ) → ℕ → ℕ
pos col i = length (joined (take i col))

-- The offsets as ReadMeta has them, the total size last.
abbrev pub array_of : List (List ℕ) → List ℕ
array_of col = offsets_of 0 col ++ (length (joined col) ∷ [])

array_from :
    (at i : ℕ) (col : List (List ℕ)) (end : ℕ)
    → i ≤ length col
    → end ≡ at + length (joined col)
    → end < 2 ^ 32
    → get_or (offsets_of at col ++ (end ∷ [])) i 0 ≡ at + pos col i
array_from at zero [] end h e fits = omega arith
array_from at (suc i) [] end h e fits = elim h [ ]
array_from at zero (p ∷ col) end h e fits = mod-eq_of_lt (omega (arith)) ∙ (omega arith)
array_from at (suc i) (p ∷ col) end h e fits =
    array_from (at + length p) i col end (omega arith) (omega (arith, length-append p (joined col)))
      fits
    ∙ omega (arith, length-append p (joined (take i col)))

pub get_or-array_of :
    (col : List (List ℕ)) (i : ℕ)
    → i ≤ length col
    → length (joined col) < 2 ^ 32
    → get_or (array_of col) i 0 ≡ pos col i
get_or-array_of col i h fits =
    array_from 0 i col (length (joined col)) h (omega arith) fits ∙ (omega arith)

get_or-end : (xs : List ℕ) (v n : ℕ) → n ≡ length xs → get_or (xs ++ (v ∷ [])) n 0 ≡ v
get_or-end [] v n h = rw h refl
get_or-end (x ∷ xs) v zero h = absurd (omega arith)
get_or-end (x ∷ xs) v (suc n) h = get_or-end xs v n (omega arith)

pub array_of-last :
    (col : List (List ℕ))
    → get_or (array_of col) (length (array_of col) - 1) 0 ≡ length (joined col)
array_of-last col =
    get_or-end (offsets_of 0 col) (length (joined col)) _
      (omega (arith, length-append (offsets_of 0 col) (length (joined col) ∷ [])))

pub get_or_past : (xs : List ℕ) (i : ℕ) → length xs ≤ i → get_or xs i 0 ≡ 0
get_or_past [] i h = refl
get_or_past (x ∷ xs) zero h = absurd (omega arith)
get_or_past (x ∷ xs) (suc i) h = get_or_past xs i (omega arith)

pub pos_mono : (col : List (List ℕ)) (i j : ℕ) → i ≤ j → pos col i ≤ pos col j
pos_mono [] zero zero h = omega arith
pos_mono [] zero (suc j) h = omega arith
pos_mono [] (suc i) zero h = elim h [ ]
pos_mono [] (suc i) (suc j) h = omega arith
pos_mono (p ∷ col) zero j h = omega arith
pos_mono (p ∷ col) (suc i) zero h = elim h [ ]
pos_mono (p ∷ col) (suc i) (suc j) h = omega (
  arith,
  pos_mono col i j (omega arith),
  length-append p (joined (take i col)),
  length-append p (joined (take j col)),
)

pub pos-total : (col : List (List ℕ)) (i : ℕ) → pos col i ≤ length (joined col)
pos-total [] zero = omega arith
pos-total [] (suc i) = omega arith
pos-total (p ∷ col) zero = omega arith
pos-total (p ∷ col) (suc i) =
    omega
      (arith, pos-total col i, length-append p (joined (take i col)), length-append p (joined col))

drop_nil {ℓ} : {A : Type ℓ} (n : ℕ) → drop {A = A} n [] ≡ []
drop_nil zero = refl
drop_nil (suc n) = refl

drop-drop {ℓ} : {A : Type ℓ} (o a n : ℕ) (xs : List A) → n ≡ o + a → drop a (drop o xs) ≡ drop n xs
drop-drop zero a n xs e = ap (λ (t : ℕ). drop t xs) (omega arith)
drop-drop (suc o) zero n [] e = sym (drop_nil n)
drop-drop (suc o) (suc a) zero [] e = refl
drop-drop (suc o) (suc a) (suc n) [] e = refl
drop-drop (suc o) a zero (x ∷ xs) e = absurd (omega arith)
drop-drop (suc o) a (suc n) (x ∷ xs) e = drop-drop o a n xs (omega arith)

take-drop-take {ℓ} :
    {A : Type ℓ} (k a m : ℕ) (xs : List A)
    → a + k ≤ m
    → take k (drop a (take m xs)) ≡ take k (drop a xs)
take-drop-take zero a m xs h = refl
take-drop-take (suc k) zero zero xs h = absurd (omega arith)
take-drop-take (suc k) zero (suc m) [] h = refl
take-drop-take (suc k) zero (suc m) (x ∷ xs) h =
    ap (λ t. x ∷ t) (take-drop-take k zero m xs (omega arith))
take-drop-take (suc k) (suc a) zero xs h = absurd (omega arith)
take-drop-take (suc k) (suc a) (suc m) [] h = refl
take-drop-take (suc k) (suc a) (suc m) (x ∷ xs) h = take-drop-take (suc k) a m xs (omega arith)

pub take-part {ℓ} :
    {A : Type ℓ} (k a m o n : ℕ) (xs : List A)
    → a + k ≤ m
    → n ≡ o + a
    → take k (drop a (take m (drop o xs))) ≡ take k (drop n xs)
take-part k a m o n xs h e = take-drop-take k a m (drop o xs) h ∙ ap (take k) (drop-drop o a n xs e)

pub drop-far {ℓ} :
    {A : Type ℓ} (xs ys : List A) (n m : ℕ) → n ≡ length xs + m → drop n (xs ++ ys) ≡ drop m ys
drop-far [] ys n m e = ap (λ (t : ℕ). drop t ys) (omega arith)
drop-far (x ∷ xs) ys zero m e = absurd (omega arith)
drop-far (x ∷ xs) ys (suc n) m e = drop-far xs ys n m (omega arith)

pub piece_at :
    (col : List (List ℕ)) (g : ℕ) (tail : List ℕ)
    → g < length col
    → take (pos col (suc g) - pos col g) (drop (pos col g) (joined col ++ tail)) ≡ get_or col g []
piece_at [] g tail h = elim h [ ]
piece_at (p ∷ col) zero tail h =
    rw (append_assoc p (joined col) tail)
      (ap (λ (t : ℕ). take t (p ++ (joined col ++ tail))) size ∙ take-append p (joined col ++ tail))
  where
    size : length (p ++ []) - 0 ≡ length p
    size = omega (arith, length-append p [])
piece_at (p ∷ col) (suc g) tail h =
    let here = length-append p (joined (take g col)) in
    let next = length-append p (joined (take (suc g) col)) in
    rw (append_assoc p (joined col) tail) (
      ap (λ (t : ℕ). take t (drop (pos (p ∷ col) (suc g)) (p ++ (joined col ++ tail))))
        (omega (arith, here, next))
      ∙ ap (take (pos col (suc g) - pos col g)) (
          drop-far p (joined col ++ tail) (pos (p ∷ col) (suc g)) (pos col g) (omega (arith, here)))
      ∙ piece_at col g tail (omega arith))
