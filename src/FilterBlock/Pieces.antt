-- ===== src/FilterBlock/Pieces.antt =====
-- table/filter_block.cc: what the builder holds, as the pieces that its children have written, one
-- for each filter index.
use ebf_leveldb_sep_kv.Base.{
  ℕ, zero, suc, ◌+◌, ◌-◌, ◌%◌, ◌^◌, ◌<◌, List, [], ◌∷◌, ◌++◌, length, get_or, take, drop, map, All,
  ◌≡◌, refl, sym, ap, ◌∙◌, arith, length-append,
}
use mathlib.Core.List.{append_assoc, append-nil}
use ebf_leveldb_sep_kv.Bloom.Multi.{OwnFilters}
use ebf_leveldb_sep_kv.FilterBlock.{push_offsets, tmp_keys}

abbrev pub joined : List (List ℕ) → List ℕ
joined [] = []
joined (p ∷ ps) = p ++ joined ps

-- Where each piece starts, the first one at `at`.
abbrev pub starts : ℕ → List (List ℕ) → List ℕ
starts at [] = []
starts at (p ∷ ps) = at ∷ starts (at + length p) ps

-- The same as uint32_t.
abbrev pub offsets_of : ℕ → List (List ℕ) → List ℕ
offsets_of at [] = []
offsets_of at (p ∷ ps) = at % 2 ^ 32 ∷ offsets_of (at + length p) ps

pub joined-append : (ps qs : List (List ℕ)) → joined (ps ++ qs) ≡ joined ps ++ joined qs
joined-append [] qs = refl
joined-append (p ∷ ps) qs =
    ap (λ (t : List ℕ). p ++ t) (joined-append ps qs) ∙ sym (append_assoc p (joined ps) (joined qs))

pub joined-last : (ps : List (List ℕ)) (f : List ℕ) → joined (ps ++ (f ∷ [])) ≡ joined ps ++ f
joined-last ps f = joined-append ps (f ∷ []) ∙ ap (λ (t : List ℕ). joined ps ++ t) (append-nil f)

pub offsets_of-last :
    (at : ℕ) (ps : List (List ℕ)) (f : List ℕ)
    → offsets_of at (ps ++ (f ∷ [])) ≡ offsets_of at ps ++ ((at + length (joined ps)) % 2 ^ 32 ∷ [])
offsets_of-last at [] f = ap (λ (t : ℕ). t % 2 ^ 32 ∷ []) (omega arith)
offsets_of-last at (p ∷ ps) f = rw (offsets_of-last (at + length p) ps f) (
    ap (λ (t : ℕ). at % 2 ^ 32 ∷ (offsets_of (at + length p) ps ++ (t % 2 ^ 32 ∷ [])))
      (omega (arith, length-append p (joined ps))))

pub length-offsets_of : (at : ℕ) (ps : List (List ℕ)) → length (offsets_of at ps) ≡ length ps
length-offsets_of at [] = refl
length-offsets_of at (p ∷ ps) = ap suc (length-offsets_of (at + length p) ps)

-- One more piece for each child.
abbrev pub add_pieces : List (List (List ℕ)) → List (List ℕ) → List (List (List ℕ))
add_pieces [] fs = []
add_pieces (col ∷ cols) [] = col ∷ cols
add_pieces (col ∷ cols) (f ∷ fs) = (col ++ (f ∷ [])) ∷ add_pieces cols fs

pub length-add_pieces :
    (cols : List (List (List ℕ))) (fs : List (List ℕ)) → length (add_pieces cols fs) ≡ length cols
length-add_pieces [] fs = refl
length-add_pieces (col ∷ cols) [] = refl
length-add_pieces (col ∷ cols) (f ∷ fs) = ap suc (length-add_pieces cols fs)

pub OwnFilters-joined :
    (cols : List (List (List ℕ))) (fs results : List (List ℕ))
    → OwnFilters (map joined cols) fs results
    → results ≡ map joined (add_pieces cols fs)
OwnFilters-joined [] [] [] h = refl
OwnFilters-joined [] [] (r ∷ rs) h = absurd h
OwnFilters-joined [] (f ∷ fs) rs h = absurd h
OwnFilters-joined (col ∷ cols) [] rs h = absurd h
OwnFilters-joined (col ∷ cols) (f ∷ fs) [] h = absurd h
OwnFilters-joined (col ∷ cols) (f ∷ fs) (r ∷ rs) (e, h) =
    let first : r ≡ joined (col ++ (f ∷ [])) = e ∙ sym (joined-last col f) in
    let more = OwnFilters-joined cols fs rs h in λ i. first i ∷ more i

pub OwnFilters-length :
    (cols : List (List (List ℕ))) (fs results : List (List ℕ))
    → OwnFilters (map joined cols) fs results
    → length fs ≡ length cols
OwnFilters-length [] [] [] h = refl
OwnFilters-length [] [] (r ∷ rs) h = refl
OwnFilters-length [] (f ∷ fs) rs h = absurd h
OwnFilters-length (col ∷ cols) [] rs h = absurd h
OwnFilters-length (col ∷ cols) (f ∷ fs) [] h = absurd h
OwnFilters-length (col ∷ cols) (f ∷ fs) (r ∷ rs) (e, h) = ap suc (OwnFilters-length cols fs rs h)

pub push_offsets-add_pieces :
    (cols : List (List (List ℕ))) (fs : List (List ℕ))
    → length fs ≡ length cols
    → push_offsets (map (offsets_of 0) cols) (map joined cols)
      ≡ map (offsets_of 0) (add_pieces cols fs)
unfolding push_offsets
push_offsets-add_pieces [] fs h = refl
push_offsets-add_pieces (col ∷ cols) [] h = absurd (omega arith)
push_offsets-add_pieces (col ∷ cols) (f ∷ fs) h =
    let at_zero : offsets_of 0 col ++ (length (joined col) % 2 ^ 32 ∷ [])
        ≡ offsets_of 0 col ++ ((0 + length (joined col)) % 2 ^ 32 ∷ []) =
      ap (λ (t : ℕ). offsets_of 0 col ++ (t % 2 ^ 32 ∷ [])) (omega arith) in
    let first = at_zero ∙ sym (offsets_of-last 0 col f) in
    let more = push_offsets-add_pieces cols fs (omega arith) in λ i. first i ∷ more i

-- The filters that the children have for one index.
abbrev pub group_filters : ℕ → List (List (List ℕ)) → List (List ℕ)
group_filters j cols = map (λ col. get_or col j []) cols

get_or-last :
    (ps : List (List ℕ)) (f : List ℕ) (j : ℕ)
    → j < length ps
    → get_or (ps ++ (f ∷ [])) j [] ≡ get_or ps j []
get_or-last [] f j h = elim h [ ]
get_or-last (p ∷ ps) f zero h = refl
get_or-last (p ∷ ps) f (suc j) h = get_or-last ps f j (omega arith)

get_or-at_end : (ps : List (List ℕ)) (f : List ℕ) → get_or (ps ++ (f ∷ [])) (length ps) [] ≡ f
get_or-at_end [] f = refl
get_or-at_end (p ∷ ps) f = get_or-at_end ps f

pub group_filters_old :
    (n j : ℕ) (cols : List (List (List ℕ))) (fs : List (List ℕ))
    → All (λ col. length col ≡ n) cols
    → j < n
    → group_filters j (add_pieces cols fs) ≡ group_filters j cols
group_filters_old n j [] fs h below = refl
group_filters_old n j (col ∷ cols) [] h below = refl
group_filters_old n j (col ∷ cols) (f ∷ fs) (e, h) below =
    let first = get_or-last col f j (omega arith) in
    let more = group_filters_old n j cols fs h below in λ i. first i ∷ more i

pub group_filters_new :
    (n : ℕ) (cols : List (List (List ℕ))) (fs : List (List ℕ))
    → All (λ col. length col ≡ n) cols
    → length fs ≡ length cols
    → group_filters n (add_pieces cols fs) ≡ fs
group_filters_new n [] [] h e = refl
group_filters_new n [] (f ∷ fs) h e = absurd (omega arith)
group_filters_new n (col ∷ cols) [] h e = absurd (omega arith)
group_filters_new n (col ∷ cols) (f ∷ fs) (own, h) e =
    let first : get_or (col ++ (f ∷ [])) n [] ≡ f =
      ap (λ (t : ℕ). get_or (col ++ (f ∷ [])) t []) (sym own) ∙ get_or-at_end col f in
    let more = group_filters_new n cols fs h (omega arith) in λ i. first i ∷ more i

pub add_pieces-even :
    (n : ℕ) (cols : List (List (List ℕ))) (fs : List (List ℕ))
    → All (λ col. length col ≡ n) cols
    → length fs ≡ length cols
    → All (λ col. length col ≡ suc n) (add_pieces cols fs)
add_pieces-even n [] fs h e = tt
add_pieces-even n (col ∷ cols) [] h e = absurd (omega arith)
add_pieces-even n (col ∷ cols) (f ∷ fs) (own, h) e =
    (omega (arith, length-append col (f ∷ [])), add_pieces-even n cols fs h (omega arith))

pub drop-append {ℓ} : {A : Type ℓ} (xs ys : List A) → drop (length xs) (xs ++ ys) ≡ ys
drop-append [] ys = refl
drop-append (x ∷ xs) ys = drop-append xs ys

pub take-append {ℓ} : {A : Type ℓ} (xs ys : List A) → take (length xs) (xs ++ ys) ≡ xs
take-append [] ys = refl
take-append (x ∷ xs) ys = ap (λ t. x ∷ t) (take-append xs ys)

-- Where the keys start, and the end of the last one.
abbrev pub bounds : ℕ → List (List ℕ) → List ℕ
bounds n [] = n ∷ []
bounds n (k ∷ ks) = n ∷ bounds (n + length k) ks

pub bounds-starts :
    (n : ℕ) (ks : List (List ℕ)) → bounds n ks ≡ starts n ks ++ ((n + length (joined ks)) ∷ [])
bounds-starts n [] = ap (λ (t : ℕ). t ∷ []) (omega arith)
bounds-starts n (k ∷ ks) = rw (bounds-starts (n + length k) ks) (
    ap (λ (t : ℕ). n ∷ (starts (n + length k) ks ++ (t ∷ [])))
      (omega (arith, length-append k (joined ks))))

tmp_keys-bounds :
    (keys : List ℕ) (n m : ℕ) (ks : List (List ℕ))
    → tmp_keys keys (n ∷ bounds m ks) ≡ take (m - n) (drop n keys) ∷ tmp_keys keys (bounds m ks)
unfolding tmp_keys
tmp_keys-bounds keys n m [] = refl
tmp_keys-bounds keys n m (k ∷ ks) = refl

-- The flattened keys are cut at their starts into the keys.
pub tmp_keys-joined :
    (before : List ℕ) (ks : List (List ℕ))
    → tmp_keys (before ++ joined ks) (bounds (length before) ks) ≡ ks
unfolding tmp_keys
tmp_keys-joined before [] = refl
tmp_keys-joined before (k ∷ ks) =
    let n = length before in
    let whole = append_assoc before k (joined ks) in
    let size : n + length k ≡ length (before ++ k) = sym (length-append before k) in
    let first : take (n + length k - n) (drop n (before ++ (k ++ joined ks))) ≡ k =
      rw drop-append (rw cut_size (take-append k (joined ks))) in
    let more : tmp_keys (before ++ (k ++ joined ks)) (bounds (n + length k) ks) ≡ ks =
      rw (sym whole, size) (tmp_keys-joined (before ++ k) ks) in
    tmp_keys-bounds (before ++ (k ++ joined ks)) n (n + length k) ks ∙ (λ i. first i ∷ more i)
  where
    cut_size : length before + length k - length before ≡ length k
    cut_size = omega arith
