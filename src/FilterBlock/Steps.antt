-- ===== src/FilterBlock/Steps.antt =====
-- table/filter_block.cc under table/table_builder.cc: the sequence of StartBlock and AddKey calls
-- that makes a table's filters, and what the builder holds at its end.
use ebf_leveldb_sep_kv.Base.{
  ℕ, zero, suc, ◌+◌, ◌*◌, ◌/◌, ◌^◌, ◌≤◌, ◌<◌, List, [], ◌∷◌, ◌++◌, Option, some, false, ltb, length,
  get_or, All, All-map, ◌≡◌, refl, ◌∙◌, arith, length-append, max, Bool-cases, ◌⊎◌, inl, inr,
  ltb→lt,
}
use mathlib.Core.Path.{subst}
use native.Mathlib.Nat.{mul-le-mul_right}
use ebf_leveldb_sep_kv.Bloom.{ChildBloomFilterPolicy}
use ebf_leveldb_sep_kv.Bloom.Multi.{multi_filter}
use ebf_leveldb_sep_kv.Coding.{◌>>=◌}
use ebf_leveldb_sep_kv.FilterBlock.{
  FilterBlockBuilder, filters_generated, start_loop, start_block, add_key, filter_base,
}
use ebf_leveldb_sep_kv.FilterBlock.Pieces.{length-offsets_of}
use ebf_leveldb_sep_kv.FilterBlock.Built.{IsBuilt, generate_filter-IsBuilt, add_key-IsBuilt}

pub data BuilderStep : Type 0 where
  block_at : ℕ → BuilderStep
  key_added : List ℕ → BuilderStep

unfoldable pub run :
    List ChildBloomFilterPolicy → List BuilderStep → FilterBlockBuilder → Option FilterBlockBuilder
run policy [] b = some b
run policy (block_at offset ∷ steps) b = start_block policy offset b >>= run policy steps
run policy (key_added key ∷ steps) b = run policy steps (add_key key b)

-- Each added key with the offset of its block.
unfoldable pub located : ℕ → List BuilderStep → List (ℕ × List ℕ)
located at [] = []
located at (block_at offset ∷ steps) = located offset steps
located at (key_added key ∷ steps) = (at, key) ∷ located at steps

-- The blocks of a table follow each other.
abbrev pub Ordered : ℕ → List BuilderStep → Type 0
Ordered at [] = Unit
Ordered at (block_at offset ∷ steps) = (at ≤ offset) × Ordered offset steps
Ordered at (key_added key ∷ steps) = Ordered at steps

abbrev pub In : List ℕ → List (List ℕ) → Type 0
In key [] = ⊥
In key (k ∷ ks) = (k ≡ key) ⊎ In key ks

-- A key is among those of its block's filter index.
abbrev pub Holds : List (List (List ℕ)) → ℕ × List ℕ → Type 0
Holds groups (offset, key) = In key (get_or groups (offset / filter_base) [])

In-append_left : (key : List ℕ) (xs ys : List (List ℕ)) → In key xs → In key (xs ++ ys)
In-append_left key [] ys h = absurd h
In-append_left key (x ∷ xs) ys (inl e) = inl e
In-append_left key (x ∷ xs) ys (inr h) = inr (In-append_left key xs ys h)

In-last : (key : List ℕ) (xs : List (List ℕ)) → In key (xs ++ (key ∷ []))
In-last key [] = inl refl
In-last key (x ∷ xs) = inr (In-last key xs)

pub In-All :
    (P : List ℕ → Type 0) (key : List ℕ) (xs : List (List ℕ)) → In key xs → All P xs → P key
In-All P key [] h a = absurd h
In-All P key (x ∷ xs) (inl e) (p, a) = subst P e p
In-All P key (x ∷ xs) (inr h) (p, a) = In-All P key xs h a

pub Holds-append :
    (groups more : List (List (List ℕ))) (j : ℕ) (key : List ℕ)
    → In key (get_or groups j [])
    → In key (get_or (groups ++ more) j [])
Holds-append [] more j key h = absurd h
Holds-append (g ∷ groups) more zero key h = h
Holds-append (g ∷ groups) more (suc j) key h = Holds-append groups more j key h

Holds-grow :
    (groups : List (List (List ℕ))) (pending ks : List (List ℕ)) (j : ℕ) (key : List ℕ)
    → In key (get_or (groups ++ (pending ∷ [])) j [])
    → In key (get_or (groups ++ ((pending ++ ks) ∷ [])) j [])
Holds-grow [] pending ks zero key h = In-append_left key pending ks h
Holds-grow [] pending ks (suc j) key h = absurd h
Holds-grow (g ∷ groups) pending ks zero key h = h
Holds-grow (g ∷ groups) pending ks (suc j) key h = Holds-grow groups pending ks j key h

Holds-new :
    (groups : List (List (List ℕ))) (pending : List (List ℕ)) (key : List ℕ)
    → In key (get_or (groups ++ ((pending ++ (key ∷ [])) ∷ [])) (length groups) [])
Holds-new [] pending key = In-last key pending
Holds-new (g ∷ groups) pending key = Holds-new groups pending key

-- Nothing is among the keys past the last group.
pub Holds-below :
    (groups : List (List (List ℕ))) (j : ℕ) (key : List ℕ)
    → In key (get_or (groups ++ ([] ∷ [])) j [])
    → (j < length groups) × In key (get_or groups j [])
Holds-below [] zero key h = absurd h
Holds-below [] (suc j) key h = absurd h
Holds-below (g ∷ groups) zero key h = (omega arith, h)
Holds-below (g ∷ groups) (suc j) key h =
    let (below, inside) = Holds-below groups j key h in (omega arith, inside)

not_less : (a b : ℕ) → ltb a b ≡ false → b ≤ a
not_less a b h = ground arith

module _ (bits : List ℕ) (n : ℕ) (few : length bits ≤ 12)
    (some_child : 0 < length (multi_filter bits)) (small : All (λ b. n * b < 2 ^ 60) bits) where
  pub fewer : (m : ℕ) → m ≤ n → All (λ b. m * b < 2 ^ 60) bits
  fewer m h =
      All-map (λ b. n * b < 2 ^ 60) _ bits (λ b p. omega (arith, mul-le-mul_right b h)) small

  first_size :
      (groups : List (List (List ℕ))) (pending : List (List ℕ)) (cols : List (List (List ℕ)))
      (b : FilterBlockBuilder)
      → IsBuilt bits groups pending cols b
      → filters_generated b ≡ length groups
  unfolding filters_generated
  first_size groups pending [] b v = absurd (omega (arith, v.children))
  first_size groups pending (col ∷ cols) b v = rw v.offsets (length-offsets_of 0 col ∙ v.even.0)

  -- StartBlock's loop makes the filters up to the block's index, and no more.
  start_loop-IsBuilt :
      (fuel index : ℕ) (groups : List (List (List ℕ))) (pending : List (List ℕ))
      (cols : List (List (List ℕ))) (b : FilterBlockBuilder)
      → IsBuilt bits groups pending cols b
      → index ≤ length groups + fuel
      → length pending ≤ n
      → (groups' : List (List (List ℕ))) × (pending' : List (List ℕ)) × (cols' : List
          (List (List ℕ)))
        × (b' : FilterBlockBuilder) × (start_loop (multi_filter bits) index fuel b ≡ some b')
        × IsBuilt bits groups' pending' cols' b'
        × (length groups' ≡ max index (length groups))
        × (length pending' ≤ length pending)
        × ((j : ℕ) (key : List ℕ)
            → In key (get_or (groups ++ (pending ∷ [])) j [])
            → In key (get_or (groups' ++ (pending' ∷ [])) j []))
  unfolding start_loop
  start_loop-IsBuilt zero index groups pending cols b v enough fits =
      (groups, pending, cols, b, refl, v, omega arith, omega arith, λ j key h. h)
  start_loop-IsBuilt (suc fuel) index groups pending cols b v enough fits =
      let size = first_size groups pending cols b v in
      elim (Bool-cases (ltb (filters_generated b) index)) [
        | inl less ↦
            let (cols1, b1, ran1, v1) =
              generate_filter-IsBuilt bits groups pending cols b v few
                (fewer (length pending) fits) in
            let count = length-append groups (pending ∷ []) in
            let below = ltb→lt (filters_generated b) index less in
            let (groups', pending', cols', b', ran', v', size', fits', kept) =
              start_loop-IsBuilt fuel index (groups ++ (pending ∷ [])) [] cols1 b1 v1
                (omega (arith, count)) (omega arith) in
            (
              groups',
              pending',
              cols',
              b',
              rw (less, ran1) ran',
              v',
              omega (arith, count, size, below, size'),
              omega (arith, fits'),
              λ j key h. kept j key (Holds-append (groups ++ (pending ∷ [])) ([] ∷ []) j key h),
            )
        | inr more ↦ (
          groups,
          pending,
          cols,
          b,
          rw more refl,
          v,
          omega (arith, size, not_less (filters_generated b) index more),
          omega arith,
          λ j key h. h,
        )
      ]

  pub run-IsBuilt :
      (steps : List BuilderStep) (at : ℕ) (groups : List (List (List ℕ))) (pending : List (List ℕ))
      (cols : List (List (List ℕ))) (b : FilterBlockBuilder)
      → IsBuilt bits groups pending cols b
      → at / filter_base ≡ length groups
      → Ordered at steps
      → length pending + length (located at steps) ≤ n
      → (groups' : List (List (List ℕ))) × (pending' : List (List ℕ)) × (cols' : List
          (List (List ℕ)))
        × (b' : FilterBlockBuilder) × (run (multi_filter bits) steps b ≡ some b')
        × IsBuilt bits groups' pending' cols' b'
        × (length pending' ≤ n)
        × All (Holds (groups' ++ (pending' ∷ []))) (located at steps)
        × ((j : ℕ) (key : List ℕ)
            → In key (get_or (groups ++ (pending ∷ [])) j [])
            → In key (get_or (groups' ++ (pending' ∷ [])) j []))
  unfolding run located start_block
  run-IsBuilt [] at groups pending cols b v here order fits =
      (groups, pending, cols, b, refl, v, omega arith, tt, λ j key h. h)
  run-IsBuilt (block_at offset ∷ steps) at groups pending cols b v here order fits =
      let index = offset / filter_base in
      let (groups1, pending1, cols1, b1, ran1, v1, size1, fits1, kept1) =
        start_loop-IsBuilt index index groups pending cols b v (omega arith) (omega arith) in
      let there : index ≡ length groups1 = omega (arith, size1, here, order.0) in
      let (groups', pending', cols', b', ran', v', fits', all, kept) =
        run-IsBuilt steps offset groups1 pending1 cols1 b1 v1 there order.1
          (omega (arith, fits1)) in
      (
        groups',
        pending',
        cols',
        b',
        rw ran1 ran',
        v',
        fits',
        all,
        λ j key h. kept j key (kept1 j key h),
      )
  run-IsBuilt (key_added key ∷ steps) at groups pending cols b v here order fits =
      let v1 = add_key-IsBuilt bits groups pending cols b v key in
      let (groups', pending', cols', b', ran', v', fits', all, kept) =
        run-IsBuilt steps at groups (pending ++ (key ∷ [])) cols (add_key key b) v1 here order
          (omega (arith, length-append pending (key ∷ []))) in
      let mine = kept (length groups) key (Holds-new groups pending key) in
      (
        groups',
        pending',
        cols',
        b',
        ran',
        v',
        fits',
        (rw here mine, all),
        λ j k h. kept j k (Holds-grow groups pending (key ∷ []) j k h),
      )
