-- ===== src/Bloom/Multi.antt =====
-- MultiFilter of util/multi_bloom.cc: one child policy for each entry of the configured array,
-- with ids from 0, each writing a filter of its own. What CreateFilter over a list of strings
-- leaves in them is stated here in order, one child after the other; Bloom/Workers has the
-- threads that the source does it with.
pub mod Workers
use ebf_leveldb_sep_kv.Base.{
  ℕ, zero, suc, ◌+◌, ◌*◌, ◌^◌, ◌≤◌, ◌<◌, List, [], ◌∷◌, ◌++◌, Option, none, some, Bool, true, false,
  ◌==◌, if◌then◌else◌, length, get_elem?, take, All, All-map, ◌≡◌, refl, arith, Bool-cases, inl,
  inr,
}
use ebf_leveldb_sep_kv.Coding.{◌>>=◌}
use ebf_leveldb_sep_kv.Bloom.{ChildBloomFilterPolicy, child_policy, create_filter, key_may_match}
use ebf_leveldb_sep_kv.Bloom.Child.{key_may_match-create_filter}

-- The constructor's loop: `for(i = 0; bits_per_key_per_filter[i] != 0; i++)`.
unfoldable pub child_policies : ℕ → List ℕ → List ChildBloomFilterPolicy
child_policies i [] = []
child_policies i (bits_per_key ∷ rest) =
    let more = child_policies (i + 1) rest in
    if bits_per_key == 0 then [] else child_policy bits_per_key i ∷ more

unfoldable pub multi_filter : List ℕ → List ChildBloomFilterPolicy
unfolding child_policies
multi_filter bits_per_key_per_filter = child_policies 0 bits_per_key_per_filter

-- CreateFilter on an array of strings, and what the threaded CreateFilter leaves. `none`: an id
-- without a hash, or not one string for each child.
unfoldable pub create_filters :
    List ChildBloomFilterPolicy → List (List ℕ) → List (List ℕ) → Option (List (List ℕ))
create_filters [] keys [] = some []
create_filters [] keys (dst ∷ dsts) = none
create_filters (p ∷ ps) keys [] = none
create_filters (p ∷ ps) keys (dst ∷ dsts) = do
  filter ← create_filter p keys dst
  filters ← create_filters ps keys dsts
  some (filter ∷ filters)

-- KeyMayMatch with a filter's id.
unfoldable pub key_may_match_id : List ChildBloomFilterPolicy → List ℕ → List ℕ → ℕ → Option Bool
key_may_match_id filters key bloom_filter id = do
  p ← get_elem? filters id
  key_may_match p key bloom_filter

-- KeyMayMatchFilters walks the children beside the strings; `none`: more strings than children.
unfoldable pub key_may_match_filters :
    List ChildBloomFilterPolicy → List ℕ → List (List ℕ) → Option Bool
key_may_match_filters ps key [] = some true
key_may_match_filters [] key (s ∷ strs) = none
key_may_match_filters (p ∷ ps) key (s ∷ strs) = do
  matches ← key_may_match p key s
  let rest = key_may_match_filters ps key strs
  if matches then rest else some false

-- A child that the constructor made, with a hash and with fewer than 2 ^ 60 bits for `n` keys.
Made : ℕ → ChildBloomFilterPolicy → Type 0
Made n p = (b : ℕ) × (id : ℕ) × (p ≡ child_policy b id) × (id < 12) × (n * b < 2 ^ 60)

child_policies-Made :
    (n i : ℕ) (bits : List ℕ)
    → i + length bits ≤ 12
    → All (λ b. n * b < 2 ^ 60) bits
    → All (Made n) (child_policies i bits)
unfolding child_policies Made
child_policies-Made n i [] h fit = tt
child_policies-Made n i (b ∷ bits) h fit = elim (Bool-cases (b == 0)) [
  | inl last ↦ rw last tt
  | inr more ↦
      rw more
        ((b, i, refl, omega arith, fit.0), child_policies-Made n (i + 1) bits (omega arith) fit.1)
]

-- Each of the written filters answers true for each of its keys.
abbrev pub Answer : List ℕ → List ChildBloomFilterPolicy → List (List ℕ) → Type 0
Answer key ps strs = (n : ℕ) → key_may_match_filters ps key (take n strs) ≡ some true

Answer-cons :
    (key : List ℕ) (p : ChildBloomFilterPolicy) (ps : List ChildBloomFilterPolicy) (s : List ℕ)
    (strs : List (List ℕ))
    → key_may_match p key s ≡ some true
    → Answer key ps strs
    → Answer key (p ∷ ps) (s ∷ strs)
unfolding key_may_match_filters
Answer-cons key p ps s strs h a zero = refl
Answer-cons key p ps s strs h a (suc n) = rw h (a n)

All-zip {ℓ} :
    {A : Type ℓ} (P Q R : A → Type 0) (xs : List A)
    → ((x : A) → P x → Q x → R x)
    → All P xs
    → All Q xs
    → All R xs
All-zip P Q R [] f p q = tt
All-zip P Q R (x ∷ xs) f p q = (f x p.0 q.0, All-zip P Q R xs f p.1 q.1)

-- Each child's own filter: what lies behind the string's old contents.
abbrev pub OwnFilters : List (List ℕ) → List (List ℕ) → List (List ℕ) → Type 0
OwnFilters [] [] [] = Unit
OwnFilters (d ∷ ds) (f ∷ fs) (r ∷ rs) = (r ≡ d ++ f) × OwnFilters ds fs rs
OwnFilters ds fs rs = ⊥

All-each {ℓ} : {A : Type ℓ} (P : A → Type 0) (xs : List A) → ((x : A) → P x) → All P xs
All-each P [] f = tt
All-each P (x ∷ xs) f = (f x, All-each P xs f)

Answer-nil : (key : List ℕ) (ps : List ChildBloomFilterPolicy) → Answer key ps []
unfolding key_may_match_filters
Answer-nil key ps zero = refl
Answer-nil key ps (suc n) = refl

children-Answer :
    (ps : List ChildBloomFilterPolicy) (keys dsts : List (List ℕ))
    → All (Made (length keys)) ps
    → length dsts ≡ length ps
    → (filters : List (List ℕ)) × (results : List (List ℕ)) × (create_filters ps keys dsts
        ≡ some results)
      × OwnFilters dsts filters results
      × All (λ key. Answer key ps filters) keys
unfolding create_filters Made
children-Answer [] keys [] made e = ([], [], refl, tt, All-each _ keys (λ key. Answer-nil key []))
children-Answer [] keys (d ∷ dsts) made e = absurd (omega arith)
children-Answer (p ∷ ps) keys [] made e = absurd (omega arith)
children-Answer (p ∷ ps) keys (d ∷ dsts) ((b, id, own, known, small), made) e =
    let (f, ran, matches) = key_may_match-create_filter b b id keys d known small in
    let (filters, results, rest, shape, answers) =
      children-Answer ps keys dsts made (omega arith) in
    (
      f ∷ filters,
      (d ++ f) ∷ results,
      rw (own, ran, rest),
      (refl, shape),
      All-zip _ _ _ keys (λ key m. Answer-cons key p ps f filters (rw own m)) matches answers,
    )

-- For at most twelve children with fewer than 2 ^ 60 bits each, and one string for each child,
-- every string keeps its contents and gets one filter appended. Every key that went in is
-- answered with true through the first `n` of these filters, for each `n`: however many of the
-- filters are loaded, none of the keys is lost.
pub key_may_match_filters-create_filters :
    (bits : List ℕ) (keys dsts : List (List ℕ))
    → length bits ≤ 12
    → All (λ b. length keys * b < 2 ^ 60) bits
    → length dsts ≡ length (multi_filter bits)
    → (filters : List (List ℕ)) × (results : List (List ℕ)) × (create_filters
          (multi_filter bits)
          keys
          dsts
        ≡ some results)
      × OwnFilters dsts filters results
      × All (λ key. Answer key (multi_filter bits) filters) keys
unfolding multi_filter
key_may_match_filters-create_filters bits keys dsts few small e =
    children-Answer (multi_filter bits) keys dsts
      (child_policies-Made (length keys) 0 bits (omega arith) small) e
