-- ===== src/BlockBuilder/Split.antt =====
-- table/block_builder.cc: the entries of a block on the two sides of a restart point.
use ebf_leveldb_sep_kv.Base.{
  ℕ, zero, suc, ◌+◌, ◌%◌, ◌^◌, ◌<◌, List, [], ◌∷◌, ◌++◌, true, false, ltb, length, get_or, ◌≡◌,
  refl, ap, sym, ◌∙◌, arith, length-append, Bool-cases, inl, inr,
}
use mathlib.Core.List.{append_assoc}
use native.Mathlib.Nat.{mod-eq_of_lt}
use ebf_leveldb_sep_kv.BlockBuilder.{common_prefix}
use ebf_leveldb_sep_kv.BlockBuilder.Encoded.{shared_of, next_counter, one, encoded, mark, points}

-- With no key before it an entry shares nothing.
pub shared_of-nil : (interval counter : ℕ) (k : List ℕ) → shared_of interval counter [] k ≡ 0
unfolding shared_of common_prefix
shared_of-nil interval counter k = ground arith

-- An entry begins at the place `p`, which has the entries `pre` and the bytes `before` in front.
pub record Split (interval at : ℕ) (bytes : List ℕ) (es : List (List ℕ × List ℕ)) (p : ℕ)
    : Type 0 where
  pub pre : List (List ℕ × List ℕ)
  pub key : List ℕ
  pub value : List ℕ
  pub post : List (List ℕ × List ℕ)
  pub before : List ℕ
  pub counter : ℕ
  pub parts : es ≡ pre ++ ((key, value) ∷ post)
  pub bytes_lem : bytes ≡ before ++ encoded interval counter [] ((key, value) ∷ post)
  pub place : p ≡ at + length before

Split-cons :
    (interval at p : ℕ) (first bytes : List ℕ) (e : List ℕ × List ℕ) (es : List (List ℕ × List ℕ))
    → Split interval (at + length first) bytes es p
    → Split interval at (first ++ bytes) (e ∷ es) p
Split-cons interval at p first bytes e es s = record {
  pre = e ∷ s.pre;
  key = s.key;
  value = s.value;
  post = s.post;
  before = first ++ s.before;
  counter = s.counter;
  parts = ap (λ t. e ∷ t) s.parts;
  bytes_lem = ap (λ t. first ++ t) s.bytes_lem ∙ sym (append_assoc first s.before _);
  place = omega (arith, s.place, length-append first s.before);
}

restart_entry :
    (interval counter : ℕ) (last k v : List ℕ)
    → ltb counter interval ≡ false
    → one interval counter last k v ≡ one interval counter [] k v
unfolding one shared_of
restart_entry interval counter last k v e = rw e refl

marked : (interval counter at : ℕ) → ltb counter interval ≡ true → mark interval counter at ≡ []
unfolding mark
marked interval counter at e = rw e refl

unmarked :
    (interval counter at : ℕ)
    → ltb counter interval ≡ false
    → mark interval counter at ≡ at % 2 ^ 32 ∷ []
unfolding mark
unmarked interval counter at e = rw e refl

module _ (interval at counter : ℕ) (last k v : List ℕ) (es : List (List ℕ × List ℕ)) where
  abbrev first : List ℕ
  first = one interval counter last k v

  abbrev rest : List ℕ
  rest = encoded interval (next_counter interval counter) k es

  at_restart :
      (ps : List ℕ)
      → ltb counter interval ≡ false
      → at < 2 ^ 32
      → ((i : ℕ) → i < length ps → Split interval (at + length first) rest es (get_or ps i 0))
      → (i : ℕ) → i < suc (length ps)
      → Split interval at (first ++ rest) ((k, v) ∷ es) (get_or (at % 2 ^ 32 ∷ ps) i 0)
  unfolding encoded
  at_restart ps e small further zero h = record {
    pre = [];
    key = k;
    value = v;
    post = es;
    before = [];
    counter = counter;
    parts = refl;
    bytes_lem = ap (λ t. t ++ rest) (restart_entry interval counter last k v e);
    place = mod-eq_of_lt small ∙ (omega arith);
  }
  at_restart ps e small further (suc i) h =
      Split-cons interval at (get_or ps i 0) first rest (k, v) es (further i (omega arith))

-- Each restart point that a run adds is the place of an entry.
pub points-Split :
    (interval at counter : ℕ) (last : List ℕ) (es : List (List ℕ × List ℕ))
    → at + length (encoded interval counter last es) < 2 ^ 32
    → (i : ℕ) → i < length (points interval at counter last es)
    → Split interval at
        (encoded interval counter last es)
        es
        (get_or (points interval at counter last es) i 0)
unfolding points encoded
points-Split interval at counter last [] fits i h = elim h [ ]
points-Split interval at counter last ((k, v) ∷ es) fits i h =
    let f = one interval counter last k v in
    let c = next_counter interval counter in
    let size = length-append f (encoded interval c k es) in
    let further = points-Split interval (at + length f) c k es (omega (arith, size, fits)) in
    elim (Bool-cases (ltb counter interval)) [
      | inl shares ↦
          let m = marked interval counter at shares in
          rw m (
            Split-cons interval at (get_or (points interval (at + length f) c k es) i 0) f
              (encoded interval c k es) (k, v) es (further i (rw m at h)))
      | inr restart ↦
          let m = unmarked interval counter at restart in
          rw m (
            at_restart interval at counter last k v es (points interval (at + length f) c k es)
              restart (omega arith) further i (rw m at h))
    ]
