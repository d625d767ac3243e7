-- ===== src/Block/Corrupt.antt =====
-- table/block.cc: the iterator on arbitrary contents, a block or corrupt bytes.
use ebf_leveldb_sep_kv.Base.{
  ◌==◌, ℕ, ◌+◌, ◌-◌, ◌%◌, ◌^◌, ◌≤◌, ◌<◌, bit_or, List, [], ◌∷◌, some, Bool, true, false, ltb, leb,
  length, drop, ◌≡◌, refl, ◌∙◌, ◌⊎◌, arith, Bool-cases, Option-cases, inl, inr, length-take,
}
use ebf_leveldb_sep_kv.Coding.{get_varint32}
use ebf_leveldb_sep_kv.Coding.Shorter.{get_varint32-shorter}
use ebf_leveldb_sep_kv.Block.{
  Iter, bad_entry_in_block, checked_entry, decode_varints, decode_entry, next_entry_offset, region,
  corruption_error, take_entry, parse_next_key, valid, RestartKey.key_at, RestartKey.bad_key,
  restart_point, restart_key,
}

-- A decoded entry is behind its three lengths, and its sizes, added in 32 bits, are within the rest.
record Within (n v : ℕ) (rest input : List ℕ) : Type 0 where
  shorter : length rest + 3 ≤ length input
  sizes : (n + v) % 2 ^ 32 ≤ length rest

checked-Within :
    (a b d s n v : ℕ) (p rest input : List ℕ)
    → checked_entry a b d p ≡ some (s, n, v, rest)
    → length p + 3 ≤ length input
    → Within n v rest input
unfolding checked_entry
checked-Within a b d s n v p rest input e h =
    elim (Bool-cases (ltb (length p % 2 ^ 32) ((b + d) % 2 ^ 32))) [
      | inl out ↦ ground arith
      | inr fits ↦ ground arith
    ]

varints-Within :
    (input : List ℕ) (s n v : ℕ) (rest : List ℕ)
    → decode_varints input ≡ some (s, n, v, rest)
    → Within n v rest input
unfolding decode_varints
varints-Within input s n v rest e = elim (Option-cases (get_varint32 input)) [
  | inl bad ↦ absurd (ground (arith, bad))
  | inr ((a, p), ea) ↦ elim (Option-cases (get_varint32 p)) [
    | inl bad ↦ absurd (ground (arith, bad, ea))
    | inr ((b, q), eb) ↦ elim (Option-cases (get_varint32 q)) [
      | inl bad ↦ absurd (ground (arith, bad, ea, eb))
      | inr ((d, r), ed) ↦ checked-Within a b d s n v r rest input (rw (ea, eb, ed) at e) (
          omega (
            arith,
            get_varint32-shorter input a p ea,
            get_varint32-shorter p b q eb,
            get_varint32-shorter q d r ed,
          ))
    ]
  ]
]

entry-Within :
    (input : List ℕ) (s n v : ℕ) (rest : List ℕ)
    → decode_entry input ≡ some (s, n, v, rest)
    → Within n v rest input
unfolding decode_entry
entry-Within [] s n v rest e = absurd (ground arith)
entry-Within (a ∷ []) s n v rest e = absurd (ground arith)
entry-Within (a ∷ b ∷ []) s n v rest e = absurd (ground arith)
entry-Within (a ∷ b ∷ d ∷ p) s n v rest e = elim (Bool-cases (ltb (bit_or (bit_or a b) d) 128)) [
  | inl small ↦ checked-Within a b d s n v p rest (a ∷ b ∷ d ∷ p) (rw small at e) (omega arith)
  | inr large ↦ varints-Within (a ∷ b ∷ d ∷ p) s n v rest (rw large at e)
]

-- What the operations of an iterator leave alone, and the bounds that hold of a block below 4 GB.
pub record Fits (start it : Iter) : Type 0 where
  pub contents : it.contents ≡ start.contents
  pub same : it.restarts ≡ start.restarts
  pub restarts : it.restarts < 2 ^ 32
  pub num_restarts : it.num_restarts < 2 ^ 30

-- The key and the value of the entry are within the region.
abbrev pub Inside : Iter → Type 0
Inside it = it.value_at + it.value_size ≤ it.restarts

-- A round ends on an entry further on, or leaves the iterator invalid, at the end or on an error.
pub record Round (start it it' : Iter) (more : Bool) : Type 0 where
  pub fits : Fits start it'
  pub on :
      more ≡ true
      → (valid it' ≡ true)
        × (it'.status ≡ it.status)
        × (next_entry_offset it < next_entry_offset it')
        × (next_entry_offset it' ≤ it.restarts)
        × (it'.restarts ≡ it.restarts)
        × Inside it'
  pub off :
      more ≡ false
      → (valid it' ≡ false) × ((it'.status ≡ it.status) ⊎ (it'.status ≡ bad_entry_in_block))

length-region : (it : Iter) (o : ℕ) → length (region it o) ≤ it.restarts - o
unfolding region
length-region it o = omega (arith, length-take (it.restarts - o) (drop o it.contents))

pub still :
    {start : Iter} (it it' : Iter)
    → Fits start it
    → it'.contents ≡ it.contents
    → it'.restarts ≡ it.restarts
    → it'.num_restarts ≡ it.num_restarts
    → Fits start it'
still it it' f c r n = record {
  contents = c ∙ f.contents;
  same = r ∙ f.same;
  restarts = rw r f.restarts;
  num_restarts = rw n f.num_restarts;
}

module _ (start : Iter)
    (sums : (o s n v : ℕ) (rest : List ℕ)
      → decode_entry (region start o) ≡ some (s, n, v, rest)
      → n + v < 2 ^ 32) where
  -- An entry that ParseNextKey decodes is within the region.
  entry-inside :
      (it : Iter) (o s n v : ℕ) (rest : List ℕ)
      → Fits start it
      → decode_entry (region it o) ≡ some (s, n, v, rest)
      → (n + v ≤ length rest) × (length rest + 3 ≤ it.restarts - o)
  unfolding region
  entry-inside it o s n v rest f e =
      let w = entry-Within (region it o) s n v rest e in
      let whole : n + v < 2 ^ 32 = sums o s n v rest (rw (f.contents, f.same) at e) in
      (omega (arith, w.sizes), omega (arith, w.shorter, length-region it o))

  on_entry :
      (it : Iter) (s n v : ℕ) (rest : List ℕ)
      → Fits start it
      → leb it.restarts (next_entry_offset it) ≡ false
      → n + v ≤ length rest
      → length rest + 3 ≤ it.restarts - next_entry_offset it
      → Round start it (take_entry s n v rest (record it { current = next_entry_offset it })) true
  unfolding take_entry valid next_entry_offset
  on_entry it s n v rest f past within room =
      let small = f.restarts in
      let below : next_entry_offset it < it.restarts = ground arith in
      record {
        fits = record {
          contents = f.contents;
          same = f.same;
          restarts = f.restarts;
          num_restarts = f.num_restarts;
        };
        on = λ h. (ground arith, refl, omega arith, omega arith, refl, omega arith);
        off = λ h. absurd (cc);
      }

  off_entry :
      (it it' : Iter)
      → Fits start it'
      → valid it' ≡ false
      → (it'.status ≡ it.status) ⊎ (it'.status ≡ bad_entry_in_block)
      → Round start it it' false
  off_entry it it' f out st = record { fits = f; on = λ h. cc; off = λ h. (out, st) }

  pub parse-Round :
      (it : Iter) → Fits start it → Round start it (parse_next_key it).0 (parse_next_key it).1
  unfolding parse_next_key corruption_error valid
  parse-Round it f = elim (Bool-cases (leb it.restarts (next_entry_offset it))) [
    | inl past ↦ rw past (off_entry it _ (still it _ f refl refl refl) (ground arith) (inl refl))
    | inr inside ↦ elim (Option-cases (decode_entry (region it (next_entry_offset it)))) [
      | inl bad ↦
          rw (inside, bad) (off_entry it _ (still it _ f refl refl refl) (ground arith) (inr refl))
      | inr ((s, n, v, rest), e) ↦ elim (Bool-cases (ltb (length it.key) s)) [
        | inl long ↦
            rw (inside, e, long)
              (off_entry it _ (still it _ f refl refl refl) (ground arith) (inr refl))
        | inr good ↦
            let (within, room) = entry-inside it (next_entry_offset it) s n v rest f e in
            let no_further : ltb (length rest) n ≡ false = ground (arith, within) in
            rw (inside, e, good, no_further) (on_entry it s n v rest f inside within room)
      ]
    ]
  ]

  -- The entry at a restart point is bad or its key is within the region.
  pub key_cases :
      (it : Iter) (i : ℕ)
      → Fits start it
      → (restart_key it i ≡ bad_key) ⊎ ((k : List ℕ) × (restart_key it i ≡ key_at k))
  unfolding restart_key
  key_cases it i f = elim (Option-cases (decode_entry (region it (restart_point it i)))) [
    | inl bad ↦ rw (restart_key, bad) (inl refl)
    | inr ((s, n, v, rest), e) ↦
        let (within, room) = entry-inside it (restart_point it i) s n v rest f e in
        let no_further : ltb (length rest) n ≡ false = ground (arith, within) in
        elim (Bool-cases (s == 0)) [
          | inl whole ↦ rw (restart_key, e, whole, no_further) (inr (_, refl))
          | inr shares ↦ rw (restart_key, e, shares) (inl refl)
        ]
  ]
