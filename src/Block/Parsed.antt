-- ===== src/Block/Parsed.antt =====
-- table/block.cc: ParseNextKey at the start of an entry that the builder wrote.
use ebf_leveldb_sep_kv.Base.{
  ℕ, ◌+◌, ◌-◌, ◌%◌, ◌^◌, ◌≤◌, ◌<◌, List, [], ◌∷◌, ◌++◌, some, true, false, ltb, leb, length, take,
  drop, ◌≡◌, refl, ap, ◌∙◌, arith, length-append, length-drop, take-append-drop,
}
use mathlib.Core.List.{append_assoc}
use native.Mathlib.Nat.{mod-eq_of_lt}
use ebf_leveldb_sep_kv.FilterBlock.Cut.{drop-far}
use ebf_leveldb_sep_kv.FilterBlock.Pieces.{take-append}
use ebf_leveldb_sep_kv.BlockBuilder.Encoded.{
  with_lengths, shared_of, next_counter, one, encoded, take-shared_of, shared_of-le,
  shared_of-le_last,
}
use ebf_leveldb_sep_kv.Block.{
  Iter, decode_entry, next_entry_offset, region, take_entry, parse_next_key, value, valid,
}
use ebf_leveldb_sep_kv.Block.Entries.{decode_entry-entry, length-entry}

pub take_exact {ℓ} : {A : Type ℓ} (n : ℕ) (xs ys : List A) → n ≡ length xs → take n (xs ++ ys) ≡ xs
take_exact n xs ys e = rw e (take-append xs ys)

-- Where a region starts behind `before` and ends with `inside`.
region-inside :
    (it : Iter) (before inside tail : List ℕ)
    → it.contents ≡ before ++ (inside ++ tail)
    → it.restarts ≡ length before + length inside
    → region it (length before) ≡ inside
unfolding region
region-inside it before inside tail e size =
    rw (e, drop-far before (inside ++ tail) (length before) 0 (omega arith))
      (take_exact (it.restarts - length before) inside tail (omega (arith, size)))

-- An iterator that has read `before`, with the entries `es` ahead of it.
pub record Ready (interval : ℕ) (it : Iter) (before : List ℕ) (counter : ℕ)
    (es : List (List ℕ × List ℕ)) (tail : List ℕ) : Type 0 where
  pub bytes : it.contents ≡ before ++ (encoded interval counter it.key es ++ tail)
  pub end : it.restarts ≡ length before + length (encoded interval counter it.key es)
  pub at : next_entry_offset it ≡ length before
  pub small : it.restarts < 2 ^ 32
  pub key_small : length it.key < 2 ^ 32

-- What a round leaves alone.
pub record Kept (it it' : Iter) : Type 0 where
  pub contents : it'.contents ≡ it.contents
  pub restarts : it'.restarts ≡ it.restarts
  pub num_restarts : it'.num_restarts ≡ it.num_restarts
  pub status : it'.status ≡ it.status

-- The iterator on an entry, before those of `es`.
pub record OnEntry (interval : ℕ) (it it' : Iter) (k v before : List ℕ) (counter : ℕ)
    (es : List (List ℕ × List ℕ)) (tail : List ℕ) : Type 0 where
  pub key : it'.key ≡ k
  pub value_lem : value it' ≡ v
  pub valid_lem : valid it' ≡ true
  pub ahead : Ready interval it' before counter es tail
  pub kept : Kept it it'

pub parse-end :
    (interval : ℕ) (it : Iter) (before : List ℕ) (counter : ℕ) (tail : List ℕ)
    → Ready interval it before counter [] tail
    → parse_next_key it
      ≡ (record it { current = it.restarts; restart_index = it.num_restarts }, false)
unfolding parse_next_key encoded
parse-end interval it before counter tail r =
    let here = r.at in
    let over = r.end in
    let past : leb it.restarts (next_entry_offset it) ≡ true = ground arith in rw past refl

module _ (interval : ℕ) (it : Iter) (before : List ℕ) (counter : ℕ) (k v : List ℕ)
    (es : List (List ℕ × List ℕ)) (tail : List ℕ)
    (r : Ready interval it before counter ((k, v) ∷ es) tail) (kfits : length k < 2 ^ 32) where
  abbrev pub s : ℕ
  s = shared_of interval counter it.key k

  abbrev pub behind : List ℕ
  behind = encoded interval (next_counter interval counter) k es

  abbrev pub body : List ℕ
  body = drop s k ++ (v ++ behind)

  whole : encoded interval counter it.key ((k, v) ∷ es) ≡ with_lengths s k v body
  unfolding encoded one with_lengths
  whole = simp append_assoc

  long : 3 + length body ≤ length (encoded interval counter it.key ((k, v) ∷ es))
  unfolding with_lengths
  long = rw whole (length-entry (s % 2 ^ 32) ((length k - s) % 2 ^ 32) (length v % 2 ^ 32) body)

  sizes : length body ≡ (length k - s) + length v + length behind
  sizes =
      omega (arith, length-append (drop s k) (v ++ behind), length-append v behind, length-drop s k)

  shared_small : s < 2 ^ 32
  shared_small = omega (arith, shared_of-le interval counter it.key k)

  pub decoded :
      decode_entry (region it (next_entry_offset it)) ≡ some (s, length k - s, length v, body)
  unfolding with_lengths
  decoded =
      let here = r.at in
      let all = long in
      let parts = sizes in
      let end = r.end in
      let small = r.small in
      let ms : s % 2 ^ 32 ≡ s = mod-eq_of_lt shared_small in
      let mn : (length k - s) % 2 ^ 32 ≡ length k - s = mod-eq_of_lt (omega arith) in
      let mv : length v % 2 ^ 32 ≡ length v = mod-eq_of_lt (omega arith) in
      rw
        (
          here,
          region-inside it before (encoded interval counter it.key ((k, v) ∷ es)) tail r.bytes
              r.end,
          whole,
          ms,
          mn,
          mv,
        )
        (decode_entry-entry s (length k - s) (length v) body shared_small (omega arith)
          (omega arith))

  abbrev pub after : Iter
  after = take_entry s (length k - s) (length v) body (record it { current = next_entry_offset it })

  pub parse-entry : parse_next_key it ≡ (after, true)
  unfolding parse_next_key
  parse-entry =
      let here = r.at in
      let end = r.end in
      let all = long in
      let inside : leb it.restarts (next_entry_offset it) ≡ false = ground arith in
      let fits : ltb (length it.key) s ≡ false =
        ground (arith, shared_of-le_last interval counter it.key k) in
      let within : ltb (length body) (length k - s) ≡ false = ground (arith, sizes) in
      rw (inside, decoded, fits, within) refl

  after_key : after.key ≡ k
  unfolding take_entry
  after_key =
      rw
        (
          take-shared_of interval counter it.key k,
          take_exact (length k - s) (drop s k) (v ++ behind) (omega (arith, length-drop s k)),
        )
        (take-append-drop s k)

  -- The bytes up to the end of the entry.
  abbrev pub read : List ℕ
  read = before ++ one interval counter it.key k v

  after_bytes : it.contents ≡ read ++ (behind ++ tail)
  unfolding encoded
  after_bytes = r.bytes ∙ simp append_assoc

  after_end : it.restarts ≡ length read + length behind
  unfolding encoded
  after_end = omega (
    arith,
    r.end,
    length-append before (one interval counter it.key k v),
    length-append (one interval counter it.key k v) behind,
  )

  value_ends : after.value_at + length v ≡ length read
  unfolding take_entry
  value_ends = omega (arith, after_end, sizes, long, r.end)

  after_next : next_entry_offset after ≡ length read
  unfolding next_entry_offset take_entry
  after_next = ap (λ t. t % 2 ^ 32) value_ends ∙ mod-eq_of_lt (omega (arith, after_end, r.small))

  -- The entry ends with its value.
  abbrev lead : List ℕ
  lead = before ++ (with_lengths s k v (drop s k))

  read_split : read ≡ lead ++ v
  unfolding one with_lengths
  read_split = simp append_assoc

  after_value : value after ≡ v
  unfolding value take_entry
  after_value =
      let start : after.value_at ≡ length lead =
        omega (arith, value_ends, ap length read_split, length-append lead v) in
      let whole_bytes : it.contents ≡ lead ++ (v ++ (behind ++ tail)) =
        after_bytes
        ∙ ap (λ t. t ++ (behind ++ tail)) read_split
        ∙ append_assoc lead v (behind ++ tail) in
      rw
        (whole_bytes, drop-far lead (v ++ (behind ++ tail)) after.value_at 0 (omega (arith, start)))
        (take-append v (behind ++ tail))

  after-Ready : Ready interval after read (next_counter interval counter) es tail
  unfolding take_entry
  after-Ready = record {
    bytes = rw after_key after_bytes;
    end = rw after_key after_end;
    at = after_next;
    small = r.small;
    key_small = rw after_key kfits;
  }

  pub parse-OnEntry : OnEntry interval it after k v read (next_counter interval counter) es tail
  unfolding take_entry valid
  parse-OnEntry = record {
    key = after_key;
    value_lem = after_value;
    valid_lem = (let here = r.at in let end = r.end in let all = long in ground arith);
    ahead = after-Ready;
    kept = record { contents = refl; restarts = refl; num_restarts = refl; status = refl };
  }
