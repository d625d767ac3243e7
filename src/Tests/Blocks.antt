-- ===== src/Tests/Blocks.antt =====
-- A block of three entries with a restart point after two, and corrupt bytes.
use ebf_leveldb_sep_kv.Base.{
  ◌≤◌, zero, suc, ◌+◌, ◌-◌, drop, length-take, ℕ, ◌^◌, ◌<◌, List, [], ◌∷◌, some, true, length, ◌≡◌,
  refl, ap, ◌∙◌, arith,
}
use mathlib.Core.Option as Option
use Prim.Native.Nat.{Ordering}
use ebf_leveldb_sep_kv.Comparator.{bytewise_comparator, slice_compare}
use ebf_leveldb_sep_kv.Coding.{
  encode_fixed32, decode_fixed32, encode_varint32, put_fixed32, put_varint32, get_varint32,
}
use ebf_leveldb_sep_kv.BlockBuilder.{new_builder, add, finish}
use ebf_leveldb_sep_kv.BlockBuilder.Encoded.{add_all, finish-block_of, block_of}
use ebf_leveldb_sep_kv.Block.{
  Iter, BlockStatus.ok, bad_entry_in_block, new_block, num_restarts_of, new_iter, new_iterator,
  block_iterator, next, prev, valid, region, decode_entry, checked_entry, seek, seek_to_first,
  seek_to_last,
}
use ebf_leveldb_sep_kv.Block.Opened.{opened, iter_of}
use ebf_leveldb_sep_kv.Block.RoundTrip.{entries, entries-finish}
use ebf_leveldb_sep_kv.Block.Scan.{IsTransitive, IsAscending, first_not_before, outcome}
use ebf_leveldb_sep_kv.Block.Seek.{seek-first_not_before}
use ebf_leveldb_sep_kv.Block.Settled.{Settled, Anything, NotBefore}
use ebf_leveldb_sep_kv.Block.Errors.{Reaches, Asserted, operations-end}
use ebf_leveldb_sep_kv.DbFormat.{is_lt}
use ebf_leveldb_sep_kv.DbFormat.Order.{lt_of-is_lt}
use ebf_leveldb_sep_kv.DbFormat.Transitive.{slice_compare_trans}

abbrev three : List (List ℕ × List ℕ)
three = (97 ∷ 98 ∷ [], 1 ∷ []) ∷ (97 ∷ 98 ∷ 99 ∷ [], []) ∷ (98 ∷ [], 2 ∷ 3 ∷ []) ∷ []

three_bytes : length (finish (add_all 2 three new_builder)).buffer ≡ 28
unfolding finish add_all new_builder add put_varint32 encode_varint32 put_fixed32 encode_fixed32
three_bytes = refl

entries-finish_example :
    entries (new_iterator (new_block (finish (add_all 2 three new_builder)).buffer))
    ≡ some (three, ok)
entries-finish_example = entries-finish 2 three (omega arith) (omega (arith, three_bytes))

is_lt_of : (o : Ordering) → o ≡ Ordering.lt → is_lt o ≡ true
is_lt_of Ordering.lt e = refl
is_lt_of Ordering.eq e = ground arith
is_lt_of Ordering.gt e = ground arith

bytewise-IsTransitive : IsTransitive bytewise_comparator
unfolding bytewise_comparator
bytewise-IsTransitive x y z h k = is_lt_of (slice_compare x z) (
    slice_compare_trans x y z (lt_of-is_lt (slice_compare x y) h)
      (lt_of-is_lt (slice_compare y z) k))

three-IsAscending : IsAscending bytewise_comparator three
unfolding bytewise_comparator slice_compare
three-IsAscending = ((refl, (refl, tt)), ((refl, tt), (tt, tt)))

three_fits : length (block_of 2 three) < 2 ^ 32
three_fits = omega (arith, three_bytes, ap length (finish-block_of 2 three))

three_open :
    new_iterator (new_block (finish (add_all 2 three new_builder)).buffer)
    ≡ block_iterator (iter_of 2 three three_fits)
three_open =
    ap (λ t. new_iterator (new_block t)) (finish-block_of 2 three) ∙ opened 2 three three_fits

-- A target between the second and the third key.
seek-first_not_before_example :
    Option.map outcome (seek bytewise_comparator (97 ∷ 99 ∷ []) (iter_of 2 three three_fits))
    ≡ some (first_not_before bytewise_comparator (97 ∷ 99 ∷ []) three, ok)
seek-first_not_before_example =
    seek-first_not_before bytewise_comparator (97 ∷ 99 ∷ []) 2 three (iter_of 2 three three_fits)
      bytewise-IsTransitive three-IsAscending (omega arith) (omega (arith, three_bytes)) three_open

-- One restart point, a good entry, and one that claims more bytes than there are.
abbrev too_long : List ℕ
too_long = 0 ∷ 1 ∷ 1 ∷ 97 ∷ 1 ∷ 0 ∷ 9 ∷ 1 ∷ 7 ∷ 0 ∷ 0 ∷ 0 ∷ 0 ∷ 1 ∷ 0 ∷ 0 ∷ 0 ∷ []

abbrev too_long_iter : Iter
too_long_iter = new_iter too_long 9 1

too_long_open : new_iterator (new_block too_long) ≡ block_iterator too_long_iter
unfolding new_iterator new_block num_restarts_of decode_fixed32
too_long_open = refl

short_entry :
    (input : List ℕ) (s n v : ℕ) (rest : List ℕ)
    → length input < 3
    → decode_entry input ≡ some (s, n, v, rest)
    → n + v < 2 ^ 32
unfolding decode_entry
short_entry [] s n v rest h e = absurd (ground arith)
short_entry (a ∷ []) s n v rest h e = absurd (ground arith)
short_entry (a ∷ b ∷ []) s n v rest h e = absurd (ground arith)
short_entry (a ∷ b ∷ d ∷ p) s n v rest h e = absurd (omega arith)

length_far : (o : ℕ) → 7 ≤ o → length (region too_long_iter o) < 3
unfolding region new_iter
length_far o h = omega (arith, length-take (9 - o) (drop o too_long))

-- Seven bytes of the region begin an entry, good or bad.
too_long_sums :
    (o s n v : ℕ) (rest : List ℕ)
    → decode_entry (region too_long_iter o) ≡ some (s, n, v, rest)
    → n + v < 2 ^ 32
unfolding decode_entry checked_entry region new_iter
too_long_sums zero s n v rest e = ground arith
too_long_sums (suc zero) s n v rest e = ground arith
too_long_sums (suc (suc zero)) s n v rest e = ground arith
too_long_sums (suc (suc (suc zero))) s n v rest e = ground arith
too_long_sums (suc (suc (suc (suc zero)))) s n v rest e = ground arith
too_long_sums (suc (suc (suc (suc (suc zero))))) s n v rest e = ground arith
too_long_sums (suc (suc (suc (suc (suc (suc zero)))))) s n v rest e = ground arith
too_long_sums (suc (suc (suc (suc (suc (suc (suc o))))))) s n v rest e =
    short_entry _ s n v rest (length_far (suc (suc (suc (suc (suc (suc (suc o))))))) (omega arith))
      e

-- On the good entry, from which Next meets the bad one.
abbrev too_long_on : Iter
too_long_on = seek_to_first too_long_iter

operations-end_example :
    Asserted too_long_iter too_long_on (next too_long_on)
    × Settled too_long_iter too_long_on.status Anything (seek_to_first too_long_on)
    × ((it' : Iter) × (seek_to_last too_long_on ≡ some it')
        × Settled too_long_iter too_long_on.status Anything it')
    × Asserted too_long_iter too_long_on (prev too_long_on)
    × ((target : List ℕ)
        → (it' : Iter) × (seek bytewise_comparator target too_long_on ≡ some it')
          × Settled too_long_iter too_long_on.status (NotBefore bytewise_comparator target) it')
operations-end_example =
    operations-end bytewise_comparator too_long too_long_iter too_long_on (omega arith)
      too_long_open too_long_sums (Reaches.by_first Reaches.opened)

too_long_valid : valid too_long_on ≡ true
unfolding seek_to_first new_iter decode_fixed32 get_varint32 valid
too_long_valid = refl

-- The bad entry is met by Next.
too_long_next : Option.map (λ (it : Iter). it.status) (next too_long_on) ≡ some bad_entry_in_block
unfolding seek_to_first next new_iter decode_fixed32 get_varint32
too_long_next = refl
