-- ===== src/Block.antt =====
-- table/block.cc: a block read back, and its iterator. A pointer into `data_` is its offset, and
-- a pointer with its limit the list of the bytes between them. value_ is an offset and a size.
pub mod Entries
pub mod Opened
pub mod Parsed
pub mod RoundTrip
pub mod Scan
pub mod Seek
pub mod Corrupt
pub mod Settled
pub mod Errors
use ebf_leveldb_sep_kv.Base.{
  ℕ, zero, suc, ◌+◌, ◌-◌, ◌*◌, ◌/◌, ◌%◌, ◌^◌, bit_or, List, [], ◌∷◌, ◌++◌, Option, none, some, Bool,
  true, false, ltb, leb, ◌==◌, ◌&&◌, not, if◌then◌else◌, length, take, drop,
}
use Prim.Native.Nat.{Ordering}
use ebf_leveldb_sep_kv.Comparator.{Comparator}
use ebf_leveldb_sep_kv.DbFormat.{is_lt}
use ebf_leveldb_sep_kv.Coding.{decode_fixed32, get_varint32, ◌>>=◌}

pub record Block : Type 0 where
  pub contents : List ℕ
  pub size : ℕ
  pub restart_offset : ℕ

unfoldable pub num_restarts_of : List ℕ → ℕ → ℕ
num_restarts_of contents size = decode_fixed32 (drop (size - 4) contents)

-- The constructor; a size of 0 marks an error.
unfoldable pub new_block : List ℕ → Block
new_block contents =
    let size = length contents in
    let count = num_restarts_of contents size in
    if ltb size 4
    then record { contents = contents; size = 0; restart_offset = 0 }
    else if ltb ((size - 4) / 4) count
    then record { contents = contents; size = 0; restart_offset = 0 }
    else record {
      contents = contents;
      size = size;
      restart_offset = (size - (1 + count) % 2 ^ 32 * 4) % 2 ^ 32;
    }

-- The test at the end of DecodeEntry; the sum is of 32 bits.
unfoldable pub checked_entry : ℕ → ℕ → ℕ → List ℕ → Option (ℕ × ℕ × ℕ × List ℕ)
checked_entry shared non_shared value_length p =
    if ltb (length p % 2 ^ 32) ((non_shared + value_length) % 2 ^ 32)
    then none
    else some (shared, non_shared, value_length, p)

unfoldable pub decode_varints : List ℕ → Option (ℕ × ℕ × ℕ × List ℕ)
unfolding checked_entry
decode_varints input = do
  (shared, p) ← get_varint32 input
  (non_shared, p') ← get_varint32 p
  (value_length, p'') ← get_varint32 p'
  checked_entry shared non_shared value_length p''

-- DecodeEntry, with its path for three values of one byte each.
unfoldable pub decode_entry : List ℕ → Option (ℕ × ℕ × ℕ × List ℕ)
unfolding checked_entry decode_varints
decode_entry [] = none
decode_entry (a ∷ []) = none
decode_entry (a ∷ b ∷ []) = none
decode_entry (a ∷ b ∷ c ∷ p) =
    if ltb (bit_or (bit_or a b) c) 128
    then checked_entry a b c p
    else decode_varints (a ∷ b ∷ c ∷ p)

-- The last one is not the source's: it marks a run in which the source reads behind the region of
-- the entries, since the 32-bit sum of an entry's two lengths has wrapped. Nothing is said of what
-- such a run goes on with.
pub data BlockStatus : Type 0 where
  ok bad_entry_in_block read_behind_region : BlockStatus

-- Block::Iter. Where the source's value_ points to the empty string, at first and behind an error,
-- `value_at` and `value_size` are 0; nothing reads them then, for Next and Prev want a valid
-- iterator and each seek sets value_ first.
pub record Iter : Type 0 where
  pub contents : List ℕ
  pub restarts : ℕ
  pub num_restarts : ℕ
  pub current : ℕ
  pub restart_index : ℕ
  pub key : List ℕ
  pub value_at : ℕ
  pub value_size : ℕ
  pub status : BlockStatus

unfoldable pub new_iter : List ℕ → ℕ → ℕ → Iter
new_iter contents restarts num_restarts = record {
  contents = contents;
  restarts = restarts;
  num_restarts = num_restarts;
  current = restarts;
  restart_index = num_restarts;
  key = [];
  value_at = 0;
  value_size = 0;
  status = ok;
}

pub data BlockIterator : Type 0 where
  error_iterator empty_iterator : BlockIterator
  block_iterator : Iter → BlockIterator

unfoldable pub new_iterator : Block → BlockIterator
unfolding num_restarts_of
new_iterator b =
    let count = num_restarts_of b.contents b.size in
    if ltb b.size 4
    then error_iterator
    else if count == 0
    then empty_iterator
    else block_iterator (new_iter b.contents b.restart_offset count)

unfoldable pub valid : Iter → Bool
valid it = ltb it.current it.restarts

-- The bytes of the slice, for an entry within the region.
unfoldable pub value : Iter → List ℕ
value it = take it.value_size (drop it.value_at it.contents)

unfoldable pub next_entry_offset : Iter → ℕ
next_entry_offset it = (it.value_at + it.value_size) % 2 ^ 32

unfoldable pub restart_point : Iter → ℕ → ℕ
restart_point it index = decode_fixed32 (drop (it.restarts + index * 4) it.contents)

-- The bytes from an offset up to the restart array.
unfoldable pub region : Iter → ℕ → List ℕ
region it offset = take (it.restarts - offset) (drop offset it.contents)

unfoldable pub seek_to_restart_point : ℕ → Iter → Iter
unfolding restart_point
seek_to_restart_point index it = record it {
  key = [];
  restart_index = index;
  value_at = restart_point it index;
  value_size = 0;
}

unfoldable pub corruption_error : Iter → Iter
corruption_error it = record it {
  current = it.restarts;
  restart_index = it.num_restarts;
  status = bad_entry_in_block;
  key = [];
  value_at = 0;
  value_size = 0;
}

unfoldable pub out_of_bounds : Iter → Iter
out_of_bounds it = record it { current = it.restarts; status = read_behind_region }

-- `while (restart_index_ + 1 < num_restarts_ && GetRestartPoint(restart_index_ + 1) < current_)`,
-- by recursion on the restart points that are left.
unfoldable pub advance_restart : ℕ → ℕ → Iter → ℕ
unfolding restart_point
advance_restart zero index it = index
advance_restart (suc left) index it =
    let rest = advance_restart left (suc index) it in
    if ltb (restart_point it (suc index)) it.current then rest else index

-- ParseNextKey behind its decoded entry: `rest` is what is left of the region at the key delta, of
-- which the delta takes the first bytes.
unfoldable pub take_entry : ℕ → ℕ → ℕ → List ℕ → Iter → Iter
unfolding advance_restart
take_entry shared non_shared value_length rest it = record it {
  key = take shared it.key ++ take non_shared rest;
  value_at = it.restarts - length rest + non_shared;
  value_size = value_length;
  restart_index = advance_restart (it.num_restarts - (it.restart_index + 1)) it.restart_index it;
}

unfoldable pub parse_next_key : Iter → Iter × Bool
unfolding next_entry_offset region decode_entry corruption_error out_of_bounds take_entry
parse_next_key it =
    let current = next_entry_offset it in
    if leb it.restarts current
    then (record it { current = it.restarts; restart_index = it.num_restarts }, false)
    else elim (decode_entry (region it current)) [
      | none ↦ (corruption_error it, false)
      | some (shared, non_shared, value_length, rest) ↦
          if ltb (length it.key) shared
          then (corruption_error it, false)
          else if ltb (length rest) non_shared
          then (out_of_bounds it, false)
          else (
            take_entry shared non_shared value_length rest (record it { current = current }),
            true,
          )
    ]

-- Next; `none` where its assertion of a valid iterator fails.
unfoldable pub next : Iter → Option Iter
unfolding valid parse_next_key
next it = if valid it then some (parse_next_key it).0 else none

unfoldable pub seek_to_first : Iter → Iter
unfolding seek_to_restart_point parse_next_key
seek_to_first it = (parse_next_key (seek_to_restart_point 0 it)).0

-- `while (ParseNextKey() && NextEntryOffset() < limit)`, on fuel.
unfoldable pub parse_below : ℕ → ℕ → Iter → Option Iter
unfolding parse_next_key next_entry_offset
parse_below zero limit it = none
parse_below (suc fuel) limit it =
    let (it', more) = parse_next_key it in
    let rest = parse_below fuel limit it' in
    if more && ltb (next_entry_offset it') limit then rest else some it'

-- A round of ParseNextKey starts where the last one ended, below the restart array.
abbrev pub fuel_of : Iter → ℕ
fuel_of it = it.restarts + 1

unfoldable pub seek_to_last : Iter → Option Iter
unfolding seek_to_restart_point parse_below
seek_to_last it =
    parse_below (fuel_of it) it.restarts (seek_to_restart_point (it.num_restarts - 1) it)

-- Prev's scan for a restart point before `original`; `none` where there is none.
unfoldable pub scan_back : Iter → ℕ → ℕ → Option ℕ
unfolding restart_point
scan_back it original zero = if leb original (restart_point it zero) then none else some zero
scan_back it original (suc index) =
    let rest = scan_back it original index in
    if leb original (restart_point it (suc index)) then rest else some (suc index)

-- Prev; `none` where its assertion of a valid iterator fails.
unfoldable pub prev : Iter → Option Iter
unfolding valid scan_back seek_to_restart_point parse_below
prev it =
    if valid it
    then elim (scan_back it it.current it.restart_index) [
      | none ↦ some (record it { current = it.restarts; restart_index = it.num_restarts })
      | some index ↦ parse_below (fuel_of it) it.current (seek_to_restart_point index it)
    ]
    else none

-- How Seek's search in the restart array ends.
pub data Search : Type 0 where
  found : ℕ → Search
  corrupt : Search
  behind : Search
  out_of_fuel : Search

-- The key at a restart point: its entry may be bad or share a prefix, or reach behind the region.
pub data RestartKey : Type 0 where
  key_at : List ℕ → RestartKey
  bad_key : RestartKey
  key_behind : RestartKey

unfoldable pub restart_key : Iter → ℕ → RestartKey
unfolding restart_point region decode_entry
restart_key it index = elim (decode_entry (region it (restart_point it index))) [
  | none ↦ bad_key
  | some (shared, non_shared, value_length, rest) ↦
      if not (shared == 0)
      then bad_key
      else if ltb (length rest) non_shared
      then key_behind
      else key_at (take non_shared rest)
]

unfoldable pub search_restarts : Comparator → List ℕ → Iter → ℕ → ℕ → ℕ → Search
unfolding restart_key
search_restarts c target it zero left right = out_of_fuel
search_restarts c target it (suc fuel) left right =
    let mid = (left + right + 1) % 2 ^ 32 / 2 in
    let up = search_restarts c target it fuel mid right in
    let down = search_restarts c target it fuel left (mid - 1) in
    if ltb left right
    then elim (restart_key it mid) [
      | bad_key ↦ corrupt
      | key_behind ↦ behind
      | key_at mid_key ↦ if is_lt (c.compare_keys mid_key target) then up else down
    ]
    else found left

-- The linear search for the first key that is not before the target.
unfoldable pub search_entries : Comparator → List ℕ → ℕ → Iter → Option Iter
unfolding parse_next_key
search_entries c target zero it = none
search_entries c target (suc fuel) it =
    let (it', more) = parse_next_key it in
    let rest = search_entries c target fuel it' in
    if more && is_lt (c.compare_keys it'.key target) then rest else some it'

unfoldable pub seek : Comparator → List ℕ → Iter → Option Iter
unfolding search_restarts search_entries seek_to_restart_point corruption_error out_of_bounds
seek c target it =
    elim (search_restarts c target it (it.num_restarts + 1) 0 (it.num_restarts - 1)) [
      | out_of_fuel ↦ none
      | corrupt ↦ some (corruption_error it)
      | behind ↦ some (out_of_bounds it)
      | found left ↦ search_entries c target (fuel_of it) (seek_to_restart_point left it)
    ]
