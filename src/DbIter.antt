-- ===== src/DbIter.antt =====
-- db/db_iter.cc: the iterator over user keys at a snapshot. The internal iterator that it moves is
-- any that keeps the promises of include/leveldb/iterator.h: a cursor over a list of entries.
-- Read samples for compactions and the capacity of saved_value_ are left out.
pub mod Visible
pub mod Forward
pub mod Backward
pub mod Unwound
pub mod Seek
pub mod StepsBack
pub mod Bytewise
use ebf_leveldb_sep_kv.Base.{
  ℕ, zero, suc, List, [], ◌∷◌, Option, none, some, Bool, true, false, ltb, ◌&&◌, not, if◌then◌else◌,
}
use ebf_leveldb_sep_kv.Comparator.{Comparator}
use ebf_leveldb_sep_kv.DbFormat.{
  ParsedInternalKey, ValueType.type_deletion, ValueType.type_value, append_internal_key,
  compare_internal, extract_user_key, is_lt, parse_internal_key, value_type_for_seek, ValueType,
}
use ebf_leveldb_sep_kv.VersionSet.{is_gt}
use ebf_leveldb_sep_kv.Iterator.{
  Entry, Cursor, at, off, rewind, all_of, cursor_key, cursor_value, cursor_first, cursor_next,
  cursor_last, cursor_seek,
}

pub data DbStatus : Type 0 where
  ok corrupted_internal_key : DbStatus

pub data Direction : Type 0 where
  forward reverse : Direction

-- The fields of DBIter; sequence_ is an argument of the operations.
pub record DbIter : Type 0 where
  pub cursor : Cursor
  pub status : DbStatus
  pub saved_key : List ℕ
  pub saved_value : List ℕ
  pub direction : Direction
  pub valid : Bool

unfoldable pub new_db_iter : Cursor → DbIter
new_db_iter cursor = record {
  cursor = cursor;
  status = ok;
  saved_key = [];
  saved_value = [];
  direction = forward;
  valid = false;
}

-- The key and the value, by the direction of the iterator.
unfoldable pub key_in : Direction → DbIter → List ℕ
unfolding cursor_key
key_in forward it = extract_user_key (cursor_key it.cursor)
key_in reverse it = it.saved_key

unfoldable pub value_in : Direction → DbIter → List ℕ
unfolding cursor_value
value_in forward it = cursor_value it.cursor
value_in reverse it = it.saved_value

unfoldable pub db_key : DbIter → List ℕ
unfolding key_in
db_key it = key_in it.direction it

unfoldable pub db_value : DbIter → List ℕ
unfolding value_in
db_value it = value_in it.direction it

-- ParseKey of a key, with `none` for a key that is corrupt, which the status keeps.
unfoldable pub parsed_status : Option ParsedInternalKey → DbStatus → DbStatus
parsed_status none status = corrupted_internal_key
parsed_status (some ikey) status = status

-- What a round of FindNextUserEntry does with an entry: go on, hide a key, or stop.
pub data Round : Type 0 where
  pass : Round
  hide : List ℕ → Round
  stop : Round

unfoldable pub by_type : Comparator → Bool → List ℕ → ParsedInternalKey → ValueType → Round
by_type c skipping skip ikey type_deletion = hide ikey.user_key
by_type c skipping skip ikey type_value =
    if skipping && not (is_gt (c.compare_keys ikey.user_key skip)) then pass else stop

unfoldable pub next_round : Comparator → ℕ → Bool → List ℕ → Option ParsedInternalKey → Round
unfolding by_type
next_round c sequence skipping skip none = pass
next_round c sequence skipping skip (some ikey) =
    if ltb sequence ikey.sequence then pass else by_type c skipping skip ikey ikey.type

-- FindNextUserEntry with the cursor on the first entry of `ahead`; `skip` is saved_key_.
unfoldable pub find_next_user_entry :
    Comparator → ℕ → Bool → DbIter → List Entry → List Entry → DbIter
unfolding rewind parsed_status next_round
find_next_user_entry c sequence skipping it front [] = record it {
  cursor = off (rewind front []);
  saved_key = [];
  valid = false;
}
find_next_user_entry c sequence skipping it front ((k, v) ∷ back) =
    let parsed = parse_internal_key k in
    let it' = record it { status = parsed_status parsed it.status } in
    elim (next_round c sequence skipping it.saved_key parsed) [
      | pass ↦ find_next_user_entry c sequence skipping it' ((k, v) ∷ front) back
      | hide key ↦
          find_next_user_entry c sequence true (record it' { saved_key = key }) ((k, v) ∷ front)
            back
      | stop ↦ record it' { cursor = at front (k, v) back; saved_key = []; valid = true }
    ]

-- A call of FindNextUserEntry at a cursor; without a valid one the callers clear valid_.
unfoldable pub find_next_at : Comparator → ℕ → Bool → DbIter → Cursor → DbIter
unfolding find_next_user_entry
find_next_at c sequence skipping it (at front e back) =
    find_next_user_entry c sequence skipping it front (e ∷ back)
find_next_at c sequence skipping it (off es) = record it { cursor = off es; valid = false }

unfoldable pub seek_to_first : Comparator → ℕ → DbIter → DbIter
unfolding all_of cursor_first find_next_at
seek_to_first c sequence it =
    find_next_at c sequence false (record it { direction = forward; saved_value = [] })
      (cursor_first (all_of it.cursor))

unfoldable pub seek : Comparator → ℕ → List ℕ → DbIter → DbIter
unfolding all_of cursor_seek find_next_at
seek c sequence target it =
    let key =
      append_internal_key []
        (record { user_key = target; sequence = sequence; type = value_type_for_seek }) in
    find_next_at c sequence false
      (record it { direction = forward; saved_value = []; saved_key = key })
      (cursor_seek (compare_internal c) key [] (all_of it.cursor))

-- Next's change of direction: into the range of the entries of saved_key_.
unfoldable pub into_range : Cursor → Cursor
unfolding cursor_first cursor_next
into_range (at front e back) = cursor_next (at front e back)
into_range (off es) = cursor_first es

unfoldable pub next_turned : Comparator → ℕ → DbIter → Cursor → DbIter
unfolding find_next_at
next_turned c sequence it (at front e back) = find_next_at c sequence true it (at front e back)
next_turned c sequence it (off es) = record it { cursor = off es; valid = false; saved_key = [] }

unfoldable pub next_in : Direction → Comparator → ℕ → DbIter → DbIter
unfolding cursor_key into_range next_turned find_next_at
next_in reverse c sequence it =
    next_turned c sequence (record it { direction = forward }) (into_range it.cursor)
next_in forward c sequence it =
    find_next_at c sequence true (record it { saved_key = extract_user_key (cursor_key it.cursor) })
      it.cursor

-- Next, of a valid iterator.
unfoldable pub next : Comparator → ℕ → DbIter → DbIter
unfolding next_in
next c sequence it = next_in it.direction c sequence it

-- The end of FindPrevUserEntry, by the type of the last entry that it took.
unfoldable pub found_prev : ValueType → DbIter → DbIter
found_prev type_deletion it = record it {
  valid = false;
  saved_key = [];
  saved_value = [];
  direction = forward;
}
found_prev type_value it = record it { valid = true }

-- Whether FindPrevUserEntry stops at an entry of an earlier key.
unfoldable pub prev_stops : Comparator → ValueType → List ℕ → List ℕ → Bool
prev_stops c type_deletion saved_key user_key = false
prev_stops c type_value saved_key user_key = is_lt (c.compare_keys user_key saved_key)

-- What it keeps of an entry.
unfoldable pub save_entry : ParsedInternalKey → List ℕ → ValueType → DbIter → DbIter
save_entry ikey value type_deletion it = record it { saved_key = []; saved_value = [] }
save_entry ikey value type_value it = record it { saved_key = ikey.user_key; saved_value = value }

-- FindPrevUserEntry with the cursor on the first entry of `behind`, whose other entries are in front
-- of it.
unfoldable pub find_prev_user_entry :
    Comparator → ℕ → ValueType → DbIter → List Entry → List Entry → DbIter
unfolding parsed_status found_prev prev_stops save_entry
find_prev_user_entry c sequence type it [] ahead =
    found_prev type (record it { cursor = off ahead })
find_prev_user_entry c sequence type it ((k, v) ∷ behind) ahead =
    let parsed = parse_internal_key k in
    let it' = record it { status = parsed_status parsed it.status } in
    let passed = find_prev_user_entry c sequence type it' behind ((k, v) ∷ ahead) in
    elim parsed [
      | none ↦ passed
      | some ikey ↦
          let taken =
            find_prev_user_entry c sequence ikey.type (save_entry ikey v ikey.type it') behind
              ((k, v) ∷ ahead) in
          if ltb sequence ikey.sequence
          then passed
          else if prev_stops c type it.saved_key ikey.user_key
          then found_prev type (record it' { cursor = at behind (k, v) ahead })
          else taken
    ]

unfoldable pub find_prev_at : Comparator → ℕ → DbIter → Cursor → DbIter
unfolding find_prev_user_entry
find_prev_at c sequence it (at front e back) =
    find_prev_user_entry c sequence type_deletion it (e ∷ front) back
find_prev_at c sequence it (off es) = find_prev_user_entry c sequence type_deletion it [] es

unfoldable pub seek_to_last : Comparator → ℕ → DbIter → DbIter
unfolding all_of cursor_last find_prev_at
seek_to_last c sequence it =
    find_prev_at c sequence (record it { direction = reverse; saved_value = [] })
      (cursor_last (all_of it.cursor))

-- Prev's change of direction: back to an entry of an earlier key.
unfoldable pub before_key : Comparator → List ℕ → List Entry → List Entry → Cursor
before_key c saved_key [] ahead = off ahead
before_key c saved_key ((k, v) ∷ behind) ahead =
    let rest = before_key c saved_key behind ((k, v) ∷ ahead) in
    if is_lt (c.compare_keys (extract_user_key k) saved_key) then at behind (k, v) ahead else rest

unfoldable pub prev_turned : Comparator → ℕ → DbIter → Cursor → DbIter
unfolding find_prev_at
prev_turned c sequence it (at front e back) =
    find_prev_at c sequence (record it { direction = reverse }) (at front e back)
prev_turned c sequence it (off es) = record it {
  cursor = off es;
  valid = false;
  saved_key = [];
  saved_value = [];
}

unfoldable pub turn_back : Comparator → List ℕ → Cursor → Cursor
unfolding before_key
turn_back c saved_key (at front e back) = before_key c saved_key front (e ∷ back)
turn_back c saved_key (off es) = off es

unfoldable pub prev_in : Direction → Comparator → ℕ → DbIter → DbIter
unfolding cursor_key turn_back prev_turned find_prev_at
prev_in forward c sequence it =
    let key = extract_user_key (cursor_key it.cursor) in
    prev_turned c sequence (record it { saved_key = key }) (turn_back c key it.cursor)
prev_in reverse c sequence it = find_prev_at c sequence it it.cursor

-- Prev, of a valid iterator.
unfoldable pub prev : Comparator → ℕ → DbIter → DbIter
unfolding prev_in
prev c sequence it = prev_in it.direction c sequence it
