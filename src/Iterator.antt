-- ===== src/Iterator.antt =====
-- include/leveldb/iterator.h: what the interface promises, as a cursor over a list of entries.
use ebf_leveldb_sep_kv.Base.{ℕ, List, [], ◌∷◌, Bool, true, false, if◌then◌else◌}
use Prim.Native.Nat.{Ordering}
use ebf_leveldb_sep_kv.DbFormat.{is_lt}

-- A key and a value.
abbrev pub Entry : Type 0
Entry = List ℕ × List ℕ

-- An iterator: on an entry, with those in front of it, the nearest first, and those
-- behind it; or not valid, with all of them.
pub data Cursor : Type 0 where
  at : List Entry → Entry → List Entry → Cursor
  off : List Entry → Cursor

unfoldable pub rewind : List Entry → List Entry → List Entry
rewind [] back = back
rewind (e ∷ front) back = rewind front (e ∷ back)

unfoldable pub all_of : Cursor → List Entry
unfolding rewind
all_of (at front e back) = rewind front (e ∷ back)
all_of (off es) = es

unfoldable pub cursor_valid : Cursor → Bool
cursor_valid (at front e back) = true
cursor_valid (off es) = false

unfoldable pub cursor_key : Cursor → List ℕ
cursor_key (at front (k, v) back) = k
cursor_key (off es) = []

unfoldable pub cursor_value : Cursor → List ℕ
cursor_value (at front (k, v) back) = v
cursor_value (off es) = []

unfoldable pub cursor_first : List Entry → Cursor
cursor_first [] = off []
cursor_first (e ∷ es) = at [] e es

unfoldable pub cursor_next : Cursor → Cursor
unfolding rewind
cursor_next (at front e []) = off (rewind front (e ∷ []))
cursor_next (at front e (x ∷ back)) = at (e ∷ front) x back
cursor_next (off es) = off es

unfoldable pub cursor_prev : Cursor → Cursor
cursor_prev (at [] e back) = off (e ∷ back)
cursor_prev (at (x ∷ front) e back) = at front x (e ∷ back)
cursor_prev (off es) = off es

unfoldable pub last_from : List Entry → Entry → List Entry → Cursor
last_from front e [] = at front e []
last_from front e (x ∷ back) = last_from (e ∷ front) x back

unfoldable pub cursor_last : List Entry → Cursor
unfolding last_from
cursor_last [] = off []
cursor_last (e ∷ es) = last_from [] e es

-- Seek under an order on the keys.
unfoldable pub cursor_seek :
    (List ℕ → List ℕ → Ordering) → List ℕ → List Entry → List Entry → Cursor
unfolding rewind
cursor_seek order target front [] = off (rewind front [])
cursor_seek order target front ((k, v) ∷ back) =
    let rest = cursor_seek order target ((k, v) ∷ front) back in
    if is_lt (order k target) then rest else at front (k, v) back
