-- ===== src/BlockBuilder.antt =====
-- table/block_builder.cc: the builder of a block with prefix-compressed keys. `interval` is the
-- option block_restart_interval; the asserts of the source are preconditions of its callers.
pub mod Encoded
pub mod Split
use ebf_leveldb_sep_kv.Base.{
  ℕ, zero, suc, ◌+◌, ◌-◌, ◌*◌, ◌%◌, ◌^◌, List, [], ◌∷◌, ◌++◌, Bool, true, false, ltb, ◌==◌,
  if◌then◌else◌, length, take, drop,
}
use ebf_leveldb_sep_kv.Coding.{put_fixed32, put_varint32}

pub record BlockBuilder : Type 0 where
  pub buffer : List ℕ
  pub restarts : List ℕ
  pub counter : ℕ
  pub finished : Bool
  pub last_key : List ℕ

-- The constructor and Reset: the first restart point is at offset 0.
unfoldable pub new_builder : BlockBuilder
new_builder = record {
  buffer = [];
  restarts = 0 ∷ [];
  counter = 0;
  finished = false;
  last_key = [];
}

unfoldable pub current_size_estimate : BlockBuilder → ℕ
current_size_estimate b = length b.buffer + length b.restarts * 4 + 4

-- `while (shared < min_length && last_key_piece[shared] == key[shared]) shared++`.
unfoldable pub common_prefix : List ℕ → List ℕ → ℕ
common_prefix [] key = 0
common_prefix (x ∷ xs) [] = 0
common_prefix (x ∷ xs) (y ∷ ys) = let rest = common_prefix xs ys in if x == y then suc rest else 0

-- The part of Add behind the choice of `shared`.
unfoldable pub add_entry : List ℕ → List ℕ → ℕ → BlockBuilder → BlockBuilder
add_entry key value shared b =
    let non_shared = length key - shared in
    let buffer = put_varint32 b.buffer (shared % 2 ^ 32) in
    let buffer = put_varint32 buffer (non_shared % 2 ^ 32) in
    let buffer = put_varint32 buffer (length value % 2 ^ 32) in
    record b {
      buffer = (buffer ++ drop shared key) ++ value;
      last_key = take shared b.last_key ++ drop shared key;
      counter = b.counter + 1;
    }

unfoldable pub add : ℕ → List ℕ → List ℕ → BlockBuilder → BlockBuilder
unfolding add_entry common_prefix
add interval key value b =
    if ltb b.counter interval
    then add_entry key value (common_prefix b.last_key key) b
    else add_entry key value 0
        (record b { restarts = b.restarts ++ (length b.buffer % 2 ^ 32 ∷ []); counter = 0 })

unfoldable pub append_restarts : List ℕ → List ℕ → List ℕ
append_restarts [] buffer = buffer
append_restarts (r ∷ restarts) buffer = append_restarts restarts (put_fixed32 buffer r)

-- Finish; the slice that it returns is the whole buffer.
unfoldable pub finish : BlockBuilder → BlockBuilder
unfolding append_restarts
finish b = if b.finished then b else record b {
  buffer = put_fixed32 (append_restarts b.restarts b.buffer) (length b.restarts % 2 ^ 32);
  finished = true;
}
