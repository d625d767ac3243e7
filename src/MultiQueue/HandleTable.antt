-- ===== src/MultiQueue/HandleTable.antt =====
-- HandleTable of util/multi_queue.cc: buckets of chained cache entries. An entry is its hash, its
-- key and the number of its handle; the array `list_` is a function from a bucket's index, read
-- below `length` only, and a chain is the list of its entries from the head on.
pub mod Laws
pub mod Grow
use ebf_leveldb_sep_kv.Base.{
  ℕ, zero, suc, ◌+◌, ◌-◌, ◌*◌, ◌%◌, bit_and, List, [], ◌∷◌, ◌++◌, Option, none, some, Bool, true,
  false, ltb, leb, ◌==◌, ◌&&◌, if◌then◌else◌,
}

pub record Entry : Type 0 where
  pub hash : ℕ
  pub key : List ℕ
  pub handle : ℕ

pub record HandleTable : Type 0 where
  pub length : ℕ
  pub elems : ℕ
  pub list : ℕ → List Entry

-- `key == (*ptr)->key()`, byte by byte.
abbrev pub key_eq : List ℕ → List ℕ → Bool
key_eq [] [] = true
key_eq [] (b ∷ bs) = false
key_eq (a ∷ k) [] = false
key_eq (a ∷ k) (b ∷ bs) = (a == b) && key_eq k bs

-- The test of FindPointer's loop.
unfoldable pub is_entry : List ℕ → ℕ → Entry → Bool
is_entry key hash e = (e.hash == hash) && key_eq e.key key

-- The chain up to the slot that FindPointer returns, and from that slot on.
unfoldable pub find_pointer : List ℕ → ℕ → List Entry → List Entry × List Entry
find_pointer key hash [] = ([], [])
find_pointer key hash (e ∷ chain) =
    let (before, after) = find_pointer key hash chain in
    if is_entry key hash e then ([], e ∷ chain) else (e ∷ before, after)

-- `hash & (length_ - 1)`.
abbrev pub bucket : HandleTable → ℕ → ℕ
bucket t hash = bit_and hash (t.length - 1)

abbrev pub set_bucket : (ℕ → List Entry) → ℕ → List Entry → ℕ → List Entry
set_bucket list i chain j = if j == i then chain else list j

-- What stands at the slot, with the handle there, the chain behind it, and an entry put in.
abbrev pub head_handle : List Entry → Option ℕ
head_handle [] = none
head_handle (e ∷ after) = some e.handle

abbrev pub next_of : List Entry → List Entry
next_of [] = []
next_of (e ∷ after) = after

abbrev pub put_at : Entry → List Entry → List Entry
put_at h slot = h ∷ next_of slot

unfoldable pub lookup : HandleTable → List ℕ → ℕ → Option ℕ
lookup t key hash = head_handle (find_pointer key hash (t.list (bucket t hash))).1

-- The length that Resize picks: doubled from 131072 while it is below `elems`.
unfoldable pub grow : ℕ → ℕ → ℕ → ℕ
grow zero elems new_length = new_length
grow (suc fuel) elems new_length =
    let more = grow fuel elems (new_length * 2) in if ltb new_length elems then more else new_length

abbrev pub first_length : ℕ
first_length = 131072

-- Resize pushes each entry at the head of its new bucket, bucket by bucket.
unfoldable pub rehash_chain : ℕ → List Entry → (ℕ → List Entry) → ℕ → List Entry
rehash_chain new_length [] list = list
rehash_chain new_length (e ∷ chain) list =
    let i = bit_and e.hash (new_length - 1) in
    rehash_chain new_length chain (set_bucket list i (e ∷ list i))

unfoldable pub rehash : ℕ → ℕ → ℕ → (ℕ → List Entry) → (ℕ → List Entry) → ℕ → List Entry
rehash new_length zero i old list = list
rehash new_length (suc left) i old list =
    rehash new_length left (i + 1) old (rehash_chain new_length (old i) list)

-- 33 doublings pass every uint32_t.
unfoldable pub resize : HandleTable → HandleTable
unfolding grow rehash rehash_chain
resize t =
    let new_length = grow 33 t.elems first_length in
    record t { length = new_length; list = rehash new_length t.length 0 t.list (λ i. []) }

unfoldable pub empty : HandleTable
unfolding resize
empty = resize (record { length = 0; elems = 0; list = λ i. [] })

-- Insert: the entry takes the place of the one with its key, which is returned, or goes to the
-- end of the chain; then the table may grow.
abbrev pub link : HandleTable → Entry → HandleTable
link t h =
    let i = bucket t h.hash in
    let found = find_pointer h.key h.hash (t.list i) in
    record t { list = set_bucket t.list i (found.0 ++ put_at h found.1) }

unfoldable pub insert : HandleTable → Entry → HandleTable × Option ℕ
insert t h = elim (lookup t h.key h.hash) [
  | some old ↦ (link t h, some old)
  | none ↦
      let t' = record (link t h) { elems = t.elems + 1 } in
      (if ltb t'.length t'.elems then resize t' else t', none)
]

unfoldable pub remove : HandleTable → List ℕ → ℕ → HandleTable × Option ℕ
remove t key hash =
    let i = bucket t hash in
    let found = find_pointer key hash (t.list i) in
    let unlinked = set_bucket t.list i (found.0 ++ next_of found.1) in
    elim (lookup t key hash) [
      | none ↦ (t, none)
      | some old ↦ (record t { elems = t.elems - 1; list = unlinked }, some old)
    ]
