-- ===== src/Block/Seek.antt =====
-- table/block.cc: Seek in a finished block against a scan of its entries.
use ebf_leveldb_sep_kv.Base.{
  drop, false, ℕ, zero, suc, ◌+◌, ◌-◌, ◌/◌, ◌%◌, ◌^◌, ◌≤◌, ◌<◌, List, [], ◌∷◌, ◌++◌, some, true,
  ltb, length, ◌≡◌, refl, ap, sym, ◌∙◌, arith, All, All-append_right, Bool-cases, inl, inr,
  length-append, ltb→lt,
}
use mathlib.Core.Option as Option
use mathlib.Core.Path.{subst}
use mathlib.Core.List.{append_assoc}
use ebf_leveldb_sep_kv.Comparator.{Comparator}
use ebf_leveldb_sep_kv.DbFormat.{is_lt}
use ebf_leveldb_sep_kv.BlockBuilder.{new_builder, finish}
use ebf_leveldb_sep_kv.BlockBuilder.Encoded.{
  add_all, finish-block_of, next_counter, encoded, shared_of, block_of, entries_of, restarts_of,
}
use ebf_leveldb_sep_kv.BlockBuilder.Split.{points-Split, shared_of-nil}
use ebf_leveldb_sep_kv.Block.{
  Iter, found, ok, next_entry_offset, restart_point, region, decode_entry, seek_to_restart_point,
  RestartKey.key_at, restart_key, search_restarts, seek, new_iterator, new_block, new_iter,
  block_iterator,
}
use ebf_leveldb_sep_kv.Block.Parsed.{Ready, s, body, decoded, take_exact}
use ebf_leveldb_sep_kv.Block.RoundTrip.{length-encoded}
use ebf_leveldb_sep_kv.Block.Opened.{
  opened, iter_of, tail_of, body_small, count_bound, restart_point-array,
}
use ebf_leveldb_sep_kv.Block.Scan.{
  IsAscending, IsTransitive, first_not_before, outcome, Before, first_not_before-append,
  front-Before, search_entries-scan,
}

-- A finished block below 4 GB in the order of its keys, and an iterator over it.
module _ (c : Comparator) (target : List ℕ) (interval : ℕ) (es : List (List ℕ × List ℕ))
    (fits : length (block_of interval es) < 2 ^ 32)
    (keys : All (λ (e : List ℕ × List ℕ). length e.0 < 2 ^ 32) es) (trans : IsTransitive c)
    (sorted : IsAscending c es) (it : Iter) (bytes : it.contents ≡ block_of interval es)
    (at : it.restarts ≡ length (entries_of interval es)) where
  -- A restart point from which the linear search may start.
  record Start (left : ℕ) : Type 0 where
    pre : List (List ℕ × List ℕ)
    post : List (List ℕ × List ℕ)
    before : List ℕ
    counter : ℕ
    parts : es ≡ pre ++ post
    split : entries_of interval es ≡ before ++ encoded interval counter [] post
    place : restart_point it left ≡ length before
    less : All (Before c target) pre

  first_Start : Start 0
  first_Start = record {
    pre = [];
    post = es;
    before = [];
    counter = 0;
    parts = refl;
    split = refl;
    place = restart_point-array interval es fits it 0 bytes at (omega arith);
    less = tt;
  }

  ready :
      (left : ℕ) (post : List (List ℕ × List ℕ)) (before : List ℕ) (counter : ℕ)
      → entries_of interval es ≡ before ++ encoded interval counter [] post
      → restart_point it left ≡ length before
      → Ready interval
          (seek_to_restart_point left it)
          before
          counter
          post
          (tail_of interval es fits)
  unfolding seek_to_restart_point next_entry_offset
  ready left post before counter split place =
      let total = length-append before (encoded interval counter [] post) in
      let size = ap length split in
      let small = body_small interval es fits in
      record {
        bytes =
            bytes
            ∙ ap (λ t. t ++ tail_of interval es fits) split
            ∙ append_assoc before (encoded interval counter [] post) (tail_of interval es fits);
        end = omega (arith, at);
        at = rw place (omega arith);
        small = omega (arith, at);
        key_small = omega arith;
      }

  middle_key :
      (mid : ℕ) (k v : List ℕ) (post : List (List ℕ × List ℕ)) (before : List ℕ) (counter : ℕ)
      → length k < 2 ^ 32
      → entries_of interval es ≡ before ++ encoded interval counter [] ((k, v) ∷ post)
      → restart_point it mid ≡ length before
      → restart_key it mid ≡ key_at k
  unfolding restart_key seek_to_restart_point
  middle_key mid k v post before counter small split place =
      let there = seek_to_restart_point mid it in
      let r = ready mid ((k, v) ∷ post) before counter split place in
      let tail = tail_of interval es fits in
      let b = body interval there before counter k v post tail r small in
      let none_shared = shared_of-nil interval counter k in
      let next : next_entry_offset there ≡ restart_point it mid = r.at ∙ sym place in
      let entry : decode_entry (region it (restart_point it mid))
          ≡ some (
            shared_of interval counter [] k,
            length k - shared_of interval counter [] k,
            length v,
            b,
          ) =
        ap (λ t. decode_entry (region there t)) (sym next)
        ∙ decoded interval there before counter k v post tail r small in
      let later = encoded interval (next_counter interval counter) k post in
      let within : ltb (length (drop 0 k ++ (v ++ later))) (length k - 0) ≡ false =
        ground (arith, length-append k (v ++ later)) in
      rw (restart_key, entry, none_shared, within)
        (ap key_at (
          take_exact (length k - 0) k (v ++ encoded interval (next_counter interval counter) k post)
            (omega arith)))

  abbrev count : ℕ
  count = length (restarts_of interval es)

  -- A round of the search: the key at the middle, and where it is before the target a new start.
  round :
      (mid : ℕ)
      → 0 < mid
      → mid < count
      → (k : List ℕ) × (restart_key it mid ≡ key_at k)
        × (is_lt (c.compare_keys k target) ≡ true → Start mid)
  round zero h lt = absurd (omega arith)
  round (suc j) h lt =
      let sp =
        points-Split interval 0 0 [] es (omega (arith, body_small interval es fits)) j
          (omega arith) in
      let place : restart_point it (suc j) ≡ length sp.before =
        restart_point-array interval es fits it (suc j) bytes at lt ∙ sp.place ∙ (omega arith) in
      let small : length sp.key < 2 ^ 32 =
        (All-append_right (λ (e : List ℕ × List ℕ). length e.0 < 2 ^ 32) sp.pre
          ((sp.key, sp.value) ∷ sp.post)
          (subst (All (λ (e : List ℕ × List ℕ). length e.0 < 2 ^ 32)) sp.parts keys)).0 in
      (
        sp.key,
        middle_key (suc j) sp.key sp.value sp.post sp.before sp.counter small sp.bytes_lem place,
        λ less. record {
          pre = sp.pre;
          post = (sp.key, sp.value) ∷ sp.post;
          before = sp.before;
          counter = sp.counter;
          parts = sp.parts;
          split = sp.bytes_lem;
          place = place;
          less =
              front-Before c target sp.pre sp.key sp.value sp.post trans
                (subst (IsAscending c) sp.parts sorted) less;
        },
      )

  search_found :
      (fuel left right : ℕ)
      → right - left < fuel
      → left ≤ right
      → right < count
      → Start left
      → (l : ℕ) × (search_restarts c target it fuel left right ≡ found l) × Start l
  unfolding search_restarts
  search_found zero left right f le lt st = elim f [ ]
  search_found (suc fuel) left right f le lt st =
      let bound = count_bound interval es fits in
      let mid = (left + right + 1) % 2 ^ 32 / 2 in
      elim (Bool-cases (ltb left right)) [
        | inl more ↦
            let less : left < right = ltb→lt left right more in
            let (k, is_key, start) = round mid (omega arith) (omega arith) in
            elim (Bool-cases (is_lt (c.compare_keys k target))) [
              | inl up ↦
                  rw (more, is_key, up)
                    (search_found fuel mid right (omega arith) (omega arith) lt (start up))
              | inr down ↦
                  rw (more, is_key, down)
                    (search_found fuel left (mid - 1) (omega arith) (omega arith) (omega arith) st)
            ]
        | inr over ↦ rw over (left, refl, st)
      ]

  -- Seek from an iterator with status OK.
  seek_found :
      it.num_restarts ≡ count
      → it.status ≡ ok
      → Option.map outcome (seek c target it) ≡ some (first_not_before c target es, ok)
  unfolding seek
  seek_found n st =
      let (l, is_found, s) =
        search_found (it.num_restarts + 1) 0 (it.num_restarts - 1) (omega arith) (omega arith)
          (omega arith) first_Start in
      let scan = first_not_before-append c target s.pre s.post s.less in
      let size = length-append s.pre s.post in
      let all = ap length s.parts in
      rw (seek, is_found)
        (search_entries-scan c target interval (it.restarts + 1) (seek_to_restart_point l it)
            s.before s.counter s.post (tail_of interval es fits)
            (ready l s.post s.before s.counter s.split s.place)
            (All-append_right (λ (e : List ℕ × List ℕ). length e.0 < 2 ^ 32) s.pre s.post
              (subst (All (λ (e : List ℕ × List ℕ). length e.0 < 2 ^ 32)) s.parts keys))
            (omega (arith, at, length-encoded interval 0 [] es)) st
          ∙ ap (λ t. some (t, ok)) (sym (ap (first_not_before c target) s.parts ∙ scan)))

iterator_eq : {i j : Iter} → block_iterator i ≡ block_iterator j → i ≡ j
iterator_eq e = cc

-- For a transitive order, entries in ascending order of their keys, keys below 4 GB and a block below
-- 4 GB: Seek on the iterator over the block that Finish leaves after an Add for each entry ends with
-- status OK, on the first entry whose key is not before the target, or nowhere if there is none.
pub seek-first_not_before :
    (c : Comparator) (target : List ℕ) (interval : ℕ) (es : List (List ℕ × List ℕ)) (it : Iter)
    → IsTransitive c
    → IsAscending c es
    → All (λ e. length e.0 < 2 ^ 32) es
    → length (finish (add_all interval es new_builder)).buffer < 2 ^ 32
    → new_iterator (new_block (finish (add_all interval es new_builder)).buffer) ≡ block_iterator it
    → Option.map outcome (seek c target it) ≡ some (first_not_before c target es, ok)
unfolding encoded new_iter
seek-first_not_before c target interval es it trans sorted keys small e =
    let whole = finish-block_of interval es in
    let fits : length (block_of interval es) < 2 ^ 32 = omega (arith, small, ap length whole) in
    let same : it ≡ iter_of interval es fits =
      iterator_eq (sym e ∙ ap (λ t. new_iterator (new_block t)) whole ∙ opened interval es fits) in
    ap (λ i. Option.map outcome (seek c target i)) same
    ∙ seek_found c target interval es fits keys trans sorted (iter_of interval es fits) refl refl
        refl refl
