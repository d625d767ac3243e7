-- ===== src/Log/Reader/Returns.antt =====
-- db/log_reader.cc: ReadRecord returns, since each physical record takes a header at least.
use ebf_leveldb_sep_kv.Base.{
  ℕ, zero, suc, ◌+◌, ◌-◌, ◌%◌, ◌^◌, ◌≤◌, ◌<◌, List, [], ◌++◌, Option, none, some, Bool, true, false,
  ltb, leb, ◌==◌, ◌&&◌, not, if◌then◌else◌, length, drop, take, length-drop, arith, ◌≡◌, refl, inl,
  inr, ◌⊎◌, Bool-cases, either,
}
use ebf_leveldb_sep_kv.Coding.{decode_fixed32}
use ebf_leveldb_sep_kv.Log.{block_size, header_size}
use ebf_leveldb_sep_kv.Log.Reader.{
  SequentialFile, Reader, Reason, Reason.bad_length, Reason.checksum_mismatch,
  Reason.partial_record, Reason.skip_failed, Reason.error_in_middle, Reason.missing_start,
  Reason.unknown_type, Pending, Round, Round.continue, Round.finish, report_drop, parse_record,
  refill, read_physical_record, begin_record, handle_record, read_round, read_loop, read_record,
  skip_to_initial_block, eof_type, bad_record, length_of, type_of, minus64, unmask, no_record,
}

-- Read and Skip take from the `size` of what is left of the file at least the bytes that they give.
pub record Shrinks {F : Type 0} (source : SequentialFile F) (size : F → ℕ) : Type 0 where
  pub read : (n : ℕ) (f : F) → size (source.read n f).0 + length (source.read n f).2 ≤ size f
  pub skip : (n : ℕ) (f : F) → size (source.skip n f).0 ≤ size f

module _ {F : Type 0} (source : SequentialFile F) (extend : ℕ → List ℕ → ℕ) (size : F → ℕ) where
  -- What is left to read.
  abbrev pub left : Reader F → ℕ
  left r = size r.file + length r.buffer

  report_drop-left :
      (n : ℕ) (why : Reason) (r : Reader F) → left (report_drop source extend n why r) ≡ left r
  unfolding report_drop
  report_drop-left n why r =
      elim (Bool-cases (
        r.reporting
        && leb r.initial_offset (minus64 (minus64 r.end_of_buffer_offset (length r.buffer)) n))) [
          | inl told ↦ rw told refl
          | inr silent ↦ rw silent refl
        ]

  begin_record-left : (p : Pending) (r : Reader F) → left (begin_record source extend p r) ≤ left r
  unfolding begin_record
  begin_record-left p r = elim (Bool-cases (p.in_fragmented_record && ltb 0 (length p.scratch))) [
    | inl told ↦ rw told (omega (arith, report_drop-left (length p.scratch) partial_record r))
    | inr silent ↦ rw silent (omega arith)
  ]

  -- What was read leaves less than `n`.
  Less : ℕ → Reader F × ℕ × List ℕ → Type 0
  Less n t = left t.0 < n

  less : {n : ℕ} (t : Reader F × ℕ × List ℕ) → left t.0 < n → Less n t
  unfolding Less
  less t h = h

  Less-left : {n : ℕ} (t : Reader F × ℕ × List ℕ) → Less n t → left t.0 < n
  unfolding Less
  Less-left t h = h

  parse_record-Less :
      (r : Reader F) (fragment : List ℕ)
      → header_size ≤ length r.buffer
      → Less (left r) (parse_record source extend r fragment)
  unfolding parse_record
  parse_record-Less r fragment h =
      let P = Less (left r) in
      let n = length r.buffer in
      let type = type_of r.buffer in
      let len = length_of r.buffer in
      let cut = length-drop (header_size + len) r.buffer in
      let cleared : Reader F = record r { buffer = [] } in
      let rest : Reader F = record r { buffer = drop (header_size + len) r.buffer } in
      let told_length = report_drop source extend n bad_length cleared in
      let told_checksum = report_drop source extend n checksum_mismatch cleared in
      let c0 : left cleared < left r = omega arith in
      let c1 : left told_length < left r = omega (arith, report_drop-left n bad_length cleared) in
      let c2 : left told_checksum < left r =
        omega (arith, report_drop-left n checksum_mismatch cleared) in
      let c3 : left rest < left r = omega (arith, cut) in
      let expected = unmask (decode_fixed32 r.buffer) in
      let actual = extend 0 (take (1 + len) (drop 6 r.buffer)) in
      let offset =
        minus64 (minus64 r.end_of_buffer_offset (length rest.buffer)) (header_size + len) in
      let kept =
        either P (ltb offset r.initial_offset) (less (rest, bad_record, []) c3)
          (less (rest, type, take len (drop header_size r.buffer)) c3) in
      let checked =
        either P (r.checksum && not (actual == expected))
          (less (told_checksum, bad_record, fragment) c2) kept in
      let skipped =
        either P ((type == 0) && (len == 0)) (less (cleared, bad_record, fragment) c0) checked in
      let too_long =
        either P r.eof (less (cleared, eof_type, fragment) c0)
          (less (told_length, bad_record, fragment) c1) in
      either P (ltb n (header_size + len)) too_long skipped

  module _ (shrinks : Shrinks source size) where
    -- A physical record is the end of the file, or leaves less than `n`.
    Progress : ℕ → Reader F × ℕ × List ℕ → Type 0
    Progress n t = (t.1 ≡ eof_type) ⊎ (left t.0 < n)

    at_end : (n : ℕ) (r : Reader F) (fragment : List ℕ) → Progress n (r, eof_type, fragment)
    unfolding Progress
    at_end n r fragment = inl refl

    parsed :
        (n : ℕ) (r : Reader F) (fragment : List ℕ)
        → header_size ≤ length r.buffer
        → left r ≤ n
        → Progress n (parse_record source extend r fragment)
    unfolding Progress
    parsed n r fragment h le = inr (omega (arith, Less-left _ (parse_record-Less r fragment h)))

    refilled :
        (r : Reader F)
        → (refill source extend r).1 ≡ true
        → left (refill source extend r).0 ≤ size r.file
    unfolding refill
    refilled r ok = elim (Bool-cases (source.read block_size r.file).1) [
      | inr failed ↦ absurd (ground (arith, rw failed at ok))
      | inl good ↦ elim (Bool-cases (ltb (length (source.read block_size r.file).2) block_size)) [
        | inl short ↦ rw (good, short) (omega (arith, shrinks.read block_size r.file))
        | inr full ↦ rw (good, full) (omega (arith, shrinks.read block_size r.file))
      ]
    ]

    after_refill :
        (r : Reader F) (fragment : List ℕ)
        → Progress (left r) (
            if (refill source extend r).1
            then if ltb (length (refill source extend r).0.buffer) header_size
              then (record (refill source extend r).0 { buffer = [] }, eof_type, fragment)
              else parse_record source extend (refill source extend r).0 fragment
            else ((refill source extend r).0, eof_type, fragment))
    after_refill r fragment = elim (Bool-cases (refill source extend r).1) [
      | inr failed ↦ rw failed (at_end (left r) (refill source extend r).0 fragment)
      | inl ok ↦
          rw ok (elim (Bool-cases (ltb (length (refill source extend r).0.buffer) header_size)) [
            | inl still ↦
                rw still
                  (at_end (left r) (record (refill source extend r).0 { buffer = [] }) fragment)
            | inr enough ↦ rw enough (
                parsed (left r) (refill source extend r).0 fragment (ground (arith, enough))
                  (omega (arith, refilled r ok)))
          ])
    ]

    read_physical_record-Progress :
        (r : Reader F) (fragment : List ℕ)
        → Progress (left r) (read_physical_record source extend r fragment)
    unfolding read_physical_record
    read_physical_record-Progress r fragment =
        let P = Progress (left r) in
        let r1 = (refill source extend r).0 in
        elim (Bool-cases (ltb (length r.buffer) header_size)) [
          | inr long ↦ rw long (parsed (left r) r fragment (ground (arith, long)) (omega arith))
          | inl short ↦ rw short (
              either P r.eof (at_end (left r) (record r { buffer = [] }) fragment)
                (after_refill r fragment))
        ]

    -- Another round with at most `n` left to read, or the return.
    Within : ℕ → Round F → Type 0
    Within n (continue r p) = left r ≤ n
    Within n (finish r result) = Unit

    goes_on : (n : ℕ) (r : Reader F) (p : Pending) → left r ≤ n → Within n (continue r p)
    unfolding Within
    goes_on n r p h = h

    ends : (n : ℕ) (r : Reader F) (result : Option (List ℕ)) → Within n (finish r result)
    unfolding Within
    ends n r result = tt

    handle_record-Within :
        (type : ℕ) (fragment : List ℕ) (offset : ℕ) (p : Pending) (r : Reader F)
        → Within (left r) (handle_record source extend type fragment offset p r)
    unfolding handle_record
    handle_record-Within type fragment offset p r =
        let P = Within (left r) in
        let n = left r in
        let dropped : Pending = record p { in_fragmented_record = false; scratch = [] } in
        let grown = p.scratch ++ fragment in
        let told : (k : ℕ) (why : Reason) (p' : Pending)
            → P (continue (report_drop source extend k why r) p') =
          λ k why p'.
            goes_on n (report_drop source extend k why r) p'
              (omega (arith, report_drop-left k why r)) in
        let same : left r ≤ left r = omega arith in
        let in_record = p.in_fragmented_record in
        let total = length fragment + (if in_record then length p.scratch else 0) in
        let bad =
          either P in_record (told (length p.scratch) error_in_middle dropped)
            (goes_on n r p same) in
        let ended =
          either P (type == eof_type) (ends n r none)
            (either P (type == bad_record) bad (told total (unknown_type type) dropped)) in
        let last =
          either P in_record
            (ends n (record r { last_record_offset = p.prospective_record_offset }) (some grown))
            (told (length fragment) missing_start p) in
        let middle =
          either P in_record (goes_on n r (record p { scratch = grown }) same)
            (told (length fragment) missing_start p) in
        let first =
          goes_on n (begin_record source extend p r)
            (record {
              in_fragmented_record = true;
              scratch = fragment;
              prospective_record_offset = offset;
            })
            (begin_record-left p r) in
        either P (type == 1)
          (ends n (record (begin_record source extend p r) { last_record_offset = offset })
            (some fragment))
          (either P (type == 2) first
            (either P (type == 3) middle (either P (type == 4) last ended)))

    -- A round returns, or leaves less than `n`.
    Falls : ℕ → Round F × List ℕ → Type 0
    Falls n (continue r p, fragment) = left r < n
    Falls n (finish r result, fragment) = Unit

    falls :
        (n : ℕ) (r : Reader F) (p : Pending) (fragment : List ℕ)
        → left r < n
        → Falls n (continue r p, fragment)
    unfolding Falls
    falls n r p fragment h = h

    Within-Falls :
        (m n : ℕ) (round : Round F) (fragment : List ℕ)
        → m < n
        → Within m round
        → Falls n (round, fragment)
    unfolding Within Falls
    Within-Falls m n (continue r p) fragment lt h = omega arith
    Within-Falls m n (finish r result) fragment lt h = tt

    -- The end of the file ends the round, also while the reader resynchronizes.
    eof_Falls :
        (n type : ℕ) (fragment : List ℕ) (offset : ℕ) (p : Pending) (r : Reader F)
        → type ≡ eof_type
        → Falls n (handle_record source extend type fragment offset p r, fragment)
    unfolding Falls handle_record
    eof_Falls n type fragment offset p r e = rw e tt

    eof_round :
        (n type : ℕ) (b : Bool) (x y z : Round F × List ℕ)
        → type ≡ eof_type
        → Falls n z
        → Falls n (if b then if type == 3 then x else if type == 4 then y else z else z)
    eof_round n type b x y z e h = rw e (either (Falls n) b h h)

    read_round-Falls :
        (p : Pending) (fragment : List ℕ) (r : Reader F)
        → Falls (left r) (read_round source extend p fragment r)
    unfolding read_round Progress
    read_round-Falls p fragment r =
        let P = Falls (left r) in
        let t = read_physical_record source extend r fragment in
        let r1 = t.0 in
        let type = t.1 in
        let synced : Reader F = record r1 { resyncing = false } in
        let offset =
          minus64 (minus64 r1.end_of_buffer_offset (length r1.buffer)) (header_size + length t.2) in
        elim (read_physical_record-Progress r fragment) [
          | inl e ↦
              eof_round (left r) type r1.resyncing _ _ _ e
                (eof_Falls (left r) type t.2 offset p synced e)
          | inr lt ↦
              let handled : P (handle_record source extend type t.2 offset p synced, t.2) =
                Within-Falls (left r1) (left r)
                  (handle_record source extend type t.2 offset p synced) t.2 lt
                  (handle_record-Within type t.2 offset p synced) in
              either P r1.resyncing
                (either P (type == 3) (falls (left r) r1 p t.2 lt)
                  (either P (type == 4) (falls (left r) synced p t.2 lt) handled))
                handled
        ]

    one_round :
        (fuel : ℕ) (p : Pending) (fragment : List ℕ) (r : Reader F) (round : Round F)
        → (read_round source extend p fragment r).0 ≡ round
        → Falls (left r) (round, (read_round source extend p fragment r).1)
        → ((p' : Pending) (fragment' : List ℕ) (r' : Reader F)
            → left r' < left r
            → (s : Reader F) × (result : Option (List ℕ)) × (read_loop source extend fuel p'
                  fragment' r'
                ≡ some (s, result)))
        → (s : Reader F) × (result : Option (List ℕ)) × (read_loop source extend
              (suc fuel)
              p
              fragment
              r
            ≡ some (s, result))
    unfolding Falls read_loop
    one_round fuel p fragment r (continue r' p') e h more =
        let (s, result, done) = more p' (read_round source extend p fragment r).1 r' h in
        (s, result, rw (read_loop, e) done)
    one_round fuel p fragment r (finish r' found) e h more = (r', found, rw (read_loop, e) refl)

    read_loop-returns :
        (fuel : ℕ) (p : Pending) (fragment : List ℕ) (r : Reader F)
        → left r < fuel
        → (s : Reader F) × (result : Option (List ℕ)) × (read_loop source extend fuel p fragment r
            ≡ some (s, result))
    read_loop-returns zero p fragment r lt = elim lt [ ]
    read_loop-returns (suc fuel) p fragment r lt =
        one_round fuel p fragment r (read_round source extend p fragment r).0 refl
          (read_round-Falls p fragment r)
          (λ p' fragment' r' less_now. read_loop-returns fuel p' fragment' r' (omega arith))

    Kept : ℕ → Reader F × Bool → Type 0
    Kept n t = left t.0 ≤ n

    kept : (n : ℕ) (t : Reader F × Bool) → left t.0 ≤ n → Kept n t
    unfolding Kept
    kept n t h = h

    Kept-left : (n : ℕ) (t : Reader F × Bool) → Kept n t → left t.0 ≤ n
    unfolding Kept
    Kept-left n t h = h

    skip_to_initial_block-Kept :
        (r : Reader F) → Kept (left r) (skip_to_initial_block source extend r)
    unfolding skip_to_initial_block
    skip_to_initial_block-Kept r =
        let P = Kept (left r) in
        let in_block = r.initial_offset % block_size in
        let start = r.initial_offset - in_block in
        let start' =
          if ltb (block_size - 6) in_block then (start + block_size) % 2 ^ 64 else start in
        let r1 : Reader F = record r { end_of_buffer_offset = start' } in
        let r2 : Reader F = record r1 { file = (source.skip start' r.file).0 } in
        let c1 : left r1 ≤ left r = omega arith in
        let c2 : left r2 ≤ left r = omega (arith, shrinks.skip start' r.file) in
        let told = report_drop source extend start' skip_failed r2 in
        let c3 : left told ≤ left r = omega (arith, c2, report_drop-left start' skip_failed r2) in
        either P (ltb 0 start')
          (either P (source.skip start' r.file).1 (kept (left r) (r2, true) c2)
            (kept (left r) (told, false) c3))
          (kept (left r) (r1, true) c1)

    skipped : (r : Reader F) → left (skip_to_initial_block source extend r).0 ≤ left r
    skipped r = Kept-left (left r) _ (skip_to_initial_block-Kept r)

    -- ReadRecord returns, a record or none, on every file from whose size Read and Skip take what
    -- they give: its loop takes no more rounds than there are bytes left in the file and the buffer,
    -- and one.
    pub read_record-returns :
        (r : Reader F)
        → (s : Reader F) × (result : Option (List ℕ)) × (read_record source extend
              (size r.file + length r.buffer + 1)
              r
            ≡ some (s, result))
    unfolding read_record
    read_record-returns r =
        let fuel = size r.file + length r.buffer + 1 in
        let r1 = (skip_to_initial_block source extend r).0 in
        elim (Bool-cases (ltb r.last_record_offset r.initial_offset)) [
          | inr later ↦
              let (s, result, done) = read_loop-returns fuel no_record [] r (omega arith) in
              (s, result, rw later done)
          | inl early ↦ elim (Bool-cases (skip_to_initial_block source extend r).1) [
            | inr failed ↦ (r1, none, rw (early, failed) refl)
            | inl ok ↦
                let (s, result, done) =
                  read_loop-returns fuel no_record [] r1 (omega (arith, skipped r)) in
                (s, result, rw (early, ok) done)
          ]
        ]
