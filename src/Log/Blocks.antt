-- ===== src/Log/Blocks.antt =====
-- db/log_writer.cc: the writer keeps its place in the block, and AddRecord ends.
use ebf_leveldb_sep_kv.Base.{
  ℕ, zero, suc, ◌+◌, ◌*◌, ◌≤◌, ◌<◌, List, some, Bool, true, false, ltb, ◌==◌, ◌&&◌, length, take,
  drop, arith, length-take, length-drop, ◌≡◌, refl, inl, inr, ◌⊎◌, Bool-cases,
}
use ebf_leveldb_sep_kv.Log.{
  block_size, header_size, WritableFile, Writer, record_type, emit_physical_record, switch_block,
  avail, fragment_length, add_record_loop, add_record,
}

module _ {F : Type 0} (file : WritableFile F) (extend : ℕ → List ℕ → ℕ) where
  -- After switch_block a header's room is left in the block.
  switch_block-room :
      (w : Writer F)
      → w.block_offset ≤ block_size
      → (switch_block file extend w).block_offset + header_size ≤ block_size
  unfolding switch_block
  switch_block-room w h = ground arith

  -- At a block's end the next fragment begins a new block.
  switch_block-end :
      (w : Writer F)
      → block_size < w.block_offset + header_size
      → (switch_block file extend w).block_offset ≡ 0
  unfolding switch_block
  switch_block-end w h = ground arith

  -- The writer's offset when a fragment of the slice is written, and what is left of the slice.
  after : List ℕ → Bool → Writer F → Writer F × Bool
  after slice begin w =
      let w1 = switch_block file extend w in
      let n = fragment_length file extend (length slice) w1 in
      emit_physical_record file extend (record_type begin (length slice == n)) (take n slice) w1

  pieces : List ℕ → Writer F → ℕ
  pieces slice w = fragment_length file extend (length slice) (switch_block file extend w)

  abbrev Enough : ℕ → List ℕ → Writer F → Type 0
  Enough fuel slice w =
      (2 * length slice + 2 ≤ fuel)
      ⊎ ((2 * length slice + 1 ≤ fuel)
          × ((switch_block file extend w).block_offset + header_size < block_size))

  pieces-le : (slice : List ℕ) (w : Writer F) → pieces slice w ≤ length slice
  unfolding pieces fragment_length avail
  pieces-le slice w = ground arith

  pieces-fit :
      (slice : List ℕ) (w : Writer F)
      → w.block_offset ≤ block_size
      → (switch_block file extend w).block_offset + header_size + pieces slice w ≤ block_size
  unfolding pieces fragment_length avail
  pieces-fit slice w h = ground (arith, switch_block-room w h)

  pieces-fill :
      (slice : List ℕ) (w : Writer F)
      → w.block_offset ≤ block_size
      → pieces slice w < length slice
      → (switch_block file extend w).block_offset + header_size + pieces slice w ≡ block_size
  unfolding pieces fragment_length avail
  pieces-fill slice w h part = ground (arith, switch_block-room w h)

  offset_after :
      (slice : List ℕ) (begin : Bool) (w : Writer F)
      → (after slice begin w).0.block_offset
        ≡ (switch_block file extend w).block_offset + header_size + pieces slice w
  unfolding after pieces emit_physical_record
  offset_after slice begin w = omega (arith, length-take (pieces slice w) slice, pieces-le slice w)

  round :
      (fuel : ℕ) (slice : List ℕ) (begin : Bool) (w : Writer F)
      → w.block_offset ≤ block_size
      → Enough (suc fuel) slice w
      → 0 < length (drop (pieces slice w) slice)
      → Enough fuel (drop (pieces slice w) slice) (after slice begin w).0
  round fuel slice begin w h enough more =
      let left = length-drop (pieces slice w) slice in
      let full = pieces-fill slice w h (omega (arith, left)) in
      let next =
        switch_block-end (after slice begin w).0
          (omega (arith, offset_after slice begin w, full)) in
      elim enough [
        | inl two ↦ inr (omega (arith, left), omega (arith, next))
        | inr (one, room) ↦ inr (omega (arith, left, full), omega (arith, next))
      ]

  -- The loop of AddRecord with enough fuel returns, and keeps the offset within the block.
  add_record_loop-ends :
      (fuel : ℕ) (slice : List ℕ) (begin : Bool) (w : Writer F)
      → w.block_offset ≤ block_size
      → Enough fuel slice w
      → (w' : Writer F) × (ok : Bool) × (add_record_loop file extend fuel begin slice w
          ≡ some (w', ok))
        × (w'.block_offset ≤ block_size)
  unfolding add_record_loop after pieces
  add_record_loop-ends zero slice begin w h enough = elim enough [
    | inl two ↦ absurd (omega arith)
    | inr (one, _) ↦ absurd (omega arith)
  ]
  add_record_loop-ends (suc fuel) slice begin w h enough =
      let fits : (after slice begin w).0.block_offset ≤ block_size =
        omega (arith, offset_after slice begin w, pieces-fit slice w h) in
      elim (Bool-cases ((after slice begin w).1 && ltb 0 (length (drop (pieces slice w) slice)))) [
        | inr last ↦ ((after slice begin w).0, (after slice begin w).1, rw last refl, fits)
        | inl again ↦
            let (w', ok, e, done) =
              add_record_loop-ends fuel (drop (pieces slice w) slice) false (after slice begin w).0
                fits (round fuel slice begin w h enough (ground (arith, again))) in
            (w', ok, rw again e, done)
      ]

  -- AddRecord, from an offset within a block, returns whatever the file answers to each Append and
  -- Flush, and leaves the offset within a block.
  pub add_record-ends :
      (slice : List ℕ) (w : Writer F)
      → w.block_offset ≤ block_size
      → (w' : Writer F) × (ok : Bool) × (add_record file extend slice w ≡ some (w', ok))
        × (w'.block_offset ≤ block_size)
  unfolding add_record
  add_record-ends slice w h =
      add_record_loop-ends (2 * length slice + 2) slice true w h (inl (omega arith))
