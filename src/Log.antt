-- ===== src/Log.antt =====
-- db/log_writer.cc and db/log_format.h: the writer of the write-ahead log. A record is cut into
-- fragments that each fit in what is left of a block of 32 KB, behind a header of seven bytes. The
-- file it writes to and the checksum of util/crc32c.cc are parameters: Append and Flush give the
-- file afterwards and whether the status is ok, `extend` is crc32c::Extend.
pub mod Blocks
pub mod Reader
use ebf_leveldb_sep_kv.Base.{
  ℕ, zero, suc, ◌+◌, ◌-◌, ◌*◌, ◌/◌, ◌%◌, ◌^◌, bit_and, bit_or, List, [], ◌∷◌, ◌++◌, Option, none,
  some, Bool, true, false, ltb, ◌==◌, ◌&&◌, if◌then◌else◌, length, take, drop, replicate,
}
use ebf_leveldb_sep_kv.Coding.{encode_fixed32}

abbrev pub block_size : ℕ
block_size = 32768

abbrev pub header_size : ℕ
header_size = 7

pub data RecordType : Type 0 where
  zero_type full_type first_type middle_type last_type : RecordType

unfoldable pub type_code : RecordType → ℕ
type_code zero_type = 0
type_code full_type = 1
type_code first_type = 2
type_code middle_type = 3
type_code last_type = 4

-- WritableFile: the file afterwards, and whether the status is ok.
pub record WritableFile (F : Type 0) : Type 0 where
  pub append : List ℕ → F → F × Bool
  pub flush : F → F × Bool

pub record Writer (F : Type 0) : Type 0 where
  pub dest : F
  pub block_offset : ℕ

-- The type of a fragment: is it the first one, is it the last one.
unfoldable pub record_type : Bool → Bool → RecordType
record_type begin end =
    if begin && end
    then full_type
    else if begin
    then first_type
    else if end
    then last_type
    else middle_type

-- crc32c::Mask: rotate right by 15 bits and add a constant.
unfoldable pub mask : ℕ → ℕ
mask crc = (bit_or (crc / 2 ^ 15) (crc * 2 ^ 17 % 2 ^ 32) + 2726488792) % 2 ^ 32

module _ {F : Type 0} (file : WritableFile F) (extend : ℕ → List ℕ → ℕ) where
  unfoldable pub open_writer : F → ℕ → Writer F
  open_writer dest dest_length = record { dest = dest; block_offset = dest_length % block_size }

  -- The header in front of a fragment; `extend 0` of the type's byte is the writer's `type_crc_`.
  unfoldable pub physical_header : RecordType → List ℕ → List ℕ
  physical_header t fragment =
      encode_fixed32 (mask (extend (extend 0 (type_code t ∷ [])) fragment))
      ++ (bit_and (length fragment) 255 ∷ length fragment / 2 ^ 8 % 256 ∷ type_code t ∷ [])

  unfoldable pub emit_physical_record : RecordType → List ℕ → Writer F → Writer F × Bool
  emit_physical_record t fragment w =
      let (f1, ok1) = file.append (physical_header t fragment) w.dest in
      let (f2, ok2) = file.append fragment f1 in
      let (f3, ok3) = file.flush f2 in
      let written : F × Bool = if ok1 then if ok2 then (f3, ok3) else (f2, ok2) else (f1, ok1) in
      (
        record { dest = written.0; block_offset = w.block_offset + header_size + length fragment },
        written.1,
      )

  -- Less than a header's room is left in the block: fill it with zeros, whose status the source
  -- drops, and go to the next block.
  unfoldable pub switch_block : Writer F → Writer F
  switch_block w =
      let leftover = block_size - w.block_offset in
      let (filled, _) = file.append (replicate leftover 0) w.dest in
      let dest = if ltb 0 leftover then filled else w.dest in
      if ltb leftover header_size then record { dest = dest; block_offset = 0 } else w

  unfoldable pub avail : Writer F → ℕ
  avail w = block_size - w.block_offset - header_size

  unfoldable pub fragment_length : ℕ → Writer F → ℕ
  fragment_length left w = if ltb left (avail w) then left else avail w

  -- The do loop of AddRecord, and whether its status is ok; `none` is the model's: fuel ran out.
  unfoldable pub add_record_loop : ℕ → Bool → List ℕ → Writer F → Option (Writer F × Bool)
  add_record_loop zero begin slice w = none
  add_record_loop (suc fuel) begin slice w =
      let w1 = switch_block w in
      let n = fragment_length (length slice) w1 in
      let end = length slice == n in
      let (w2, ok) = emit_physical_record (record_type begin end) (take n slice) w1 in
      let rest = drop n slice in
      let more = add_record_loop fuel false rest w2 in
      if ok && ltb 0 (length rest) then more else some (w2, ok)

  -- Two rounds write one byte at least, so twice the length and two is fuel enough.
  unfoldable pub add_record : List ℕ → Writer F → Option (Writer F × Bool)
  add_record slice w = add_record_loop (2 * length slice + 2) true slice w
