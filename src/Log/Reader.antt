-- ===== src/Log/Reader.antt =====
-- db/log_reader.cc and db/log_reader.h: the reader of the log. The file and the checksum are
-- parameters as the writer's are: Read and Skip give the file afterwards and whether the status is
-- ok, Read also the bytes. What the reporter is told is a list of sizes and reasons, oldest first.
pub mod Returns
use ebf_leveldb_sep_kv.Base.{
  ℕ, zero, suc, ◌+◌, ◌-◌, ◌*◌, ◌/◌, ◌%◌, ◌^◌, bit_or, List, [], ◌∷◌, ◌++◌, Option, none, some, Bool,
  true, false, ltb, leb, ◌==◌, ◌&&◌, not, if◌then◌else◌, length, get_or, take, drop,
}
use ebf_leveldb_sep_kv.Coding.{decode_fixed32}
use ebf_leveldb_sep_kv.Log.{block_size, header_size}

-- kEof and kBadRecord, behind the record types of the writer.
abbrev pub eof_type : ℕ
eof_type = 5

abbrev pub bad_record : ℕ
bad_record = 6

pub data Reason : Type 0 where
  partial_record missing_start error_in_middle bad_length checksum_mismatch : Reason
  read_failed skip_failed : Reason
  unknown_type : ℕ → Reason

pub record SequentialFile (F : Type 0) : Type 0 where
  pub read : ℕ → F → F × Bool × List ℕ
  pub skip : ℕ → F → F × Bool

pub record Reader (F : Type 0) : Type 0 where
  pub file : F
  pub reporting : Bool
  pub checksum : Bool
  pub buffer : List ℕ
  pub eof : Bool
  pub last_record_offset : ℕ
  pub end_of_buffer_offset : ℕ
  pub initial_offset : ℕ
  pub resyncing : Bool
  pub drops : List (ℕ × Reason)

-- `a - b` on uint64.
abbrev pub minus64 : ℕ → ℕ → ℕ
minus64 a b = (a + 2 ^ 64 - b % 2 ^ 64) % 2 ^ 64

-- crc32c::Unmask: take the constant off and rotate back.
unfoldable pub unmask : ℕ → ℕ
unmask masked =
    let rot = (masked + 2 ^ 32 - 2726488792) % 2 ^ 32 in
    bit_or (rot / 2 ^ 17) (rot * 2 ^ 15 % 2 ^ 32)

-- `header[6]` is a char, so an unsigned int made of it has its sign extended.
unfoldable pub type_of : List ℕ → ℕ
type_of header = let c = get_or header 6 0 in if ltb c 128 then c else c + (2 ^ 32 - 256)

unfoldable pub length_of : List ℕ → ℕ
length_of header = bit_or (get_or header 4 0) (get_or header 5 0 * 2 ^ 8)

-- What a round of ReadRecord's loop comes to: another round, with the state of the record that is
-- being put together, or the return, with the record or without.
pub record Pending : Type 0 where
  pub in_fragmented_record : Bool
  pub scratch : List ℕ
  pub prospective_record_offset : ℕ

abbrev pub no_record : Pending
no_record = record { in_fragmented_record = false; scratch = []; prospective_record_offset = 0 }

pub data Round (F : Type 0) : Type 0 where
  continue : Reader F → Pending → Round F
  finish : Reader F → Option (List ℕ) → Round F

module _ {F : Type 0} (source : SequentialFile F) (extend : ℕ → List ℕ → ℕ) where
  unfoldable pub open_reader : F → Bool → Bool → ℕ → Reader F
  open_reader file reporting checksum initial_offset = record {
    file = file;
    reporting = reporting;
    checksum = checksum;
    buffer = [];
    eof = false;
    last_record_offset = 0;
    end_of_buffer_offset = 0;
    initial_offset = initial_offset;
    resyncing = ltb 0 initial_offset;
    drops = [];
  }

  unfoldable pub report_drop : ℕ → Reason → Reader F → Reader F
  report_drop bytes reason r =
      let offset = minus64 (minus64 r.end_of_buffer_offset (length r.buffer)) bytes in
      if r.reporting && leb r.initial_offset offset
      then record r { drops = r.drops ++ ((bytes, reason) ∷ []) }
      else r

  unfoldable pub skip_to_initial_block : Reader F → Reader F × Bool
  skip_to_initial_block r =
      let in_block = r.initial_offset % block_size in
      let start = r.initial_offset - in_block in
      let start' = if ltb (block_size - 6) in_block then (start + block_size) % 2 ^ 64 else start in
      let r1 = record r { end_of_buffer_offset = start' } in
      let (f, ok) = source.skip start' r.file in
      let r2 = record r1 { file = f } in
      if ltb 0 start'
      then if ok then (r2, true) else (report_drop start' skip_failed r2, false)
      else (r1, true)

  -- ReadPhysicalRecord from "Parse the header" on: the record's type, and the fragment, which
  -- stays as it was where the source does not set it.
  unfoldable pub parse_record : Reader F → List ℕ → Reader F × ℕ × List ℕ
  parse_record r fragment =
      let size = length r.buffer in
      let type = type_of r.buffer in
      let len = length_of r.buffer in
      let cleared = record r { buffer = [] } in
      let expected = unmask (decode_fixed32 r.buffer) in
      let actual = extend 0 (take (1 + len) (drop 6 r.buffer)) in
      let rest = record r { buffer = drop (header_size + len) r.buffer } in
      let offset =
        minus64 (minus64 r.end_of_buffer_offset (length rest.buffer)) (header_size + len) in
      if ltb size (header_size + len)
      then if r.eof
        then (cleared, eof_type, fragment)
        else (report_drop size bad_length cleared, bad_record, fragment)
      else if (type == 0) && (len == 0)
      then (cleared, bad_record, fragment)
      else if r.checksum && not (actual == expected)
      then (report_drop size checksum_mismatch cleared, bad_record, fragment)
      else if ltb offset r.initial_offset
      then (rest, bad_record, [])
      else (rest, type, take len (drop header_size r.buffer))

  -- The file's next block into the buffer, and whether the status is ok.
  unfoldable pub refill : Reader F → Reader F × Bool
  refill r =
      let (f, ok, bytes) = source.read block_size r.file in
      let r1 = record r {
        file = f;
        buffer = bytes;
        end_of_buffer_offset = (r.end_of_buffer_offset + length bytes) % 2 ^ 64;
      } in
      let failed = record (report_drop block_size read_failed (record r1 { buffer = [] })) {
        eof = true;
      } in
      if ok
      then (if ltb (length bytes) block_size then record r1 { eof = true } else r1, true)
      else (failed, false)

  -- ReadPhysicalRecord. Its loop has two rounds at most: a buffer that is still short after a
  -- refill is shorter than a block, so that the end of the file is known.
  unfoldable pub read_physical_record : Reader F → List ℕ → Reader F × ℕ × List ℕ
  read_physical_record r fragment =
      let (r1, ok) = refill r in
      let again =
        if ltb (length r1.buffer) header_size
        then (record r1 { buffer = [] }, eof_type, fragment)
        else parse_record r1 fragment in
      if ltb (length r.buffer) header_size
      then if r.eof
        then (record r { buffer = [] }, eof_type, fragment)
        else if ok
        then again
        else (r1, eof_type, fragment)
      else parse_record r fragment

  -- A record begins while another is put together: an empty one is dropped without a report.
  unfoldable pub begin_record : Pending → Reader F → Reader F
  begin_record p r =
      if p.in_fragmented_record && ltb 0 (length p.scratch)
      then report_drop (length p.scratch) partial_record r
      else r

  -- The switch of ReadRecord on the record's type.
  unfoldable pub handle_record : ℕ → List ℕ → ℕ → Pending → Reader F → Round F
  handle_record type fragment offset p r =
      let dropped = record p { in_fragmented_record = false; scratch = [] } in
      let grown = p.scratch ++ fragment in
      let no_start = continue (report_drop (length fragment) missing_start r) p in
      if type == 1
      then finish (record (begin_record p r) { last_record_offset = offset }) (some fragment)
      else if type == 2
      then continue (begin_record p r) (record {
        in_fragmented_record = true;
        scratch = fragment;
        prospective_record_offset = offset;
      })
      else if type == 3
      then if p.in_fragmented_record then continue r (record p { scratch = grown }) else no_start
      else if type == 4
      then if p.in_fragmented_record
        then finish (record r { last_record_offset = p.prospective_record_offset }) (some grown)
        else no_start
      else if type == eof_type
      then finish r none
      else if type == bad_record
      then if p.in_fragmented_record
        then continue (report_drop (length p.scratch) error_in_middle r) dropped
        else continue r p
      else continue
          (report_drop (length fragment + (if p.in_fragmented_record then length p.scratch else 0))
            (unknown_type type) r)
          dropped

  -- One round of the loop of ReadRecord: the physical record, the resynchronization, the switch.
  unfoldable pub read_round : Pending → List ℕ → Reader F → Round F × List ℕ
  read_round p fragment r =
      let (r1, type, fragment') = read_physical_record r fragment in
      let offset =
        minus64 (minus64 r1.end_of_buffer_offset (length r1.buffer))
          (header_size + length fragment') in
      let synced = record r1 { resyncing = false } in
      let handled = handle_record type fragment' offset p synced in
      if r1.resyncing
      then if type == 3
        then (continue r1 p, fragment')
        else if type == 4
        then (continue synced p, fragment')
        else (handled, fragment')
      else (handled, fragment')

  -- The loop of ReadRecord; `none` is the model's: fuel ran out.
  unfoldable pub read_loop : ℕ → Pending → List ℕ → Reader F → Option (Reader F × Option (List ℕ))
  read_loop zero p fragment r = none
  read_loop (suc fuel) p fragment r =
      let (round, fragment') = read_round p fragment r in
      elim round [
        | finish r' result ↦ some (r', result)
        | continue r' p' ↦ read_loop fuel p' fragment' r'
      ]

  -- ReadRecord, with the rounds that its loop may take.
  unfoldable pub read_record : ℕ → Reader F → Option (Reader F × Option (List ℕ))
  read_record fuel r =
      let (r1, ok) = skip_to_initial_block r in
      if ltb r.last_record_offset r.initial_offset
      then if ok then read_loop fuel no_record [] r1 else some (r1, none)
      else read_loop fuel no_record [] r
