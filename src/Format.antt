-- ===== src/Format.antt =====
-- table/format.cc: the footer of a table file. A block handle is the pair of its offset and size.
pub mod RoundTrip
use ebf_leveldb_sep_kv.Base.{
  ℕ, zero, suc, ◌+◌, ◌-◌, ◌*◌, ◌/◌, ◌%◌, ◌^◌, bit_or, List, [], ◌∷◌, ◌++◌, Option, none, some, Bool,
  true, false, ◌==◌, if◌then◌else◌, length, take, drop, replicate,
}
use ebf_leveldb_sep_kv.Coding.{put_fixed32, decode_fixed32}
use ebf_leveldb_sep_kv.Table.{handle_encode_to, handle_decode_from}

-- kTableMagicNumber, BlockHandle::kMaxEncodedLength and Footer::kEncodedLength.
abbrev pub table_magic_number : ℕ
table_magic_number = 15800726617472432983

abbrev pub max_encoded_length : ℕ
max_encoded_length = 20

abbrev pub encoded_length : ℕ
encoded_length = 48

-- std::string::resize: cut off, or filled with zero bytes.
unfoldable pub resized : ℕ → List ℕ → List ℕ
resized n s = take n s ++ replicate (n - length s) 0

pub record Footer : Type 0 where
  pub metaindex_handle : ℕ × ℕ
  pub index_handle : ℕ × ℕ

-- EncodeTo an empty string.
unfoldable pub footer_encode : Footer → List ℕ
footer_encode f =
    let handles = handle_encode_to f.index_handle (handle_encode_to f.metaindex_handle []) in
    put_fixed32
      (put_fixed32 (resized (2 * max_encoded_length) handles) (table_magic_number % 2 ^ 32))
      (table_magic_number / 2 ^ 32)

pub data FooterError : Type 0 where
  bad_magic_number bad_block_handle : FooterError

pub data FooterResult : Type 0 where
  decoded : Footer → List ℕ → FooterResult
  corruption : FooterError → FooterResult

-- Footer::DecodeFrom of an input of kEncodedLength bytes at least, with the input that is left.
unfoldable pub footer_decode : List ℕ → FooterResult
footer_decode input =
    let magic_lo = decode_fixed32 (drop (encoded_length - 8) input) in
    let magic_hi = decode_fixed32 (drop (encoded_length - 4) input) in
    let magic = bit_or (magic_hi * 2 ^ 32 % 2 ^ 64) magic_lo in
    if magic == table_magic_number
    then elim (handle_decode_from input) [
      | none ↦ corruption bad_block_handle
      | some (metaindex, rest) ↦ elim (handle_decode_from rest) [
        | none ↦ corruption bad_block_handle
        | some (index, rest') ↦
            decoded (record { metaindex_handle = metaindex; index_handle = index })
              (drop encoded_length input)
      ]
    ]
    else corruption bad_magic_number
