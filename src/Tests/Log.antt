-- ===== src/Tests/Log.antt =====
-- The reader of the log on a file in memory.
use ebf_leveldb_sep_kv.Base.{
  ℕ, ◌+◌, List, [], ◌∷◌, Option, some, true, false, length, take, drop, length-take, length-drop,
  arith, ◌≡◌,
}
use ebf_leveldb_sep_kv.Log.Reader.{SequentialFile, Reader, read_record}
use ebf_leveldb_sep_kv.Log.Reader.Returns.{Shrinks, read_record-returns}

abbrev bytes_source : SequentialFile (List ℕ)
bytes_source = record { read = λ n f. (drop n f, true, take n f); skip = λ n f. (drop n f, true) }

bytes_source-Shrinks : Shrinks bytes_source length
bytes_source-Shrinks = record {
  read = λ n f. omega (arith, length-drop n f, length-take n f);
  skip = λ n f. omega (arith, length-drop n f);
}

-- One full record of two bytes.
abbrev one_record_log : List ℕ
one_record_log = 0 ∷ 0 ∷ 0 ∷ 0 ∷ 2 ∷ 0 ∷ 1 ∷ 104 ∷ 105 ∷ []

abbrev log_reader : Reader (List ℕ)
log_reader = record {
  file = one_record_log;
  reporting = true;
  checksum = false;
  buffer = [];
  eof = false;
  last_record_offset = 0;
  end_of_buffer_offset = 0;
  initial_offset = 0;
  resyncing = false;
  drops = [];
}

read_record-returns_example :
    (s : Reader (List ℕ)) × (result : Option (List ℕ)) × (read_record bytes_source
        (λ crc bytes. crc + length bytes)
        (length one_record_log + length {A = ℕ} [] + 1)
        log_reader
      ≡ some (s, result))
read_record-returns_example =
    read_record-returns bytes_source (λ crc bytes. crc + length bytes) length bytes_source-Shrinks
      log_reader
