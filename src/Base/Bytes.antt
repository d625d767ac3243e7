-- ===== src/Base/Bytes.antt =====
-- A byte: what a place of the strings and buffers of LSM-EBF/ holds.
use Prim.Native.Nat.{ℕ, ◌<◌}

abbrev pub IsByte : ℕ → Type 0
IsByte b = b < 256
