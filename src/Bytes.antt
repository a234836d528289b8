-- ===== src/Bytes.antt =====
-- Byte slices as lists of numbers below 256, and what the repository uses of encoding/binary.
pub mod BigEndian
use nya_queue.Prelude.{
  ℕ, zero, suc, ◌+◌, ◌*◌, ◌/◌, ◌%◌, ◌<◌, List, [], ◌∷◌, ◌++◌, take, drop, copy, All, length,
}

abbrev pub IsByte : ℕ → Type 0
IsByte b = b < 256

abbrev pub AreBytes : List ℕ → Type 0
AreBytes = All IsByte

-- The `n` bytes of `x` that `binary.BigEndian.PutUint32` (4) and `PutUint64` (8) store.
unfoldable pub be_bytes : ℕ → ℕ → List ℕ
be_bytes zero x = []
be_bytes (suc n) x = be_bytes n (x / 256) ++ (x % 256 ∷ [])

unfoldable pub be_value_from : ℕ → List ℕ → ℕ
be_value_from acc [] = acc
be_value_from acc (b ∷ bs) = be_value_from (acc * 256 + b) bs

-- The number that `binary.BigEndian.Uint32` and `Uint64` read.
abbrev pub be_value : List ℕ → ℕ
be_value bs = be_value_from 0 bs

-- The slice `data[off:off+n]`, for an end within the data.
abbrev pub slice : List ℕ → ℕ → ℕ → List ℕ
slice bytes off n = take n (drop off bytes)

-- A store of `src` in `buf` from `off` on, as by `copy(buf[off:], src)`.
unfoldable pub write_at : List ℕ → ℕ → List ℕ → List ℕ
write_at buf off src = take off buf ++ copy (drop off buf) src
