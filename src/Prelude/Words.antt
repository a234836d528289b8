-- ===== src/Prelude/Words.antt =====
-- Machine words: a w-bit integer is its bit pattern, a number below 2 ^ w. The conversions between
-- int64 and uint64 keep the pattern, so they are not written.
use nya_queue.Prelude.{ℕ, ◌+◌, ◌-◌, ◌%◌, ◌^◌, ltb, if◌then◌else◌}
use nya_queue.Prelude.Int.{ℤ, pos, negsuc}

abbrev pub mod32 : ℕ
mod32 = 2 ^ 32

abbrev pub mod64 : ℕ
mod64 = 2 ^ 64

abbrev pub add32 : ℕ → ℕ → ℕ
add32 a b = (a + b) % mod32

abbrev pub sub32 : ℕ → ℕ → ℕ
sub32 a b = (a + mod32 - b) % mod32

abbrev pub add64 : ℕ → ℕ → ℕ
add64 a b = (a + b) % mod64

abbrev pub sub64 : ℕ → ℕ → ℕ
sub64 a b = (a + mod64 - b) % mod64

-- The number that an int64 stands for.
abbrev pub signed64 : ℕ → ℤ
signed64 w = if ltb w (2 ^ 63) then pos w else negsuc (mod64 - w - 1)

-- `int(x)` of an int32 `x`: the sign bit is repeated.
abbrev pub extend32 : ℕ → ℕ
extend32 w = if ltb w (2 ^ 31) then w else w + mod64 - mod32
