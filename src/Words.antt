-- ===== src/Words.antt =====
-- The widths of the machine integers: `DWORD` and `unsigned long` have 32 bits on Windows,
-- `LARGE_INTEGER` has 64, and `size_t` depends on the platform that the build picks.
use file_read_speed_test.Base.{ℕ, ◌+◌, ◌%◌, ◌^◌, Bool, ltb}

abbrev pub dword_mod : ℕ
dword_mod = 2 ^ 32

abbrev pub uint16_mod : ℕ
uint16_mod = 2 ^ 16

abbrev pub quad_mod : ℕ
quad_mod = 2 ^ 64

-- The first value that is too large for a signed 64-bit integer.
abbrev pub quad_limit : ℕ
quad_limit = 2 ^ 63

pub data Platform : Type 0 where
  x86 x64 : Platform

abbrev pub size_mod : Platform → ℕ
size_mod x86 = 2 ^ 32
size_mod x64 = 2 ^ 64

-- `a < b` for the signed 64-bit integers whose bit patterns are `a` and `b`.
abbrev pub signed_ltb : ℕ → ℕ → Bool
signed_ltb a b = ltb ((a + quad_limit) % quad_mod) ((b + quad_limit) % quad_mod)
