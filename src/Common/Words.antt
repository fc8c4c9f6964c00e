-- ===== src/Common/Words.antt =====
-- Machine words as native numbers.
use wzp.Common.{ℕ, ◌+◌, ◌-◌, ◌%◌, ◌^◌}

abbrev pub u16_mod : ℕ
u16_mod = 65536

abbrev pub u32_mod : ℕ
u32_mod = 4294967296

abbrev pub u64_mod : ℕ
u64_mod = 2 ^ 64

-- `a.wrapping_add(b)` and `a.wrapping_sub(b)` on u32 and u16.
abbrev pub add32 : ℕ → ℕ → ℕ
add32 a b = (a + b) % u32_mod

abbrev pub sub32 : ℕ → ℕ → ℕ
sub32 a b = (a + u32_mod - b) % u32_mod

abbrev pub add16 : ℕ → ℕ → ℕ
add16 a b = (a + b) % u16_mod

abbrev pub sub16 : ℕ → ℕ → ℕ
sub16 a b = (a + u16_mod - b) % u16_mod
