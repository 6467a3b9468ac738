-- ===== src/Common/Word.antt =====
-- Fixed-width arithmetic: `u32`, `u64` and their saturating operations.
use ahead.Common.{ℕ, ◌+◌, ◌*◌, min}

abbrev pub u64_max : ℕ
u64_max = 0xFFFF_FFFF_FFFF_FFFF

abbrev pub u32_max : ℕ
u32_max = 0xFFFF_FFFF

abbrev pub saturating_add : ℕ → ℕ → ℕ
saturating_add a b = min (a + b) u64_max

abbrev pub saturating_mul : ℕ → ℕ → ℕ
saturating_mul a b = min (a * b) u64_max

-- On `u32`.
abbrev pub saturating_inc32 : ℕ → ℕ
saturating_inc32 a = min (a + 1) u32_max
