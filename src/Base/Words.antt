-- ===== src/Base/Words.antt =====
-- Machine integers as native numbers: `usize` and `u64` have 64 bits, `u32` and `u16` fewer.
use Prim.Native.Nat.{ℕ, ◌+◌, ◌-◌, ◌*◌, ◌/◌, ◌%◌, ◌^◌}
use mathlib.Core.Bool.{Bool}
use mathlib.Core.Option.{Option, none, some}
use side_alsa.Base.Tests.{◌==◌, ltb, if◌then◌else◌}

abbrev pub u16_mod : ℕ
u16_mod = 2 ^ 16

abbrev pub u32_mod : ℕ
u32_mod = 2 ^ 32

abbrev pub u64_mod : ℕ
u64_mod = 2 ^ 64

-- `u64::MAX`
abbrev pub u64_max : ℕ
u64_max = 2 ^ 64 - 1

-- `checked_add` and `checked_mul` on `usize`
abbrev pub checked_add : ℕ → ℕ → Option ℕ
checked_add a b = if ltb (a + b) u64_mod then some (a + b) else none

abbrev pub checked_mul : ℕ → ℕ → Option ℕ
checked_mul a b = if ltb (a * b) u64_mod then some (a * b) else none

-- `wrapping_add` and `wrapping_sub` on `u64`, for arguments in range
abbrev pub wrapping_add : ℕ → ℕ → ℕ
wrapping_add a b = (a + b) % u64_mod

abbrev pub wrapping_sub : ℕ → ℕ → ℕ
wrapping_sub a b = (a + u64_mod - b) % u64_mod

-- `saturating_add` and `saturating_mul` on `u64`; `saturating_sub` is the `-` of the numbers.
abbrev pub saturating_add : ℕ → ℕ → ℕ
saturating_add a b = if ltb (a + b) u64_mod then a + b else u64_max

abbrev pub saturating_mul : ℕ → ℕ → ℕ
saturating_mul a b = if ltb (a * b) u64_mod then a * b else u64_max

-- `saturating_add` and `saturating_mul` on `u32`
abbrev pub u32_max : ℕ
u32_max = 2 ^ 32 - 1

abbrev pub saturating_add_u32 : ℕ → ℕ → ℕ
saturating_add_u32 a b = if ltb (a + b) u32_mod then a + b else u32_max

abbrev pub saturating_mul_u32 : ℕ → ℕ → ℕ
saturating_mul_u32 a b = if ltb (a * b) u32_mod then a * b else u32_max

-- `a.is_multiple_of(b)` and `a.div_ceil(b)`; the latter panics for 0 in the source.
abbrev pub is_multiple_of : ℕ → ℕ → Bool
is_multiple_of a b = if b == 0 then a == 0 else a % b == 0

abbrev pub div_ceil : ℕ → ℕ → ℕ
div_ceil a b = (a + b - 1) / b
