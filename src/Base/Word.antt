-- ===== src/Base/Word.antt =====
-- C integers as bit patterns: a `long`, `size_t` or `word_t` is a number below 2 ^ 64, an `int` or
-- `unsigned` one below 2 ^ 32; a negative value is its two's complement.
use Prim.Native.Nat.{ℕ, ◌+◌, ◌-◌, ◌*◌, ◌/◌, ◌%◌, ◌^◌}
use mathlib.Core.Bool.{Bool}
use systems_labs.Base.Tests.{ltb, if◌then◌else◌}

abbrev pub u32_mod : ℕ
u32_mod = 2 ^ 32

abbrev pub u64_mod : ℕ
u64_mod = 2 ^ 64

-- Sums, differences and products wrap.
abbrev pub add32 : ℕ → ℕ → ℕ
add32 a b = (a + b) % u32_mod

abbrev pub add64 : ℕ → ℕ → ℕ
add64 a b = (a + b) % u64_mod

abbrev pub sub64 : ℕ → ℕ → ℕ
sub64 a b = (a + u64_mod - b) % u64_mod

abbrev pub mul64 : ℕ → ℕ → ℕ
mul64 a b = a * b % u64_mod

-- `~x`
abbrev pub not32 : ℕ → ℕ
not32 x = u32_mod - 1 - x

abbrev pub not64 : ℕ → ℕ
not64 x = u64_mod - 1 - x

-- `x << k` and the logical `x >> k` of an unsigned value.
abbrev pub shl32 : ℕ → ℕ → ℕ
shl32 x k = x * 2 ^ k % u32_mod

abbrev pub shl64 : ℕ → ℕ → ℕ
shl64 x k = x * 2 ^ k % u64_mod

abbrev pub shr : ℕ → ℕ → ℕ
shr x k = x / 2 ^ k

-- `x >> k` of a `long`: the sign bit is repeated.
abbrev pub sar64 : ℕ → ℕ → ℕ
sar64 x k = if ltb x (2 ^ 63) then x / 2 ^ k else not64 (not64 x / 2 ^ k)

-- The conversion from `int` to `long`.
abbrev pub sign_extend : ℕ → ℕ
sign_extend x = if ltb x (2 ^ 31) then x else x + (u64_mod - u32_mod)

-- `a < b` of two `int`s.
abbrev pub rank32 : ℕ → ℕ
rank32 x = (x + 2 ^ 31) % u32_mod

abbrev pub slt32 : ℕ → ℕ → Bool
slt32 a b = ltb (rank32 a) (rank32 b)
