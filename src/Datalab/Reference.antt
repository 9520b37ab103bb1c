-- ===== src/Datalab/Reference.antt =====
-- datalab/tests.c: the reference solutions of the puzzles on `long`, which the test program compares
-- the puzzles with. Their loops are recursions on the rounds that are left.
pub mod Collect
pub mod Search
pub mod Halves
pub mod Arithmetic
pub mod Agreement
use systems_labs.Base.{
  ℕ, zero, suc, ◌+◌, ◌-◌, ◌*◌, ◌/◌, ◌%◌, ◌^◌, Bool, true, false, ◌&&◌, Option, none, some, ltb, leb,
  ◌==◌, if◌then◌else◌, u64_mod, shl64, sar64, bit_and, bit_or,
}
use systems_labs.Datalab.Integers.{all_ones}

-- `(long) b`
abbrev pub of_bool : Bool → ℕ
of_bool b = if b then 1 else 0

-- `for (...; i++) result |= bit i << i;`
unfoldable pub collect : (place : ℕ → ℕ) (left i result : ℕ) → ℕ
collect place zero i result = result
collect place (suc left) i result = collect place left (i + 1) (bit_or result (shl64 (place i) i))

-- `long bit = (x & mask) == (y & mask)`
unfoldable pub same_bit : (x y i : ℕ) → ℕ
same_bit x y i = let mask = shl64 1 i in of_bool (bit_and x mask == bit_and y mask)

unfoldable pub test_bit_match : (x y : ℕ) → ℕ
test_bit_match x y = collect (same_bit x y) 64 0 0

unfoldable pub odd_loop : (x left i : ℕ) → ℕ
odd_loop x zero i = 1
odd_loop x (suc left) i =
    let rest = odd_loop x left (i + 2) in if bit_and x (shl64 1 i) == 0 then 0 else rest

unfoldable pub test_all_odd_bits : ℕ → ℕ
test_all_odd_bits x = odd_loop x 32 1

-- `while (!(mask & x)) mask = mask << 1;` on fuel.
unfoldable pub shift_loop : (x left mask : ℕ) → Option ℕ
shift_loop x zero mask = none
shift_loop x (suc left) mask =
    let rest = shift_loop x left (shl64 mask 1) in if bit_and mask x == 0 then rest else some mask

-- 64 tests are enough.
unfoldable pub test_least_bit_pos : ℕ → Option ℕ
test_least_bit_pos x = if x == 0 then some 0 else shift_loop x 64 1

unfoldable pub test_copy_lsb : ℕ → ℕ
test_copy_lsb x = if bit_and x 1 == 0 then 0 else all_ones

unfoldable pub test_conditional : (x y z : ℕ) → ℕ
test_conditional x y z = if x == 0 then z else y

-- For places from 0 to 63.
unfoldable pub test_bit_mask : (highbit lowbit : ℕ) → ℕ
test_bit_mask highbit lowbit = collect (λ i. 1) (highbit + 1 - lowbit) lowbit 0

-- `x < y` of two `long`s: their order is that of the patterns with the sign bit flipped.
abbrev pub rank64 : ℕ → ℕ
rank64 x = (x + 2 ^ 63) % 2 ^ 64

unfoldable pub test_is_less : (x y : ℕ) → ℕ
test_is_less x y = of_bool (ltb (rank64 x) (rank64 y))

-- `(long) (((__int128) x * 3L) / 4L)`: the product does not wrap, and the quotient drops the
-- fraction of its size.
unfoldable pub test_true_three_fourths : ℕ → ℕ
test_true_three_fourths x =
    if ltb x (2 ^ 63) then x * 3 / 4 else (u64_mod - (u64_mod - x) * 3 / 4) % u64_mod

unfoldable pub mirror_loop : (xhi xlo left i result : ℕ) → ℕ
mirror_loop xhi xlo zero i result = result
mirror_loop xhi xlo (suc left) i result =
    let bhigh = bit_and (sar64 xhi i) 1 in
    let blow = bit_and (sar64 xlo (31 - i)) 1 in
    mirror_loop xhi xlo left (i + 1) (if result == 0 then 0 else of_bool (bhigh == blow))

unfoldable pub test_is_palindrome : ℕ → ℕ
test_is_palindrome x =
    let mask : ℕ = 0xFFFFFFFF in
    let xlo = bit_and x mask in let xhi = bit_and (sar64 x 32) mask in mirror_loop xhi xlo 32 0 1
