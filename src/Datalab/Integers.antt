-- ===== src/Datalab/Integers.antt =====
-- datalab/bits.c, the puzzles on `long`: a `long` is its pattern of 64 bits, `~` is `not64`, `>>`
-- repeats the sign bit, and `!e` is 1 for a zero and 0 for all else.
pub mod Fields
pub mod Mirror
use systems_labs.Base.{
  ℕ, ◌-◌, ◌==◌, if◌then◌else◌, u64_mod, add64, not64, shl64, sar64, bit_and, bit_or, bit_xor,
}

-- `!e`
abbrev pub lnot : ℕ → ℕ
lnot e = if e == 0 then 1 else 0

-- `~0L`
abbrev pub all_ones : ℕ
all_ones = u64_mod - 1

unfoldable pub bit_match : ℕ → ℕ → ℕ
bit_match x y = not64 (bit_and (not64 (bit_and x y)) (not64 (bit_and (not64 x) (not64 y))))

unfoldable pub odds : ℕ
odds =
    let odds = add64 (shl64 0xAA 8) 0xAA in
    let odds = add64 (shl64 odds 16) odds in add64 (shl64 odds 32) odds

unfoldable pub all_odd_bits : ℕ → ℕ
all_odd_bits x = lnot (bit_xor (bit_and x odds) odds)

unfoldable pub least_bit_pos : ℕ → ℕ
least_bit_pos x = bit_and (add64 (not64 x) 1) x

unfoldable pub copy_lsb : ℕ → ℕ
copy_lsb x = sar64 (shl64 x 63) 63

unfoldable pub conditional : (x y z : ℕ) → ℕ
conditional x y z =
    let condition_mask = sar64 (shl64 (lnot x) 63) 63 in
    bit_or (bit_and (not64 condition_mask) y) (bit_and condition_mask z)

unfoldable pub bit_mask : (highbit lowbit : ℕ) → ℕ
bit_mask highbit lowbit =
    let h = not64 (shl64 (shl64 all_ones highbit) 1) in let l = shl64 all_ones lowbit in bit_and l h

unfoldable pub is_less : (x y : ℕ) → ℕ
is_less x y =
    let difference = add64 x (add64 (not64 y) 1) in
    let same_sign = bit_or (bit_and x y) (bit_and (not64 x) (not64 y)) in
    bit_and (sar64 (bit_or (bit_and same_sign difference) (bit_and x (not64 y))) 63) 1

unfoldable pub true_three_fourths : ℕ → ℕ
true_three_fourths x =
    let remainder = bit_and x 3 in
    let total_remainder = add64 (add64 remainder remainder) remainder in
    let missing_positive = sar64 total_remainder 2 in
    let missing_negative = add64 (not64 (sar64 (add64 (not64 total_remainder) 1) 2)) 1 in
    let sign = sar64 x 63 in
    let n = sar64 x 2 in
    add64 (add64 (add64 (add64 n n) n) (bit_and (not64 sign) missing_positive))
      (bit_and sign missing_negative)

-- One line `half = ((swap & half) << k) | (swap & (half >> k))`.
unfoldable pub swap_step : (swap k half : ℕ) → ℕ
swap_step swap k half = bit_or (shl64 (bit_and swap half) k) (bit_and swap (sar64 half k))

unfoldable pub swap1 : ℕ
swap1 = let swap = bit_or (shl64 0x55 8) 0x55 in bit_or (shl64 swap 16) swap

unfoldable pub swap2 : ℕ
swap2 = let swap = bit_or (shl64 0x33 8) 0x33 in bit_or (shl64 swap 16) swap

unfoldable pub swap3 : ℕ
swap3 = let swap = bit_or (shl64 0x0f 8) 0x0f in bit_or (shl64 swap 16) swap

unfoldable pub swap4 : ℕ
swap4 = let swap = bit_or (shl64 0x00 8) 0xff in bit_or (shl64 swap 16) swap

unfoldable pub swap5 : ℕ
swap5 = bit_or (shl64 0xff 8) 0xff

unfoldable pub is_palindrome : ℕ → ℕ
is_palindrome x =
    let first_half_mask = not64 (shl64 all_ones 32) in
    let half = bit_and (sar64 x 32) first_half_mask in
    let half = swap_step swap1 1 half in
    let half = swap_step swap2 2 half in
    let half = swap_step swap3 4 half in
    let half = swap_step swap4 8 half in
    let half = swap_step swap5 16 half in lnot (bit_xor half (bit_and x first_half_mask))
