-- ===== src/Datalab/Reference/Arithmetic.antt =====
-- datalab/bits.c: `isLess` and `trueThreeFourths`, against their reference solutions.
use systems_labs.Base.{ℕ, ◌%◌, ◌^◌, ◌<◌, ◌≡◌, arith, add64, not64, sar64, bit_and, bit_or}
use systems_labs.Base.Bits.{bit_and_mask}
use systems_labs.Base.Bits.Masks.{bit_and-one}
use systems_labs.Base.Bits.Digits.{
  bit, bit_or-lt, bit_value, bit_and-le, bit-bit_and, bit-bit_or, and-zero_left,
}
use systems_labs.Datalab.Integers.{is_less, true_three_fourths}
use systems_labs.Datalab.Reference.{test_is_less, test_true_three_fourths}
use systems_labs.Datalab.Integers.Fields.{ones-and}

-- The last step of `isLess` picks out the sign bit.
sign_bit : (x : ℕ) → x < 2 ^ 64 → bit_and (sar64 x 63) 1 ≡ bit 63 x
sign_bit x h = ground (arith, bit_and-one (sar64 x 63), bit_value 63 x)

-- `isLess` and the signed comparison.
pub is_less-agrees : (x y : ℕ) → x < 2 ^ 64 → y < 2 ^ 64 → is_less x y ≡ test_is_less x y
unfolding is_less test_is_less
is_less-agrees x y hx hy =
    let difference = add64 x (add64 (not64 y) 1) in
    let both = bit_and x y in
    let neither = bit_and (not64 x) (not64 y) in
    let same_sign = bit_or both neither in
    let differ = bit_and x (not64 y) in
    let same =
      bit_or-lt 64 both neither (omega (arith, bit_and-le x y))
        (omega (arith, bit_and-le (not64 x) (not64 y))) in
    let word =
      bit_or-lt 64 (bit_and same_sign difference) differ
        (omega (arith, bit_and-le same_sign difference)) (omega (arith, bit_and-le x (not64 y))) in
    rw (sign_bit (bit_or (bit_and same_sign difference) differ) word) (
      ground (
        arith,
        bit-bit_or 63 (bit_and same_sign difference) differ,
        bit-bit_and 63 same_sign difference,
        bit-bit_or 63 both neither,
        bit-bit_and 63 x y,
        bit-bit_and 63 (not64 x) (not64 y),
        bit-bit_and 63 x (not64 y),
        bit_value 63 x,
        bit_value 63 y,
        bit_value 63 (not64 x),
        bit_value 63 (not64 y),
        bit_value 63 difference,
      ))

-- `trueThreeFourths` and its reference solution.
pub true_three_fourths-agrees :
    (x : ℕ) → x < 2 ^ 64 → true_three_fourths x ≡ test_true_three_fourths x
unfolding true_three_fourths test_true_three_fourths
true_three_fourths-agrees x hx =
    let low = bit_and_mask 2 x in
    let total = add64 (add64 (x % 4) (x % 4)) (x % 4) in
    let positive = sar64 total 2 in
    let negative = add64 (not64 (sar64 (add64 (not64 total) 1) 2)) 1 in
    rw low (
      ground (
        arith,
        ones-and positive,
        ones-and negative,
        and-zero_left positive,
        and-zero_left negative,
      ))
