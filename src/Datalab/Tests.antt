-- ===== src/Datalab/Tests.antt =====
-- Runs of datalab/bits.c by evaluation, on the examples of its comments, and the theorems at concrete
-- patterns.
use systems_labs.Base.{
  ℕ, ◌+◌, ◌-◌, ◌*◌, ◌/◌, ◌^◌, ◌≤◌, ◌<◌, ◌≡◌, refl, ◌||◌, some, ltb, if◌then◌else◌, arith,
}
use systems_labs.Datalab.Integers.{
  bit_match, odds, all_odd_bits, least_bit_pos, copy_lsb, conditional, bit_mask, is_less,
  true_three_fourths, is_palindrome, swap_step, swap1, swap2, swap3, swap4, swap5,
}
use systems_labs.Datalab.Floats.{
  is_nan, float_negate, float_is_less, float_scale2, skip_zeros, pack_float, float_unsigned2float,
}
use systems_labs.Datalab.Reference.{
  test_bit_match, test_all_odd_bits, test_least_bit_pos, test_copy_lsb, test_conditional,
  test_bit_mask, test_is_less, test_true_three_fourths, test_is_palindrome,
}
use systems_labs.Datalab.Reference.Collect.{bit_mask-agrees}
use systems_labs.Datalab.Reference.Agreement.{selections_agree, arithmetic_agrees}
use systems_labs.Datalab.Floats.Value.{value, is_nan_pattern, magnitude, unsigned_part}
use systems_labs.Datalab.Floats.Order.{float_is_less_lem}
use systems_labs.Datalab.Floats.Scale.{float_scale2-cases}
use systems_labs.Datalab.Floats.Nearest.{IsNearest, float_unsigned2float-IsNearest}

run_bit_match : bit_match 0x7 0xE ≡ 0xFFFFFFFFFFFFFFF6
unfolding bit_match
run_bit_match = refl

run_all_odd_bits : all_odd_bits 0xAAAAAAAAAAAAAAAA ≡ 1
unfolding all_odd_bits odds
run_all_odd_bits = refl

run_all_odd_bits_missing : all_odd_bits 0xFFFFFFFDFFFFFFFD ≡ 0
unfolding all_odd_bits odds
run_all_odd_bits_missing = refl

run_least_bit_pos : least_bit_pos 96 ≡ 0x20
unfolding least_bit_pos
run_least_bit_pos = refl

run_bit_mask : bit_mask 5 3 ≡ 0x38
unfolding bit_mask
run_bit_mask = refl

-- `trueThreeFourths(-9L)` is -6.
run_true_three_fourths : true_three_fourths (2 ^ 64 - 9) ≡ 2 ^ 64 - 6
unfolding true_three_fourths
run_true_three_fourths = refl

run_is_palindrome : is_palindrome 0x6F0F0123c480F0F6 ≡ 1
unfolding is_palindrome swap_step swap1 swap2 swap3 swap4 swap5
run_is_palindrome = refl

-- 1.0 doubled, negated, and 3 as a float.
run_float_scale2 : float_scale2 0x3f800000 ≡ 0x40000000
unfolding float_scale2
run_float_scale2 = refl

run_float_negate : float_negate 0x3f800000 ≡ 0xbf800000
unfolding float_negate is_nan
run_float_negate = refl

run_float_unsigned2float : float_unsigned2float 3 ≡ some 0x40400000
unfolding float_unsigned2float skip_zeros pack_float
run_float_unsigned2float = refl

selections_agree_example :
    (bit_match 7 14 ≡ test_bit_match 7 14)
    × (all_odd_bits 7 ≡ test_all_odd_bits 7)
    × (test_least_bit_pos 7 ≡ some (least_bit_pos 7))
    × (copy_lsb 7 ≡ test_copy_lsb 7)
    × (conditional 7 14 5 ≡ test_conditional 7 14 5)
    × (is_palindrome 7 ≡ test_is_palindrome 7)
selections_agree_example = selections_agree 7 14 5 (omega arith) (omega arith) (omega arith)

bit_mask-agrees_example : bit_mask 5 3 ≡ test_bit_mask 5 3
bit_mask-agrees_example = bit_mask-agrees 5 3 (omega arith) (omega arith)

arithmetic_agrees_example :
    (is_less (2 ^ 64 - 9) 4 ≡ test_is_less (2 ^ 64 - 9) 4)
    × (true_three_fourths (2 ^ 64 - 9) ≡ test_true_three_fourths (2 ^ 64 - 9))
arithmetic_agrees_example = arithmetic_agrees (2 ^ 64 - 9) 4 (omega arith) (omega arith)

float_is_less_lem_example : float_is_less 0xbf800000 0x3f800000 ≡ (
    if is_nan_pattern 0xbf800000 || is_nan_pattern 0x3f800000
    then 0
    else if ltb (value 0xbf800000) (value 0x3f800000)
    then 1
    else 0)
float_is_less_lem_example = float_is_less_lem 0xbf800000 0x3f800000 (omega arith) (omega arith)

float_scale2-cases_example :
    (0x7f800000 ≤ unsigned_part 0x00400001 → float_scale2 0x00400001 ≡ 0x00400001)
    × (unsigned_part 0x00400001 < 0x7f000000
        → (magnitude (float_scale2 0x00400001) ≡ 2 * magnitude 0x00400001)
          × (float_scale2 0x00400001 / 2 ^ 31 ≡ 0x00400001 / 2 ^ 31))
    × (0x7f000000 ≤ unsigned_part 0x00400001
        → unsigned_part 0x00400001 < 0x7f800000
        → float_scale2 0x00400001 ≡ 0x00400001 / 2 ^ 31 * 2 ^ 31 + 0x7f800000)
float_scale2-cases_example = float_scale2-cases 0x00400001 (omega arith)

float_unsigned2float-IsNearest_example :
    (w : ℕ) × (float_unsigned2float 0x01000001 ≡ some w) × (w < 2 ^ 31) × IsNearest 0x01000001 w
float_unsigned2float-IsNearest_example = float_unsigned2float-IsNearest 0x01000001 (omega arith)
