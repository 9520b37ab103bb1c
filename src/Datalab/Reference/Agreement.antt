-- ===== src/Datalab/Reference/Agreement.antt =====
-- datalab/bits.c and datalab/tests.c: each puzzle on `long` agrees with its reference solution.
use systems_labs.Base.{ℕ, ◌^◌, ◌<◌, ◌≡◌, some, arith}
use systems_labs.Base.Bits.Masks.{bit_and-one}
use systems_labs.Datalab.Integers.{
  bit_match, all_odd_bits, least_bit_pos, copy_lsb, conditional, is_less, true_three_fourths,
  is_palindrome,
}
use systems_labs.Datalab.Integers.Fields.{copy_lsb_lem, conditional_lem}
use systems_labs.Datalab.Reference.{
  test_bit_match, test_all_odd_bits, test_least_bit_pos, test_copy_lsb, test_conditional,
  test_is_less, test_true_three_fourths, test_is_palindrome,
}
use systems_labs.Datalab.Reference.Collect.{bit_match-agrees}
use systems_labs.Datalab.Reference.Halves.{is_palindrome-agrees}
use systems_labs.Datalab.Reference.Search.{all_odd_bits-agrees, least_bit_pos-agrees}
use systems_labs.Datalab.Reference.Arithmetic.{is_less-agrees, true_three_fourths-agrees}

copy_lsb-agrees : (x : ℕ) → copy_lsb x ≡ test_copy_lsb x
unfolding test_copy_lsb
copy_lsb-agrees x = ground (arith, copy_lsb_lem x, bit_and-one x)

conditional-agrees :
    (x y z : ℕ) → y < 2 ^ 64 → z < 2 ^ 64 → conditional x y z ≡ test_conditional x y z
unfolding test_conditional
conditional-agrees x y z hy hz = conditional_lem x y z hy hz

-- For patterns x, y and z of 64 bits, bitMatch, allOddBits, leastBitPos, copyLSB, conditional and
-- isPalindrome agree with their reference solutions, which except for copyLSB and conditional
-- loop over the places; the loop of test_leastBitPos ends within 64 tests.
pub selections_agree :
    (x y z : ℕ)
    → x < 2 ^ 64
    → y < 2 ^ 64
    → z < 2 ^ 64
    → (bit_match x y ≡ test_bit_match x y)
      × (all_odd_bits x ≡ test_all_odd_bits x)
      × (test_least_bit_pos x ≡ some (least_bit_pos x))
      × (copy_lsb x ≡ test_copy_lsb x)
      × (conditional x y z ≡ test_conditional x y z)
      × (is_palindrome x ≡ test_is_palindrome x)
selections_agree x y z hx hy hz = (
  bit_match-agrees x y hx hy,
  all_odd_bits-agrees x hx,
  least_bit_pos-agrees x hx,
  copy_lsb-agrees x,
  conditional-agrees x y z hy hz,
  is_palindrome-agrees x hx,
)

-- For patterns of 64 bits, isLess agrees with the signed comparison, whose difference may
-- overflow, and trueThreeFourths with 3/4 of the signed value without overflow, rounded towards
-- 0.
pub arithmetic_agrees :
    (x y : ℕ)
    → x < 2 ^ 64
    → y < 2 ^ 64
    → (is_less x y ≡ test_is_less x y) × (true_three_fourths x ≡ test_true_three_fourths x)
arithmetic_agrees x y hx hy = (is_less-agrees x y hx hy, true_three_fourths-agrees x hx)
