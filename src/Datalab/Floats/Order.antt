-- ===== src/Datalab/Floats/Order.antt =====
-- datalab/bits.c: `floatIsEqual` and `floatIsLess` compare the values.
use systems_labs.Base.{ℕ, ◌^◌, ◌<◌, ◌≡◌, ap, ◌∙◌, ◌||◌, ltb, ◌==◌, if◌then◌else◌, arith, shr}
use systems_labs.Base.Bits.{bit_and_mask}
use systems_labs.Base.Bits.Masks.{bit_and-one}
use systems_labs.Datalab.Floats.{is_nan, float_is_equal, float_is_less}
use systems_labs.Datalab.Floats.Value.{
  value, is_nan_pattern, is_nan_lem, grade, unsigned_part, beyond, grade-lt, grade-bound,
  grade-zero,
}

-- How the values of two patterns compare follows from how the patterns without a sign compare.
IsGraded : (m n : ℕ) → Type 0
IsGraded m n =
    (m < n → grade m < grade n)
    × (n < m → grade n < grade m)
    × (m ≡ n → grade m ≡ grade n)
    × (grade m < beyond)
    × (grade n < beyond)
    × (m ≡ 0 → grade m ≡ 0)
    × (n ≡ 0 → grade n ≡ 0)
    × (0 < m → 0 < grade m)
    × (0 < n → 0 < grade n)

zero_grade : (m : ℕ) → m ≡ 0 → grade m ≡ 0
zero_grade m e = ap grade e ∙ grade-zero

grades : (m n : ℕ) → m < 2 ^ 31 → n < 2 ^ 31 → IsGraded m n
unfolding IsGraded
grades m n hm hn = (
  grade-lt n m,
  grade-lt m n,
  ap grade,
  grade-bound m hm,
  grade-bound n hn,
  zero_grade m,
  zero_grade n,
  λ h. omega (arith, grade-lt m 0 h),
  λ h. omega (arith, grade-lt n 0 h),
)

-- Equal values, unless one is a NaN.
pub float_is_equal_lem :
    (uf ug : ℕ)
    → uf < 2 ^ 32
    → ug < 2 ^ 32
    → float_is_equal uf ug ≡ (
        if is_nan_pattern uf || is_nan_pattern ug then 0 else if value uf == value ug then 1 else 0)
unfolding float_is_equal value IsGraded
float_is_equal_lem uf ug hf hg =
    let order = grades (unsigned_part uf) (unsigned_part ug) (omega arith) (omega arith) in
    rw (is_nan_lem uf hf, is_nan_lem ug hg, bit_and_mask 31 uf, bit_and_mask 31 ug)
      (ground (arith, order))

less_by_value :
    (uf ug : ℕ)
    → uf < 2 ^ 32
    → ug < 2 ^ 32
    → float_is_less uf ug
      ≡ (if is_nan uf || is_nan ug then 0 else if ltb (value uf) (value ug) then 1 else 0)
unfolding float_is_less value IsGraded
less_by_value uf ug hf hg =
    let order = grades (unsigned_part uf) (unsigned_part ug) (omega arith) (omega arith) in
    rw (bit_and_mask 31 uf, bit_and_mask 31 ug, bit_and-one (shr uf 31), bit_and-one (shr ug 31))
      (ground (arith, order))

-- For patterns of 32 bits, floatIsLess returns 0 if one of them is a NaN (the eight bits of its
-- exponent all ones and the fraction not zero), and otherwise 1 exactly if the value of the first
-- is less than that of the second; both zeros have the same value.
pub float_is_less_lem :
    (uf ug : ℕ)
    → uf < 2 ^ 32
    → ug < 2 ^ 32
    → float_is_less uf ug ≡ (
        if is_nan_pattern uf || is_nan_pattern ug
        then 0
        else if ltb (value uf) (value ug)
        then 1
        else 0)
float_is_less_lem uf ug hf hg =
    rw (is_nan_lem uf hf, is_nan_lem ug hg) at (less_by_value uf ug hf hg)
