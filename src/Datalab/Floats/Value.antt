-- ===== src/Datalab/Floats/Value.antt =====
-- The reading of 32 bits as a single precision float, in units of 2 ^ -149, the least positive one;
-- an infinity reads as more than every finite one.
use native.Mathlib.Nat.{pow-suc, one-le-pow, mul-le-mul_right}
use systems_labs.Base.{
  Bool, ◌&&◌, ℕ, zero, suc, ◌+◌, ◌-◌, ◌*◌, ◌/◌, ◌%◌, ◌^◌, ◌<◌, ◌≡◌, refl, Bool-cases, inl, inr,
  ltb→lt, ltb, leb, ◌==◌, if◌then◌else◌, arith, bit_and,
}
use systems_labs.Base.Bits.{bit_and_mask}
use systems_labs.Base.Bits.Digits.{bit_and_field}
use systems_labs.Datalab.Floats.{is_nan}

-- Without the sign bit.
abbrev pub unsigned_part : ℕ → ℕ
unsigned_part uf = uf % 2 ^ 31

-- An exponent and a fraction: `f` for exponent 0, `(2 ^ 23 + f) * 2 ^ (e - 1)` above.
unfoldable pub scaled : (e f : ℕ) → ℕ
scaled zero f = f
scaled (suc e) f = (2 ^ 23 + f) * 2 ^ e

unfoldable pub grade : ℕ → ℕ
grade m = scaled (m / 2 ^ 23) (m % 2 ^ 23)

abbrev pub magnitude : ℕ → ℕ
magnitude uf = grade (unsigned_part uf)

-- Larger than every magnitude.
abbrev pub beyond : ℕ
beyond = 2 ^ 300

-- The value, with `beyond` added, so that a natural number can stand for it.
unfoldable pub value : ℕ → ℕ
value uf = if leb (2 ^ 31) uf then beyond - magnitude uf else beyond + magnitude uf

pub exp-field : (uf : ℕ) → uf < 2 ^ 32 → bit_and uf 0x7f800000 ≡ uf / 2 ^ 23 % 2 ^ 8 * 2 ^ 23
exp-field uf h = bit_and_field 23 8 uf

-- The exponent is all ones and the fraction is not zero.
abbrev pub is_nan_pattern : ℕ → Bool
is_nan_pattern uf = (uf / 2 ^ 23 % 2 ^ 8 == 255) && ltb 0 (uf % 2 ^ 23)

pub is_nan_lem : (uf : ℕ) → uf < 2 ^ 32 → is_nan uf ≡ is_nan_pattern uf
unfolding is_nan
is_nan_lem uf h = ground (arith, exp-field uf h, bit_and_mask 23 uf)

scaled-lt_suc : (e f : ℕ) → scaled e f < scaled e (f + 1)
unfolding scaled
scaled-lt_suc zero f = omega arith
scaled-lt_suc (suc e) f = grind (arith, one-le-pow e 2 (omega arith))

scaled-lt_next : (e f : ℕ) → f < 2 ^ 23 → scaled e f < scaled (suc e) 0
unfolding scaled
scaled-lt_next zero f h = omega arith
scaled-lt_next (suc e) f h =
    let most = mul-le-mul_right (2 ^ e) h in
    omega (arith, pow-suc 2 e, one-le-pow e 2 (omega arith), most)

grade-lt_suc : (m : ℕ) → grade m < grade (suc m)
unfolding grade
grade-lt_suc m = elim (Bool-cases (suc m % 2 ^ 23 == 0)) [
  | inl wraps ↦
      let next : suc m / 2 ^ 23 ≡ suc (m / 2 ^ 23) = ground (arith, wraps) in
      let low : suc m % 2 ^ 23 ≡ 0 = ground (arith, wraps) in
      rw (next, low) (scaled-lt_next (m / 2 ^ 23) (m % 2 ^ 23) (omega arith))
  | inr within ↦
      let same : suc m / 2 ^ 23 ≡ m / 2 ^ 23 = ground (arith, within) in
      let low : suc m % 2 ^ 23 ≡ m % 2 ^ 23 + 1 = ground (arith, within) in
      rw (same, low) (scaled-lt_suc (m / 2 ^ 23) (m % 2 ^ 23))
]

-- The patterns without a sign are in the order of their values.
pub grade-lt : (n m : ℕ) → m < n → grade m < grade n
grade-lt zero m h = absurd (omega arith)
grade-lt (suc n) m h = elim (Bool-cases (ltb m n)) [
  | inl below ↦ omega (arith, grade-lt n m (ltb→lt m n below), grade-lt_suc n)
  | inr last ↦ let same : n ≡ m = ground (arith, last) in rw same (grade-lt_suc m)
]

top_grade : grade (2 ^ 31) < beyond
unfolding grade scaled
top_grade = omega arith

pub grade-bound : (m : ℕ) → m < 2 ^ 31 → grade m < beyond
grade-bound m h = omega (arith, grade-lt (2 ^ 31) m h, top_grade)

pub grade-zero : grade 0 ≡ 0
unfolding grade scaled
grade-zero = refl
