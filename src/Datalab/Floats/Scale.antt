-- ===== src/Datalab/Floats/Scale.antt =====
-- datalab/bits.c: `floatScale2` doubles the value.
use native.Mathlib.Nat.{pow-suc}
use systems_labs.Base.{
  ℕ, suc, ◌+◌, ◌-◌, ◌*◌, ◌/◌, ◌%◌, ◌^◌, ◌≤◌, ◌<◌, ◌≡◌, refl, ap, ◌∙◌, Bool-cases, inl, inr, leb,
  ◌||◌, ltb, ltb→lt, ◌==◌, if◌then◌else◌, arith, add32, shl32, bit_and, bit_or,
}
use systems_labs.Base.Bits.{bit_and_mask, bit_or_fields}
use systems_labs.Base.Bits.Digits.{bit_and_field, bit_and_comm, bit_or_comm}
use systems_labs.Datalab.Floats.{float_scale2}
use systems_labs.Datalab.Floats.Value.{grade, scaled, magnitude, unsigned_part, exp-field}

-- An exponent field above 0, counted from 1, and a fraction with its leading bit.
pub grade-normal : (e q : ℕ) → 2 ^ 23 ≤ q → q ≤ 2 ^ 24 → grade (e * 2 ^ 23 + q) ≡ q * 2 ^ e
unfolding grade scaled
grade-normal e q low high = elim (Bool-cases (ltb q (2 ^ 24))) [
  | inl small ↦
      let exponent : (e * 2 ^ 23 + q) / 2 ^ 23 ≡ suc e = ground (arith, small) in
      let fraction : (e * 2 ^ 23 + q) % 2 ^ 23 ≡ q - 2 ^ 23 = ground (arith, small) in
      let whole : 2 ^ 23 + (q - 2 ^ 23) ≡ q = omega arith in rw (exponent, fraction, whole) refl
  | inr last ↦
      let exponent : (e * 2 ^ 23 + q) / 2 ^ 23 ≡ suc (suc e) = ground (arith, last) in
      let fraction : (e * 2 ^ 23 + q) % 2 ^ 23 ≡ 0 = ground (arith, last) in
      let whole : q ≡ 2 ^ 24 = ground (arith, last) in
      rw (exponent, fraction, whole) (omega (arith, pow-suc 2 e))
]

grade-small : (m : ℕ) → m < 2 ^ 23 → grade m ≡ m
unfolding grade scaled
grade-small m h =
    let exponent : m / 2 ^ 23 ≡ 0 = omega arith in
    let fraction : m % 2 ^ 23 ≡ m = omega arith in rw (exponent, fraction) refl

-- Doubling a pattern without a sign.
grade-double_small : (m : ℕ) → m < 2 ^ 23 → grade (2 * m) ≡ 2 * grade m
grade-double_small m h = elim (Bool-cases (ltb (2 * m) (2 ^ 23))) [
  | inl small ↦ omega (arith, grade-small m h, grade-small (2 * m) (ltb→lt _ _ small))
  | inr carries ↦
      let lowest : 0 * 2 ^ 23 + 2 * m ≡ 2 * m = omega arith in
      let normal = grade-normal 0 (2 * m) (ground (arith, carries)) (ground (arith, carries)) in
      omega (arith, grade-small m h, rw lowest at normal)
]

grade-double_normal : (m : ℕ) → 2 ^ 23 ≤ m → grade (m + 2 ^ 23) ≡ 2 * grade m
grade-double_normal m h =
    let e = m / 2 ^ 23 - 1 in
    let q = 2 ^ 23 + m % 2 ^ 23 in
    let before = grade-normal e q (omega arith) (omega arith) in
    let after = grade-normal (suc e) q (omega arith) (omega arith) in
    let here : e * 2 ^ 23 + q ≡ m = omega arith in
    let there : suc e * 2 ^ 23 + q ≡ m + 2 ^ 23 = omega arith in
    omega (arith, rw here at before, rw there at after, ap (λ (t : ℕ). q * t) (pow-suc 2 e))

-- The fraction of a small float is shifted into its exponent field.
shifted-sum :
    (uf : ℕ)
    → uf < 2 ^ 32
    → unsigned_part uf < 2 ^ 23
    → add32
        (bit_or (bit_and (shl32 uf 1) 0x007fffff) (bit_and uf 0xff800000))
        (shl32 (bit_and 0x00400000 uf) 1)
      ≡ uf + unsigned_part uf
shifted-sum uf h small =
    let low = bit_and_mask 23 (shl32 uf 1) in
    let high = bit_and_field 23 9 uf in
    let carry = bit_and_comm 0x00400000 uf ∙ bit_and_field 22 1 uf in
    let fields =
      bit_or_comm (shl32 uf 1 % 2 ^ 23) (uf / 2 ^ 23 % 2 ^ 9 * 2 ^ 23)
      ∙ bit_or_fields 23 (uf / 2 ^ 23 % 2 ^ 9) (shl32 uf 1 % 2 ^ 23) (omega arith) in
    rw (low, high, carry, fields) (omega arith)

-- The branches of `floatScale2`, over the fields of its argument.
scaled_by_two : ℕ → ℕ
scaled_by_two uf =
    let m = unsigned_part uf in
    if leb 0x7f800000 m || m == 0
    then uf
    else if ltb m (2 ^ 23)
    then uf + m
    else if leb 0x7f000000 m
    then uf / 2 ^ 31 * 2 ^ 31 + 0x7f800000
    else uf + 2 ^ 23

float_scale2-branches : (uf : ℕ) → uf < 2 ^ 32 → float_scale2 uf ≡ scaled_by_two uf
unfolding float_scale2 scaled_by_two
float_scale2-branches uf h =
    let next = add32 uf 0x00800000 in
    rw (exp-field uf h, exp-field next (omega arith), bit_and_mask 31 uf, bit_and_field 23 9 next)
      (ground (arith, shifted-sum uf h))

scaled_by_two-doubles :
    (uf : ℕ)
    → uf < 2 ^ 32
    → unsigned_part uf < 0x7f000000
    → (magnitude (scaled_by_two uf) ≡ 2 * magnitude uf) × (scaled_by_two uf / 2 ^ 31 ≡ uf / 2 ^ 31)
unfolding scaled_by_two
scaled_by_two-doubles uf h finite = elim (Bool-cases (ltb (unsigned_part uf) (2 ^ 23))) [
  | inl small ↦
      let sum : scaled_by_two uf ≡ uf + unsigned_part uf = ground (arith, small) in
      let part : unsigned_part (uf + unsigned_part uf) ≡ 2 * unsigned_part uf =
        ground (arith, small) in
      rw (sum, part)
        (grade-double_small (unsigned_part uf) (ltb→lt _ _ small), ground (arith, small))
  | inr normal ↦
      let sum : scaled_by_two uf ≡ uf + 2 ^ 23 = ground (arith, normal) in
      let part : unsigned_part (uf + 2 ^ 23) ≡ unsigned_part uf + 2 ^ 23 = omega arith in
      rw (sum, part) (grade-double_normal (unsigned_part uf) (ground (arith, normal)), omega arith)
]

-- For a pattern of 32 bits: floatScale2 returns an infinity or a NaN as it is, doubles the value
-- of a finite float below 2 ^ 127 and keeps its sign, denormalized floats included, and makes a
-- larger finite float the infinity of its sign.
pub float_scale2-cases :
    (uf : ℕ)
    → uf < 2 ^ 32
    → (0x7f800000 ≤ unsigned_part uf → float_scale2 uf ≡ uf)
      × (unsigned_part uf < 0x7f000000
          → (magnitude (float_scale2 uf) ≡ 2 * magnitude uf)
            × (float_scale2 uf / 2 ^ 31 ≡ uf / 2 ^ 31))
      × (0x7f000000 ≤ unsigned_part uf
          → unsigned_part uf < 0x7f800000
          → float_scale2 uf ≡ uf / 2 ^ 31 * 2 ^ 31 + 0x7f800000)
unfolding scaled_by_two
float_scale2-cases uf h = rw (float_scale2-branches uf h) (
  λ huge. ground arith,
  λ finite. scaled_by_two-doubles uf h finite,
  λ large finite. ground arith,
)
