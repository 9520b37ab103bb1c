-- ===== src/Datalab/Reference/Collect.antt =====
-- datalab/tests.c: the loops that collect a result bit by bit, described by the bits that they set.
use native.Mathlib.Nat.{pow-suc, one-le-pow, pow-le-pow_right}
use systems_labs.Base.{
  ℕ, zero, suc, ◌+◌, ◌-◌, ◌*◌, ◌/◌, ◌^◌, ◌≤◌, ◌<◌, max, ◌≡◌, ap, ◌∙◌, ◌&&◌, leb, ltb, ◌==◌,
  if◌then◌else◌, arith, not64, shl64, bit_and, bit_or,
}
use systems_labs.Base.Bits.Digits.{
  bit, bit_and-le, bit-le-one, bit-zero, bit-bit_or, bit-shl, bit-shl_low, bit-mod, bit_or-lt,
  bit_and_field, bit_value, bit_ext,
}
use systems_labs.Datalab.Integers.{all_ones, bit_match, bit_mask}
use systems_labs.Datalab.Integers.Fields.{bit-bit_match, bit-bit_mask}
use systems_labs.Datalab.Reference.{collect, same_bit, of_bool, test_bit_match, test_bit_mask}

-- `x & (1L << i)`
pub and-place : (x i : ℕ) → i < 64 → bit_and x (shl64 1 i) ≡ bit i x * 2 ^ i
and-place x i h =
    let inside = pow-le-pow_right {n = 2} (omega arith) {i = suc i} {j = 64} (omega arith) in
    let word : shl64 1 i ≡ (2 ^ 1 - 1) * 2 ^ i =
      omega (arith, inside, pow-suc 2 i, one-le-pow i 2 (omega arith)) in
    rw (word, bit_value i x) (bit_and_field i 1 x)

bit_small : (b k : ℕ) → b ≤ 1 → bit k b ≡ (if k == 0 then b else 0)
unfolding bit
bit_small b zero h = omega arith
bit_small b (suc k) h =
    let halved : b / 2 ≡ 0 = omega arith in
    let low : bit k (b / 2) ≡ 0 = ap (bit k) halved ∙ bit-zero k in ground (arith, low)

-- A single bit at place `i`.
bit-place : (b i j : ℕ) → b ≤ 1 → j < 64 → bit j (shl64 b i) ≡ (if j == i then b else 0)
bit-place b i j hb hj =
    let moved : i ≤ j → bit j (b * 2 ^ i) ≡ (if j == i then b else 0) = λ h.
      let place : j - i + i ≡ j = omega arith in
      ground (arith, rw place at (bit-shl i (j - i) b), bit_small b (j - i) hb) in
    ground (arith, bit-mod j 64 (b * 2 ^ i) hj, bit-shl_low i j b, moved)

bit-collect :
    (place : ℕ → ℕ)
    → ((i : ℕ) → place i ≤ 1)
    → (left i result j : ℕ) → j < 64
    → bit j (collect place left i result)
      ≡ max (bit j result) (if leb i j && ltb j (i + left) then place j else 0)
unfolding collect
bit-collect place small zero i result j hj = ground arith
bit-collect place small (suc left) i result j hj =
    let same : j ≡ i → place j ≡ place i = ap place in
    ground (
      arith,
      same,
      bit-collect place small left (i + 1) (bit_or result (shl64 (place i) i)) j hj,
      bit-bit_or j result (shl64 (place i) i),
      bit-place (place i) i j (small i) hj,
      small i,
      small j,
    )

collect-lt :
    (place : ℕ → ℕ) (left i result : ℕ) → result < 2 ^ 64 → collect place left i result < 2 ^ 64
unfolding collect
collect-lt place zero i result h = h
collect-lt place (suc left) i result h =
    collect-lt place left (i + 1) (bit_or result (shl64 (place i) i))
      (bit_or-lt 64 result (shl64 (place i) i) h (omega arith))

same_bit-le : (x y i : ℕ) → same_bit x y i ≤ 1
unfolding same_bit
same_bit-le x y i = ground arith

same_scaled : (a b t : ℕ) → a ≤ 1 → b ≤ 1 → 1 ≤ t → of_bool (a * t == b * t) ≡ of_bool (a == b)
same_scaled zero zero t ha hb ht = ground arith
same_scaled zero (suc zero) t ha hb ht = ground arith
same_scaled (suc zero) zero t ha hb ht = ground arith
same_scaled (suc zero) (suc zero) t ha hb ht = ground arith
same_scaled zero (suc (suc b)) t ha hb ht = absurd (omega arith)
same_scaled (suc zero) (suc (suc b)) t ha hb ht = absurd (omega arith)
same_scaled (suc (suc a)) b t ha hb ht = absurd (omega arith)

same_bit_lem : (x y i : ℕ) → i < 64 → same_bit x y i ≡ (if bit i x == bit i y then 1 else 0)
unfolding same_bit
same_bit_lem x y i h =
    rw (and-place x i h, and-place y i h)
      (same_scaled (bit i x) (bit i y) (2 ^ i) (bit-le-one i x) (bit-le-one i y)
        (one-le-pow i 2 (omega arith)))

match-word : (x y : ℕ) → bit_match x y < 2 ^ 64
unfolding bit_match
match-word x y = omega arith

mask-word : (high low : ℕ) → bit_mask high low < 2 ^ 64
unfolding bit_mask
mask-word high low =
    let above = shl64 (shl64 all_ones high) 1 in
    omega (arith, bit_and-le (shl64 all_ones low) (not64 above))

-- `bitMatch` and its reference solution.
pub bit_match-agrees : (x y : ℕ) → x < 2 ^ 64 → y < 2 ^ 64 → bit_match x y ≡ test_bit_match x y
unfolding test_bit_match
bit_match-agrees x y hx hy =
    bit_ext 64 (bit_match x y) (collect (same_bit x y) 64 0 0) (match-word x y)
      (collect-lt (same_bit x y) 64 0 0 (omega arith))
      (λ i hi. ground (
        arith,
        bit-bit_match x y i hx hy hi,
        bit-collect (same_bit x y) (same_bit-le x y) 64 0 0 i hi,
        same_bit_lem x y i hi,
        bit-zero i,
      ))

-- For places from 0 to 63, bitMask agrees with test_bitMask, which sets the places from lowbit to
-- highbit one by one; the mask is empty if lowbit is above highbit.
pub bit_mask-agrees :
    (high low : ℕ) → high < 64 → low < 64 → bit_mask high low ≡ test_bit_mask high low
unfolding test_bit_mask
bit_mask-agrees high low hh hl =
    bit_ext 64 (bit_mask high low) (collect (λ i. 1) (high + 1 - low) low 0) (mask-word high low)
      (collect-lt (λ i. 1) (high + 1 - low) low 0 (omega arith))
      (λ i hi. ground (
        arith,
        bit-bit_mask high low i hh hl hi,
        bit-collect (λ i. 1) (λ i. omega arith) (high + 1 - low) low 0 i hi,
        bit-zero i,
      ))
