-- ===== src/Datalab/Floats/Nearest.antt =====
-- datalab/bits.c: the float of `floatUnsigned2Float` is the nearest one to its argument.
use native.Mathlib.Nat.{pow-le-pow_right, div-add-mod, mod-lt, one-le-pow}
use systems_labs.Base.{
  ℕ, suc, ◌+◌, ◌-◌, ◌*◌, ◌/◌, ◌%◌, ◌^◌, ◌≤◌, ◌<◌, ◌≡◌, refl, sym, ap, ◌∙◌, ◌⊎◌, inl, inr,
  Bool-cases, ◌&&◌, ◌||◌, some, ltb, ltb→lt, ◌==◌, if◌then◌else◌, arith,
}
use systems_labs.Datalab.Floats.{pack_float, float_unsigned2float}
use systems_labs.Datalab.Floats.Value.{grade-zero, magnitude}
use systems_labs.Datalab.Floats.Rounding.{
  skip_zeros-leading, pow_split, packed, packed-lt, leading_shift, round_even-range,
  packed-magnitude, round_even, pack_float-exact, pack_float-rounded,
}

-- `q * t` is within half of `t` of `u`, and `q` is even at just a half.
abbrev pub IsClose : (t q u : ℕ) → Type 0
IsClose t q u =
    (2 * (q * t) ≤ 2 * u + t)
    × (2 * u ≤ 2 * (q * t) + t)
    × (2 * (q * t) ≡ 2 * u + t → q % 2 ≡ 0)
    × (2 * u ≡ 2 * (q * t) + t → q % 2 ≡ 0)

-- `w` reads as the multiple of `2 ^ k` nearest to `u`, the even one of two as near; `k` is as small
-- as a fraction of 24 bits allows.
pub IsNearest : (u w : ℕ) → Type 0
IsNearest u w =
    (k : ℕ) × (q : ℕ) × (magnitude w ≡ q * 2 ^ k * 2 ^ 149)
    × (u < 2 ^ (24 + k))
    × (k ≡ 0 ⊎ 2 ^ (23 + k) ≤ u)
    × IsClose (2 ^ k) q u

exact-IsNearest : (u w : ℕ) → u < 2 ^ 24 → magnitude w ≡ u * 2 ^ 149 → IsNearest u w
unfolding IsNearest
exact-IsNearest u w h e =
    let same : u * 1 ≡ u = omega arith in
    (
      0,
      u,
      e ∙ ap (λ (v : ℕ). v * 2 ^ 149) (sym same),
      h,
      inl refl,
      (omega arith, omega arith, (λ t. absurd (omega arith)), (λ t. absurd (omega arith))),
    )

rounded : (t q r : ℕ) → ℕ
rounded t q r = if ltb t (2 * r) || (2 * r == t && q % 2 == 1) then q + 1 else q

rounded-near : (t q r : ℕ) → r < t → IsClose t (rounded t q r) (t * q + r)
unfolding rounded
rounded-near t q r h =
    let up : (q + 1) * t ≡ t * q + t = grind arith in
    let same : q * t ≡ t * q = grind arith in ground (arith, up, same)

round_even-near : (k u : ℕ) → IsClose (2 ^ k) (round_even k u) u
unfolding round_even rounded
round_even-near k u =
    let t = 2 ^ k in
    rw (div-add-mod u t) at
      (rounded-near t (u / t) (u % t) (mod-lt u (one-le-pow k 2 (omega arith))))

times_pow : (u a b : ℕ) → u * 2 ^ a * 2 ^ b ≡ u * 2 ^ (a + b)
times_pow u a b = rw (pow_split a b) (grind arith)

small-IsNearest :
    (u i : ℕ)
    → i < 23
    → 2 ^ i ≤ u
    → u < 2 ^ suc i
    → (pack_float u i < 2 ^ 31) × IsNearest u (pack_float u i)
small-IsNearest u i hi low high =
    let (least, most) = leading_shift u i hi low high in
    let value = u * 2 ^ (23 - i) in
    let place : 23 - i + (126 + i) ≡ 149 = omega arith in
    let product = times_pow u (23 - i) (126 + i) ∙ ap (λ (e : ℕ). u * 2 ^ e) place in
    let inside = pow-le-pow_right {n = 2} (omega arith) {i = suc i} {j = 24} (omega arith) in
    rw (pack_float-exact u i hi low high) (
      packed-lt i value (omega arith) (omega (arith, most)),
      exact-IsNearest u (packed i value) (omega (arith, inside))
          (packed-magnitude i value (omega arith) least (omega (arith, most)) ∙ product),
    )

large-IsNearest :
    (u k : ℕ)
    → k ≤ 8
    → 2 ^ (23 + k) ≤ u
    → u < 2 ^ suc (23 + k)
    → (pack_float u (23 + k) < 2 ^ 31) × IsNearest u (pack_float u (23 + k))
unfolding IsNearest
large-IsNearest u k hk low high =
    let (least, most) = round_even-range u k hk low high in
    let q = round_even k u in
    let place : k + 149 ≡ 126 + (23 + k) = omega arith in
    let product = sym (times_pow q k 149 ∙ ap (λ (e : ℕ). q * 2 ^ e) place) in
    let next : suc (23 + k) ≡ 24 + k = omega arith in
    rw (pack_float-rounded u k hk low high) (
      packed-lt (23 + k) q (omega arith) most,
      (
        k,
        q,
        packed-magnitude (23 + k) q (omega arith) least most ∙ product,
        rw next at high,
        inr low,
        round_even-near k u,
      ),
    )

nearest :
    (u i : ℕ)
    → i ≤ 31
    → 2 ^ i ≤ u
    → u < 2 ^ suc i
    → (pack_float u i < 2 ^ 31) × IsNearest u (pack_float u i)
nearest u i hi low high = elim (Bool-cases (ltb i 23)) [
  | inl small ↦ small-IsNearest u i (ltb→lt i 23 small) low high
  | inr large ↦
      let place : 23 + (i - 23) ≡ i = ground (arith, large) in
      let back = sym place in
      rw place at (large-IsNearest u (i - 23) (omega arith) (rw back at low) (rw back at high))
]

-- For every pattern of 32 bits, floatUnsigned2Float ends and returns a positive float whose value
-- is the nearest to the argument of those with 24 significant bits, and the even one if two are
-- as near.
pub float_unsigned2float-IsNearest :
    (u : ℕ)
    → u < 2 ^ 32
    → (w : ℕ) × (float_unsigned2float u ≡ some w) × (w < 2 ^ 31) × IsNearest u w
unfolding float_unsigned2float
float_unsigned2float-IsNearest u h = elim (Bool-cases (u == 0)) [
  | inl zero_case ↦
      let none_set : u ≡ 0 = ground (arith, zero_case) in
      (0, rw none_set refl, omega arith, exact-IsNearest u 0 (omega arith) (rw none_set grade-zero))
  | inr positive ↦
      let (i, found, last, low, high) = skip_zeros-leading 31 u (ground (arith, positive)) h in
      let (word, near) = nearest u i last low high in
      (pack_float u i, rw (positive, found) refl, word, near)
]
