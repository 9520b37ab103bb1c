-- ===== src/Datalab/Floats/Rounding.antt =====
-- datalab/bits.c: `floatUnsigned2Float` gives the nearest float, and the even one of two as near.
use native.Mathlib.Nat.{
  pow-suc, one-le-pow, mul-le-mul_right, div-eq_of_lt, le-div_iff_mul-le, div-lt_iff_lt-mul,
  div-add-mod, mod-lt,
}
use systems_labs.Base.{
  ℕ, zero, suc, ◌+◌, ◌-◌, ◌*◌, ◌/◌, ◌%◌, ◌^◌, ◌≤◌, ◌<◌, ◌≡◌, ap, ◌∙◌, inl, inr, Bool-cases, true,
  ◌&&◌, ◌||◌, some, ltb, ltb→lt, ◌==◌, if◌then◌else◌, arith, add32, shl32, bit_or,
}
use systems_labs.Base.Bits.{bit_and_mask, bit_or_fields}
use systems_labs.Base.Bits.Digits.{bit_and_field, bit_and_comm}
use systems_labs.Datalab.Floats.{skip_zeros, pack_float}
use systems_labs.Datalab.Floats.Value.{magnitude, unsigned_part}
use systems_labs.Datalab.Floats.Scale.{grade-normal}

-- The loop stops at the leading bit.
pub skip_zeros-leading :
    (i u : ℕ)
    → 0 < u
    → u < 2 ^ suc i
    → (j : ℕ) × (skip_zeros i u ≡ some j) × (j ≤ i) × (2 ^ j ≤ u) × (u < 2 ^ suc j)
unfolding skip_zeros
skip_zeros-leading zero u pos h = (0, ground arith, omega arith, omega arith, h)
skip_zeros-leading (suc i) u pos h = elim (Bool-cases (ltb u (2 ^ suc i))) [
  | inl small ↦
      let (j, found, last, least, most) = skip_zeros-leading i u pos (ltb→lt u (2 ^ suc i) small) in
      let clear = div-eq_of_lt (ltb→lt u (2 ^ suc i) small) in
      (j, ground (arith, found, clear), omega arith, least, most)
  | inr large ↦
      let leading : 2 ^ suc i ≤ u = ground (arith, large) in
      let positive = one-le-pow (suc i) 2 (omega arith) in
      let set : 1 ≤ u / 2 ^ suc i = (le-div_iff_mul-le positive).1 (omega (arith, leading)) in
      (suc i, ground (arith, set), omega arith, leading, h)
]

-- Powers of two multiply by adding their exponents.
pub pow_split : (a b : ℕ) → 2 ^ (a + b) ≡ 2 ^ a * 2 ^ b
pow_split a zero = let same : a + 0 ≡ a = omega arith in rw same (omega arith)
pow_split a (suc b) =
    let next : a + suc b ≡ suc (a + b) = omega arith in
    rw (next, pow-suc 2 (a + b), pow_split a b, pow-suc 2 b) (grind arith)

-- `exp | (0x007fffff & x)`, where the exponent field is `e`.
fields_sum : (e x : ℕ) → e < 2 ^ 8 → bit_or (shl32 e 23) (x % 2 ^ 23) ≡ e * 2 ^ 23 + x % 2 ^ 23
fields_sum e x h =
    let word : shl32 e 23 ≡ e * 2 ^ 23 = omega arith in
    rw word (bit_or_fields 23 e (x % 2 ^ 23) (omega arith))

-- `q` with its leading bit at place 23, put into a float with the exponent field `127 + i`.
unfoldable pub packed : (i q : ℕ) → ℕ
packed i q = (126 + i) * 2 ^ 23 + q

pub packed-lt : (i q : ℕ) → i ≤ 31 → q ≤ 2 ^ 24 → packed i q < 2 ^ 31
unfolding packed
packed-lt i q hi high = omega arith

pub packed-magnitude :
    (i q : ℕ) → i ≤ 31 → 2 ^ 23 ≤ q → q ≤ 2 ^ 24 → magnitude (packed i q) ≡ q * 2 ^ (126 + i)
unfolding packed
packed-magnitude i q hi low high =
    let part : unsigned_part ((126 + i) * 2 ^ 23 + q) ≡ (126 + i) * 2 ^ 23 + q = omega arith in
    rw part (grade-normal (126 + i) q low high)

-- The rounded quotient of `u` by `2 ^ k`.
unfoldable pub round_even : (k u : ℕ) → ℕ
round_even k u =
    let q = u / 2 ^ k in
    let r = u % 2 ^ k in if ltb (2 ^ k) (2 * r) || (2 * r == 2 ^ k && q % 2 == 1) then q + 1 else q

-- A number with its leading bit at place `i`, shifted to place 23.
pub leading_shift :
    (u i : ℕ)
    → i < 23
    → 2 ^ i ≤ u
    → u < 2 ^ suc i
    → (2 ^ 23 ≤ u * 2 ^ (23 - i)) × (u * 2 ^ (23 - i) < 2 ^ 24)
leading_shift u i hi low high =
    let s = 2 ^ (23 - i) in
    let place : i + (23 - i) ≡ 23 = omega arith in
    let whole = rw place at (pow_split i (23 - i)) in
    let least = mul-le-mul_right s low in
    let most = mul-le-mul_right s high in
    let up : 2 ^ suc i * s ≡ 2 ^ i * s * 2 = rw (pow-suc 2 i) (grind arith) in
    let raised : suc u * s ≡ u * s + s = grind arith in
    let positive = one-le-pow (23 - i) 2 (omega arith) in
    (omega (arith, least, whole), omega (arith, most, up, raised, whole, positive))

pub pack_float-exact :
    (u i : ℕ) → i < 23 → 2 ^ i ≤ u → u < 2 ^ suc i → pack_float u i ≡ packed i (u * 2 ^ (23 - i))
unfolding pack_float packed
pack_float-exact u i hi low high =
    let value = u * 2 ^ (23 - i) in
    let (least, most) = leading_shift u i hi low high in
    let below : ltb i 23 ≡ true = ground arith in
    let word : shl32 u (23 - i) ≡ value = omega (arith, most) in
    rw (below, word, bit_and_comm 0x007fffff value, bit_and_mask 23 value)
      (omega (arith, fields_sum (127 + i) value (omega arith), least, most))

-- The remainder at the size that the code compares it: times `2 ^ (8 - k)`.
IsAligned : (k u : ℕ) → Type 0
IsAligned k u =
    let s = 2 ^ (8 - k) in
    let t = 2 ^ k in
    let r = u % t in
    (u * s ≡ u / t * 256 + r * s)
    × (r * s < 256)
    × (2 * r < t → 2 * (r * s) < 256)
    × (t < 2 * r → 256 < 2 * (r * s))
    × (2 * r ≡ t → 2 * (r * s) ≡ 256)
    × (2 ^ 23 ≤ u / t)
    × (u / t < 2 ^ 24)

aligned_at :
    (s t q r : ℕ)
    → 1 ≤ s
    → t * s ≡ 256
    → r < t
    → ((t * q + r) * s ≡ q * 256 + r * s)
      × (r * s < 256)
      × (2 * r < t → 2 * (r * s) < 256)
      × (t < 2 * r → 256 < 2 * (r * s))
      × (2 * r ≡ t → 2 * (r * s) ≡ 256)
aligned_at s t q r hs hts hr = (
  (let spread : (t * q + r) * s ≡ q * (t * s) + r * s = grind arith in
      spread ∙ ap (λ (v : ℕ). q * v + r * s) hts),
  (let most = mul-le-mul_right s hr in grind arith),
  (λ h. let most = mul-le-mul_right s h in grind arith),
  (λ h. let least = mul-le-mul_right s h in grind arith),
  (λ h. let same = ap (λ (v : ℕ). v * s) h in grind arith),
)

aligned : (k u : ℕ) → k ≤ 8 → 2 ^ (23 + k) ≤ u → u < 2 ^ suc (23 + k) → IsAligned k u
unfolding IsAligned
aligned k u hk low high =
    let s = 2 ^ (8 - k) in
    let t = 2 ^ k in
    let place : k + (8 - k) ≡ 8 = omega arith in
    let product = rw place at (pow_split k (8 - k)) in
    let positive = one-le-pow k 2 (omega arith) in
    let (whole, small, down, up, tie) =
      aligned_at s t (u / t) (u % t) (one-le-pow (8 - k) 2 (omega arith)) (omega (arith, product))
        (mod-lt u positive) in
    let split = div-add-mod u t in
    let next : suc (23 + k) ≡ 24 + k = omega arith in
    let least : 2 ^ 23 ≤ u / t = (le-div_iff_mul-le positive).1 (omega (arith, pow_split 23 k)) in
    let most : u / t < 2 ^ 24 =
      (div-lt_iff_lt-mul positive).1 (omega (arith, rw next at high, pow_split 24 k)) in
    (rw split at whole, small, down, up, tie, least, most)

pub round_even-range :
    (u k : ℕ)
    → k ≤ 8
    → 2 ^ (23 + k) ≤ u
    → u < 2 ^ suc (23 + k)
    → (2 ^ 23 ≤ round_even k u) × (round_even k u ≤ 2 ^ 24)
unfolding round_even IsAligned
round_even-range u k hk low high =
    let (whole, small, down, up, tie, least, most) = aligned k u hk low high in
    ground (arith, least, most)

pub pack_float-rounded :
    (u k : ℕ)
    → k ≤ 8
    → 2 ^ (23 + k) ≤ u
    → u < 2 ^ suc (23 + k)
    → pack_float u (23 + k) ≡ packed (23 + k) (round_even k u)
unfolding pack_float packed round_even IsAligned
pack_float-rounded u k hk low high =
    let shift : 31 - (23 + k) ≡ 8 - k = omega arith in
    let drop : 23 + k - 23 ≡ k = omega arith in
    let shifted = u * 2 ^ (8 - k) in
    let (whole, small, down, up, tie, least, most) = aligned k u hk low high in
    let word : shl32 u (8 - k) ≡ shifted = omega (arith, whole, small, most) in
    let q = u / 2 ^ k in
    let e = 127 + (23 + k) in
    let raised = add32 (q % 2 ^ 23) 1 in
    rw
      (
        shift,
        drop,
        word,
        bit_and_comm 0x007fffff q,
        bit_and_mask 23 q,
        bit_and_field 31 1 (shl32 shifted 23),
        bit_and_field 31 1 (shl32 shifted 24),
        bit_and_field 23 1 raised,
        bit_and_mask 23 raised,
        bit_and_mask 23 (q % 2 ^ 23),
      )
      (ground (
        arith,
        whole,
        small,
        down,
        up,
        tie,
        least,
        most,
        fields_sum e raised (omega arith),
        fields_sum e (q % 2 ^ 23) (omega arith),
        fields_sum (suc e) raised (omega arith),
      ))
