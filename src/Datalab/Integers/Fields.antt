-- ===== src/Datalab/Integers/Fields.antt =====
-- datalab/bits.c: the puzzles that select bits, described bit by bit.
use native.Mathlib.Nat.{pow-suc, one-le-pow, mod-eq_of_lt}
use systems_labs.Base.{
  ℕ, zero, suc, ◌+◌, ◌-◌, ◌*◌, ◌/◌, ◌%◌, ◌^◌, ◌≤◌, ◌<◌, ◌≡◌, ◌≢◌, refl, ap, ◌∙◌, ◌&&◌, leb, ◌==◌,
  ==_iff, true, sar64, shl64, if◌then◌else◌, arith, not64, bit_and, bit_xor,
}
use systems_labs.Base.Bits.{and_digit, mod-double, bit_or-zero}
use systems_labs.Base.Bits.Masks.{bit_or-zero_left}
use systems_labs.Base.Bits.Digits.{
  every_below, every_below_sound, and-zero_left, bit, bit-zero, bit-le-one, bit_and-le, bit-bit_and,
  bit-complement, bit-shl, bit-shl_low, bit-mod, bit_ext,
}
use systems_labs.Base.Bits.Xor.{xor_self, eq-of_xor}
use systems_labs.Datalab.Integers.{
  bit_match, odds, all_odd_bits, least_bit_pos, copy_lsb, conditional, bit_mask, all_ones, lnot,
}

-- Each bit of the result tells whether the arguments agree there.
pub bit-bit_match :
    (x y i : ℕ)
    → x < 2 ^ 64
    → y < 2 ^ 64
    → i < 64
    → bit i (bit_match x y) ≡ (if bit i x == bit i y then 1 else 0)
unfolding bit_match
bit-bit_match x y i hx hy hi =
    let both = bit_and-le x y in
    let neither = bit_and-le (not64 x) (not64 y) in
    let some_one = bit_and-le (not64 (bit_and x y)) (not64 (bit_and (not64 x) (not64 y))) in
    ground (
      arith,
      bit-complement i 64 (bit_and (not64 (bit_and x y)) (not64 (bit_and (not64 x) (not64 y)))) hi
          (omega arith),
      bit-bit_and i (not64 (bit_and x y)) (not64 (bit_and (not64 x) (not64 y))),
      bit-complement i 64 (bit_and x y) hi (omega arith),
      bit-complement i 64 (bit_and (not64 x) (not64 y)) hi (omega arith),
      bit-bit_and i x y,
      bit-bit_and i (not64 x) (not64 y),
      bit-complement i 64 x hi hx,
      bit-complement i 64 y hi hy,
      bit-le-one i x,
      bit-le-one i y,
    )

bit-ones : (i : ℕ) → i < 64 → bit i all_ones ≡ 1
bit-ones i hi = omega (arith, bit-complement i 64 0 hi (omega arith), bit-zero i)

-- The bits of `~0L << k`.
bit-ones_above : (k i : ℕ) → i < 64 → bit i (all_ones * 2 ^ k % 2 ^ 64) ≡ (if leb k i then 1 else 0)
bit-ones_above k i hi =
    let shifted : k ≤ i → bit i (all_ones * 2 ^ k) ≡ 1 = λ h.
      let place : i - k + k ≡ i = omega arith in
      rw place at (bit-shl k (i - k) all_ones) ∙ bit-ones (i - k) (omega arith) in
    ground (arith, bit-mod i 64 (all_ones * 2 ^ k) hi, shifted, bit-shl_low k i all_ones)

bit-next : (x i : ℕ) → i < 64 → bit i (x * 2 ^ 1 % 2 ^ 64) ≡ (if i == 0 then 0 else bit (i - 1) x)
bit-next x zero hi = omega (arith, bit-mod 0 64 (x * 2 ^ 1) hi, bit-shl_low 1 0 x (omega arith))
bit-next x (suc i) hi =
    let place : i + 1 ≡ suc i = omega arith in
    let before : suc i - 1 ≡ i = omega arith in
    rw before (ground (arith, bit-mod (suc i) 64 (x * 2 ^ 1) hi, rw place at (bit-shl 1 i x)))

-- The bits from `low` to `high` are set, and no other.
pub bit-bit_mask :
    (high low i : ℕ)
    → high < 64
    → low < 64
    → i < 64
    → bit i (bit_mask high low) ≡ (if leb low i && leb i high then 1 else 0)
unfolding bit_mask
bit-bit_mask high low i hh hl hi =
    let above = all_ones * 2 ^ high % 2 ^ 64 in
    ground (
      arith,
      bit-bit_and i (all_ones * 2 ^ low % 2 ^ 64) (not64 (above * 2 ^ 1 % 2 ^ 64)),
      bit-complement i 64 (above * 2 ^ 1 % 2 ^ 64) hi (omega arith),
      bit-next above i hi,
      bit-ones_above low i hi,
      bit-ones_above high (i - 1) (omega arith),
    )

odds_table : every_below 64 (λ i. bit i odds == i % 2) ≡ true
unfolding odds every_below bit
odds_table = refl

bit-odds : (i : ℕ) → i < 64 → bit i odds ≡ i % 2
bit-odds i hi = (==_iff (bit i odds) (i % 2)).0 (every_below_sound 64 _ i odds_table hi)

odds_word : odds < 2 ^ 64
unfolding odds
odds_word = omega arith

odd-full : (x i : ℕ) → ((j : ℕ) → j < 32 → bit (2 * j + 1) x ≡ 1) → i < 64 → i % 2 ≡ 1 → bit i x ≡ 1
odd-full x i full hi odd =
    let place : 2 * (i / 2) + 1 ≡ i = omega arith in rw place at (full (i / 2) (omega arith))

and-odds_keeps :
    (x : ℕ) → x < 2 ^ 64 → ((i : ℕ) → i < 32 → bit (2 * i + 1) x ≡ 1) → bit_and x odds ≡ odds
and-odds_keeps x hx full =
    bit_ext 64 (bit_and x odds) odds (omega (arith, bit_and-le x odds)) odds_word (λ i hi.
      ground (arith, bit-bit_and i x odds, bit-odds i hi, bit-le-one i x, odd-full x i full hi))

and-odds_misses : (x i : ℕ) → i < 32 → bit (2 * i + 1) x ≡ 0 → bit_xor (bit_and x odds) odds ≢ 0
and-odds_misses x i hi e none_missing =
    let same = ap (bit (2 * i + 1)) (eq-of_xor (bit_and x odds) odds none_missing) in
    absurd (omega (arith, same, bit-bit_and (2 * i + 1) x odds, bit-odds (2 * i + 1) (omega arith)))

-- 1 if every odd place is set, 0 if one is not.
pub all_odd_bits-cases :
    (x : ℕ)
    → x < 2 ^ 64
    → (((i : ℕ) → i < 32 → bit (2 * i + 1) x ≡ 1) → all_odd_bits x ≡ 1)
      × ((i : ℕ) → i < 32 → bit (2 * i + 1) x ≡ 0 → all_odd_bits x ≡ 0)
unfolding all_odd_bits
all_odd_bits-cases x hx = (
  λ full. rw (and-odds_keeps x hx full, xor_self odds) refl,
  λ i hi e. ground (arith, and-odds_misses x i hi e),
)

complement_and : (w x : ℕ) → x < 2 ^ w → bit_and (2 ^ w - 1 - x) x ≡ 0
complement_and w x h =
    bit_ext w (bit_and (2 ^ w - 1 - x) x) 0 (omega (arith, bit_and-le (2 ^ w - 1 - x) x))
      (omega arith)
      (λ i hi. omega (
        arith,
        bit-bit_and i (2 ^ w - 1 - x) x,
        bit-complement i w x hi h,
        bit-le-one i x,
        bit-zero i,
      ))

has_bit : (k x : ℕ) → x % 2 ^ suc k ≡ 2 ^ k → 0 < x
has_bit k zero e =
    let pos = one-le-pow (suc k) 2 (omega arith) in
    absurd (omega (arith, mod-eq_of_lt {n = 0} {m = 2 ^ suc k} pos, one-le-pow k 2 (omega arith)))
has_bit k (suc x) e = omega arith

-- `-x & x` in a word of `w` bits, when `x` has `k` zeros at its end.
negate_and : (k w x : ℕ) → x < 2 ^ w → x % 2 ^ suc k ≡ 2 ^ k → bit_and (2 ^ w - x) x ≡ 2 ^ k
negate_and k zero x h e = absurd (omega (arith, has_bit k x e))
negate_and zero (suc w) x h e =
    let halved : (2 ^ suc w - x) / 2 ≡ 2 ^ w - 1 - x / 2 = omega (arith, pow-suc 2 w) in
    let small : x / 2 < 2 ^ w = omega (arith, pow-suc 2 w) in
    let digits = rw (halved, complement_and w (x / 2) small) at (and_digit (2 ^ suc w - x) x) in
    omega (arith, digits, pow-suc 2 w)
negate_and (suc k) (suc w) x h e =
    let e' = rw (pow-suc 2 (suc k)) at e in
    let split = mod-double x (2 ^ suc k) (one-le-pow (suc k) 2 (omega arith)) in
    let halved : (2 ^ suc w - x) / 2 ≡ 2 ^ w - x / 2 =
      omega (arith, pow-suc 2 w, e', split, pow-suc 2 k) in
    let low : x / 2 % 2 ^ suc k ≡ 2 ^ k = omega (arith, e', split, pow-suc 2 k) in
    let rest = negate_and k w (x / 2) (omega (arith, pow-suc 2 w)) low in
    let digits = rw (halved, rest) at (and_digit (2 ^ suc w - x) x) in
    omega (arith, digits, e', split, pow-suc 2 k, pow-suc 2 w)

-- The lowest bit of a number that has its lowest bit at place `k`.
pub least_bit_pos-lowest : (x k : ℕ) → x < 2 ^ 64 → x % 2 ^ suc k ≡ 2 ^ k → least_bit_pos x ≡ 2 ^ k
unfolding least_bit_pos
least_bit_pos-lowest x k hx low =
    let word : (not64 x + 1) % 2 ^ 64 ≡ 2 ^ 64 - x = omega (arith, has_bit k x low) in
    rw word (negate_and k 64 x hx low)

pub spread : (b : ℕ) → sar64 (shl64 b 63) 63 ≡ (if b % 2 == 1 then all_ones else 0)
spread b = ground arith

-- All ones or zero, by the lowest bit.
pub copy_lsb_lem : (x : ℕ) → copy_lsb x ≡ (if x % 2 == 1 then all_ones else 0)
unfolding copy_lsb
copy_lsb_lem x = spread x

pub ones-and : (x : ℕ) → x < 2 ^ 64 → bit_and all_ones x ≡ x
ones-and x h =
    bit_ext 64 (bit_and all_ones x) x (omega (arith, bit_and-le all_ones x)) h
      (λ i hi. omega (arith, bit-bit_and i all_ones x, bit-ones i hi, bit-le-one i x))

-- `x ? y : z`
pub conditional_lem :
    (x y z : ℕ) → y < 2 ^ 64 → z < 2 ^ 64 → conditional x y z ≡ (if x == 0 then z else y)
unfolding conditional
conditional_lem x y z hy hz = ground (
  arith,
  spread (lnot x),
  ones-and y hy,
  ones-and z hz,
  and-zero_left y,
  and-zero_left z,
  bit_or-zero y,
  bit_or-zero_left z,
)
