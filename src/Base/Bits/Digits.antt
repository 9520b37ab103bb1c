-- ===== src/Base/Bits/Digits.antt =====
-- The bit at a place of a number, and what the bit operations and shifts do to it.
use Prim.Native.Nat.{bit_and-bitwise}
use Prim.Native.Nat.{
  ℕ, zero, suc, ◌+◌, ◌-◌, ◌*◌, ◌/◌, ◌%◌, ◌^◌, ◌≤◌, ◌<◌, min, max, bit_and, bit_or,
}
use mathlib.Core.Path.{◌≡◌, refl, sym, ap, ◌∙◌}
use mathlib.Core.Bool.{Bool, true, ◌&&◌}
use native.Mathlib.Omega.{arith}
use native.Mathlib.Nat.{pow-suc, one-le-pow, div-div-eq-div-mul}
use systems_labs.Base.Bits.{
  and_digit, or_digit, mod-double, bit_and-zero, bit_or-zero, bit_and_mask,
}
use systems_labs.Base.Bits.Masks.{bit_or-zero_left}

-- `(x >> i) & 1`
unfoldable pub bit : ℕ → ℕ → ℕ
bit zero x = x % 2
bit (suc i) x = bit i (x / 2)

pub bit-le-one : (i x : ℕ) → bit i x ≤ 1
unfolding bit
bit-le-one zero x = omega arith
bit-le-one (suc i) x = bit-le-one i (x / 2)

and_halves : (x y : ℕ) → bit_and x y / 2 ≡ bit_and (x / 2) (y / 2)
and_halves x y = omega (arith, and_digit x y)

or_halves : (x y : ℕ) → bit_or x y / 2 ≡ bit_or (x / 2) (y / 2)
or_halves x y = omega (arith, or_digit x y)

pub bit-bit_and : (i x y : ℕ) → bit i (bit_and x y) ≡ min (bit i x) (bit i y)
unfolding bit
bit-bit_and zero x y = omega (arith, and_digit x y)
bit-bit_and (suc i) x y = rw (and_halves x y) (bit-bit_and i (x / 2) (y / 2))

pub bit-bit_or : (i x y : ℕ) → bit i (bit_or x y) ≡ max (bit i x) (bit i y)
unfolding bit
bit-bit_or zero x y = omega (arith, or_digit x y)
bit-bit_or (suc i) x y = rw (or_halves x y) (bit-bit_or i (x / 2) (y / 2))

pub bit-zero : (i : ℕ) → bit i 0 ≡ 0
unfolding bit
bit-zero zero = refl
bit-zero (suc i) = bit-zero i

pub and-zero_left : (y : ℕ) → bit_and 0 y ≡ 0
and-zero_left y = simp bit_and-bitwise refl

and-le_below : (n x y : ℕ) → x < n → bit_and x y ≤ x
and-le_below zero x y h = absurd (omega arith)
and-le_below (suc n) zero y h = omega (arith, and-zero_left y)
and-le_below (suc n) (suc x) y h =
    omega (arith, and_digit (suc x) y, and-le_below n (suc x / 2) (y / 2) (omega arith))

pub bit_and-le : (x y : ℕ) → bit_and x y ≤ x
bit_and-le x y = and-le_below (suc x) x y (omega arith)

pub bit_or-lt : (w x y : ℕ) → x < 2 ^ w → y < 2 ^ w → bit_or x y < 2 ^ w
bit_or-lt zero x y hx hy =
    let left : x ≡ 0 = omega arith in
    let right : y ≡ 0 = omega arith in rw (left, right) (omega arith)
bit_or-lt (suc w) x y hx hy =
    let rest =
      bit_or-lt w (x / 2) (y / 2) (omega (arith, pow-suc 2 w)) (omega (arith, pow-suc 2 w)) in
    omega (arith, or_digit x y, rest, pow-suc 2 w)

and-comm_below : (n x y : ℕ) → x < n → bit_and x y ≡ bit_and y x
and-comm_below zero x y h = absurd (omega arith)
and-comm_below (suc n) zero y h = omega (arith, and-zero_left y, bit_and-zero y)
and-comm_below (suc n) (suc x) y h = omega (
  arith,
  and_digit (suc x) y,
  and_digit y (suc x),
  and-comm_below n (suc x / 2) (y / 2) (omega arith),
)

pub bit_and_comm : (x y : ℕ) → bit_and x y ≡ bit_and y x
bit_and_comm x y = and-comm_below (suc x) x y (omega arith)

-- `~x` in a word of `w` bits.
pub bit-complement : (i w x : ℕ) → i < w → x < 2 ^ w → bit i (2 ^ w - 1 - x) ≡ 1 - bit i x
unfolding bit
bit-complement i zero x h small = absurd (omega arith)
bit-complement zero (suc w) x h small = omega (arith, pow-suc 2 w)
bit-complement (suc i) (suc w) x h small =
    let halved : (2 ^ suc w - 1 - x) / 2 ≡ 2 ^ w - 1 - x / 2 = omega (arith, pow-suc 2 w) in
    rw halved (bit-complement i w (x / 2) (omega arith) (omega (arith, pow-suc 2 w)))

-- `x >> k` and `x << k`.
pub bit-shr : (k i x : ℕ) → bit i (x / 2 ^ k) ≡ bit (i + k) x
unfolding bit
bit-shr zero i x =
    let place : i + 0 ≡ i = omega arith in
    let same : x / 2 ^ 0 ≡ x = omega arith in rw (place, same) refl
bit-shr (suc k) i x =
    let place : i + suc k ≡ suc (i + k) = omega arith in
    let halved : x / 2 ^ suc k ≡ x / 2 / 2 ^ k =
      ap (λ (t : ℕ). x / t) (pow-suc 2 k ∙ omega arith) ∙ sym (div-div-eq-div-mul x 2 (2 ^ k)) in
    rw (place, halved) (bit-shr k i (x / 2))

shift_halves : (k x : ℕ) → x * 2 ^ suc k / 2 ≡ x * 2 ^ k
shift_halves k x = omega (arith, ap (λ (t : ℕ). x * t) (pow-suc 2 k))

-- A mask of `w` bits from place `k` on.
pub bit_and_field : (k w x : ℕ) → bit_and x ((2 ^ w - 1) * 2 ^ k) ≡ x / 2 ^ k % 2 ^ w * 2 ^ k
bit_and_field zero w x =
    let mask : (2 ^ w - 1) * 2 ^ 0 ≡ 2 ^ w - 1 = omega arith in
    let whole : x / 2 ^ 0 ≡ x = omega arith in rw (mask, whole) (omega (arith, bit_and_mask w x))
bit_and_field (suc k) w x =
    let halved : x / 2 ^ suc k ≡ x / 2 / 2 ^ k =
      ap (λ (t : ℕ). x / t) (pow-suc 2 k ∙ omega arith) ∙ sym (div-div-eq-div-mul x 2 (2 ^ k)) in
    let mask = (2 ^ w - 1) * 2 ^ k in
    let even : (2 ^ w - 1) * 2 ^ suc k ≡ mask * 2 =
      omega (arith, ap (λ (t : ℕ). (2 ^ w - 1) * t) (pow-suc 2 k)) in
    let kept = x / 2 / 2 ^ k % 2 ^ w in
    let raised : kept * 2 ^ suc k ≡ kept * 2 ^ k * 2 =
      omega (arith, ap (λ (t : ℕ). kept * t) (pow-suc 2 k)) in
    let half : mask * 2 / 2 ≡ mask = omega arith in
    rw (even, and_digit x (mask * 2), half, bit_and_field k w (x / 2), halved, raised) (omega arith)

pub bit-shl : (k i x : ℕ) → bit (i + k) (x * 2 ^ k) ≡ bit i x
unfolding bit
bit-shl zero i x =
    let place : i + 0 ≡ i = omega arith in
    let same : x * 2 ^ 0 ≡ x = omega arith in rw (place, same) refl
bit-shl (suc k) i x =
    let place : i + suc k ≡ suc (i + k) = omega arith in
    rw place (ap (bit (i + k)) (shift_halves k x) ∙ bit-shl k i x)

pub bit-shl_low : (k i x : ℕ) → i < k → bit i (x * 2 ^ k) ≡ 0
unfolding bit
bit-shl_low zero i x h = absurd (omega arith)
bit-shl_low (suc k) zero x h = omega (arith, ap (λ (t : ℕ). x * t) (pow-suc 2 k))
bit-shl_low (suc k) (suc i) x h = rw (shift_halves k x) (bit-shl_low k i x (omega arith))

pub bit-mod : (i w x : ℕ) → i < w → bit i (x % 2 ^ w) ≡ bit i x
unfolding bit
bit-mod i zero x h = absurd (omega arith)
bit-mod zero (suc w) x h =
    rw (pow-suc 2 w) (omega (arith, mod-double x (2 ^ w) (one-le-pow w 2 (omega arith))))
bit-mod (suc i) (suc w) x h =
    let halved : x % 2 ^ suc w / 2 ≡ x / 2 % 2 ^ w =
      rw (pow-suc 2 w) (omega (arith, mod-double x (2 ^ w) (one-le-pow w 2 (omega arith)))) in
    rw halved (bit-mod i w (x / 2) (omega arith))

pub bit_value : (i x : ℕ) → bit i x ≡ x / 2 ^ i % 2
unfolding bit
bit_value i x = let place : 0 + i ≡ i = omega arith in sym (rw place at (bit-shr i 0 x))

-- Words with the same bits are equal.
pub bit_ext : (w x y : ℕ) → x < 2 ^ w → y < 2 ^ w → ((i : ℕ) → i < w → bit i x ≡ bit i y) → x ≡ y
unfolding bit
bit_ext zero x y hx hy same = omega arith
bit_ext (suc w) x y hx hy same =
    let halves =
      bit_ext w (x / 2) (y / 2) (omega (arith, pow-suc 2 w)) (omega (arith, pow-suc 2 w))
        (λ i h. same (suc i) (omega arith)) in
    omega (arith, same 0 (omega arith), halves)

-- A table of constants, checked by evaluation.
unfoldable pub every_below : ℕ → (ℕ → Bool) → Bool
every_below zero p = true
every_below (suc n) p = p n && every_below n p

pub every_below_sound : (n : ℕ) (p : ℕ → Bool) (i : ℕ) → every_below n p ≡ true → i < n → p i ≡ true
unfolding every_below
every_below_sound zero p i e h = absurd (omega arith)
every_below_sound (suc n) p i e h = ground (arith, every_below_sound n p i)

or-comm_below : (n x y : ℕ) → x < n → bit_or x y ≡ bit_or y x
or-comm_below zero x y h = absurd (omega arith)
or-comm_below (suc n) zero y h = omega (arith, bit_or-zero_left y, bit_or-zero y)
or-comm_below (suc n) (suc x) y h = omega (
  arith,
  or_digit (suc x) y,
  or_digit y (suc x),
  or-comm_below n (suc x / 2) (y / 2) (omega arith),
)

pub bit_or_comm : (x y : ℕ) → bit_or x y ≡ bit_or y x
bit_or_comm x y = or-comm_below (suc x) x y (omega arith)
