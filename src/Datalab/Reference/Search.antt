-- ===== src/Datalab/Reference/Search.antt =====
-- datalab/tests.c: the loops that search for a bit.
use native.Mathlib.Nat.{pow-suc, one-le-pow, pow-le-pow_right}
use systems_labs.Base.{
  ℕ, zero, suc, ◌+◌, ◌*◌, ◌/◌, ◌%◌, ◌^◌, ◌≤◌, ◌<◌, ◌≡◌, refl, sym, ap, ◌∙◌, ◌⊎◌, Bool-cases, inl,
  inr, some, ltb, ltb→lt, ◌==◌, arith, shl64, bit_and,
}
use systems_labs.Base.Bits.{mod-double}
use systems_labs.Base.Bits.Digits.{bit, bit-le-one, bit_and_comm}
use systems_labs.Datalab.Integers.{all_odd_bits, least_bit_pos}
use systems_labs.Datalab.Integers.Fields.{all_odd_bits-cases, least_bit_pos-lowest}
use systems_labs.Datalab.Reference.{odd_loop, test_all_odd_bits, shift_loop, test_least_bit_pos}
use systems_labs.Datalab.Reference.Collect.{and-place}

test_scaled : (b t : ℕ) → b ≤ 1 → 1 ≤ t → (b * t == 0) ≡ (b == 0)
test_scaled zero t hb ht = ground arith
test_scaled (suc zero) t hb ht = ground arith
test_scaled (suc (suc b)) t hb ht = absurd (omega arith)

place_test : (x i : ℕ) → i < 64 → (bit_and x (shl64 1 i) == 0) ≡ (bit i x == 0)
place_test x i h =
    rw (and-place x i h)
      (test_scaled (bit i x) (2 ^ i) (bit-le-one i x) (one-le-pow i 2 (omega arith)))

one_more :
    (x left i : ℕ)
    → bit i x ≡ 1
    → ((k : ℕ) → k < left → bit (i + 2 + 2 * k) x ≡ 1)
    → (k : ℕ) → k < suc left
    → bit (i + 2 * k) x ≡ 1
one_more x left i e rest zero h = let place : i + 2 * 0 ≡ i = omega arith in rw place e
one_more x left i e rest (suc k) h =
    let place : i + 2 * suc k ≡ i + 2 + 2 * k = omega arith in rw place (rest k (omega arith))

-- The loop over the odd places finds a zero or returns 1.
odd_loop-cases :
    (x left i : ℕ)
    → i + 2 * left ≤ 65
    → ((odd_loop x left i ≡ 1) × ((k : ℕ) → k < left → bit (i + 2 * k) x ≡ 1))
      ⊎ ((odd_loop x left i ≡ 0) × (k : ℕ) × (k < left) × (bit (i + 2 * k) x ≡ 0))
unfolding odd_loop
odd_loop-cases x zero i h = inl (refl, λ k hk. absurd (omega arith))
odd_loop-cases x (suc left) i h = elim (Bool-cases (bit i x == 0)) [
  | inl clear ↦
      let place : i + 2 * 0 ≡ i = omega arith in
      inr (
        rw (place_test x i (omega arith), clear) refl,
        0,
        omega arith,
        rw place (ground (arith, clear)),
      )
  | inr set ↦ elim (odd_loop-cases x left (i + 2) (omega arith)) [
    | inl (e, full) ↦
        let here : bit i x ≡ 1 = ground (arith, set, bit-le-one i x) in
        inl (rw (place_test x i (omega arith), set) e, one_more x left i here full)
    | inr (e, k, hk, missing) ↦
        let place : i + 2 * suc k ≡ i + 2 + 2 * k = omega arith in
        inr (rw (place_test x i (omega arith), set) e, suc k, omega arith, rw place missing)
  ]
]

-- `allOddBits` and its reference solution.
pub all_odd_bits-agrees : (x : ℕ) → x < 2 ^ 64 → all_odd_bits x ≡ test_all_odd_bits x
unfolding test_all_odd_bits
all_odd_bits-agrees x hx =
    let (full, missing) = all_odd_bits-cases x hx in
    elim (odd_loop-cases x 32 1 (omega arith)) [
      | inl (e, every) ↦ rw e (
          full
            (λ i hi. let place : 1 + 2 * i ≡ 2 * i + 1 = omega arith in rw place at (every i hi)))
      | inr (e, k, hk, clear) ↦
          let place : 1 + 2 * k ≡ 2 * k + 1 = omega arith in rw e (missing k hk (rw place at clear))
    ]

-- A number with zeros below place `i` has one more, or its lowest bit there.
mod_next : (i x : ℕ) → x % 2 ^ suc i ≡ bit i x * 2 ^ i + x % 2 ^ i
unfolding bit
mod_next zero x = omega arith
mod_next (suc i) x =
    let longer =
      rw (pow-suc 2 i) at (mod-double x (2 ^ suc i) (one-le-pow (suc i) 2 (omega arith))) in
    let shorter = mod-double x (2 ^ i) (one-le-pow i 2 (omega arith)) in
    let regroup : bit i (x / 2) * (2 ^ i * 2) ≡ bit i (x / 2) * 2 ^ i * 2 = grind arith in
    let halves = rw (pow-suc 2 i) at (mod_next i (x / 2)) in
    rw (pow-suc 2 (suc i), pow-suc 2 i) (omega (arith, longer, shorter, regroup, halves))

place_word : (i : ℕ) → i < 64 → 2 ^ i ≡ shl64 1 i
place_word i h =
    let inside = pow-le-pow_right {n = 2} (omega arith) {i = suc i} {j = 64} (omega arith) in
    omega (arith, inside, pow-suc 2 i, one-le-pow i 2 (omega arith))

shift_loop-lowest :
    (x left i : ℕ)
    → 0 < x
    → x < 2 ^ 64
    → i + left ≡ 64
    → x % 2 ^ i ≡ 0
    → shift_loop x left (2 ^ i) ≡ some (least_bit_pos x)
unfolding shift_loop
shift_loop-lowest x zero i pos hx e low =
    let place : i ≡ 64 = omega arith in absurd (omega (arith, rw place at low))
shift_loop-lowest x (suc left) i pos hx e low =
    let next = mod_next i x in
    let test =
      ap (λ (t : ℕ). t == 0) (bit_and_comm (2 ^ i) x ∙ ap (bit_and x) (place_word i (omega arith)))
      ∙ place_test x i (omega arith) in
    elim (Bool-cases (bit i x == 0)) [
      | inl clear ↦
          let none_set : bit i x ≡ 0 = ground (arith, clear) in
          let still : x % 2 ^ suc i ≡ 0 = omega (arith, rw (none_set, low) at next) in
          rw (test, clear)
            (elim (Bool-cases (ltb (suc i) 64)) [
              | inl more ↦
                  let word = place_word (suc i) (ltb→lt (suc i) 64 more) in
                  let double : shl64 (2 ^ i) 1 ≡ 2 ^ suc i = omega (arith, word, pow-suc 2 i) in
                  rw double (shift_loop-lowest x left (suc i) pos hx (omega arith) still)
              | inr last ↦
                  let place : suc i ≡ 64 = ground (arith, last) in
                  absurd (omega (arith, rw place at still))
            ])
      | inr set ↦
          let lowest : x % 2 ^ suc i ≡ 2 ^ i =
            let one_set : bit i x ≡ 1 = ground (arith, set, bit-le-one i x) in
            omega (arith, rw (one_set, low) at next) in
          rw (test, set, least_bit_pos-lowest x i hx lowest) refl
    ]

least_bit_pos-zero : least_bit_pos 0 ≡ 0
unfolding least_bit_pos
least_bit_pos-zero = refl

-- `leastBitPos` and its reference solution.
pub least_bit_pos-agrees : (x : ℕ) → x < 2 ^ 64 → test_least_bit_pos x ≡ some (least_bit_pos x)
unfolding test_least_bit_pos
least_bit_pos-agrees x hx = elim (Bool-cases (x == 0)) [
  | inl clear ↦
      let nothing : x ≡ 0 = ground (arith, clear) in rw nothing (ap some (sym least_bit_pos-zero))
  | inr set ↦ rw set (shift_loop-lowest x 64 0 (ground (arith, set)) hx refl (omega arith))
]
