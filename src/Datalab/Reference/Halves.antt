-- ===== src/Datalab/Reference/Halves.antt =====
-- datalab/tests.c: the loop over the two halves of `test_isPalindrome`.
use systems_labs.Base.{
  ℕ, zero, suc, ◌+◌, ◌-◌, ◌/◌, ◌%◌, ◌^◌, ◌≤◌, ◌<◌, ◌≡◌, ◌≢◌, refl, sym, ◌∙◌, ◌⊎◌, Bool-cases, inl,
  inr, ltb, ltb→lt, ◌==◌, arith, sar64, bit_and,
}
use systems_labs.Base.Bits.Masks.{bit_and-one}
use systems_labs.Base.Bits.Digits.{bit, bit_value, bit-shr, bit-mod}
use systems_labs.Datalab.Integers.{is_palindrome}
use systems_labs.Datalab.Integers.Mirror.{is_palindrome-cases, halves}
use systems_labs.Datalab.Reference.{mirror_loop, test_is_palindrome}

mirror_loop-zero : (xhi xlo left i : ℕ) → mirror_loop xhi xlo left i 0 ≡ 0
unfolding mirror_loop
mirror_loop-zero xhi xlo zero i = refl
mirror_loop-zero xhi xlo (suc left) i = mirror_loop-zero xhi xlo left (i + 1)

half-bit : (x i : ℕ) → x < 2 ^ 32 → bit_and (sar64 x i) 1 ≡ bit i x
half-bit x i h =
    let logical : sar64 x i ≡ x / 2 ^ i = ground arith in
    rw (logical, bit_value i x) (bit_and-one (x / 2 ^ i))

at_or_after :
    (xhi xlo i : ℕ)
    → bit i xhi ≡ bit (31 - i) xlo
    → ((k : ℕ) → i + 1 ≤ k → k < 32 → bit k xhi ≡ bit (31 - k) xlo)
    → (k : ℕ) → i ≤ k
    → k < 32
    → bit k xhi ≡ bit (31 - k) xlo
at_or_after xhi xlo i here rest k low hk = elim (Bool-cases (k == i)) [
  | inl same ↦ let place : k ≡ i = ground (arith, same) in rw place here
  | inr other ↦ rest k (ground (arith, other)) hk
]

-- The loop over the two halves finds two bits that differ, or returns 1.
mirror_loop-cases :
    (xhi xlo left i : ℕ)
    → xhi < 2 ^ 32
    → xlo < 2 ^ 32
    → i + left ≡ 32
    → ((mirror_loop xhi xlo left i 1 ≡ 1)
        × ((k : ℕ) → i ≤ k → k < 32 → bit k xhi ≡ bit (31 - k) xlo))
      ⊎ ((mirror_loop xhi xlo left i 1 ≡ 0) × (k : ℕ) × (k < 32) × (bit k xhi ≢ bit (31 - k) xlo))
unfolding mirror_loop
mirror_loop-cases xhi xlo zero i hh hl e = inl (refl, λ k low hk. absurd (omega arith))
mirror_loop-cases xhi xlo (suc left) i hh hl e =
    let high = half-bit xhi i hh in
    let low = half-bit xlo (31 - i) hl in
    elim (Bool-cases (bit i xhi == bit (31 - i) xlo)) [
      | inl same ↦
          let agree : bit i xhi ≡ bit (31 - i) xlo = ground (arith, same) in
          elim (mirror_loop-cases xhi xlo left (i + 1) hh hl (omega arith)) [
            | inl (done, rest) ↦ inl (rw (high, low, same) done, at_or_after xhi xlo i agree rest)
            | inr (done, k, hk, differs) ↦ inr (rw (high, low, same) done, k, hk, differs)
          ]
      | inr other ↦
          let differs : bit i xhi ≢ bit (31 - i) xlo = λ agree. ground (arith, agree, other) in
          inr
            (rw (high, low, other) (mirror_loop-zero xhi xlo left (i + 1)), i, omega arith, differs)
    ]

mirror_bits :
    (x : ℕ)
    → ((k : ℕ) → 0 ≤ k → k < 32 → bit k (x / 2 ^ 32) ≡ bit (31 - k) (x % 2 ^ 32))
    → (i : ℕ) → i < 64
    → bit i x ≡ bit (63 - i) x
mirror_bits x same i h = elim (Bool-cases (ltb i 32)) [
  | inl low ↦
      let below = ltb→lt i 32 low in
      let above : 31 - i + 32 ≡ 63 - i = omega arith in
      let back : 31 - (31 - i) ≡ i = omega arith in
      let upper = rw above at (bit-shr 32 (31 - i) x) in
      let equal = rw back at (same (31 - i) (omega arith) (omega arith)) in
      sym (bit-mod i 32 x below) ∙ sym equal ∙ upper
  | inr high ↦
      let large : 32 ≤ i = ground (arith, high) in
      let above : i - 32 + 32 ≡ i = omega arith in
      let back : 31 - (i - 32) ≡ 63 - i = omega arith in
      let upper = rw above at (bit-shr 32 (i - 32) x) in
      let equal = rw back at (same (i - 32) (omega arith) (omega arith)) in
      sym upper ∙ equal ∙ bit-mod (63 - i) 32 x (omega arith)
]

-- `isPalindrome` and its reference solution.
pub is_palindrome-agrees : (x : ℕ) → x < 2 ^ 64 → is_palindrome x ≡ test_is_palindrome x
unfolding test_is_palindrome
is_palindrome-agrees x hx =
    let (upper, lower) = halves x hx in
    let (mirrored, broken) = is_palindrome-cases x hx in
    rw (upper, lower)
      (elim (mirror_loop-cases (x / 2 ^ 32) (x % 2 ^ 32) 32 0 (omega arith) (omega arith) refl) [
        | inl (done, same) ↦ rw done (mirrored (mirror_bits x same))
        | inr (done, k, hk, differs) ↦ rw done (
            broken (31 - k) (omega arith) (λ e.
              let place : 63 - (31 - k) ≡ k + 32 = omega arith in
              differs
                (bit-shr 32 k x ∙ sym (rw place at e) ∙ sym (bit-mod (31 - k) 32 x (omega arith)))))
      ])
