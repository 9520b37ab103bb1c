-- ===== src/Datalab/Floats/Negate.antt =====
-- datalab/bits.c: `floatNegate` negates the value.
use systems_labs.Base.{
  ℕ, ◌+◌, ◌-◌, ◌*◌, ◌%◌, ◌^◌, ◌<◌, ◌≡◌, refl, Bool-cases, inl, inr, true, false, leb, if◌then◌else◌,
  arith, bit_xor,
}
use systems_labs.Base.Bits.Xor.{xor_flip}
use systems_labs.Datalab.Floats.{float_negate, is_nan}
use systems_labs.Datalab.Floats.Value.{value, unsigned_part, beyond, grade-bound}

flipped :
    (uf : ℕ)
    → uf < 2 ^ 32
    → bit_xor uf (2 ^ 31) ≡ (if leb (2 ^ 31) uf then uf - 2 ^ 31 else uf + 2 ^ 31)
flipped uf h = ground (arith, xor_flip 31 uf)

flipped-value :
    (uf : ℕ) → uf < 2 ^ 32 → value (bit_xor uf (2 ^ 31) % 2 ^ 32) + value uf ≡ 2 * beyond
unfolding value
flipped-value uf h =
    let small = grade-bound (unsigned_part uf) (omega arith) in
    elim (Bool-cases (leb (2 ^ 31) uf)) [
      | inl negative ↦
          let flip : bit_xor uf (2 ^ 31) % 2 ^ 32 ≡ uf - 2 ^ 31 =
            ground (arith, flipped uf h, negative) in
          let part : unsigned_part (uf - 2 ^ 31) ≡ unsigned_part uf = ground (arith, negative) in
          rw (flip, part) (ground (arith, small, negative))
      | inr positive ↦
          let flip : bit_xor uf (2 ^ 31) % 2 ^ 32 ≡ uf + 2 ^ 31 =
            ground (arith, flipped uf h, positive) in
          let part : unsigned_part (uf + 2 ^ 31) ≡ unsigned_part uf = ground (arith, positive) in
          rw (flip, part) (ground (arith, small, positive))
    ]

-- A NaN is returned; every other value is negated.
pub float_negate-cases :
    (uf : ℕ)
    → uf < 2 ^ 32
    → (is_nan uf ≡ true → float_negate uf ≡ uf)
      × (is_nan uf ≡ false → value (float_negate uf) + value uf ≡ 2 * beyond)
unfolding float_negate value
float_negate-cases uf h = (λ nan. rw nan refl, λ number. rw number (flipped-value uf h))
