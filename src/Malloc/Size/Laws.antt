-- ===== src/Malloc/Size/Laws.antt =====
-- The rounding of requests and the bucket of a size in malloc/mm.c.
use systems_labs.Base.{
  ℕ, zero, suc, ◌+◌, ◌*◌, ◌/◌, ◌%◌, ◌^◌, ◌≤◌, ◌<◌, ◌≡◌, refl, inl, inr, arith, ◌==◌, leb, ltb,
  Bool-cases, ltb→lt, leb→le, sub64,
}
use native.Mathlib.Nat.{pow-suc, pow-le-pow_right}
use systems_labs.Malloc.Size.{max, min, round_up, adjusted_size, shift_count, get_seglist_ind}

abbrev pub Rounds : (size n : ℕ) → Type 0
Rounds size asize =
    (asize % 16 ≡ 0)
    × (16 ≤ asize)
    × (size + 8 ≤ asize)
    × ((n : ℕ) → n % 16 ≡ 0 → 16 ≤ n → size + 8 ≤ n → asize ≤ n)

rounded :
    (size : ℕ) → size + 23 < 2 ^ 64 → round_up ((size + 8) % 2 ^ 64) 16 ≡ (size + 23) / 16 * 16
unfolding round_up
rounded size fits = omega arith

-- For a request below 2^64 - 23, the block size that malloc computes is the least multiple of 16
-- that is at least 16 and holds the request and a header.
pub adjusted_size-least : (size : ℕ) → size + 23 < 2 ^ 64 → Rounds size (adjusted_size size)
unfolding adjusted_size max
adjusted_size-least size fits =
    rw (rounded size fits) (elim (Bool-cases (ltb 16 ((size + 23) / 16 * 16))) [
      | inl t ↦
          let large : 16 < (size + 23) / 16 * 16 = ltb→lt _ _ t in
          rw t (omega arith, omega arith, omega arith, λ n e a b. omega arith)
      | inr f ↦
          let small : (size + 23) / 16 * 16 ≤ 16 = ground arith in
          rw f (omega arith, omega arith, omega arith, λ n e a b. omega arith)
    ])

record Bits (i c : ℕ) : Type 0 where
  above : i < 2 ^ c
  reached : 0 < i → 2 ^ c ≤ 2 * i
  empty : i ≡ 0 → c ≡ 0

twice :
    (fuel i : ℕ)
    → 0 < i
    → Bits (i / 2) (shift_count fuel (i / 2))
    → 2 ^ suc (shift_count fuel (i / 2)) ≤ 2 * i
twice fuel i p halved = elim (Bool-cases (i / 2 == 0)) [
  | inl t ↦
      let none : shift_count fuel (i / 2) ≡ 0 = halved.empty (ground arith) in rw none (omega arith)
  | inr f ↦
      let more : 0 < i / 2 = ground arith in
      omega (arith, pow-suc 2 (shift_count fuel (i / 2)), halved.reached more)
]

shift_count-Bits : (fuel i : ℕ) → i < 2 ^ fuel → Bits i (shift_count fuel i)
unfolding shift_count
shift_count-Bits zero i h = record {
  above = h;
  reached = λ p. absurd (omega arith);
  empty = λ e. refl;
}
shift_count-Bits (suc fuel) i h = elim (Bool-cases (i == 0)) [
  | inl t ↦
      let none : i ≡ 0 = ground arith in
      rw t (record { above = omega arith; reached = λ p. absurd (omega arith); empty = λ e. refl })
  | inr f ↦
      let some_bit : 0 < i = ground arith in
      let halved = shift_count-Bits fuel (i / 2) (omega (arith, pow-suc 2 fuel)) in
      rw f (record {
        above = omega (arith, pow-suc 2 (shift_count fuel (i / 2)), halved.above);
        reached = λ p. twice fuel i some_bit halved;
        empty = λ e. absurd (omega arith);
      })
]

-- `k` is the bucket of `size`: they hold the sizes from sixteen up, from thirty-two up, and so on,
-- and the last one all that are larger.
abbrev pub IsBucket : (size k : ℕ) → Type 0
IsBucket size k = (k ≤ 14) × (16 * 2 ^ k ≤ size) × (k < 14 → size < 32 * 2 ^ k)

shift_count-le : (fuel i : ℕ) → shift_count fuel i ≤ fuel
unfolding shift_count
shift_count-le zero i = omega arith
shift_count-le (suc fuel) i = elim (Bool-cases (i == 0)) [
  | inl t ↦ rw t (omega arith)
  | inr f ↦ rw f (omega (arith, shift_count-le fuel (i / 2)))
]

capped : (size c : ℕ) → 16 ≤ size → c ≤ 64 → Bits (size / 16) c → IsBucket size (min (sub64 c 1) 14)
unfolding min
capped size zero least short bits = absurd (omega (arith, bits.above))
capped size (suc k) least short bits =
    let less : sub64 (suc k) 1 ≡ k = omega arith in
    let lower = bits.reached (omega arith) in
    rw less (elim (Bool-cases (ltb k 14)) [
      | inl t ↦
          let before : k < 14 = ltb→lt _ _ t in
          rw t
            (omega arith, omega (arith, pow-suc 2 k), λ b. omega (arith, pow-suc 2 k, bits.above))
      | inr f ↦
          let more : 14 ≤ k = ground arith in
          rw f (
            omega arith,
            omega (arith, pow-suc 2 k, pow-le-pow_right {n = 2} (omega arith) more),
            λ b. absurd (omega arith),
          )
    ])

-- For a size from 16 up to 2^64, get_seglist_ind is the k, at most 14, for which the size lies in
-- [16 * 2^k, 32 * 2^k), or 14 if it is larger.
pub get_seglist_ind-IsBucket :
    (size : ℕ) → 16 ≤ size → size < 2 ^ 64 → IsBucket size (get_seglist_ind size)
unfolding get_seglist_ind min
get_seglist_ind-IsBucket size least small = elim (Bool-cases (leb size 16)) [
  | inl t ↦
      let exact : size ≤ 16 = leb→le _ _ t in rw t (omega arith, omega arith, λ b. omega arith)
  | inr f ↦ rw f (
      capped size (shift_count 64 (size / 16)) least (shift_count-le 64 (size / 16))
        (shift_count-Bits 64 (size / 16) (omega arith)))
]

-- A size in an earlier list is smaller.
pub get_seglist_ind-later :
    (size other : ℕ)
    → 16 ≤ size
    → size < 2 ^ 64
    → 16 ≤ other
    → other < 2 ^ 64
    → get_seglist_ind size < get_seglist_ind other
    → size < other
get_seglist_ind-later size other ls ss lo so less =
    let a = get_seglist_ind-IsBucket size ls ss in
    let b = get_seglist_ind-IsBucket other lo so in
    omega (
      arith,
      a.2 (omega (arith, b.0)),
      b.1,
      pow-le-pow_right {n = 2} (omega arith) {i = suc (get_seglist_ind size)}
          {j = get_seglist_ind other} less,
      pow-suc 2 (get_seglist_ind size),
    )
