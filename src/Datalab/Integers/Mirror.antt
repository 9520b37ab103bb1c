-- ===== src/Datalab/Integers/Mirror.antt =====
-- datalab/bits.c: `isPalindrome`. Each line of it swaps neighbouring fields of the upper half; the
-- five of them together reverse its 32 bits.
use native.Mathlib.Nat.{mul-le-mul_right}
use systems_labs.Base.{
  ℕ, ◌+◌, ◌-◌, ◌*◌, ◌/◌, ◌%◌, ◌^◌, ◌≤◌, ◌<◌, ◌≡◌, ◌≢◌, refl, sym, ap, ◌∙◌, Bool, Bool-cases, inl,
  inr, true, ◌&&◌, ltb, ltb→lt, ==_iff, ◌==◌, if◌then◌else◌, arith, sar64, shl64, bit_and, bit_xor,
}
use systems_labs.Base.Bits.{bit_and_mask}
use systems_labs.Base.Bits.Digits.{
  bit, bit-le-one, bit_and-le, bit_or-lt, bit-bit_and, bit-bit_or, bit-shl, bit-shl_low, bit-shr,
  bit-mod, bit_ext, every_below, every_below_sound,
}
use systems_labs.Base.Bits.Xor.{eq-of_xor, xor_self}
use systems_labs.Datalab.Integers.{
  swap_step, swap1, swap2, swap3, swap4, swap5, is_palindrome, lnot,
}

-- The place that trades its bit with place `i` when fields of `k` bits are swapped.
abbrev partner : (k i : ℕ) → ℕ
partner k i = if i / k % 2 == 0 then i + k else i - k

-- The mask picks the places whose partner lies above.
abbrev selects : (swap k i : ℕ) → Bool
selects swap k i =
    (bit i swap == (if i / k % 2 == 0 then 1 else 0))
    && ((if ltb i k then 0 else bit (i - k) swap) == (if i / k % 2 == 0 then 0 else 1))
    && ltb (partner k i) 32

shift-bit :
    (k i x : ℕ) → i < 64 → bit i (x * 2 ^ k % 2 ^ 64) ≡ (if ltb i k then 0 else bit (i - k) x)
shift-bit k i x hi =
    let moved : k ≤ i → bit i (x * 2 ^ k) ≡ bit (i - k) x =
      λ h. let place : i - k + k ≡ i = omega arith in rw place at (bit-shl k (i - k) x) in
    ground (arith, bit-mod i 64 (x * 2 ^ k) hi, bit-shl_low k i x, moved)

swap_step-bit :
    (swap k half i : ℕ)
    → half < 2 ^ 32
    → i < 32
    → selects swap k i ≡ true
    → bit i (swap_step swap k half) ≡ bit (partner k i) half
unfolding swap_step
swap_step-bit swap k half i small hi picks =
    let right : sar64 half k ≡ half / 2 ^ k = ground arith in
    rw right (
      ground (
        arith,
        picks,
        bit-bit_or i (shl64 (bit_and swap half) k) (bit_and swap (half / 2 ^ k)),
        shift-bit k i (bit_and swap half) (omega arith),
        bit-bit_and (i - k) swap half,
        bit-bit_and i swap (half / 2 ^ k),
        bit-shr k i half,
        bit-le-one (i - k) half,
        bit-le-one (i + k) half,
      ))

swap_step-lt :
    (swap k half : ℕ) → swap * 2 ^ k < 2 ^ 32 → swap < 2 ^ 32 → swap_step swap k half < 2 ^ 32
unfolding swap_step
swap_step-lt swap k half fits word =
    let raised = mul-le-mul_right (2 ^ k) (bit_and-le swap half) in
    bit_or-lt 32 (shl64 (bit_and swap half) k) (bit_and swap (sar64 half k)) (omega (arith, raised))
      (omega (arith, bit_and-le swap (sar64 half k)))

-- A mask for fields of `k` bits, as the table of its bits shows it.
abbrev IsSwap : (swap k : ℕ) → Type 0
IsSwap swap k = (every_below 32 (selects swap k) ≡ true) × (swap * 2 ^ k < 2 ^ 32) × (swap < 2 ^ 32)

-- Five swaps, of ever larger fields.
abbrev swapped : ℕ → ℕ
swapped half =
    swap_step swap5 16
      (swap_step swap4 8 (swap_step swap3 4 (swap_step swap2 2 (swap_step swap1 1 half))))

swap1-IsSwap : IsSwap swap1 1
unfolding swap1 every_below bit
swap1-IsSwap = (refl, omega arith, omega arith)

swap2-IsSwap : IsSwap swap2 2
unfolding swap2 every_below bit
swap2-IsSwap = (refl, omega arith, omega arith)

swap3-IsSwap : IsSwap swap3 4
unfolding swap3 every_below bit
swap3-IsSwap = (refl, omega arith, omega arith)

swap4-IsSwap : IsSwap swap4 8
unfolding swap4 every_below bit
swap4-IsSwap = (refl, omega arith, omega arith)

swap5-IsSwap : IsSwap swap5 16
unfolding swap5 every_below bit
swap5-IsSwap = (refl, omega arith, omega arith)

-- What a swap step does to a half in range: it stays in range, and each place takes its partner's bit.
Traded : (k half result : ℕ) → Type 0
Traded k half result =
    (result < 2 ^ 32)
    × ((i : ℕ) → i < 32 → (bit i result ≡ bit (partner k i) half) × (partner k i < 32))

swap_step-Traded :
    (swap k half : ℕ) → IsSwap swap k → half < 2 ^ 32 → Traded k half (swap_step swap k half)
unfolding Traded
swap_step-Traded swap k half (table, fits, word) small = (
  swap_step-lt swap k half fits word,
  λ i hi.
      let picks = every_below_sound 32 (selects swap k) i table hi in
      (swap_step-bit swap k half i small hi picks, ground (arith, picks)),
)

mirror_table :
    every_below 32 (λ i. partner 1 (partner 2 (partner 4 (partner 8 (partner 16 i)))) == 31 - i)
    ≡ true
unfolding every_below
mirror_table = refl

swapped-bit :
    (half : ℕ)
    → half < 2 ^ 32
    → (swapped half < 2 ^ 32) × ((i : ℕ) → i < 32 → bit i (swapped half) ≡ bit (31 - i) half)
unfolding Traded
swapped-bit half small =
    let h1 = swap_step swap1 1 half in
    let t1 = swap_step-Traded swap1 1 half swap1-IsSwap small in
    let h2 = swap_step swap2 2 h1 in
    let t2 = swap_step-Traded swap2 2 h1 swap2-IsSwap t1.0 in
    let h3 = swap_step swap3 4 h2 in
    let t3 = swap_step-Traded swap3 4 h2 swap3-IsSwap t2.0 in
    let h4 = swap_step swap4 8 h3 in
    let t4 = swap_step-Traded swap4 8 h3 swap4-IsSwap t3.0 in
    let t5 = swap_step-Traded swap5 16 h4 swap5-IsSwap t4.0 in
    (
      t5.0,
      λ i hi.
          let (e5, in5) = t5.1 i hi in
          let (e4, in4) = t4.1 (partner 16 i) in5 in
          let (e3, in3) = t3.1 (partner 8 (partner 16 i)) in4 in
          let (e2, in2) = t2.1 (partner 4 (partner 8 (partner 16 i))) in3 in
          let (e1, in1) = t1.1 (partner 2 (partner 4 (partner 8 (partner 16 i)))) in2 in
          let mirrored = (==_iff _ (31 - i)).0 (every_below_sound 32 _ i mirror_table hi) in
          e5 ∙ e4 ∙ e3 ∙ e2 ∙ e1 ∙ ap (λ (p : ℕ). bit p half) mirrored,
    )

-- The two halves that are compared.
pub halves :
    (x : ℕ)
    → x < 2 ^ 64
    → (bit_and (sar64 x 32) (2 ^ 32 - 1) ≡ x / 2 ^ 32) × (bit_and x (2 ^ 32 - 1) ≡ x % 2 ^ 32)
halves x hx = (bit_and_mask 32 (sar64 x 32) ∙ ground arith, bit_and_mask 32 x)

is_palindrome-swapped :
    (x : ℕ) → x < 2 ^ 64 → is_palindrome x ≡ lnot (bit_xor (swapped (x / 2 ^ 32)) (x % 2 ^ 32))
unfolding is_palindrome
is_palindrome-swapped x hx = let (upper, lower) = halves x hx in rw (upper, lower) refl

-- The bits of the two halves.
half-bits :
    (x i : ℕ)
    → x < 2 ^ 64
    → i < 32
    → (bit i (swapped (x / 2 ^ 32)) ≡ bit (63 - i) x) × (bit i (x % 2 ^ 32) ≡ bit i x)
half-bits x i hx hi =
    let place : 31 - i + 32 ≡ 63 - i = omega arith in
    let (word, mirrored) = swapped-bit (x / 2 ^ 32) (omega arith) in
    (mirrored i hi ∙ rw place at (bit-shr 32 (31 - i) x), bit-mod i 32 x hi)

mirrored-equal :
    (x : ℕ)
    → x < 2 ^ 64
    → ((i : ℕ) → i < 64 → bit i x ≡ bit (63 - i) x)
    → swapped (x / 2 ^ 32) ≡ x % 2 ^ 32
mirrored-equal x hx same =
    bit_ext 32 (swapped (x / 2 ^ 32)) (x % 2 ^ 32) (swapped-bit (x / 2 ^ 32) (omega arith)).0
      (omega arith)
      (λ i hi.
        let (upper, lower) = half-bits x i hx hi in upper ∙ sym (same i (omega arith)) ∙ sym lower)

low-mirrored :
    (x i : ℕ) → x < 2 ^ 64 → i < 32 → swapped (x / 2 ^ 32) ≡ x % 2 ^ 32 → bit i x ≡ bit (63 - i) x
low-mirrored x i hx hi equal =
    let (upper, lower) = half-bits x i hx hi in sym lower ∙ sym (ap (bit i) equal) ∙ upper

equal-mirrored :
    (x i : ℕ) → x < 2 ^ 64 → i < 64 → swapped (x / 2 ^ 32) ≡ x % 2 ^ 32 → bit i x ≡ bit (63 - i) x
equal-mirrored x i hx hi equal = elim (Bool-cases (ltb i 32)) [
  | inl low ↦ low-mirrored x i hx (ltb→lt i 32 low) equal
  | inr high ↦
      let back : 63 - (63 - i) ≡ i = omega arith in
      let below : 63 - i < 32 = ground (arith, high) in
      sym (rw back at (low-mirrored x (63 - i) hx below equal))
]

lnot-nonzero : (e : ℕ) → e ≢ 0 → lnot e ≡ 0
lnot-nonzero e h = ground (arith, h)

-- 1 if every bit is as its mirror image, 0 if one is not.
pub is_palindrome-cases :
    (x : ℕ)
    → x < 2 ^ 64
    → (((i : ℕ) → i < 64 → bit i x ≡ bit (63 - i) x) → is_palindrome x ≡ 1)
      × ((i : ℕ) → i < 64 → bit i x ≢ bit (63 - i) x → is_palindrome x ≡ 0)
is_palindrome-cases x hx = (
  λ same. is_palindrome-swapped x hx ∙ rw (mirrored-equal x hx same, xor_self (x % 2 ^ 32)) refl,
  λ i hi differs.
      is_palindrome-swapped x hx
      ∙ lnot-nonzero (bit_xor (swapped (x / 2 ^ 32)) (x % 2 ^ 32)) (λ e.
        differs (equal-mirrored x i hx hi (eq-of_xor (swapped (x / 2 ^ 32)) (x % 2 ^ 32) e))),
)
