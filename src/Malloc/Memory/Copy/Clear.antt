-- ===== src/Malloc/Memory/Copy/Clear.antt =====
-- What `memset` to zero leaves in the heap of malloc/memlib.c, byte by byte.
use native.Mathlib.Nat.{zero-div, zero-mod}
use systems_labs.Base.{
  inl, inr, Bool-cases, ℕ, zero, suc, ◌+◌, ◌-◌, ◌*◌, ◌/◌, ◌%◌, ◌^◌, ◌≤◌, ◌<◌, ◌≡◌, ◌≢◌, ◌⊎◌, refl,
  ap, ◌∙◌, sym, ok, arith, ◌==◌, ltb,
}
use systems_labs.Malloc.Memory.{Heap}
use systems_labs.Malloc.Memory.Words.{
  IsHeap, InHeap, word, put, read-ok, write-ok, word-put_self, word-put_ne, IsHeap-put,
}
use systems_labs.Malloc.Memory.Copy.{clear_words, clear_bytes}
use systems_labs.Malloc.Memory.Copy.Bytes.{
  InHeapFor, Kept, byte, byte_in_word, mixed, Kept-tail, Kept-whole, byte_after,
}

clear_words-Kept :
    (left : ℕ) (h : Heap) (dst : ℕ)
    → IsHeap h
    → InHeapFor h dst (8 * left)
    → (g : Heap) × (clear_words left h dst ≡ ok g)
      × Kept h g dst (8 * left)
      × ((k : ℕ) → k < left → word g (dst + 8 * k) ≡ 0)
unfolding clear_words
clear_words-Kept zero h dst is there = (
  h,
  refl,
  record { is = is; same = refl; off = λ b hb away. refl },
  λ k small. absurd (omega arith),
)
clear_words-Kept (suc left) h dst is there =
    let in_dst : InHeap h dst = (there.0, omega (arith, there), there.2) in
    let (g, done, kept, cleared) =
      clear_words-Kept left (put h dst 0) (dst + 8) (IsHeap-put h is dst 0)
        (omega (arith, there), omega (arith, there), omega (arith, there)) in
    (
      g,
      rw (write-ok h is dst 0 in_dst) done,
      record {
        is = kept.is;
        same = kept.same;
        off = λ b hb away.
            kept.off b hb (later b away) ∙ word-put_ne h is dst b 0 in_dst hb (other b away);
      },
      all g kept cleared,
    )
  where
    later :
        (b : ℕ) → (b < dst) ⊎ (dst + 8 * suc left ≤ b) → (b < dst + 8) ⊎ (dst + 8 + 8 * left ≤ b)
    later b (inl low) = inl (omega arith)
    later b (inr high) = inr (omega arith)

    other : (b : ℕ) → (b < dst) ⊎ (dst + 8 * suc left ≤ b) → dst ≢ b
    other b (inl low) e = omega arith
    other b (inr high) e = omega arith

    all :
        (g : Heap)
        → Kept (put h dst 0) g (dst + 8) (8 * left)
        → ((k : ℕ) → k < left → word g (dst + 8 + 8 * k) ≡ 0)
        → (k : ℕ) → k < suc left
        → word g (dst + 8 * k) ≡ 0
    all g kept cleared zero small =
        let in_dst : InHeap h dst = (there.0, omega (arith, there), there.2) in
        let first : dst + 0 ≡ dst = omega arith in
        rw first (kept.off dst in_dst (inl (omega arith)) ∙ word-put_self h is dst 0 in_dst)
    all g kept cleared (suc k) small =
        let next : dst + 8 * suc k ≡ dst + 8 + 8 * k = omega arith in
        rw next (cleared k (omega arith))

-- A byte of the words that are clear.
byte_clear :
    (g : Heap) (dst i : ℕ) → dst % 8 ≡ 0 → word g (dst + 8 * (i / 8)) ≡ 0 → byte g (dst + i) ≡ 0
byte_clear g dst i e zero_word =
    rw (byte_in_word g dst i e, zero_word, zero-div (2 ^ (8 * (i % 8)))) refl

byte_of_clear :
    (h g : Heap) (dst n i : ℕ)
    → Kept h g dst (8 * (n / 8))
    → ((k : ℕ) → k < n / 8 → word g (dst + 8 * k) ≡ 0)
    → InHeapFor h dst n
    → InHeap g (dst + 8 * (n / 8))
    → i < n
    → byte (mixed g (dst + 8 * (n / 8)) 0 (n % 8)) (dst + i) ≡ 0
byte_of_clear h g dst n i kept cleared there in_last small =
    elim (Bool-cases (ltb i (8 * (n / 8)))) [
      | inl t ↦
          let below : i < 8 * (n / 8) = ground (arith, t) in
          let lo : g.lo ≡ h.lo = ap (λ (x : Heap). x.lo) kept.same in
          let brk : g.brk ≡ h.brk = ap (λ (x : Heap). x.brk) kept.same in
          let in_i : InHeap g (dst + 8 * (i / 8)) =
            (omega (arith, lo, there), omega (arith, brk, there, below), omega (arith, there)) in
          let last = dst + 8 * (n / 8) in
          let v = word g last - word g last % 2 ^ (8 * (n % 8)) + 0 % 2 ^ (8 * (n % 8)) in
          byte_clear (put g last v) dst i there.2 (
            word-put_ne g kept.is last (dst + 8 * (i / 8)) v in_last in_i (λ e. omega arith)
            ∙ cleared (i / 8) (omega arith))
      | inr f ↦
          let above : 8 * (n / 8) ≤ i = ground (arith, f) in
          let r = i - 8 * (n / 8) in
          let at : 8 * (n / 8) + r ≡ i = omega arith in
          rw at at (
            byte_after g dst n 0 r kept.is in_last (omega arith) there.2
            ∙ ap (λ (x : ℕ). x % 256) (zero-div (2 ^ (8 * r))))
    ]

-- `memset` to zero clears every byte and keeps the words off them.
pub clear_bytes-Kept :
    (h : Heap) (dst n : ℕ)
    → IsHeap h
    → InHeapFor h dst n
    → (g : Heap) × (clear_bytes h dst n ≡ ok g)
      × Kept h g dst n
      × ((i : ℕ) → i < n → byte g (dst + i) ≡ 0)
unfolding clear_bytes
clear_bytes-Kept h dst n is there =
    let (g, done, kept, cleared) =
      clear_words-Kept (n / 8) h dst is (there.0, omega (arith, there), there.2) in
    elim (Bool-cases (n % 8 == 0)) [
      | inl whole ↦ (
        g,
        rw (done, whole) refl,
        Kept-whole h g dst n kept whole,
        λ i small. byte_clear g dst i there.2 (cleared (i / 8) (ground (arith, whole))),
      )
      | inr partial ↦
          let lo : g.lo ≡ h.lo = ap (λ (x : Heap). x.lo) kept.same in
          let brk : g.brk ≡ h.brk = ap (λ (x : Heap). x.brk) kept.same in
          let last = dst + 8 * (n / 8) in
          let in_last : InHeap g last =
            (omega (arith, lo, there), ground (arith, brk, there, partial), omega (arith, there)) in
          let high = word g last - word g last % 2 ^ (8 * (n % 8)) in
          let none_low : high + 0 % 2 ^ (8 * (n % 8)) ≡ high =
            omega (arith, zero-mod (2 ^ (8 * (n % 8)))) in
          (
            mixed g last 0 (n % 8),
            rw (done, partial, read-ok g kept.is last in_last, write-ok g kept.is last high in_last)
                (ap (λ v. ok (put g last v)) (sym none_low)),
            Kept-tail h g dst n 0 kept partial there,
            λ i small. byte_of_clear h g dst n i kept cleared there in_last small,
          )
    ]
