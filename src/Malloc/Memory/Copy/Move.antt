-- ===== src/Malloc/Memory/Copy/Move.antt =====
-- What `memcpy` leaves in the heap of malloc/memlib.c, byte by byte.
use systems_labs.Base.{
  inl, inr, Bool-cases, ℕ, zero, suc, ◌+◌, ◌-◌, ◌*◌, ◌/◌, ◌%◌, ◌^◌, ◌≤◌, ◌<◌, ◌≡◌, ◌≢◌, ◌⊎◌, refl,
  ap, ◌∙◌, sym, ok, arith, ◌==◌, ltb,
}
use systems_labs.Malloc.Memory.{Heap}
use systems_labs.Malloc.Memory.Words.{
  IsHeap, InHeap, word, put, read-ok, write-ok, word-put_self, word-put_ne, IsHeap-put,
}
use systems_labs.Malloc.Memory.Copy.{copy_words, memcpy}
use systems_labs.Malloc.Memory.Copy.Bytes.{
  InHeapFor, Apart, Kept, byte, byte_in_word, byte_of_word, mixed, Kept-tail, Kept-whole,
  byte_after,
}

record Copied (h g : Heap) (dst src left : ℕ) : Type 0 where
  kept : Kept h g dst (8 * left)
  copied : (k : ℕ) → k < left → word g (dst + 8 * k) ≡ word h (src + 8 * k)

-- One word moved, then the others.
moved :
    (left : ℕ) (h : Heap) (dst src : ℕ) (g : Heap)
    → IsHeap h
    → InHeapFor h dst (8 * suc left)
    → InHeapFor h src (8 * suc left)
    → ((k : ℕ) → k < suc left → dst ≢ src + 8 * k)
    → Copied (put h dst (word h src)) g (dst + 8) (src + 8) left
    → (k : ℕ) → k < suc left
    → word g (dst + 8 * k) ≡ word h (src + 8 * k)
moved left h dst src g is there here ne rest zero small =
    let in_dst : InHeap h dst = (there.0, omega (arith, there), there.2) in
    let at_dst : dst + 0 ≡ dst = omega arith in
    let at_src : src + 0 ≡ src = omega arith in
    rw (at_dst, at_src)
      (rest.kept.off dst in_dst (inl (omega arith)) ∙ word-put_self h is dst (word h src) in_dst)
moved left h dst src g is there here ne rest (suc k) small =
    let in_dst : InHeap h dst = (there.0, omega (arith, there), there.2) in
    let at_dst : dst + 8 * suc k ≡ dst + 8 + 8 * k = omega arith in
    let at_src : src + 8 * suc k ≡ src + 8 + 8 * k = omega arith in
    rw (at_dst, at_src)
      (rest.copied k (omega arith)
        ∙ word-put_ne h is dst (src + 8 + 8 * k) (word h src) in_dst
            (omega (arith, here), omega (arith, here), omega (arith, here))
            (λ e. ne (suc k) small (omega arith)))

copy_words-Copied :
    (left : ℕ) (h : Heap) (dst src : ℕ)
    → IsHeap h
    → InHeapFor h dst (8 * left)
    → InHeapFor h src (8 * left)
    → Apart dst src (8 * left)
    → (g : Heap) × (copy_words left h dst src ≡ ok g) × Copied h g dst src left
unfolding copy_words
copy_words-Copied zero h dst src is there here apart = (
  h,
  refl,
  record {
    kept = record { is = is; same = refl; off = λ b hb away. refl };
    copied = λ k small. absurd (omega arith);
  },
)
copy_words-Copied (suc left) h dst src is there here apart =
    let in_dst : InHeap h dst = (there.0, omega (arith, there), there.2) in
    let in_src : InHeap h src = (here.0, omega (arith, here), here.2) in
    let first = put h dst (word h src) in
    let ne : (k : ℕ) → k < suc left → dst ≢ src + 8 * k =
      λ k small e. elim apart [ inl a ↦ omega arith | inr a ↦ omega arith ] in
    let away_rest : (b : ℕ)
        → (b < dst) ⊎ (dst + 8 * suc left ≤ b)
        → (b < dst + 8) ⊎ (dst + 8 + 8 * left ≤ b) =
      λ b away. elim away [ inl a ↦ inl (omega arith) | inr a ↦ inr (omega arith) ] in
    let ne_away : (b : ℕ) → (b < dst) ⊎ (dst + 8 * suc left ≤ b) → dst ≢ b =
      λ b away e. elim away [ inl a ↦ omega arith | inr a ↦ omega arith ] in
    let apart_rest : Apart (dst + 8) (src + 8) (8 * left) = elim apart [
      | inl a ↦ inl (omega arith)
      | inr a ↦ inr (omega arith)
    ] in
    let (g, done, rest) =
      copy_words-Copied left first (dst + 8) (src + 8) (IsHeap-put h is dst (word h src))
        (omega (arith, there), omega (arith, there), omega (arith, there))
        (omega (arith, here), omega (arith, here), omega (arith, here)) apart_rest in
    (
      g,
      rw (read-ok h is src in_src, write-ok h is dst (word h src) in_dst) done,
      record {
        kept = record {
          is = rest.kept.is;
          same = rest.kept.same;
          off = λ b hb away.
              rest.kept.off b hb (away_rest b away)
              ∙ word-put_ne h is dst b (word h src) in_dst hb (ne_away b away);
        };
        copied = moved left h dst src g is there here ne rest;
      },
    )

byte_of_tail :
    (h g : Heap) (dst src n i : ℕ)
    → Copied h g dst src (n / 8)
    → InHeapFor h dst n
    → src % 8 ≡ 0
    → InHeap g (dst + 8 * (n / 8))
    → word g (src + 8 * (n / 8)) ≡ word h (src + 8 * (n / 8))
    → i < n
    → byte (mixed g (dst + 8 * (n / 8)) (word g (src + 8 * (n / 8))) (n % 8)) (dst + i)
      ≡ byte h (src + i)
byte_of_tail h g dst src n i all there es in_last unmoved small = elim (order i (8 * (n / 8))) [
  | inl below ↦
      let lo : g.lo ≡ h.lo = ap (λ (x : Heap). x.lo) all.kept.same in
      let brk : g.brk ≡ h.brk = ap (λ (x : Heap). x.brk) all.kept.same in
      let in_i : InHeap g (dst + 8 * (i / 8)) =
        (omega (arith, lo, there), omega (arith, brk, there, below), omega (arith, there)) in
      let last = dst + 8 * (n / 8) in
      let v =
        word g last
        - word g last % 2 ^ (8 * (n % 8))
        + word g (src + 8 * (n / 8)) % 2 ^ (8 * (n % 8)) in
      byte_of_word h (put g last v) dst src i there.2 es (
        word-put_ne g all.kept.is last (dst + 8 * (i / 8)) v in_last in_i (λ e. omega arith)
        ∙ all.copied (i / 8) (omega arith))
  | inr above ↦
      let r = i - 8 * (n / 8) in
      let at : 8 * (n / 8) + r ≡ i = omega arith in
      let word_no : i / 8 ≡ n / 8 = omega arith in
      let byte_no : i % 8 ≡ r = omega arith in
      rw (byte_in_word h src i es, word_no, byte_no, sym unmoved)
        (rw at at (
          byte_after g dst n (word g (src + 8 * (n / 8))) r all.kept.is in_last (omega arith)
            there.2))
]
  where
    order : (a b : ℕ) → (a < b) ⊎ (b ≤ a)
    order a b = elim (Bool-cases (ltb a b)) [
      | inl t ↦ inl (ground (arith, t))
      | inr f ↦ inr (ground (arith, f))
    ]

-- On a heap with IsHeap, for n bytes at two addresses that are multiples of eight, in whole words
-- of the heap that do not overlap, memcpy returns: the n bytes at the destination are those of
-- the source, and every word of the heap below the destination or from n bytes behind it is as it
-- was.
pub memcpy-Kept :
    (h : Heap) (dst src n : ℕ)
    → IsHeap h
    → InHeapFor h dst n
    → InHeapFor h src n
    → Apart dst src (8 * ((n + 7) / 8))
    → (g : Heap) × (memcpy h dst src n ≡ ok g)
      × Kept h g dst n
      × ((i : ℕ) → i < n → byte g (dst + i) ≡ byte h (src + i))
unfolding memcpy
memcpy-Kept h dst src n is there here apart =
    let narrow : Apart dst src (8 * (n / 8)) = elim apart [
      | inl a ↦ inl (omega arith)
      | inr a ↦ inr (omega arith)
    ] in
    let (g, done, all) =
      copy_words-Copied (n / 8) h dst src is (there.0, omega (arith, there), there.2)
        (here.0, omega (arith, here), here.2) narrow in
    let bytes : (i : ℕ) → i < 8 * (n / 8) → byte g (dst + i) ≡ byte h (src + i) =
      λ i small. byte_of_word h g dst src i there.2 here.2 (all.copied (i / 8) (omega arith)) in
    elim (Bool-cases (n % 8 == 0)) [
      | inl whole ↦ (
        g,
        rw (done, whole) refl,
        Kept-whole h g dst n all.kept whole,
        λ i small. bytes i (ground (arith, whole)),
      )
      | inr partial ↦
          let lo : g.lo ≡ h.lo = ap (λ (x : Heap). x.lo) all.kept.same in
          let brk : g.brk ≡ h.brk = ap (λ (x : Heap). x.brk) all.kept.same in
          let last = dst + 8 * (n / 8) in
          let from = src + 8 * (n / 8) in
          let in_h : InHeap h from =
            (omega (arith, here), ground (arith, here, partial), omega (arith, here)) in
          let tail_off : (from < dst) ⊎ (dst + 8 * (n / 8) ≤ from) = elim apart [
            | inl a ↦ inr (omega arith)
            | inr a ↦ inl (ground (arith, a, partial))
          ] in
          let in_from : InHeap g from =
            (omega (arith, lo, in_h), omega (arith, brk, in_h), in_h.2) in
          let in_last : InHeap g last =
            (omega (arith, lo, there), ground (arith, brk, there, partial), omega (arith, there)) in
          let v = word g last - word g last % 2 ^ (8 * (n % 8)) + word g from % 2 ^ (8 * (n % 8)) in
          (
            put g last v,
            rw
                (
                  done,
                  partial,
                  read-ok g all.kept.is from in_from,
                  read-ok g all.kept.is last in_last,
                  write-ok g all.kept.is last v in_last,
                )
                refl,
            Kept-tail h g dst n (word g from) all.kept partial there,
            λ i small.
                byte_of_tail h g dst src n i all there here.2 in_last
                  (all.kept.off from in_h tail_off) small,
          )
    ]
