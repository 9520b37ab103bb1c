-- ===== src/Malloc/Memory/Copy/Bytes.antt =====
-- Bytes in the words of the heap of malloc/memlib.c, and writes of the low bytes of a word.
use native.Mathlib.Nat.{div-add-mod, mul-add-mod_self_left, mod-mod}
use systems_labs.Base.{
  inl, inr, true, false, ℕ, ◌+◌, ◌-◌, ◌*◌, ◌/◌, ◌%◌, ◌^◌, ◌≤◌, ◌<◌, ◌≡◌, ◌≢◌, ◌⊎◌, refl, ap, ◌∙◌,
  sym, arith, ◌==◌,
}
use systems_labs.Base.Bits.Digits.{bit, bit-mod, bit-shr, bit_ext}
use systems_labs.Malloc.Memory.{Heap}
use systems_labs.Malloc.Memory.Words.{
  IsHeap, InHeap, word, put, word-put_self, word-put_ne, IsHeap-put,
}

-- The byte at an address.
unfoldable pub byte : Heap → ℕ → ℕ
byte h a = word h (a - a % 8) / 2 ^ (8 * (a % 8)) % 256

-- `n` bytes from `a`, a multiple of eight, lie in words below the break.
abbrev pub InHeapFor : Heap → (a n : ℕ) → Type 0
InHeapFor h a n = (h.lo ≤ a) × (a + 8 * ((n + 7) / 8) ≤ h.brk) × (a % 8 ≡ 0)

abbrev pub Apart : (dst src n : ℕ) → Type 0
Apart dst src n = (dst + n ≤ src) ⊎ (src + n ≤ dst)

-- `g` differs from `h` only in words from `dst` on, `n` bytes of them.
pub record Kept (h g : Heap) (dst n : ℕ) : Type 0 where
  pub is : IsHeap g
  pub same : g ≡ record h { words = g.words }
  pub off : (b : ℕ) → InHeap h b → (b < dst) ⊎ (dst + n ≤ b) → word g b ≡ word h b

-- The low `8 * q` bits decide the bytes among them.
same_byte :
    (m a x y : ℕ) → a + 8 ≤ m → x % 2 ^ m ≡ y % 2 ^ m → x / 2 ^ a % 2 ^ 8 ≡ y / 2 ^ a % 2 ^ 8
same_byte m a x y h e =
    bit_ext 8 (x / 2 ^ a % 2 ^ 8) (y / 2 ^ a % 2 ^ 8) (omega arith) (omega arith)
      λ i small. bit_of x i small ∙ ap (bit (i + a)) e ∙ sym (bit_of y i small)
  where
    bit_of : (z i : ℕ) → i < 8 → bit i (z / 2 ^ a % 2 ^ 8) ≡ bit (i + a) (z % 2 ^ m)
    bit_of z i small =
        bit-mod i 8 (z / 2 ^ a) small ∙ bit-shr a i z ∙ sym (bit-mod (i + a) m z (omega arith))

-- The low bytes of `new` in place of those of `old`.
low_bytes :
    (old new q r : ℕ)
    → r < q
    → (old - old % 2 ^ (8 * q) + new % 2 ^ (8 * q)) / 2 ^ (8 * r) % 2 ^ 8
      ≡ new / 2 ^ (8 * r) % 2 ^ 8
low_bytes old new q r h =
    let high : old - old % 2 ^ (8 * q) ≡ 2 ^ (8 * q) * (old / 2 ^ (8 * q)) =
      omega (arith, div-add-mod old (2 ^ (8 * q))) in
    same_byte (8 * q) (8 * r) (old - old % 2 ^ (8 * q) + new % 2 ^ (8 * q)) new (omega arith) (
      rw high (
        mul-add-mod_self_left (2 ^ (8 * q)) (old / 2 ^ (8 * q)) (new % 2 ^ (8 * q))
        ∙ mod-mod new (2 ^ (8 * q))))

pub byte_in_word :
    (h : Heap) (d i : ℕ)
    → d % 8 ≡ 0
    → byte h (d + i) ≡ word h (d + 8 * (i / 8)) / 2 ^ (8 * (i % 8)) % 256
unfolding byte
byte_in_word h d i e =
    let from : d + i - (d + i) % 8 ≡ d + 8 * (i / 8) = omega arith in
    let within : (d + i) % 8 ≡ i % 8 = omega arith in rw (from, within) refl

pub byte_of_word :
    (h g : Heap) (dst src i : ℕ)
    → dst % 8 ≡ 0
    → src % 8 ≡ 0
    → word g (dst + 8 * (i / 8)) ≡ word h (src + 8 * (i / 8))
    → byte g (dst + i) ≡ byte h (src + i)
byte_of_word h g dst src i ed es e = rw (byte_in_word g dst i ed, byte_in_word h src i es, e) refl

-- The low bytes of the word at `at` written, the others of the word kept.
abbrev pub mixed : Heap → (at new q : ℕ) → Heap
mixed h at new q = put h at (word h at - word h at % 2 ^ (8 * q) + new % 2 ^ (8 * q))

abbrev pub TailIn : Heap → (a n : ℕ) → Type 0
TailIn h a n = InHeap h (a + 8 * (n / 8))

-- The last bytes after whole words, of which those at `at` are not yet written.
pub Kept-tail :
    (h g : Heap) (dst n new : ℕ)
    → Kept h g dst (8 * (n / 8))
    → (n % 8 == 0) ≡ false
    → InHeapFor h dst n
    → Kept h (mixed g (dst + 8 * (n / 8)) new (n % 8)) dst n
Kept-tail h g dst n new kept partial there =
    let lo : g.lo ≡ h.lo = ap (λ (x : Heap). x.lo) kept.same in
    let brk : g.brk ≡ h.brk = ap (λ (x : Heap). x.brk) kept.same in
    let last = dst + 8 * (n / 8) in
    let v = word g last - word g last % 2 ^ (8 * (n % 8)) + new % 2 ^ (8 * (n % 8)) in
    let in_last : InHeap g last =
      (omega (arith, lo, there), ground (arith, brk, there, partial), omega (arith, there)) in
    record {
      is = IsHeap-put g kept.is last v;
      same = ap (λ (x : Heap). record x { words = (put g last v).words }) kept.same;
      off = λ b hb away.
          let in_b : InHeap g b = (omega (arith, lo, hb), omega (arith, brk, hb), hb.2) in
          word-put_ne g kept.is last b v in_last in_b (ne b hb away) ∙ kept.off b hb (still b away);
    }
  where
    ne : (b : ℕ) → InHeap h b → (b < dst) ⊎ (dst + n ≤ b) → dst + 8 * (n / 8) ≢ b
    ne b hb (inl low) e = omega arith
    ne b hb (inr high) e = ground (arith, partial, hb, there)

    still : (b : ℕ) → (b < dst) ⊎ (dst + n ≤ b) → (b < dst) ⊎ (dst + 8 * (n / 8) ≤ b)
    still b (inl low) = inl low
    still b (inr high) = inr (omega arith)

pub Kept-whole :
    (h g : Heap) (dst n : ℕ) → Kept h g dst (8 * (n / 8)) → (n % 8 == 0) ≡ true → Kept h g dst n
Kept-whole h g dst n kept whole =
    let all : 8 * (n / 8) ≡ n = ground (arith, whole) in rw all at kept

-- A byte after whole words.
pub byte_after :
    (g : Heap) (dst n new r : ℕ)
    → IsHeap g
    → TailIn g dst n
    → r < n % 8
    → dst % 8 ≡ 0
    → byte (mixed g (dst + 8 * (n / 8)) new (n % 8)) (dst + (8 * (n / 8) + r))
      ≡ new / 2 ^ (8 * r) % 256
byte_after g dst n new r is tail small e =
    let word_no : (8 * (n / 8) + r) / 8 ≡ n / 8 = omega arith in
    let byte_no : (8 * (n / 8) + r) % 8 ≡ r = omega arith in
    let last = dst + 8 * (n / 8) in
    let v = word g last - word g last % 2 ^ (8 * (n % 8)) + new % 2 ^ (8 * (n % 8)) in
    rw
      (
        byte_in_word (put g last v) dst (8 * (n / 8) + r) e,
        word_no,
        byte_no,
        word-put_self g is last v tail,
      )
      (low_bytes (word g last) new (n % 8) r small)
