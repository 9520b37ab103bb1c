-- ===== src/Malloc/Memory/Copy.antt =====
-- `memcpy` and `memset` to zero as malloc/mm.c and malloc/mm-naive.c call them, on the words of the
-- heap of malloc/memlib.c.
pub mod Bytes
pub mod Move
pub mod Clear
use systems_labs.Base.{
  ℕ, zero, suc, ◌+◌, ◌-◌, ◌*◌, ◌/◌, ◌%◌, ◌^◌, Run, ok, ◌>>=◌, ◌==◌, if◌then◌else◌,
}
use systems_labs.Malloc.Memory.{Heap, read, write}

-- `memcpy (dst, src, n)` and `memset (dst, 0, n)` at addresses of words: whole words, then the low
-- bytes of the last one.
unfoldable pub copy_words : (left : ℕ) → Heap → (dst src : ℕ) → Run Heap
copy_words zero h dst src = ok h
copy_words (suc left) h dst src = do
  word ← read h src
  h ← write h dst word
  copy_words left h (dst + 8) (src + 8)

unfoldable pub memcpy : Heap → (dst src n : ℕ) → Run Heap
memcpy h dst src n = do
  h ← copy_words (n / 8) h dst src
  if n % 8 == 0 then ok h else (do
    new ← read h (src + 8 * (n / 8))
    old ← read h (dst + 8 * (n / 8))
    write h (dst + 8 * (n / 8)) (old - old % 2 ^ (8 * (n % 8)) + new % 2 ^ (8 * (n % 8))))

unfoldable pub clear_words : (left : ℕ) → Heap → ℕ → Run Heap
clear_words zero h dst = ok h
clear_words (suc left) h dst = write h dst 0 >>= λ h. clear_words left h (dst + 8)

unfoldable pub clear_bytes : Heap → (dst n : ℕ) → Run Heap
clear_bytes h dst n = do
  h ← clear_words (n / 8) h dst
  if n % 8 == 0 then ok h else (do
    old ← read h (dst + 8 * (n / 8))
    write h (dst + 8 * (n / 8)) (old - old % 2 ^ (8 * (n % 8))))
