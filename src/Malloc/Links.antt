-- ===== src/Malloc/Links.antt =====
-- The free lists of malloc/mm.c. A free block links to its neighbours in its first two words of
-- payload; one of sixteen bytes keeps the link to the block before it in its header, and repeats
-- its mark in the low bits of the other.
pub mod Laws
pub mod Set
pub mod Chain
pub mod Add
pub mod Remove
use systems_labs.Base.{
  ℕ, ◌+◌, Bool, true, false, ◌&&◌, not, Run, ok, ◌>>=◌, ◌==◌, if◌then◌else◌, bit_and, bit_or, not64,
  load, store,
}
use systems_labs.Malloc.Memory.{Heap, read, write}
use systems_labs.Malloc.Header.{mini_mask, extract_mini}
use systems_labs.Malloc.Size.{get_seglist_ind}
use systems_labs.Malloc.Block.{get_mini, get_size}

unfoldable pub get_next_free : Heap → ℕ → Run ℕ
get_next_free h block = read h (block + 8) >>= λ successor. ok (bit_and successor (not64 0x7))

unfoldable pub get_prev_free : Heap → ℕ → Run ℕ
get_prev_free h block = get_mini h block >>= λ mini.
    if mini
    then (read h block >>= λ header. ok (bit_and header (not64 0x7)))
    else read h (block + 16)

unfoldable pub set_prev_free : Heap → (block prev : ℕ) → Run Heap
set_prev_free h block prev = get_mini h block >>= λ mini.
    if mini
    then (read h block >>= λ header. write h block (bit_or (bit_and header 0x7) prev))
    else write h (block + 16) prev

unfoldable pub set_next_free : Heap → (block next : ℕ) → Run Heap
set_next_free h block next = do
  h ← write h (block + 8) next
  mini ← get_mini h block
  if mini then (read h (block + 8) >>= λ s. write h (block + 8) (bit_or s mini_mask)) else ok h

-- `free_root[i]` and `free_root[i] = block`
unfoldable pub get_root : Heap → ℕ → Run ℕ
get_root h i = load h.free_root i

unfoldable pub set_root : Heap → (i block : ℕ) → Run Heap
set_root h i block = store h.free_root i block >>= λ roots. ok (record h { free_root = roots })

unfoldable pub remove_from_free : Heap → ℕ → Run Heap
remove_from_free h block = do
  prev ← get_prev_free h block
  next ← get_next_free h block
  size ← get_size h block
  let seglist_ind = get_seglist_ind size
  if next == 0 && prev == 0
      then set_root h seglist_ind 0
      else (if next == 0
          then set_next_free h prev 0
          else (if prev == 0
              then (set_prev_free h next 0 >>= λ h. set_root h seglist_ind next)
              else (set_next_free h prev next >>= λ h. set_prev_free h next prev)))

unfoldable pub add_to_free : Heap → ℕ → Run Heap
add_to_free h block = do
  size ← get_size h block
  let seglist_ind = get_seglist_ind size
  root ← get_root h seglist_ind
  if root == 0
      then (do
        h ← set_root h seglist_ind block
        root ← get_root h seglist_ind
        h ← set_prev_free h root 0
        root ← get_root h seglist_ind
        set_next_free h root 0)
      else (do
        h ← set_prev_free h root block
        root ← get_root h seglist_ind
        h ← set_next_free h block root
        h ← set_prev_free h block 0
        set_root h seglist_ind block)
