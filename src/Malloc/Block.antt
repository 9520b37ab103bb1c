-- ===== src/Malloc/Block.antt =====
-- Blocks of malloc/mm.c: their headers and footers in memory, and the steps from one to the next.
pub mod Laws
pub mod Neighbours
use systems_labs.Base.{
  ℕ, ◌+◌, ◌-◌, Bool, true, false, ◌&&◌, not, Run, ok, ◌>>=◌, ◌==◌, if◌then◌else◌, bit_and, bit_or,
  not64, sub64,
}
use systems_labs.Malloc.Memory.{Heap, read, write}
use systems_labs.Malloc.Header.{
  wsize, dsize, min_block_size, alloc_prev_mask, mini_mask, pack, extract_size, extract_mini,
  extract_alloc, extract_prev_alloc,
}

unfoldable pub get_mini : Heap → ℕ → Run Bool
get_mini h block = read h block >>= λ header. ok (extract_mini header)

unfoldable pub set_mini : Heap → ℕ → Bool → Run Heap
set_mini h block mini = read h block >>= λ header.
    write h block (if mini then bit_or header mini_mask else bit_and header (not64 mini_mask))

unfoldable pub get_size : Heap → ℕ → Run ℕ
get_size h block = read h block >>= λ header.
    ok (if extract_mini header then min_block_size else extract_size header)

abbrev pub payload_to_header : ℕ → ℕ
payload_to_header bp = sub64 bp wsize

abbrev pub header_to_payload : ℕ → ℕ
header_to_payload block = block + wsize

unfoldable pub header_to_footer : Heap → ℕ → Run ℕ
header_to_footer h block = get_size h block >>= λ size. ok (block + wsize + size - dsize)

unfoldable pub footer_to_header : Heap → ℕ → Run ℕ
footer_to_header h footer = read h footer >>= λ word. ok (footer + wsize - extract_size word)

unfoldable pub get_payload_size : Heap → ℕ → Run ℕ
get_payload_size h block = get_size h block >>= λ asize. ok (sub64 asize wsize)

unfoldable pub get_alloc : Heap → ℕ → Run Bool
get_alloc h block = read h block >>= λ header. ok (extract_alloc header)

unfoldable pub get_prev_alloc : Heap → ℕ → Run Bool
get_prev_alloc h block = read h block >>= λ header. ok (extract_prev_alloc header)

unfoldable pub set_prev_alloc : Heap → ℕ → Bool → Run Heap
set_prev_alloc h block prev_alloc = read h block >>= λ header.
    write h block
      (if prev_alloc then bit_or header alloc_prev_mask else bit_and header (not64 alloc_prev_mask))

unfoldable pub write_epilogue : Heap → ℕ → Run Heap
write_epilogue h block = write h block (pack 0 true false)

unfoldable pub write_block : Heap → (block size : ℕ) → (alloc prev_alloc : Bool) → Run Heap
write_block h block size alloc prev_alloc = do
  h ← write h block (pack size alloc prev_alloc)
  if not alloc && not (size == min_block_size)
      then (header_to_footer h block >>= λ footer. write h footer (pack size alloc prev_alloc))
      else ok h

unfoldable pub write_footer : Heap → ℕ → Run Heap
write_footer h block = do
  footer ← header_to_footer h block
  header ← read h block
  write h footer header

unfoldable pub find_next : Heap → ℕ → Run ℕ
find_next h block = get_size h block >>= λ size. ok (block + size)

abbrev pub find_prev_footer : ℕ → ℕ
find_prev_footer block = block - wsize

unfoldable pub find_prev : Heap → ℕ → Run ℕ
find_prev h block = do
  word ← read h (find_prev_footer block)
  if extract_mini word
      then ok (find_prev_footer block - 8)
      else (if extract_size word == 0 then ok 0 else footer_to_header h (find_prev_footer block))

unfoldable pub update_next : Heap → ℕ → Bool → Run Heap
update_next h block alloc = do
  next_block ← find_next h block
  h ← set_prev_alloc h next_block alloc
  mini ← get_mini h block
  if not alloc && not mini then write_footer h block else ok h
