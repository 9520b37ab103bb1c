-- ===== src/Malloc/Checker.antt =====
-- The heap checker of malloc/mm.c, without its messages.
pub mod Mini
use systems_labs.Base.{
  ℕ, zero, suc, ◌+◌, ◌-◌, Bool, true, false, ◌&&◌, ◌||◌, not, Run, ok, fail, Fault, ◌>>=◌, ◌==◌,
  ltb, leb, if◌then◌else◌, bit_and,
}
use systems_labs.Malloc.Memory.{Heap, read, mem_heap_lo, mem_heap_hi}
use systems_labs.Malloc.Header.{min_block_size}
use systems_labs.Malloc.Size.{seglist_length, get_seglist_ind}
use systems_labs.Malloc.Block.{
  get_size, get_alloc, get_prev_alloc, get_mini, header_to_payload, header_to_footer, find_next,
}
use systems_labs.Malloc.Links.{get_next_free, get_prev_free, get_root}
use Fault.{out_of_fuel}

unfoldable pub check_address_alignment : ℕ → Bool
check_address_alignment block = bit_and (header_to_payload block) 0xF == 0

unfoldable pub check_prologue : Heap → Run Bool
check_prologue h = do
  size ← get_size h (mem_heap_lo h)
  alloc ← get_alloc h (mem_heap_lo h)
  prev_alloc ← get_prev_alloc h (mem_heap_lo h)
  ok ((size == 0) && alloc && prev_alloc)

unfoldable pub check_epilogue : Heap → Run Bool
check_epilogue h = do
  size ← get_size h (mem_heap_hi h - 7)
  alloc ← get_alloc h (mem_heap_hi h - 7)
  ok ((size == 0) && alloc)

unfoldable pub consecutive_free : Heap → ℕ → Run Bool
consecutive_free h block = do
  alloc ← get_alloc h block
  prev_alloc ← get_prev_alloc h block
  ok (not alloc && not prev_alloc)

unfoldable pub within_heap_boundaries : Heap → ℕ → Bool
within_heap_boundaries h block = ltb block (mem_heap_hi h) && ltb (mem_heap_lo h) block

-- The footer is read only of a block that is free.
unfoldable pub check_header_and_footer : Heap → ℕ → Run Bool
check_header_and_footer h block = do
  size ← get_size h block
  alloc ← get_alloc h block
  if ltb size min_block_size
      then ok false
      else (if alloc then ok true else (do
        footer ← header_to_footer h block
        word ← read h footer
        header ← read h block
        ok (word == header)))

-- A walk over the blocks from `block` to the epilogue; the fuel bounds their number.
unfoldable pub count_free_from : (fuel : ℕ) → Heap → ℕ → Run ℕ
count_free_from zero h block = fail out_of_fuel
count_free_from (suc fuel) h block = do
  size ← get_size h block
  if size == 0 then ok 0 else (do
    alloc ← get_alloc h block
    next ← find_next h block
    count ← count_free_from fuel h next
    ok (if alloc then count else count + 1))

unfoldable pub count_free : (fuel : ℕ) → Heap → Run ℕ
count_free fuel h = count_free_from fuel h h.heap_start

unfoldable pub explicit_list_pointer_consistency : Heap → ℕ → Run Bool
explicit_list_pointer_consistency h block = do
  prev ← get_prev_free h block
  if prev == 0 then ok false else (get_next_free h prev >>= λ current. ok (current == block))

-- The tests of a block of a list, in their order.
unfoldable pub check_listed : Heap → (seglist_ind block : ℕ) → Run Bool
check_listed h seglist_ind block = do
  alloc ← get_alloc h block
  mini ← get_mini h block
  size ← get_size h block
  root ← get_root h seglist_ind
  if alloc || (mini && not (size == min_block_size)) then ok false else (do
    consistent ← (if block == root then ok true else explicit_list_pointer_consistency h block)
    ok (consistent && within_heap_boundaries h block && (seglist_ind == get_seglist_ind size)))

unfoldable pub check_list_from : (fuel : ℕ) → Heap → (seglist_ind block : ℕ) → Run Bool
check_list_from zero h seglist_ind block = if block == 0 then ok true else fail out_of_fuel
check_list_from (suc fuel) h seglist_ind block = if block == 0 then ok true else (do
  good ← check_listed h seglist_ind block
  if good
      then (get_next_free h block >>= λ next. check_list_from fuel h seglist_ind next)
      else ok false)

unfoldable pub check_explicit_list : (fuel : ℕ) → Heap → ℕ → Run Bool
check_explicit_list fuel h seglist_ind =
    get_root h seglist_ind >>= λ root. check_list_from fuel h seglist_ind root

unfoldable pub count_list : (fuel : ℕ) → Heap → ℕ → Run ℕ
count_list zero h block = if block == 0 then ok 0 else fail out_of_fuel
count_list (suc fuel) h block =
    if block == 0
    then ok 0
    else (do next ← get_next_free h block; count ← count_list fuel h next; ok (count + 1))

-- The tests of a block on the walk over the heap.
unfoldable pub check_block : Heap → ℕ → Run Bool
check_block h block = do
  let inside = check_address_alignment block && within_heap_boundaries h block
  if not inside || (block == h.heap_start) then ok inside else (do
    tagged ← check_header_and_footer h block
    both_free ← consecutive_free h block
    ok (tagged && not both_free))

unfoldable pub check_blocks_from : (fuel : ℕ) → Heap → ℕ → Run Bool
check_blocks_from zero h block = fail out_of_fuel
check_blocks_from (suc fuel) h block = do
  size ← get_size h block
  if size == 0 then ok true else (do
    good ← check_block h block
    if good then (find_next h block >>= λ next. check_blocks_from fuel h next) else ok false)

-- The lists from `seglist_ind` on, with the number of free blocks in them.
unfoldable pub check_lists_from :
    (fuel left : ℕ) → Heap → (seglist_ind num_free : ℕ) → Run (Bool × ℕ)
check_lists_from fuel zero h seglist_ind num_free = ok (true, num_free)
check_lists_from fuel (suc left) h seglist_ind num_free = do
  good ← check_explicit_list fuel h seglist_ind
  if good
      then (do
        root ← get_root h seglist_ind
        count ← count_list fuel h root
        check_lists_from fuel left h (seglist_ind + 1) (num_free + count))
      else ok (false, num_free)

unfoldable pub mm_checkheap : (fuel : ℕ) → Heap → Run Bool
mm_checkheap fuel h = do
  prologue ← check_prologue h
  if not prologue then ok false else (do
    epilogue ← check_epilogue h
    if not epilogue then ok false else (do
      blocks ← check_blocks_from fuel h h.heap_start
      if not blocks then ok false else (do
        (lists, num_free) ← check_lists_from fuel seglist_length h 0 0
        if not lists then ok false else (count_free fuel h >>= λ count. ok (num_free == count)))))
