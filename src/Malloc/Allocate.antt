-- ===== src/Malloc/Allocate.antt =====
-- Allocation in malloc/mm.c: `mm_init`, `malloc`, `free`, `realloc` and `calloc`, with the search for
-- a free block, splitting and joining.
pub mod Fit
pub mod Lists
use systems_labs.Base.{
  ℕ, zero, suc, ◌+◌, ◌-◌, ◌*◌, ◌/◌, ◌%◌, ◌^◌, Bool, true, false, ◌&&◌, ◌||◌, not, Option, none,
  some, List, Run, ok, fail, Fault, ◌>>=◌, ◌==◌, ltb, leb, if◌then◌else◌, sub64, mul64, length,
  replicate,
}
use systems_labs.Base.Loop.{for_range}
use systems_labs.Malloc.Memory.{Heap, read, write, mem_sbrk}
use systems_labs.Malloc.Memory.Copy.{memcpy, clear_bytes}
use systems_labs.Malloc.Header.{wsize, dsize, min_block_size, chunksize, pack}
use systems_labs.Malloc.Size.{seglist_length, max, round_up, adjusted_size, get_seglist_ind}
use systems_labs.Malloc.Block.{
  get_size, get_alloc, get_prev_alloc, payload_to_header, header_to_payload, get_payload_size,
  write_epilogue, write_block, find_next, find_prev, update_next,
}
use systems_labs.Malloc.Links.{get_next_free, get_root, add_to_free, remove_from_free}
use Fault.{out_of_fuel}

unfoldable pub coalesce_block : Heap → ℕ → Run (Heap × ℕ)
coalesce_block h block = do
  prev_alloced ← get_prev_alloc h block
  next ← find_next h block
  next_alloced ← get_alloc h next
  if not next_alloced && not prev_alloced
      then (do
        prev ← find_prev h block
        prev_size ← get_size h prev
        size ← get_size h block
        next_size ← get_size h next
        h ← remove_from_free h prev
        h ← remove_from_free h next
        h ← remove_from_free h block
        h ← write_block h prev (prev_size + size + next_size) false true
        h ← add_to_free h prev
        ok (h, prev))
      else (if not next_alloced
          then (do
            next_size ← get_size h next
            size ← get_size h block
            h ← remove_from_free h next
            h ← remove_from_free h block
            h ← write_block h block (next_size + size) false true
            h ← add_to_free h block
            ok (h, block))
          else (if not prev_alloced
              then (do
                prev ← find_prev h block
                size ← get_size h block
                prev_size ← get_size h prev
                h ← remove_from_free h prev
                h ← remove_from_free h block
                h ← write_block h prev (size + prev_size) false true
                h ← add_to_free h prev
                ok (h, prev))
              else ok (h, block)))

unfoldable pub split_block : Heap → (block asize : ℕ) → Run Heap
split_block h block asize = do
  block_size ← get_size h block
  if leb min_block_size (sub64 block_size asize)
      then (do
        h ← write_block h block asize true true
        block_next ← find_next h block
        h ← write_block h block_next (sub64 block_size asize) false true
        add_to_free h block_next)
      else ok h

-- The loop of `find_fit` over a list, with `min` (`best`) and `checked`; a list longer than the fuel
-- does not end.
unfoldable pub find_in_list : (fuel : ℕ) → Heap → (asize block best checked : ℕ) → Run ℕ
find_in_list zero h asize block best checked = if block == 0 then ok best else fail out_of_fuel
find_in_list (suc fuel) h asize block best checked = if block == 0 then ok best else (do
  size ← get_size h block
  next ← get_next_free h block
  if leb asize size
      then (do
        let best = if best == 0 then block else best
        best_size ← get_size h best
        let best = if ltb size best_size then block else best
        if not (best == 0) && ltb 9 checked
            then ok best
            else find_in_list fuel h asize next best (checked + 1))
      else find_in_list fuel h asize next best (checked + 1))

-- The first list from `i` on that is not empty; 0 if there is none.
unfoldable pub first_root : (left : ℕ) → Heap → (i : ℕ) → Run ℕ
first_root zero h i = ok 0
first_root (suc left) h i =
    let rest = first_root left h (i + 1) in
    get_root h i >>= λ root. if root == 0 then rest else ok root

unfoldable pub find_fit : (fuel : ℕ) → Heap → ℕ → Run ℕ
find_fit fuel h asize = do
  let seglist_ind = get_seglist_ind asize
  root ← get_root h seglist_ind
  best ← find_in_list fuel h asize root 0 0
  if best == 0 then first_root (seglist_length - (seglist_ind + 1)) h (seglist_ind + 1) else ok best

unfoldable pub free_root_init : Heap → Heap
free_root_init h = record h { free_root = replicate seglist_length 0 }

unfoldable pub free : Heap → ℕ → Run Heap
free h bp = if bp == 0 then ok h else (do
  let block = payload_to_header bp
  size ← get_size h block
  prev_alloc ← get_prev_alloc h block
  h ← write_block h block size false prev_alloc
  h ← add_to_free h block
  (h, block) ← coalesce_block h block
  update_next h block false)

module _ (granted : Heap → ℕ → Bool) where
  -- The block may be absent, as `extend_heap` returns NULL.
  unfoldable pub extend_heap : Heap → ℕ → Run (Heap × Option ℕ)
  extend_heap h size =
      let size = round_up size dsize in
      let (h, brk) = mem_sbrk granted size h in
      elim brk [
        | none ↦ ok (h, none)
        | some bp ↦ do
          let block = payload_to_header bp
          prev_alloc ← get_prev_alloc h block
          h ← write_block h block size false prev_alloc
          h ← add_to_free h block
          block_next ← find_next h block
          h ← write_epilogue h block_next
          (h, block) ← coalesce_block h block
          ok (h, some block)
      ]

  unfoldable pub mm_init : Heap → Run (Heap × Bool)
  mm_init h =
      let (h, brk) = mem_sbrk granted (2 * wsize) h in
      elim brk [
        | none ↦ ok (free_root_init h, false)
        | some start ↦ do
          let h : Heap = free_root_init h
          h ← write h start (pack 0 true true)
          h ← write h (start + 8) (pack 0 true true)
          let h : Heap = record h { heap_start = start + 8 }
          (h, block) ← extend_heap h chunksize
          elim block [ none ↦ ok (h, false) | some b ↦ ok (h, true) ]
      ]

  -- `malloc` once a free block is found.
  unfoldable pub place : Heap → (block asize : ℕ) → Run (Heap × ℕ)
  place h block asize = do
    h ← remove_from_free h block
    block_size ← get_size h block
    h ← write_block h block block_size true true
    h ← split_block h block asize
    h ← update_next h block true
    ok (h, header_to_payload block)

  unfoldable pub malloc : (fuel : ℕ) → Heap → ℕ → Run (Heap × ℕ)
  malloc fuel h size = do
    h ← (if h.heap_start == 0 then (mm_init h >>= λ r. ok r.0) else ok h)
    if size == 0 then ok (h, 0) else (do
      block ← find_fit fuel h (adjusted_size size)
      if block == 0
          then (do
            (h, extended) ← extend_heap h (max (adjusted_size size) chunksize)
            elim extended [ none ↦ ok (h, 0) | some b ↦ place h b (adjusted_size size) ])
          else place h block (adjusted_size size))

  unfoldable pub realloc : (fuel : ℕ) → Heap → (ptr size : ℕ) → Run (Heap × ℕ)
  realloc fuel h ptr size =
      if size == 0
      then (free h ptr >>= λ h. ok (h, 0))
      else if ptr == 0
      then malloc fuel h size
      else (do
        (h, newptr) ← malloc fuel h size
        if newptr == 0 then ok (h, 0) else (do
          old_size ← get_payload_size h (payload_to_header ptr)
          h ← memcpy h newptr ptr (if ltb size old_size then size else old_size)
          h ← free h ptr
          ok (h, newptr)))

  unfoldable pub calloc : (fuel : ℕ) → Heap → (elements size : ℕ) → Run (Heap × ℕ)
  calloc fuel h elements size =
      let asize = mul64 elements size in
      if elements == 0 then ok (h, 0) else if not (asize / elements == size) then ok (h, 0) else (do
        (h, bp) ← malloc fuel h asize
        if bp == 0 then ok (h, 0) else (clear_bytes h bp asize >>= λ h. ok (h, bp)))
