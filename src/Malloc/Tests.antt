-- ===== src/Malloc/Tests.antt =====
-- Runs of malloc/mm.c by evaluation, and the theorems at concrete heaps.
use systems_labs.Base.{
  ℕ, zero, suc, ◌+◌, ◌-◌, ◌%◌, ◌^◌, ◌≤◌, ◌<◌, ◌≡◌, inl, inr, refl, ap, Bool, true, false, List, [],
  ◌∷◌, some, get_elem?, length, ◌==◌, Run, ok, ◌>>=◌, arith, replicate, load, store,
  get_elem?-replicate,
}
use systems_labs.Malloc.Memory.Words.{IsHeap, word}
use systems_labs.Malloc.Header.Fields.{extract-pack}
use systems_labs.Malloc.Size.Laws.{Rounds, adjusted_size-least, IsBucket, get_seglist_ind-IsBucket}
use systems_labs.Malloc.Block.Laws.{size_of_word, size_at, mini_at, IsFree}
use systems_labs.Malloc.Links.Laws.{prev_link}
use systems_labs.Malloc.Block.Neighbours.{Placed, write_block-Placed}
use systems_labs.Malloc.Links.Chain.{first, IsSized, Segment}
use systems_labs.Malloc.Links.Add.{Relisted, add_to_free-Relisted}
use systems_labs.Malloc.Links.Remove.{remove_from_free-Relisted}
use systems_labs.Malloc.Allocate.Fit.{All}
use systems_labs.Malloc.Allocate.Lists.{IsSorted, Fit, find_fit-Fit}
use systems_labs.Malloc.Checker.Mini.{check_header_and_footer-mini}
use systems_labs.Base.Loop.{for_range}
use systems_labs.Malloc.Memory.{
  Heap, slot, read, write, mem_sbrk, mem_max_addr, mem_heap_lo, mem_heap_hi,
}
use systems_labs.Malloc.Header.{pack, extract_size, extract_mini, extract_alloc, extract_prev_alloc}
use systems_labs.Malloc.Size.{max, min, round_up, adjusted_size, shift_count, get_seglist_ind}
use systems_labs.Malloc.Block.{
  get_mini, get_size, header_to_footer, footer_to_header, get_payload_size, get_alloc,
  get_prev_alloc, set_prev_alloc, write_epilogue, write_block, write_footer, find_next, find_prev,
  update_next,
}
use systems_labs.Malloc.Links.{
  get_next_free, get_prev_free, set_prev_free, set_next_free, get_root, set_root, remove_from_free,
  add_to_free,
}
use systems_labs.Malloc.Allocate.{
  coalesce_block, split_block, find_in_list, first_root, find_fit, free_root_init, free,
  extend_heap, mm_init, place, malloc, realloc, calloc,
}
use systems_labs.Malloc.Memory.Copy.{copy_words, memcpy, clear_words, clear_bytes}
use systems_labs.Malloc.Memory.Copy.Bytes.{byte, Kept}
use systems_labs.Malloc.Memory.Copy.Move.{memcpy-Kept}
use systems_labs.Malloc.Checker.{
  check_address_alignment, check_prologue, check_epilogue, consecutive_free, within_heap_boundaries,
  check_header_and_footer, count_free_from, count_free, explicit_list_pointer_consistency,
  check_listed, check_list_from, check_explicit_list, count_list, check_block, check_blocks_from,
  check_lists_from, mm_checkheap,
}

abbrev always : Heap → ℕ → Bool
always h incr = true

abbrev blank : List ℕ
blank = replicate 600 0

abbrev fresh : Heap
fresh = record {
  words = blank;
  lo = 0x800000000;
  brk = 0x800000000;
  heap_start = 0;
  free_root = replicate 15 0;
}

abbrev scenario : Run Bool
scenario = do
  (h, p) ← malloc always 10 fresh 100
  (h, q) ← malloc always 10 h 5
  (h, r) ← malloc always 10 h 50
  h ← free h p
  (h, s) ← malloc always 10 h 40
  mm_checkheap 20 h

scenario-checks : scenario ≡ ok true
unfolding load store for_range slot read write mem_sbrk mem_max_addr mem_heap_lo mem_heap_hi pack
    extract_size extract_mini extract_alloc extract_prev_alloc max min round_up adjusted_size
    shift_count get_seglist_ind get_mini get_size header_to_footer footer_to_header get_payload_size
    get_alloc get_prev_alloc set_prev_alloc write_epilogue write_block write_footer find_next
    find_prev update_next get_next_free get_prev_free set_prev_free set_next_free get_root set_root
    remove_from_free add_to_free coalesce_block split_block find_in_list first_root find_fit
    free_root_init copy_words memcpy clear_words clear_bytes free extend_heap mm_init place malloc
    realloc calloc check_address_alignment check_prologue check_epilogue consecutive_free
    within_heap_boundaries check_header_and_footer count_free_from count_free
    explicit_list_pointer_consistency check_listed check_list_from check_explicit_list count_list
    check_block check_blocks_from check_lists_from mm_checkheap
scenario-checks = refl

-- A free block of sixteen bytes fails the check of headers and footers.
abbrev mini_scenario : Run Bool
mini_scenario = do
  (h, p) ← malloc always 10 fresh 100
  (h, q) ← malloc always 10 h 5
  (h, r) ← malloc always 10 h 100
  h ← free h q
  mm_checkheap 20 h

mini_scenario-checks : mini_scenario ≡ ok false
unfolding load store for_range slot read write mem_sbrk mem_max_addr mem_heap_lo mem_heap_hi pack
    extract_size extract_mini extract_alloc extract_prev_alloc max min round_up adjusted_size
    shift_count get_seglist_ind get_mini get_size header_to_footer footer_to_header get_payload_size
    get_alloc get_prev_alloc set_prev_alloc write_epilogue write_block write_footer find_next
    find_prev update_next get_next_free get_prev_free set_prev_free set_next_free get_root set_root
    remove_from_free add_to_free coalesce_block split_block find_in_list first_root find_fit
    free_root_init copy_words memcpy clear_words clear_bytes free extend_heap mm_init place malloc
    realloc calloc check_address_alignment check_prologue check_epilogue consecutive_free
    within_heap_boundaries check_header_and_footer count_free_from count_free
    explicit_list_pointer_consistency check_listed check_list_from check_explicit_list count_list
    check_block check_blocks_from check_lists_from mm_checkheap
mini_scenario-checks = refl

-- A request close to 2 ^ 64 wraps around and gets the smallest block.
huge_request : adjusted_size (2 ^ 64 - 1) ≡ 16
unfolding adjusted_size max round_up
huge_request = refl

abbrev reallocated : Run (ℕ × ℕ)
reallocated = do
  (h, p) ← calloc always 10 fresh 3 8
  h ← write h p 7
  (h, q) ← realloc always 10 h p 200
  first ← read h q
  second ← read h (q + 8)
  ok (first, second)

reallocated-copy : reallocated ≡ ok (7, 0)
unfolding load store for_range slot read write mem_sbrk mem_max_addr mem_heap_lo mem_heap_hi pack
    extract_size extract_mini extract_alloc extract_prev_alloc max min round_up adjusted_size
    shift_count get_seglist_ind get_mini get_size header_to_footer footer_to_header get_payload_size
    get_alloc get_prev_alloc set_prev_alloc write_epilogue write_block write_footer find_next
    find_prev update_next get_next_free get_prev_free set_prev_free set_next_free get_root set_root
    remove_from_free add_to_free coalesce_block split_block find_in_list first_root find_fit
    free_root_init copy_words memcpy clear_words clear_bytes free extend_heap mm_init place malloc
    realloc calloc check_address_alignment check_prologue check_epilogue consecutive_free
    within_heap_boundaries check_header_and_footer count_free_from count_free
    explicit_list_pointer_consistency check_listed check_list_from check_explicit_list count_list
    check_block check_blocks_from check_lists_from mm_checkheap
reallocated-copy = refl

extract-pack_example :
    (extract_size (pack 48 false true) ≡ 48)
    × (extract_alloc (pack 48 false true) ≡ false)
    × (extract_prev_alloc (pack 48 false true) ≡ true)
    × (extract_mini (pack 48 false true) ≡ (48 == 16))
extract-pack_example = extract-pack 48 false true refl (omega arith)

adjusted_size-least_example : Rounds 100 (adjusted_size 100)
adjusted_size-least_example = adjusted_size-least 100 (omega arith)

get_seglist_ind-IsBucket_example : IsBucket 100 (get_seglist_ind 100)
get_seglist_ind-IsBucket_example = get_seglist_ind-IsBucket 100 (omega arith) (omega arith)

-- Blocks of 32 bytes at 4104, 4136 and 4168, of which the first and the last are linked.
abbrev blocks : List ℕ
blocks = 3 ∷ 34 ∷ 4168 ∷ 0 ∷ 34 ∷ 34 ∷ 0 ∷ 0 ∷ 34 ∷ 34 ∷ 0 ∷ 4104 ∷ 34 ∷ 1 ∷ []

abbrev roots : List ℕ
roots = 0 ∷ 4104 ∷ replicate 13 0

abbrev small : Heap
small = record { words = blocks; lo = 4096; brk = 4208; heap_start = 4104; free_root = roots }

small-IsHeap : IsHeap small
small-IsHeap = record {
  mapped = omega arith;
  above_null = omega arith;
  aligned = refl;
  addressable = omega arith;
}

abbrev sizes : ℕ → ℕ
sizes c = 32

block-IsSized :
    (b : ℕ) → 4096 ≤ b → b % 8 ≡ 0 → b + 32 ≤ 4208 → word small b ≡ 34 → IsSized sizes small b
unfolding size_of_word extract_size extract_mini extract_alloc
block-IsSized b lo al hi e =
    let size : size_of_word (word small b) ≡ 32 = ap size_of_word e in
    (
      record {
        start = lo;
        aligned = al;
        ends = omega (arith, size);
        two_words = omega (arith, size);
        three_words = λ f. omega (arith, size);
        narrow = omega (arith, e);
        unallocated = ap extract_alloc e;
      },
      size,
    )

first-IsSized : IsSized sizes small 4104
unfolding word
first-IsSized = block-IsSized 4104 (omega arith) refl (omega arith) refl

middle-IsSized : IsSized sizes small 4136
unfolding word
middle-IsSized = block-IsSized 4136 (omega arith) refl (omega arith) refl

last-IsSized : IsSized sizes small 4168
unfolding word
last-IsSized = block-IsSized 4168 (omega arith) refl (omega arith) refl

chain : Segment sizes small 0 (4104 ∷ 4168 ∷ []) 0
unfolding word prev_link extract_mini
chain = (first-IsSized, refl, refl, (last-IsSized, refl, refl, tt))

bucket_of : (b : ℕ) → IsSized sizes small b → get_seglist_ind (size_at small b) ≡ 1
unfolding get_seglist_ind shift_count min
bucket_of b sized = ap get_seglist_ind sized.1

add_to_free-Relisted_example :
    Relisted sizes small 1
      (4136 ∷ 4104 ∷ 4168 ∷ [])
      (4136 ∷ 4104 ∷ 4168 ∷ [])
      (add_to_free small 4136)
add_to_free-Relisted_example =
    add_to_free-Relisted sizes small small-IsHeap 1 4136 middle-IsSized
      (bucket_of 4136 middle-IsSized) (4104 ∷ 4168 ∷ []) refl chain
      ((inr (omega arith), (inl (omega arith), tt)), ((inl (omega arith), tt), (tt, tt)))

remove_from_free-Relisted_example :
    Relisted sizes small 1 (4104 ∷ 4168 ∷ []) (4104 ∷ []) (remove_from_free small 4168)
remove_from_free-Relisted_example =
    remove_from_free-Relisted sizes small small-IsHeap 1 4168 (bucket_of 4168 last-IsSized)
      (4104 ∷ []) [] refl chain ((inl (omega arith), tt), (tt, tt))

memcpy-Kept_example :
    (g : Heap) × (memcpy small 4104 4168 13 ≡ ok g)
    × Kept small g 4104 13
    × ((i : ℕ) → i < 13 → byte g (4104 + i) ≡ byte small (4168 + i))
memcpy-Kept_example =
    memcpy-Kept small 4104 4168 13 small-IsHeap (omega arith, omega arith, refl)
      (omega arith, omega arith, refl) (inl (omega arith))

-- The two linked blocks in the second list, nothing in the others.
abbrev lists : ℕ → List ℕ
lists zero = []
lists (suc zero) = 4104 ∷ 4168 ∷ []
lists (suc (suc j)) = []

lists-root : (j : ℕ) → j < 15 → get_elem? roots j ≡ some (first (lists j) 0)
lists-root zero h = refl
lists-root (suc zero) h = refl
lists-root (suc (suc j)) h = get_elem?-replicate 13 j 0 (omega arith)

lists-linked : (j : ℕ) → Segment sizes small 0 (lists j) 0
lists-linked zero = tt
lists-linked (suc zero) = chain
lists-linked (suc (suc j)) = tt

lists-bucket :
    (j : ℕ)
    → All (λ c. (get_seglist_ind (sizes c) ≡ j) × (16 ≤ sizes c) × (sizes c < 2 ^ 64)) (lists j)
unfolding get_seglist_ind shift_count min
lists-bucket zero = tt
lists-bucket (suc zero) = ((refl, omega arith, omega arith), ((refl, omega arith, omega arith), tt))
lists-bucket (suc (suc j)) = tt

lists-IsSorted : IsSorted sizes small lists
lists-IsSorted = record {
  root = lists-root;
  linked = λ j h. lists-linked j;
  bucket = λ j h. lists-bucket j;
}

lists-known : (j : ℕ) → All (λ c. c ≤ 4168) (lists j)
lists-known zero = tt
lists-known (suc zero) = (omega arith, (omega arith, tt))
lists-known (suc (suc j)) = tt

lists-short : (j : ℕ) → length (lists j) ≤ 2
lists-short zero = omega arith
lists-short (suc zero) = omega arith
lists-short (suc (suc j)) = omega arith

find_fit-Fit_example :
    (r : ℕ) × (find_fit 2 small 32 ≡ ok r)
    × Fit sizes small small-IsHeap lists lists-IsSorted 32
        (λ c. c ≤ 4168)
        (λ j h. lists-known j)
        (omega arith)
        (omega arith)
        r
find_fit-Fit_example =
    find_fit-Fit sizes small small-IsHeap lists lists-IsSorted 32 (λ c. c ≤ 4168)
      (λ j h. lists-known j) (omega arith) (omega arith) 2 (λ j h. lists-short j)

-- A free block of sixteen bytes at 4104.
abbrev tiny : Heap
tiny = record {
  words = 3 ∷ 6 ∷ 4 ∷ 1 ∷ [];
  lo = 4096;
  brk = 4128;
  heap_start = 4104;
  free_root = 4104 ∷ replicate 14 0;
}

tiny-IsHeap : IsHeap tiny
tiny-IsHeap = record {
  mapped = omega arith;
  above_null = omega arith;
  aligned = refl;
  addressable = omega arith;
}

tiny-IsFree : IsFree tiny 4104
unfolding word size_of_word extract_size extract_mini extract_alloc
tiny-IsFree = record {
  start = omega arith;
  aligned = refl;
  ends = omega arith;
  two_words = omega arith;
  three_words = λ f. absurd (cc);
  narrow = omega arith;
  unallocated = refl;
}

tiny-mini : mini_at tiny 4104 ≡ true
unfolding word extract_mini
tiny-mini = refl

tiny-prev : extract_prev_alloc (word tiny 4104) ≡ true
unfolding word extract_prev_alloc
tiny-prev = refl

tiny-link : word tiny (4104 + 8) % 8 ≡ 4
unfolding word
tiny-link = refl

check_header_and_footer-mini_example : check_header_and_footer tiny 4104 ≡ ok false
check_header_and_footer-mini_example =
    check_header_and_footer-mini tiny tiny-IsHeap 4104 tiny-IsFree tiny-mini tiny-prev tiny-link

write_block-Placed_example : Placed 4136 32 true (write_block small 4136 32 false true)
write_block-Placed_example =
    write_block-Placed small small-IsHeap 4136 32 true (omega arith) refl (omega arith) refl
      (omega arith)
