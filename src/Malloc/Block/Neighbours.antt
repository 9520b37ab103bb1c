-- ===== src/Malloc/Block/Neighbours.antt =====
-- A free block written by `write_block` of malloc/mm.c, seen from itself and from the block after it.
use systems_labs.Base.{
  ℕ, ◌+◌, ◌-◌, ◌%◌, ◌^◌, ◌≤◌, ◌<◌, ◌≡◌, ◌≢◌, refl, ◌∙◌, ap, Bool, false, Run, ok, arith, ◌==◌,
}
use systems_labs.Malloc.Memory.{Heap}
use systems_labs.Malloc.Memory.Words.{
  IsHeap, InHeap, word, put, read-ok, write-ok, word-put_self, word-put_ne, IsHeap-put,
}
use systems_labs.Malloc.Header.{
  min_block_size, pack, extract_size, extract_mini, extract_alloc, extract_prev_alloc,
}
use systems_labs.Malloc.Header.Fields.{extract-pack}
use systems_labs.Malloc.Block.{
  get_size, get_alloc, get_prev_alloc, header_to_footer, footer_to_header, write_block, find_next,
  find_prev,
}
use systems_labs.Malloc.Block.Laws.{
  size_of_word, get_size-ok, get_alloc-ok, get_prev_alloc-ok, find_next-ok,
}

-- `r` ends in a heap with a free block of the size at `b`, which the block after it finds.
pub record Placed (b size : ℕ) (prev_alloc : Bool) (r : Run Heap) : Type 0 where
  pub after : Heap
  pub returns : r ≡ ok after
  pub heap : IsHeap after
  pub size_is : get_size after b ≡ ok size
  pub free : get_alloc after b ≡ ok false
  pub prev_kept : get_prev_alloc after b ≡ ok prev_alloc
  pub next_is : find_next after b ≡ ok (b + size)
  pub found : find_prev after (b + size) ≡ ok b

module _ (h : Heap) (is : IsHeap h) (b size : ℕ) (prev_alloc : Bool) (start : h.lo ≤ b)
    (aligned : b % 8 ≡ 0) (ends : b + size ≤ h.brk) (whole : size % 16 ≡ 0)
    (large : 32 ≤ size) where
  abbrev header : ℕ
  header = pack size false prev_alloc

  abbrev foot : ℕ
  foot = b + 8 + size - 16

  abbrev h1 : Heap
  h1 = put h b header

  abbrev h2 : Heap
  h2 = put h1 foot header

  narrow : size < 2 ^ 64
  narrow = omega (arith, is.mapped, is.addressable)

  here : InHeap h b
  here = (start, omega arith, aligned)

  foot_here : InHeap h foot
  foot_here = (omega arith, omega arith, omega arith)

  unmarked : extract_mini header ≡ false
  unmarked =
      let mini = (extract-pack size false prev_alloc whole narrow).3 in
      let other : (size == min_block_size) ≡ false = ground arith in mini ∙ other

  size_value : size_of_word header ≡ size
  unfolding size_of_word
  size_value = rw unmarked (extract-pack size false prev_alloc whole narrow).0

  h1-IsHeap : IsHeap h1
  h1-IsHeap = IsHeap-put h is b header

  h2-IsHeap : IsHeap h2
  h2-IsHeap = IsHeap-put h1 h1-IsHeap foot header

  apart : foot ≢ b
  apart e = omega arith

  header_first : word h1 b ≡ header
  header_first = word-put_self h is b header here

  header_last : word h2 b ≡ header
  header_last = word-put_ne h1 h1-IsHeap foot b header foot_here here apart ∙ header_first

  footer_last : word h2 foot ≡ header
  footer_last = word-put_self h1 h1-IsHeap foot header foot_here

  writes : write_block h b size false prev_alloc ≡ ok h2
  unfolding write_block header_to_footer
  writes =
      let other : (size == min_block_size) ≡ false = ground arith in
      rw
        (
          write-ok h is b header here,
          other,
          get_size-ok h1 h1-IsHeap b here,
          header_first,
          size_value,
        )
        (write-ok h1 h1-IsHeap foot header foot_here)

  finds : find_prev h2 (b + size) ≡ ok b
  unfolding find_prev footer_to_header
  finds =
      let place : b + size - 8 ≡ foot = omega arith in
      let back : foot + 8 - size ≡ b = omega arith in
      let value : extract_size header ≡ size =
        (extract-pack size false prev_alloc whole narrow).0 in
      let some_size : (size == 0) ≡ false = ground arith in
      rw (place, read-ok h2 h2-IsHeap foot foot_here, footer_last, unmarked, value, some_size, back)
        refl

  -- On a heap with IsHeap, for a block inside it whose size is a multiple of 16 and at least 32,
  -- write_block of a free block returns a heap in which get_size, get_alloc and get_prev_alloc of
  -- the block give what was written, find_next of it is the end of the block, and find_prev of
  -- the end, which reads the footer, is the block.
  pub write_block-Placed : Placed b size prev_alloc (write_block h b size false prev_alloc)
  write_block-Placed =
      let fields = extract-pack size false prev_alloc whole narrow in
      record {
        after = h2;
        returns = writes;
        heap = h2-IsHeap;
        size_is =
            get_size-ok h2 h2-IsHeap b here
            ∙ ap (λ w. ok (size_of_word w)) header_last
            ∙ ap ok size_value;
        free =
            get_alloc-ok h2 h2-IsHeap b here
            ∙ ap (λ w. ok (extract_alloc w)) header_last
            ∙ ap ok fields.1;
        prev_kept =
            get_prev_alloc-ok h2 h2-IsHeap b here
            ∙ ap (λ w. ok (extract_prev_alloc w)) header_last
            ∙ ap ok fields.2;
        next_is =
            find_next-ok h2 h2-IsHeap b here
            ∙ ap (λ w. ok (b + size_of_word w)) header_last
            ∙ ap (λ s. ok (b + s)) size_value;
        found = finds;
      }
