-- ===== src/Malloc/Checker/Mini.antt =====
-- The checker of malloc/mm.c on free blocks of sixteen bytes, which have no footer.
use systems_labs.Base.{ℕ, ◌+◌, ◌-◌, ◌/◌, ◌%◌, ◌≡◌, refl, true, false, ok, arith, ◌==◌}
use systems_labs.Malloc.Memory.{Heap}
use systems_labs.Malloc.Memory.Words.{IsHeap, word, read-ok}
use systems_labs.Malloc.Header.{extract_prev_alloc}
use systems_labs.Malloc.Header.Fields.{extract_prev_alloc-value}
use systems_labs.Malloc.Block.{header_to_footer}
use systems_labs.Malloc.Block.Laws.{
  size_at, mini_at, IsFree, header_inside, next_inside, get_size-ok, get_alloc-ok, size_of_mini,
}
use systems_labs.Malloc.Checker.{check_header_and_footer}

module _ (h : Heap) (is : IsHeap h) (b : ℕ) (free : IsFree h b) (mini : mini_at h b ≡ true) where
  size_is : size_at h b ≡ 16
  size_is = size_of_mini (word h b) mini

  footer_is : header_to_footer h b ≡ ok (b + 8)
  unfolding header_to_footer
  footer_is =
      let place : b + 8 + 16 - 16 ≡ b + 8 = omega arith in
      rw (get_size-ok h is b (header_inside free), size_is, place) refl

  -- On a heap with IsHeap, for a free block of sixteen bytes after an allocated one, linked as
  -- set_next_free links it, check_header_and_footer returns false, whatever its links are.
  pub check_header_and_footer-mini :
      extract_prev_alloc (word h b) ≡ true
      → word h (b + 8) % 8 ≡ 4
      → check_header_and_footer h b ≡ ok false
  unfolding check_header_and_footer
  check_header_and_footer-mini prev link =
      let set : word h b / 2 % 2 ≡ 1 = ground (arith, extract_prev_alloc-value (word h b), prev) in
      let differ : (word h (b + 8) == word h b) ≡ false = ground (arith, set, link) in
      rw
        (
          get_size-ok h is b (header_inside free),
          get_alloc-ok h is b (header_inside free),
          size_is,
          free.unallocated,
          footer_is,
          read-ok h is (b + 8) (next_inside free),
          read-ok h is b (header_inside free),
          differ,
        )
        refl
