-- ===== src/Malloc/Links/Add.antt =====
-- `add_to_free` of malloc/mm.c puts a block at the front of its list.
use systems_labs.Base.{
  ℕ, ◌<◌, ◌≡◌, ◌≢◌, refl, ◌∙◌, ap, false, List, [], ◌∷◌, Run, ok, arith, some, get_elem?,
  get_elem?-some, get_elem?-set_self, get_elem?-set_ne, set, length, load-some, store-ok, ◌==◌,
}
use systems_labs.Malloc.Memory.{Heap}
use systems_labs.Malloc.Memory.Words.{IsHeap, word}
use systems_labs.Malloc.Size.{get_seglist_ind}
use systems_labs.Malloc.Block.Laws.{size_at, header_inside, get_size-ok}
use systems_labs.Malloc.Links.{get_root, set_root, set_prev_free, set_next_free, add_to_free}
use systems_labs.Malloc.Links.Set.{set_next_free-Relinked, set_prev_free-Relinked}
use systems_labs.Malloc.Links.Chain.{
  first, IsLink-block, above_null, Distinct, Separate, IsSized, Segment, relinked-Same,
  relinked-IsSized, Segment-apart, Segment-new_prev, Apart-sym,
}

-- `r` ends in a heap in which list `i` is `bs`, linked in both directions; the other roots are as
-- they were, and so is every stretch of blocks apart from `touched`.
pub record Relisted (sizes : ℕ → ℕ) (h : Heap) (i : ℕ) (touched bs : List ℕ) (r : Run Heap)
    : Type 0 where
  pub after : Heap
  pub returns : r ≡ ok after
  pub heap : IsHeap after
  pub root : get_elem? after.free_root i ≡ some (first bs 0)
  pub list : Segment sizes after 0 bs 0
  pub other_roots : (j : ℕ) → i ≢ j → get_elem? after.free_root j ≡ get_elem? h.free_root j
  pub other_lists :
      (cs : List ℕ) (p n : ℕ)
      → Segment sizes h p cs n
      → Separate sizes touched cs
      → Segment sizes after p cs n

abbrev pub rooted : Heap → (i b : ℕ) → Heap
rooted h i b = record h { free_root = set h.free_root i b }

pub set_root-ok : (h : Heap) (i b : ℕ) → i < length h.free_root → set_root h i b ≡ ok (rooted h i b)
unfolding set_root
set_root-ok h i b inside = rw (store-ok h.free_root i b inside) refl

pub get_root-ok :
    (h : Heap) (i : ℕ) {b : ℕ} → get_elem? h.free_root i ≡ some b → get_root h i ≡ ok b
unfolding get_root
get_root-ok h i e = load-some h.free_root i e

pub rooted-IsHeap : (h : Heap) (i b : ℕ) → IsHeap h → IsHeap (rooted h i b)
rooted-IsHeap h i b is = record {
  mapped = is.mapped;
  above_null = is.above_null;
  aligned = is.aligned;
  addressable = is.addressable;
}

module _ (sizes : ℕ → ℕ) (h : Heap) (i b : ℕ) where
  pub rooted-IsSized : (c : ℕ) → IsSized sizes h c → IsSized sizes (rooted h i b) c
  unfolding word
  rooted-IsSized c (free, sized) = (
    record {
      start = free.start;
      aligned = free.aligned;
      ends = free.ends;
      two_words = free.two_words;
      three_words = free.three_words;
      narrow = free.narrow;
      unallocated = free.unallocated;
    },
    sized,
  )

  pub Segment-rooted :
      (cs : List ℕ) (p n : ℕ) → Segment sizes h p cs n → Segment sizes (rooted h i b) p cs n
  unfolding word
  Segment-rooted [] p n s = tt
  Segment-rooted (c ∷ cs) p n (sized, ep, en, rest) =
      (rooted-IsSized c sized, ep, en, Segment-rooted cs c n rest)

module _ (sizes : ℕ → ℕ) (h : Heap) (is : IsHeap h) (i b : ℕ) (sized : IsSized sizes h b)
    (bucket : get_seglist_ind (size_at h b) ≡ i) where
  add-first_steps :
      {g1 g2 : Heap}
      → get_elem? h.free_root i ≡ some 0
      → set_prev_free (rooted h i b) b 0 ≡ ok g1
      → get_elem? g1.free_root i ≡ some b
      → set_next_free g1 b 0 ≡ ok g2
      → add_to_free h b ≡ ok g2
  unfolding add_to_free
  add-first_steps {g1} {g2} empty first_step root1 second_step =
      let inside = get_elem?-some h.free_root i empty in
      rw
        (
          get_size-ok h is b (header_inside sized.0),
          bucket,
          get_root-ok h i empty,
          set_root-ok h i b inside,
          get_root-ok (rooted h i b) i (get_elem?-set_self h.free_root i b inside),
          first_step,
          get_root-ok g1 i root1,
        )
        second_step

  add-before_steps :
      {c : ℕ} {g1 g2 g3 : Heap}
      → get_elem? h.free_root i ≡ some c
      → 0 < c
      → set_prev_free h c b ≡ ok g1
      → get_elem? g1.free_root i ≡ some c
      → set_next_free g1 b c ≡ ok g2
      → set_prev_free g2 b 0 ≡ ok g3
      → i < length g3.free_root
      → add_to_free h b ≡ ok (rooted g3 i b)
  unfolding add_to_free
  add-before_steps {c} {g1} {g2} {g3} root pos first_step root1 second_step third_step inside =
      let some_root : (c == 0) ≡ false = ground arith in
      rw
        (
          get_size-ok h is b (header_inside sized.0),
          bucket,
          get_root-ok h i root,
          some_root,
          first_step,
          get_root-ok g1 i root1,
          second_step,
          third_step,
        )
        (set_root-ok g3 i b inside)

  add-first :
      get_elem? h.free_root i ≡ some 0 → Relisted sizes h i (b ∷ []) (b ∷ []) (add_to_free h b)
  add-first empty =
      let inside = get_elem?-some h.free_root i empty in
      let h1 = rooted h i b in
      let is1 = rooted-IsHeap h i b is in
      let sized1 = rooted-IsSized sizes h i b b sized in
      let root1 : get_elem? h1.free_root i ≡ some b = get_elem?-set_self h.free_root i b inside in
      let q1 = set_prev_free-Relinked h1 is1 b sized1.0 0 (omega arith, omega arith) in
      let sized2 = relinked-IsSized sizes q1 sized1 in
      let q2 = set_next_free-Relinked q1.after q1.heap b sized2.0 0 (omega arith, omega arith) in
      let root2 : get_elem? q1.after.free_root i ≡ some b =
        ap (λ rs. get_elem? rs i) q1.same_roots ∙ root1 in
      let roots : q2.after.free_root ≡ h1.free_root = q2.same_roots ∙ q1.same_roots in
      record {
        after = q2.after;
        returns = add-first_steps empty q1.returns root2 q2.returns;
        heap = q2.heap;
        root = ap (λ rs. get_elem? rs i) roots ∙ root1;
        list = (relinked-IsSized sizes q2 sized2, q2.prev_is ∙ q1.prev_is, q2.next_is, tt);
        other_roots = λ j ne. ap (λ rs. get_elem? rs j) roots ∙ get_elem?-set_ne h.free_root b ne;
        other_lists = λ cs p n s (apart, _).
            Segment-apart sizes q2 cs p n sized2 apart
              (Segment-apart sizes q1 cs p n sized1 apart (Segment-rooted sizes h i b cs p n s));
      }

  add-before :
      (c : ℕ) (cs : List ℕ)
      → get_elem? h.free_root i ≡ some c
      → Segment sizes h 0 (c ∷ cs) 0
      → Distinct sizes (b ∷ c ∷ cs)
      → Relisted sizes h i (b ∷ c ∷ []) (b ∷ c ∷ cs) (add_to_free h b)
  add-before c cs root list (apart, dist) =
      let inside = get_elem?-some h.free_root i root in
      let sized_c = list.0 in
      let q1 = set_prev_free-Relinked h is c sized_c.0 b (IsLink-block is sized.0) in
      let same1 = relinked-Same sizes q1 b sized_c sized (Apart-sym sizes b c apart.0) in
      let list1 = Segment-new_prev sizes 0 b c cs 0 dist list q1 in
      let q2 =
        set_next_free-Relinked q1.after q1.heap b same1.sized.0 c (IsLink-block is sized_c.0) in
      let sized2 = relinked-IsSized sizes q2 same1.sized in
      let list2 = Segment-apart sizes q2 (c ∷ cs) b 0 same1.sized apart list1 in
      let q3 = set_prev_free-Relinked q2.after q2.heap b sized2.0 0 (omega arith, omega arith) in
      let sized3 = relinked-IsSized sizes q3 sized2 in
      let list3 = Segment-apart sizes q3 (c ∷ cs) b 0 sized2 apart list2 in
      let roots : q3.after.free_root ≡ h.free_root =
        q3.same_roots ∙ q2.same_roots ∙ q1.same_roots in
      let h4 = rooted q3.after i b in
      let inside3 : i < length q3.after.free_root = omega (arith, ap length roots, inside) in
      record {
        after = h4;
        returns =
            add-before_steps root (above_null is sized_c.0) q1.returns
              (ap (λ rs. get_elem? rs i) q1.same_roots ∙ root) q2.returns q3.returns inside3;
        heap = rooted-IsHeap q3.after i b q3.heap;
        root = get_elem?-set_self q3.after.free_root i b inside3;
        list =
            Segment-rooted sizes q3.after i b (b ∷ c ∷ cs) 0 0
              (sized3, q3.prev_is, q3.next_is ∙ q2.next_is, list3);
        other_roots =
            λ j ne. get_elem?-set_ne q3.after.free_root b ne ∙ ap (λ rs. get_elem? rs j) roots;
        other_lists = λ ds p n s (apart_b, (apart_c, _)). Segment-rooted sizes q3.after i b ds p n (
            Segment-apart sizes q3 ds p n sized2 apart_b (
              Segment-apart sizes q2 ds p n same1.sized apart_b
                (Segment-apart sizes q1 ds p n sized_c apart_c s)));
      }

  -- On a heap with IsHeap: if list i is a doubly linked list of free blocks and b is a free block
  -- apart from them, all of them apart from each other, and i is the list of the size of b,
  -- add_to_free of b returns a heap in which list i is b followed by the old list, linked in both
  -- directions; the other roots are unchanged, and so is every doubly linked stretch of free
  -- blocks apart from b and those of the list.
  pub add_to_free-Relisted :
      (bs : List ℕ)
      → get_elem? h.free_root i ≡ some (first bs 0)
      → Segment sizes h 0 bs 0
      → Distinct sizes (b ∷ bs)
      → Relisted sizes h i (b ∷ bs) (b ∷ bs) (add_to_free h b)
  add_to_free-Relisted [] root list dist = add-first root
  add_to_free-Relisted (c ∷ cs) root list dist =
      let done = add-before c cs root list dist in
      record {
        after = done.after;
        returns = done.returns;
        heap = done.heap;
        root = done.root;
        list = done.list;
        other_roots = done.other_roots;
        other_lists = λ ds p n s (apart_b, (apart_c, rest)).
            done.other_lists ds p n s (apart_b, (apart_c, tt));
      }
