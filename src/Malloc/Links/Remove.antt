-- ===== src/Malloc/Links/Remove.antt =====
-- `remove_from_free` of malloc/mm.c takes a block out of its list, wherever it stands in it.
use systems_labs.Base.{
  ℕ, ◌<◌, ◌≡◌, ◌∙◌, ap, false, List, [], ◌∷◌, ◌++◌, ok, arith, some, get_elem?, get_elem?-some,
  get_elem?-set_self, get_elem?-set_ne, length, ◌==◌,
}
use mathlib.Core.List.{append-nil}
use systems_labs.Malloc.Memory.{Heap}
use systems_labs.Malloc.Memory.Words.{IsHeap}
use systems_labs.Malloc.Size.{get_seglist_ind}
use systems_labs.Malloc.Block.Laws.{size_at, IsFree, header_inside, get_size-ok}
use systems_labs.Malloc.Links.{set_prev_free, set_next_free, remove_from_free}
use systems_labs.Malloc.Links.Laws.{next_at, prev_at, get_next_free-ok, get_prev_free-ok}
use systems_labs.Malloc.Links.Set.{set_next_free-Relinked, set_prev_free-Relinked}
use systems_labs.Malloc.Links.Chain.{
  first, last_or, IsLink-block, above_null, AllApart, Distinct, Separate, Segment, Segment-apart,
  Segment-new_prev, Segment-new_next, Segment-split, Segment-join, last-IsSized, Apart-sym,
}
use systems_labs.Malloc.Links.Add.{Relisted, rooted, set_root-ok, rooted-IsHeap, Segment-rooted}

module _ (sizes : ℕ → ℕ) where
  AllApart-split :
      (b : ℕ) (xs ys : List ℕ)
      → AllApart sizes b (xs ++ ys)
      → AllApart sizes b xs × AllApart sizes b ys
  AllApart-split b [] ys a = (tt, a)
  AllApart-split b (x ∷ xs) ys (here, rest) =
      let parts = AllApart-split b xs ys rest in ((here, parts.0), parts.1)

  abbrev Parts : (xs ys : List ℕ) → Type 0
  Parts xs ys = Distinct sizes xs × Distinct sizes ys × Separate sizes xs ys

  Distinct-split : (xs ys : List ℕ) → Distinct sizes (xs ++ ys) → Parts xs ys
  Distinct-split [] ys d = (tt, d, tt)
  Distinct-split (x ∷ xs) ys (here, rest) =
      let all = AllApart-split x xs ys here in
      let parts = Distinct-split xs ys rest in ((all.0, parts.0), parts.1, (all.1, parts.2))

  Separate-last :
      (x : ℕ) (xs ys : List ℕ) → Separate sizes (x ∷ xs) ys → AllApart sizes (last_or x xs) ys
  Separate-last x [] ys (here, rest) = here
  Separate-last x (y ∷ xs) ys (here, rest) = Separate-last y xs ys rest

  Separate-left : (xs ys ds : List ℕ) → Separate sizes (xs ++ ys) ds → Separate sizes xs ds
  Separate-left [] ys ds s = tt
  Separate-left (x ∷ xs) ys ds (here, rest) = (here, Separate-left xs ys ds rest)

  Separate-right : (xs ys ds : List ℕ) → Separate sizes (xs ++ ys) ds → Separate sizes ys ds
  Separate-right [] ys ds s = s
  Separate-right (x ∷ xs) ys ds (here, rest) = Separate-right xs ys ds rest

  -- The second of the blocks on the right is apart from all on the left.
  Separate-second :
      (b c : ℕ) (xs cs : List ℕ) → Separate sizes xs (b ∷ c ∷ cs) → AllApart sizes c xs
  Separate-second b c [] cs s = tt
  Separate-second b c (x ∷ xs) cs ((apart_b, (apart_c, rest)), more) =
      (Apart-sym sizes x c apart_c, Separate-second b c xs cs more)

module _ (h : Heap) (is : IsHeap h) (i b : ℕ) (free : IsFree h b)
    (bucket : get_seglist_ind (size_at h b) ≡ i) where
  remove_only :
      next_at h b ≡ 0
      → prev_at h b ≡ 0
      → i < length h.free_root
      → remove_from_free h b ≡ ok (rooted h i 0)
  unfolding remove_from_free
  remove_only en ep inside =
      rw
        (
          get_prev_free-ok free is,
          get_next_free-ok free is,
          get_size-ok h is b (header_inside free),
          bucket,
          en,
          ep,
        )
        (set_root-ok h i 0 inside)

  remove_last :
      {a : ℕ} {g : Heap}
      → next_at h b ≡ 0
      → prev_at h b ≡ a
      → 0 < a
      → set_next_free h a 0 ≡ ok g
      → remove_from_free h b ≡ ok g
  unfolding remove_from_free
  remove_last {a} en ep pos step =
      let some_prev : (a == 0) ≡ false = ground arith in
      rw
        (
          get_prev_free-ok free is,
          get_next_free-ok free is,
          get_size-ok h is b (header_inside free),
          en,
          ep,
          some_prev,
        )
        step

  remove_first :
      {c : ℕ} {g : Heap}
      → next_at h b ≡ c
      → prev_at h b ≡ 0
      → 0 < c
      → set_prev_free h c 0 ≡ ok g
      → i < length g.free_root
      → remove_from_free h b ≡ ok (rooted g i c)
  unfolding remove_from_free
  remove_first {c} {g} en ep pos step inside =
      let some_next : (c == 0) ≡ false = ground arith in
      rw
        (
          get_prev_free-ok free is,
          get_next_free-ok free is,
          get_size-ok h is b (header_inside free),
          bucket,
          en,
          ep,
          some_next,
          step,
        )
        (set_root-ok g i c inside)

  remove_between :
      {a c : ℕ} {g1 g2 : Heap}
      → next_at h b ≡ c
      → prev_at h b ≡ a
      → 0 < c
      → 0 < a
      → set_next_free h a c ≡ ok g1
      → set_prev_free g1 c a ≡ ok g2
      → remove_from_free h b ≡ ok g2
  unfolding remove_from_free
  remove_between {a} {c} en ep pos_c pos_a first_step second_step =
      let some_next : (c == 0) ≡ false = ground arith in
      let some_prev : (a == 0) ≡ false = ground arith in
      rw
        (
          get_prev_free-ok free is,
          get_next_free-ok free is,
          get_size-ok h is b (header_inside free),
          en,
          ep,
          some_next,
          some_prev,
          first_step,
        )
        second_step

module _ (sizes : ℕ → ℕ) (h : Heap) (is : IsHeap h) (i b : ℕ)
    (bucket : get_seglist_ind (size_at h b) ≡ i) where
  -- On a heap with IsHeap: if list i is a doubly linked list of free blocks that lie apart from
  -- each other, the block b among them, and i is the list of the size of b, remove_from_free of b
  -- returns a heap in which list i is the same list without b, linked in both directions,
  -- wherever b stood in it; the other roots are unchanged, and so is every doubly linked stretch
  -- of free blocks apart from those of the list.
  pub remove_from_free-Relisted :
      (pre post : List ℕ)
      → get_elem? h.free_root i ≡ some (first (pre ++ b ∷ post) 0)
      → Segment sizes h 0 (pre ++ b ∷ post) 0
      → Distinct sizes (pre ++ b ∷ post)
      → Relisted sizes h i (pre ++ b ∷ post) (pre ++ post) (remove_from_free h b)
  remove_from_free-Relisted [] [] root ((free, _), ep, en, _) dist =
      let inside = get_elem?-some h.free_root i root in
      record {
        after = rooted h i 0;
        returns = remove_only h is i b free bucket en ep inside;
        heap = rooted-IsHeap h i 0 is;
        root = get_elem?-set_self h.free_root i 0 inside;
        list = tt;
        other_roots = λ j ne. get_elem?-set_ne h.free_root 0 ne;
        other_lists = λ ds p n s _. Segment-rooted sizes h i 0 ds p n s;
      }
  remove_from_free-Relisted [] (c ∷ cs) root ((free, _), ep, en, list) (apart, dist) =
      let sized_c = list.0 in
      let q = set_prev_free-Relinked h is c sized_c.0 0 (omega arith, omega arith) in
      let inside : i < length q.after.free_root =
        omega (arith, ap length q.same_roots, get_elem?-some h.free_root i root) in
      record {
        after = rooted q.after i c;
        returns =
            remove_first h is i b free bucket en ep (above_null is sized_c.0) q.returns inside;
        heap = rooted-IsHeap q.after i c q.heap;
        root = get_elem?-set_self q.after.free_root i c inside;
        list =
            Segment-rooted sizes q.after i c (c ∷ cs) 0 0
              (Segment-new_prev sizes b 0 c cs 0 dist list q);
        other_roots = λ j ne.
            get_elem?-set_ne q.after.free_root c ne ∙ ap (λ rs. get_elem? rs j) q.same_roots;
        other_lists = λ ds p n s (apart_b, (apart_c, rest)).
            Segment-rooted sizes q.after i c ds p n
              (Segment-apart sizes q ds p n sized_c apart_c s);
      }
  remove_from_free-Relisted (a ∷ ps) [] root list dist =
      let parts = Segment-split sizes h (a ∷ ps) (b ∷ []) 0 0 list in
      let (sized_b, ep, en, _) = parts.1 in
      let far = Distinct-split sizes (a ∷ ps) (b ∷ []) dist in
      let sized_l = last-IsSized sizes 0 a ps b parts.0 in
      let q = set_next_free-Relinked h is (last_or a ps) sized_l.0 0 (omega arith, omega arith) in
      record {
        after = q.after;
        returns = remove_last h is i b sized_b.0 bucket en ep (above_null is sized_l.0) q.returns;
        heap = q.heap;
        root = ap (λ rs. get_elem? rs i) q.same_roots ∙ root;
        list = rw (append-nil ps) (Segment-new_next sizes 0 a ps b 0 far.0 parts.0 q);
        other_roots = λ j ne. ap (λ rs. get_elem? rs j) q.same_roots;
        other_lists = λ ds p n s sep.
            Segment-apart sizes q ds p n sized_l
              (Separate-last sizes a ps ds (Separate-left sizes (a ∷ ps) (b ∷ []) ds sep)) s;
      }
  remove_from_free-Relisted (a ∷ ps) (c ∷ cs) root list dist =
      let parts = Segment-split sizes h (a ∷ ps) (b ∷ c ∷ cs) 0 0 list in
      let (sized_b, ep, en, rest) = parts.1 in
      let far = Distinct-split sizes (a ∷ ps) (b ∷ c ∷ cs) dist in
      let sized_l = last-IsSized sizes 0 a ps b parts.0 in
      let sized_c = rest.0 in
      let q1 = set_next_free-Relinked h is (last_or a ps) sized_l.0 c (IsLink-block is sized_c.0) in
      let apart_l = Separate-last sizes a ps (b ∷ c ∷ cs) far.2 in
      let left1 = Segment-new_next sizes 0 a ps b c far.0 parts.0 q1 in
      let right1 = Segment-apart sizes q1 (c ∷ cs) b 0 sized_l apart_l.1 rest in
      let q2 =
        set_prev_free-Relinked q1.after q1.heap c right1.0.0 (last_or a ps)
          (IsLink-block is sized_l.0) in
      let apart_c = Separate-second sizes b c (a ∷ ps) cs far.2 in
      let left2 = Segment-apart sizes q2 (a ∷ ps) 0 c right1.0 apart_c left1 in
      let right2 = Segment-new_prev sizes b (last_or a ps) c cs 0 far.1.1 right1 q2 in
      record {
        after = q2.after;
        returns =
            remove_between h is i b sized_b.0 bucket en ep (above_null is sized_c.0)
              (above_null is sized_l.0) q1.returns q2.returns;
        heap = q2.heap;
        root = ap (λ rs. get_elem? rs i) (q2.same_roots ∙ q1.same_roots) ∙ root;
        list = Segment-join sizes q2.after (a ∷ ps) (c ∷ cs) 0 0 left2 right2;
        other_roots = λ j ne. ap (λ rs. get_elem? rs j) (q2.same_roots ∙ q1.same_roots);
        other_lists = λ ds p n s sep.
            let left = Separate-left sizes (a ∷ ps) (b ∷ c ∷ cs) ds sep in
            let right = Separate-right sizes (a ∷ ps) (b ∷ c ∷ cs) ds sep in
            Segment-apart sizes q2 ds p n right1.0 right.1.0
              (Segment-apart sizes q1 ds p n sized_l (Separate-last sizes a ps ds left) s);
      }
