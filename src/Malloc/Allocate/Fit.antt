-- ===== src/Malloc/Allocate/Fit.antt =====
-- The search of malloc/mm.c for a free block, within one list.
use systems_labs.Base.{
  ℕ, zero, suc, ◌+◌, ◌≤◌, ◌<◌, ◌≡◌, ◌⊎◌, inl, inr, refl, ◌∙◌, ap, Bool, true, false, List, [], ◌∷◌,
  ok, arith, length, ◌==◌, ltb, leb, leb→le, if◌then◌else◌, Bool-cases,
}
use systems_labs.Malloc.Memory.{Heap}
use systems_labs.Malloc.Memory.Words.{IsHeap}
use systems_labs.Malloc.Block.{get_size}
use systems_labs.Malloc.Block.Laws.{header_inside, get_size-ok}
use systems_labs.Malloc.Links.{get_next_free}
use systems_labs.Malloc.Links.Laws.{get_next_free-ok}
use systems_labs.Malloc.Links.Chain.{first, above_null, IsSized, Segment}
use systems_labs.Malloc.Allocate.{find_in_list}

abbrev pub All : (ℕ → Type 0) → List ℕ → Type 0
All P [] = Unit {0}
All P (c ∷ cs) = P c × All P cs

module _ (sizes : ℕ → ℕ) (h : Heap) (is : IsHeap h) (asize : ℕ) (P : ℕ → Type 0) where
  abbrev pub Good : ℕ → Type 0
  Good c = IsSized sizes h c × (asize ≤ sizes c) × P c

  abbrev pub Small : ℕ → Type 0
  Small c = sizes c < asize

  abbrev pub Found : (best : ℕ) → List ℕ → (r : ℕ) → Type 0
  Found best bs r = ((r ≡ 0) × (best ≡ 0) × All Small bs) ⊎ Good r

  pick : (best c : ℕ) → (best ≡ 0) ⊎ Good best → Good c → Good (if best == 0 then c else best)
  pick best c (inl e) good = rw e good
  pick best c (inr g) good = elim (Bool-cases (best == 0)) [ inl t ↦ rw t good | inr f ↦ rw f g ]

  better : (t : Bool) (a c : ℕ) → Good a → Good c → Good (if t then c else a)
  better true a c ga gc = gc
  better false a c ga gc = ga

  pub Good-pos : (c : ℕ) → Good c → (c == 0) ≡ false
  Good-pos c (sized, fits, p) = ground (arith, above_null is sized.0)

  sized_get : (c : ℕ) → IsSized sizes h c → get_size h c ≡ ok (sizes c)
  sized_get c (free, e) = get_size-ok h is c (header_inside free) ∙ ap ok e

  pub find_in_list-Found :
      (fuel : ℕ) (bs : List ℕ) (p best checked : ℕ)
      → Segment sizes h p bs 0
      → All P bs
      → length bs ≤ fuel
      → (best ≡ 0) ⊎ Good best
      → (r : ℕ) × (find_in_list fuel h asize (first bs 0) best checked ≡ ok r) × Found best bs r
  unfolding find_in_list
  find_in_list-Found zero [] p best checked s a enough (inl e) = (best, refl, inl (e, e, tt))
  find_in_list-Found zero [] p best checked s a enough (inr g) = (best, refl, inr g)
  find_in_list-Found (suc fuel) [] p best checked s a enough (inl e) = (best, refl, inl (e, e, tt))
  find_in_list-Found (suc fuel) [] p best checked s a enough (inr g) = (best, refl, inr g)
  find_in_list-Found zero (c ∷ cs) p best checked s a enough b = absurd (omega arith)
  find_in_list-Found (suc fuel) (c ∷ cs) p best checked (sized, ep, en, rest) (pc, ps) enough b =
      let some_block : (c == 0) ≡ false = ground (arith, above_null is sized.0) in
      let next : get_next_free h c ≡ ok (first cs 0) = get_next_free-ok sized.0 is ∙ ap ok en in
      elim (Bool-cases (leb asize (sizes c))) [
        | inr f ↦
            let (r, returns, found) =
              find_in_list-Found fuel cs c best (checked + 1) rest ps (omega arith) b in
            (r, rw (some_block, sized_get c sized, next, f) returns, later found (ground arith))
        | inl t ↦
            let here : Good c = (sized, leb→le _ _ t, pc) in
            let best1 = if best == 0 then c else best in
            let good1 : Good best1 = pick best c b here in
            let best2 = if ltb (sizes c) (sizes best1) then c else best1 in
            let good2 : Good best2 = better (ltb (sizes c) (sizes best1)) best1 c good1 here in
            elim (Bool-cases (ltb 9 checked)) [
              | inl stop ↦ (
                best2,
                rw
                    (
                      some_block,
                      sized_get c sized,
                      next,
                      t,
                      sized_get best1 good1.0,
                      Good-pos best2 good2,
                      stop,
                    )
                    refl,
                inr good2,
              )
              | inr more ↦
                  let (r, returns, found) =
                    find_in_list-Found fuel cs c best2 (checked + 1) rest ps (omega arith)
                      (inr good2) in
                  (
                    r,
                    rw
                        (
                          some_block,
                          sized_get c sized,
                          next,
                          t,
                          sized_get best1 good1.0,
                          more,
                          Good-pos best2 good2,
                        )
                        returns,
                    still good2 found,
                  )
            ]
      ]
    where
      later : {r : ℕ} → Found best cs r → sizes c < asize → Found best (c ∷ cs) r
      later (inl (er, eb, small)) less = inl (er, eb, (less, small))
      later (inr g) less = inr g

      still : {r best2 : ℕ} → Good best2 → Found best2 cs r → Found best (c ∷ cs) r
      still good (inl (er, eb, small)) = absurd (omega (arith, above_null is good.0.0))
      still good (inr g) = inr g
