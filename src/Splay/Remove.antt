-- ===== src/Splay/Remove.antt =====
-- malloc/stree.c: `tree_remove` takes an entry out and keeps the others.
use mathlib.Core.List.{append-nil}
use mathlib.Core.Path.{subst}
use systems_labs.Base.{
  ℕ, ◌≡◌, ◌⊎◌, inl, inr, refl, sym, ap, ◌∙◌, true, false, List, [], ◌∷◌, ◌++◌, sub64, u64_mod,
  length, arith,
}
use systems_labs.Splay.{
  Node, Frame, Place, Tree, null, node, left_of, join, plug, descend, locate, subtree_minimum,
  detach, tree_remove,
}
use systems_labs.Splay.Entries.{
  Entries, entries, entries-plug, before, after, AllBelow, AllAbove, IsOrdered, IsSorted, has,
  lookup, delete,
}
use systems_labs.Splay.Rotate.{splay-top}
use systems_labs.Splay.Order.{
  left-AllBelow, right-AllAbove, entries-IsSorted, entries-IsOrdered, IsSorted-remove,
  length-between, has-miss, has-hit, lookup-hit, delete-hit,
}
use systems_labs.Splay.Search.{Searched, descend-Searched, locate-descend}
use systems_labs.Splay.Insert.{IsTree, Searched-miss}

-- The lowest node of a subtree, with nothing before it.
record IsLowest (x : Node) (path : List Frame) (p : Place) : Type 0 where
  low_key : ℕ
  low_record : ℕ
  high : Node
  found : p.at ≡ node null low_key low_record high
  inside : plug p.path p.at ≡ plug path x
  first : before p.path ≡ before path

subtree_minimum-IsLowest :
    (l : Node) (k r : ℕ) (right : Node) (path : List Frame)
    → IsLowest (node l k r right) path (subtree_minimum (node l k r right) path)
unfolding subtree_minimum plug before
subtree_minimum-IsLowest null k r right path = record {
  low_key = k;
  low_record = r;
  high = right;
  found = refl;
  inside = refl;
  first = refl;
}
subtree_minimum-IsLowest (node a k' r' b) k r right path =
    let m = subtree_minimum-IsLowest a k' r' b (left_of k r right ∷ path) in
    record {
      low_key = m.low_key;
      low_record = m.low_record;
      high = m.high;
      found = m.found;
      inside = m.inside;
      first = m.first;
    }

-- The lowest node takes the place of the root, with the rest of the subtree to its right.
rejoin :
    (left : Node) (k r : ℕ) (high : Node) (path : List Frame)
    → entries
        (elim path [ [] ↦ node left k r high | f ∷ rest ↦ node left k r (plug rest (join f high)) ])
      ≡ entries left ++ ((k, r) ∷ entries (plug path high))
unfolding plug entries
rejoin left k r high [] = refl
rejoin left k r high (f ∷ rest) = refl

-- The root is taken out, and the other entries stay in their order.
pub detach-entries :
    (l : Node) (k r : ℕ) (right : Node)
    → entries (detach (node l k r right)) ≡ entries l ++ entries right
unfolding detach entries before plug
detach-entries null k r right = refl
detach-entries (node a lk lr b) k r null = sym (append-nil (entries (node a lk lr b)))
detach-entries (node a lk lr b) k r (node c rk rr d) =
    let left = node a lk lr b in
    let p = subtree_minimum (node c rk rr d) [] in
    let m = subtree_minimum-IsLowest c rk rr d [] in
    let y : ℕ × ℕ = (m.low_key, m.low_record) in
    let without : entries (plug p.path m.high) ≡ entries m.high ++ after p.path =
      entries-plug p.path m.high
      ∙ ap (λ (es : Entries). es ++ (entries m.high ++ after p.path)) m.first in
    let whole : entries (node c rk rr d) ≡ y ∷ (entries m.high ++ after p.path) =
      sym (ap entries m.inside)
      ∙ entries-plug p.path p.at
      ∙ ap (λ (x : Node). before p.path ++ (entries x ++ after p.path)) m.found
      ∙ ap (λ (es : Entries). es ++ (y ∷ (entries m.high ++ after p.path))) m.first in
    rw (detach, m.found) (rejoin left m.low_key m.low_record m.high p.path)
    ∙ ap (λ (es : Entries). entries left ++ es) (ap (λ (es : Entries). y ∷ es) without ∙ sym whole)

-- The tree after a removal, and the record that was taken out.
pub record Removed (t : Tree) (key : ℕ) : Type 0 where
  pub after_remove : Tree
  pub rec : ℕ
  pub returns : tree_remove t key ≡ (after_remove, rec)
  pub present : has key (entries t.root) ≡ true
  pub found : rec ≡ lookup key (entries t.root)
  pub content : entries after_remove.root ≡ delete key (entries t.root)
  pub keeps : IsTree after_remove

-- No node has the key.
pub record Missing (t : Tree) (key : ℕ) : Type 0 where
  pub after_remove : Tree
  pub returns : tree_remove t key ≡ (after_remove, 0)
  pub absent : has key (entries t.root) ≡ false
  pub same_root : after_remove.root ≡ t.root
  pub keeps : IsTree after_remove

module _ (t : Tree) (is : IsTree t) (key : ℕ) where
  abbrev place : Place
  place = descend key t.root [] t.comparison_count

  abbrev located : Place
  located = locate key t.root [] t.comparison_count

  agrees : (located.at ≡ place.at) × (located.path ≡ place.path)
  agrees = locate-descend key t.root [] t.comparison_count t.comparison_count

  searched : Searched key t.root place
  unfolding plug before after
  searched = descend-Searched key 0 u64_mod t.root [] t.comparison_count is.ordered tt tt

  remove-Missing : place.at ≡ null → Missing t key
  unfolding tree_remove
  remove-Missing e =
      let s = searched in
      let whole = Searched-miss key t.root place s e in
      record {
        after_remove = record t { comparison_count = located.compared };
        returns = rw (tree_remove, agrees.0 ∙ e) refl;
        absent =
            ap (has key) whole
            ∙ has-miss key (before place.path) (after place.path) s.below s.above;
        same_root = refl;
        keeps = record { ordered = is.ordered; counted = is.counted };
      }

  -- The entries on the two sides of the root after the splay.
  sides :
      (a b : Node) (r : ℕ)
      → IsSorted 0 u64_mod (entries a ++ ((key, r) ∷ entries b))
      → AllBelow key (entries a) × AllAbove key (entries b)
  unfolding IsOrdered entries
  sides a b r parted =
      let (low, high) = entries-IsOrdered 0 u64_mod (node a key r b) parted in
      (left-AllBelow 0 key a low, right-AllAbove key u64_mod b high)

  remove-Removed :
      (l : Node) (r : ℕ) (right : Node)
      → place.at ≡ node l key r right
      → AllBelow key (entries l)
      → AllAbove key (entries right)
      → Removed t key
  unfolding tree_remove entries
  remove-Removed l r right e hl hr =
      let s = searched in
      let (a', b', top, same) = splay-top place.path l key r right in
      let joined : entries t.root ≡ entries a' ++ ((key, r) ∷ entries b') =
        sym (same ∙ ap (λ (x : Node). entries (plug place.path x)) (sym e) ∙ ap entries s.inside) in
      let sorted = entries-IsSorted 0 u64_mod t.root is.ordered in
      let parted = subst (IsSorted 0 u64_mod) joined sorted in
      let (low, high) = sides a' b' r parted in
      let rest = detach-entries a' key r b' in
      record {
        after_remove = record {
          root = detach (node a' key r b');
          node_count = sub64 t.node_count 1;
          comparison_count = located.compared;
        };
        rec = r;
        returns = rw (tree_remove, agrees.0 ∙ e, agrees.1, top) refl;
        present = ap (has key) joined ∙ has-hit key r (entries a') (entries b') low;
        found = sym (ap (lookup key) joined ∙ lookup-hit key r (entries a') (entries b') low);
        content =
            rest ∙ sym (ap (delete key) joined ∙ delete-hit key r (entries a') (entries b') low);
        keeps = record {
          ordered = entries-IsOrdered 0 u64_mod (detach (node a' key r b')) (
              subst (IsSorted 0 u64_mod) (sym rest)
                (IsSorted-remove 0 key u64_mod r (entries a') (entries b') parted));
          counted = omega (
            arith,
            is.counted,
            ap length joined,
            ap length rest,
            length-between (entries a') (entries b') (key, r),
          );
        };
      }

  -- A removal takes the entry of the key out, or finds none.
  pub tree_remove-cases : Removed t key ⊎ Missing t key
  tree_remove-cases = elim searched.hit [
    | inl e ↦ inr (remove-Missing e)
    | inr (l, r, right, e, hl, hr) ↦ inl (remove-Removed l r right e hl hr)
  ]
