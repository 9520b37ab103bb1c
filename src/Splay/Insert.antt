-- ===== src/Splay/Insert.antt =====
-- malloc/stree.c: `tree_insert` puts an entry in its place among the others.
use mathlib.Core.List.{append_assoc}
use mathlib.Core.Path.{subst}
use systems_labs.Base.{
  ℕ, ◌%◌, ◌<◌, ◌≡◌, ◌⊎◌, inl, inr, refl, sym, ap, ◌∙◌, true, false, [], ◌∷◌, ◌++◌, ok, add64,
  u64_mod, length, arith,
}
use systems_labs.Splay.{Node, Place, Tree, null, node, plug, descend, tree_insert}
use systems_labs.Splay.Entries.{
  entries, entries-plug, before, after, AllBelow, AllAbove, IsOrdered, IsSorted, has, put,
}
use systems_labs.Splay.Rotate.{splay-top}
use systems_labs.Splay.Order.{
  AllBelow-append, AllAbove-append, has-hit, has-miss, put-miss, entries-IsSorted,
  entries-IsOrdered, IsSorted-insert, length-between,
}
use systems_labs.Splay.Search.{Searched, descend-Searched, attach_same}

-- Keys of 64 bits in order, and a count of the nodes, which is a `size_t`.
pub record IsTree (t : Tree) : Type 0 where
  pub ordered : IsOrdered 0 u64_mod t.root
  pub counted : t.node_count ≡ length (entries t.root) % u64_mod

-- The entries around a node that was found.
pub Searched-hit :
    (key : ℕ) (t : Node) (p : Place) (l : Node) (r : ℕ) (right : Node)
    → Searched key t p
    → p.at ≡ node l key r right
    → AllBelow key (entries l)
    → AllAbove key (entries right)
    → (entries t ≡ (before p.path ++ entries l) ++ ((key, r) ∷ (entries right ++ after p.path)))
      × AllBelow key (before p.path ++ entries l)
      × AllAbove key (entries right ++ after p.path)
unfolding entries
Searched-hit key t p l r right s e hl hr = (
  sym (ap entries s.inside)
      ∙ entries-plug p.path p.at
      ∙ ap (λ (x : Node). before p.path ++ (entries x ++ after p.path)) e
      ∙ simp append_assoc refl,
  AllBelow-append key (before p.path) (entries l) s.below hl,
  AllAbove-append key (entries right) (after p.path) hr s.above,
)

pub Searched-miss :
    (key : ℕ) (t : Node) (p : Place)
    → Searched key t p
    → p.at ≡ null
    → entries t ≡ before p.path ++ after p.path
unfolding entries
Searched-miss key t p s e =
    sym (ap entries s.inside)
    ∙ entries-plug p.path p.at
    ∙ ap (λ (x : Node). before p.path ++ (entries x ++ after p.path)) e

-- The tree after an insertion.
pub record Inserted (t : Tree) (key rec : ℕ) : Type 0 where
  pub after_insert : Tree
  pub returns : tree_insert true t key rec ≡ ok (after_insert, true)
  pub absent : has key (entries t.root) ≡ false
  pub content : entries after_insert.root ≡ put key rec (entries t.root)
  pub keeps : IsTree after_insert

-- The key was there already.
pub record Refused (t : Tree) (key rec : ℕ) : Type 0 where
  pub after_insert : Tree
  pub returns : tree_insert true t key rec ≡ ok (after_insert, false)
  pub present : has key (entries t.root) ≡ true
  pub same_root : after_insert.root ≡ t.root
  pub keeps : IsTree after_insert

module _ (t : Tree) (is : IsTree t) (key rec : ℕ) (small : key < u64_mod) where
  abbrev place : Place
  place = descend key t.root [] t.comparison_count

  unfoldable searched : Searched key t.root place
  unfolding plug before after
  searched = descend-Searched key 0 u64_mod t.root [] t.comparison_count is.ordered tt tt

  insert-Inserted : place.at ≡ null → Inserted t key rec
  unfolding tree_insert entries
  insert-Inserted e =
      let s = searched in
      let (a', b', top, same) = splay-top place.path null key rec null in
      let low = before place.path in
      let high = after place.path in
      let whole = Searched-miss key t.root place s e in
      let joined : entries (node a' key rec b') ≡ low ++ ((key, rec) ∷ high) =
        same ∙ entries-plug place.path (node null key rec null) in
      let sorted =
        subst (IsSorted 0 u64_mod) whole (entries-IsSorted 0 u64_mod t.root is.ordered) in
      let placed =
        IsSorted-insert 0 key u64_mod rec low high (omega arith) small s.below s.above sorted in
      let kept = attach_same key place.path s.below s.above in
      record {
        after_insert = record {
          root = node a' key rec b';
          node_count = add64 t.node_count 1;
          comparison_count = place.compared;
        };
        returns = rw (tree_insert, e, kept, top) refl;
        absent = ap (has key) whole ∙ has-miss key low high s.below s.above;
        content = joined ∙ sym (ap (put key rec) whole ∙ put-miss key rec low high s.below s.above);
        keeps = record {
          ordered =
              entries-IsOrdered 0 u64_mod (node a' key rec b')
                (subst (IsSorted 0 u64_mod) (sym joined) placed);
          counted = omega (
            arith,
            is.counted,
            ap length joined,
            ap length whole,
            length-between low high (key, rec),
          );
        };
      }

  insert-Refused :
      (l : Node) (r : ℕ) (right : Node)
      → place.at ≡ node l key r right
      → AllBelow key (entries l)
      → AllAbove key (entries right)
      → Refused t key rec
  unfolding tree_insert has
  insert-Refused l r right e hl hr =
      let (whole, low, high) = Searched-hit key t.root place l r right searched e hl hr in
      record {
        after_insert = record t { comparison_count = place.compared };
        returns = rw (tree_insert, e) refl;
        present =
            ap (has key) whole
            ∙ has-hit key r (before place.path ++ entries l) (entries right ++ after place.path)
                low;
        same_root = refl;
        keeps = record { ordered = is.ordered; counted = is.counted };
      }

  -- An insertion puts an entry among the others, or finds the key there.
  pub tree_insert-cases : Inserted t key rec ⊎ Refused t key rec
  tree_insert-cases = elim searched.hit [
    | inl e ↦ inl (insert-Inserted e)
    | inr (l, r, right, e, hl, hr) ↦ inr (insert-Refused l r right e hl hr)
  ]
