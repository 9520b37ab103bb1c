-- ===== src/Splay/Free.antt =====
-- malloc/stree.c: `tree_free` hands every record to `free_fun` once.
use mathlib.Core.List.{Perm, perm_append_singleton}
use mathlib.Core.List.Perm
use systems_labs.Base.{ℕ, List, [], ◌∷◌, ◌++◌, ◌≡◌, refl, ap}
use systems_labs.Splay.{Tree, Node, null, node, free_subtree, tree_free}
use systems_labs.Splay.Entries.{Entries, entries}

unfoldable pub records : Entries → List ℕ
records [] = []
records (e ∷ es) = e.1 ∷ records es

records-append : (xs ys : Entries) → records (xs ++ ys) ≡ records xs ++ records ys
unfolding records
records-append [] ys = refl
records-append (x ∷ xs) ys = ap (λ l. x.1 ∷ l) (records-append xs ys)

free_subtree-Perm : (x : Node) → Perm (free_subtree x) (records (entries x))
unfolding free_subtree entries records
free_subtree-Perm null = Perm.refl []
free_subtree-Perm (node l k r right) =
    let last =
      Perm.trans (perm_append_singleton r (free_subtree right))
        (Perm.cons r (free_subtree-Perm right)) in
    rw (records-append (entries l) ((k, r) ∷ entries right))
      (Perm.append (free_subtree-Perm l) last)

-- The records that are freed are those of the tree, in some order.
pub tree_free-Perm : (t : Tree) → Perm (tree_free t) (records (entries t.root))
unfolding tree_free
tree_free-Perm t = free_subtree-Perm t.root
