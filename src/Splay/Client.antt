-- ===== src/Splay/Client.antt =====
-- What a client of malloc/stree.c sees over any sequence of calls: the answers of a list of entries.
use systems_labs.Base.{
  ℕ, ◌%◌, ◌<◌, ◌≡◌, refl, ap, ◌∙◌, inl, inr, true, List, [], ◌∷◌, Run, ok, ◌>>=◌, if◌then◌else◌,
  u64_mod, length, arith,
}
use systems_labs.Splay.{
  Tree, nothing, tree_new, tree_insert, tree_find, tree_find_nearest, tree_remove, find_from,
  nearest_from,
}
use systems_labs.Splay.Entries.{Entries, entries, IsOrdered, has, lookup, put, delete, last_upto}
use systems_labs.Splay.Search.{find_from-lookup, nearest_from-last}
use systems_labs.Splay.Insert.{IsTree, tree_insert-cases}
use systems_labs.Splay.Remove.{tree_remove-cases}

pub data Call : Type 0 where
  insert : (key rec : ℕ) → Call
  find find_nearest remove : (key : ℕ) → Call

-- A call with its result: 1 or 0 for an insertion, a record or NULL for the others. The memory for
-- a node is granted.
unfoldable pub perform : Call → Tree → Run (Tree × ℕ)
perform (insert key rec) t =
    tree_insert true t key rec >>= λ done. ok (done.0, if done.1 then 1 else 0)
perform (find key) t = ok (tree_find t key)
perform (find_nearest key) t = ok (tree_find_nearest t key)
perform (remove key) t = ok (tree_remove t key)

unfoldable pub run : List Call → Tree → Run (Tree × List ℕ)
run [] t = ok (t, [])
run (c ∷ cs) t = do (t, answer) ← perform c t; (t, answers) ← run cs t; ok (t, answer ∷ answers)

-- The same on a list of entries.
unfoldable pub reply : Call → Entries → Entries × ℕ
reply (insert key rec) es = if has key es then (es, 0) else (put key rec es, 1)
reply (find key) es = (es, lookup key es)
reply (find_nearest key) es = (es, last_upto key 0 es)
reply (remove key) es = if has key es then (delete key es, lookup key es) else (es, 0)

unfoldable pub replay : List Call → Entries → Entries × List ℕ
replay [] es = (es, [])
replay (c ∷ cs) es =
    let first = reply c es in let rest = replay cs first.0 in (rest.0, first.1 ∷ rest.1)

-- A `long`
abbrev pub IsCall : Call → Type 0
IsCall (insert key rec) = key < u64_mod
IsCall (find key) = key < u64_mod
IsCall (find_nearest key) = key < u64_mod
IsCall (remove key) = key < u64_mod

abbrev pub AreCalls : List Call → Type 0
AreCalls [] = Unit
AreCalls (c ∷ cs) = IsCall c × AreCalls cs

-- The call answers as the entries do, and leaves a tree with the entries that they become.
pub record Answers (c : Call) (t : Tree) : Type 0 where
  pub after : Tree
  pub returns : perform c t ≡ ok (after, (reply c (entries t.root)).1)
  pub content : entries after.root ≡ (reply c (entries t.root)).0
  pub keeps : IsTree after

-- One call.
pub perform-Answers : (c : Call) (t : Tree) → IsTree t → IsCall c → Answers c t
unfolding perform reply tree_find tree_find_nearest
perform-Answers (insert key rec) t is small = elim (tree_insert-cases t is key rec small) [
  | inl done ↦ record {
    after = done.after_insert;
    returns = rw (done.returns, done.absent) refl;
    content = rw done.absent done.content;
    keeps = done.keeps;
  }
  | inr refused ↦ record {
    after = refused.after_insert;
    returns = rw (refused.returns, refused.present) refl;
    content = rw refused.present (ap entries refused.same_root);
    keeps = refused.keeps;
  }
]
perform-Answers (find key) t is small =
    let e = find_from-lookup key 0 u64_mod t.root t.comparison_count is.ordered in
    record {
      after = record t { comparison_count = (find_from key t.root t.comparison_count).0 };
      returns = rw e refl;
      content = refl;
      keeps = record { ordered = is.ordered; counted = is.counted };
    }
perform-Answers (find_nearest key) t is small =
    let e = nearest_from-last key 0 u64_mod t.root nothing t.comparison_count is.ordered tt in
    record {
      after = record t {
        comparison_count = (nearest_from key t.root nothing t.comparison_count).0;
      };
      returns = rw e refl;
      content = refl;
      keeps = record { ordered = is.ordered; counted = is.counted };
    }
perform-Answers (remove key) t is small = elim (tree_remove-cases t is key) [
  | inl done ↦ record {
    after = done.after_remove;
    returns = rw (done.returns, done.present, done.found) refl;
    content = rw done.present done.content;
    keeps = done.keeps;
  }
  | inr missing ↦ record {
    after = missing.after_remove;
    returns = rw (missing.returns, missing.absent) refl;
    content = rw missing.absent (ap entries missing.same_root);
    keeps = missing.keeps;
  }
]

-- From any tree in order.
pub run-refines :
    (cs : List Call) (t : Tree)
    → IsTree t
    → AreCalls cs
    → (after : Tree) × (run cs t ≡ ok (after, (replay cs (entries t.root)).1))
      × (entries after.root ≡ (replay cs (entries t.root)).0)
      × IsTree after
unfolding run replay
run-refines [] t is all = (t, refl, refl, is)
run-refines (c ∷ cs) t is (one, all) =
    let first = perform-Answers c t is one in
    let (after, done, content, keeps) = run-refines cs first.after first.keeps all in
    let later = ap (λ (es : Entries). (replay cs es).1) first.content in
    (
      after,
      rw (first.returns, done, later) refl,
      content ∙ ap (λ (es : Entries). (replay cs es).0) first.content,
      keeps,
    )

tree_new-IsTree : IsTree tree_new
unfolding tree_new IsOrdered entries
tree_new-IsTree = record { ordered = omega arith; counted = refl }

-- For any sequence of calls of tree_insert, tree_find, tree_find_nearest and tree_remove with
-- keys that are longs, from tree_new and with memory granted, every call returns and answers as
-- the same call on a list of entries in the order of their keys; the tree ends with the entries
-- of that list, and node_count is their number as a size_t.
pub run-new_refines :
    (cs : List Call)
    → AreCalls cs
    → (after : Tree) × (run cs tree_new ≡ ok (after, (replay cs []).1))
      × (entries after.root ≡ (replay cs []).0)
      × (after.node_count ≡ length (replay cs []).0 % u64_mod)
unfolding tree_new entries
run-new_refines cs all =
    let (after, done, content, keeps) = run-refines cs tree_new tree_new-IsTree all in
    (after, done, content, keeps.counted ∙ ap (λ (es : Entries). length es % u64_mod) content)
