-- ===== src/Splay/Tests.antt =====
-- Runs of malloc/stree.c by evaluation, and the theorems at concrete trees.
use systems_labs.Base.{
  ◌%◌, ◌≡◌, refl, false, List, [], ◌∷◌, ok, fail, exited, u64_mod, length, arith,
}
use systems_labs.Splay.{
  Node, Tree, null, node, left_of, plug, right_rotate, splay, tree_new, descend, tree_insert,
}
use systems_labs.Splay.Entries.{entries, has, lookup, put, delete, last_upto}
use systems_labs.Splay.Rotate.{splay-top}
use systems_labs.Splay.Client.{
  Call, insert, find, find_nearest, remove, run, reply, replay, run-new_refines,
}

abbrev calls : List Call
calls =
    insert 5 50
    ∷ insert 9 90
    ∷ insert 2 20
    ∷ insert 5 55
    ∷ find 9
    ∷ find_nearest 8
    ∷ remove 5
    ∷ find 5
    ∷ find_nearest 8
    ∷ find_nearest 1
    ∷ []

-- The record of 5 is the nearest to 8, then, once 5 is gone, that of 2; there is none below 2.
run_calls : (replay calls []).1 ≡ 1 ∷ 1 ∷ 1 ∷ 0 ∷ 90 ∷ 50 ∷ 50 ∷ 0 ∷ 20 ∷ 0 ∷ []
unfolding replay reply has lookup put delete last_upto
run_calls = refl

-- A node with no memory for it ends the program.
insert_refused : tree_insert false tree_new 5 50 ≡ fail exited
unfolding tree_insert tree_new descend
insert_refused = refl

-- A node two levels down on the left: the path that `splay` turns over.
deep :
    splay (left_of 3 30 null ∷ left_of 5 50 null ∷ []) (node null 1 10 null)
    ≡ node null 1 10 (node null 3 30 (node null 5 50 null))
unfolding splay right_rotate
deep = refl

splay-top_example :
    (a' : Node) × (b' : Node) × (splay
        (left_of 3 30 null ∷ left_of 5 50 null ∷ [])
        (node null 1 10 null)
      ≡ node a' 1 10 b')
    × (entries (node a' 1 10 b')
        ≡ entries (plug (left_of 3 30 null ∷ left_of 5 50 null ∷ []) (node null 1 10 null)))
splay-top_example = splay-top (left_of 3 30 null ∷ left_of 5 50 null ∷ []) null 1 10 null

abbrev small : Tree
small = record { root = node (node null 1 10 null) 3 30 null; node_count = 2; comparison_count = 0 }

run-new_refines_example :
    (after : Tree) × (run calls tree_new ≡ ok (after, (replay calls []).1))
    × (entries after.root ≡ (replay calls []).0)
    × (after.node_count ≡ length (replay calls []).0 % u64_mod)
run-new_refines_example = run-new_refines calls (ground arith)
