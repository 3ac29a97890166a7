-- ===== src/Graph/Examples.antt =====
-- Graphs of dependencies (alignak/graph.py), and what the theorems say of them.
use alignak.Prelude.{ℕ, ◌≡◌, ◌↔◌, refl, true, some, List, [], ◌∷◌}
use mathlib.Core.List.{Memᴰ}
use alignak.Graph.Packs.{get_accessibility_packs, collect_packs, dfs_get_all_childs, visit_sons}
use alignak.Graph.Covered.{built, in_one, get_accessibility_packs-built}
use alignak.Graph.Nodes.{nodes, add_node, add_edge, loop_check}
use alignak.Graph.Search.{HasLoop}
use alignak.Graph.Loops.{IsClosed}
use alignak.Graph.Closed.{add_edge-IsClosed}
use alignak.Graph.Acyclic.{loop_check-HasLoop}

empty-IsClosed : IsClosed []
empty-IsClosed u v m = elim m [ ]

two-IsClosed : IsClosed (add_edge 1 2 [])
two-IsClosed = add_edge-IsClosed 1 2 [] empty-IsClosed

three-IsClosed : IsClosed (add_edge 3 2 (add_edge 2 3 (add_edge 1 2 [])))
three-IsClosed =
    add_edge-IsClosed 3 2 (add_edge 2 3 (add_edge 1 2 []))
      (add_edge-IsClosed 2 3 (add_edge 1 2 []) two-IsClosed)

loop_check-HasLoop_example :
    (res : List ℕ) × (loop_check (add_edge 3 2 (add_edge 2 3 (add_edge 1 2 []))) ≡ some res)
    × ((res ≡ []) ↔ (¬ HasLoop (add_edge 3 2 (add_edge 2 3 (add_edge 1 2 [])))))
loop_check-HasLoop_example =
    loop_check-HasLoop (add_edge 3 2 (add_edge 2 3 (add_edge 1 2 []))) three-IsClosed

-- A son that was checked already is in the pack of its father too.
overlapping_packs :
    get_accessibility_packs (built ((1, 2) ∷ (2, 1) ∷ (3, 4) ∷ []))
    ≡ some ((4 ∷ []) ∷ (4 ∷ 3 ∷ []) ∷ (2 ∷ 1 ∷ []) ∷ [])
unfolding get_accessibility_packs collect_packs dfs_get_all_childs visit_sons add_edge add_node
overlapping_packs = refl

get_accessibility_packs-built_example :
    (packs : List (List ℕ)) × (get_accessibility_packs (built ((1, 2) ∷ (2, 1) ∷ (3, 4) ∷ []))
      ≡ some packs)
    × ((v : ℕ) → Memᴰ v (nodes (built ((1, 2) ∷ (2, 1) ∷ (3, 4) ∷ []))) → in_one v packs ≡ true)
get_accessibility_packs-built_example =
    get_accessibility_packs-built ((1, 2) ∷ (2, 1) ∷ (3, 4) ∷ [])
