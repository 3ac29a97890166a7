-- ===== src/Graph/Nodes.antt =====
-- The class `Graph` of alignak/graph.py, whose nodes are numbers, and its search for loops.
use alignak.Prelude.{
  ℕ, zero, suc, Bool, true, false, Option, none, some, List, [], ◌∷◌, ◌++◌, ◌>>=◌, ◌==◌,
  if◌then◌else◌, length,
}

-- The dict of nodes with their sons, in its order.
abbrev pub Graph : Type 0
Graph = List (ℕ × List ℕ)

abbrev pub nodes : Graph → List ℕ
nodes [] = []
nodes ((v, sons) ∷ g) = v ∷ nodes g

-- The sons of a node. Every son of a graph that `add_edge` builds is a node of it.
abbrev pub sons : Graph → ℕ → List ℕ
sons [] u = []
sons ((v, vs) ∷ g) u = if v == u then vs else sons g u

abbrev pub is_node : ℕ → Graph → Bool
is_node u [] = false
is_node u ((v, vs) ∷ g) = if v == u then true else is_node u g

-- `self.nodes[u] = ...`, which keeps the place of a key that is there.
abbrev pub put_sons : ℕ → List ℕ → Graph → Graph
put_sons u ws [] = (u, ws) ∷ []
put_sons u ws ((v, vs) ∷ g) =
    let rest = put_sons u ws g in if v == u then (u, ws) ∷ g else (v, vs) ∷ rest

unfoldable pub add_node : ℕ → Graph → Graph
add_node u g = put_sons u [] g

unfoldable pub add_nodes : List ℕ → Graph → Graph
add_nodes [] g = g
add_nodes (u ∷ us) g = add_nodes us (add_node u g)

-- A `from_node` that is not known has no son yet.
unfoldable pub add_edge : ℕ → ℕ → Graph → Graph
unfolding add_node
add_edge from_node to_node g =
    let known = if is_node to_node g then g else add_node to_node g in
    put_sons from_node (sons known from_node ++ (to_node ∷ [])) known

pub data Tag : Type 0 where
  unchecked temporary_checked near_loop loop_inside checked_ok : Tag

-- `dfs_loop_status` of each node.
abbrev pub Tags : Type 0
Tags = ℕ → Tag

abbrev pub put : Tag → ℕ → Tags → Tags
put x v t u = if u == v then x else t u

abbrev pub is_unchecked : Tag → Bool
is_unchecked unchecked = true
is_unchecked _ = false

abbrev pub is_inside : Tag → Bool
is_inside loop_inside = true
is_inside _ = false

-- What the tag of a child does to it and to its root.
abbrev pub tag_child : ℕ → ℕ → Tag → Tags → Tags
tag_child root child temporary_checked t = put loop_inside root (put loop_inside child t)
tag_child root child near_loop t =
    put loop_inside child (if is_inside (t root) then t else put near_loop root t)
tag_child root child loop_inside t =
    put loop_inside child (if is_inside (t root) then t else put near_loop root t)
tag_child root child _ t = t

-- A child is searched first if it was not checked.
abbrev pub search_child : (ℕ → Tags → Option Tags) → ℕ → Tags → Option Tags
search_child search child t = if is_unchecked (t child) then search child t else some t

-- The loop over the sons of the root.
unfoldable pub search_sons : (ℕ → Tags → Option Tags) → ℕ → List ℕ → Tags → Option Tags
search_sons search root [] t = some t
search_sons search root (child ∷ rest) t = do
  checked ← search_child search child t
  search_sons search root rest (tag_child root child (checked child) checked)

-- A root that no child has changed is fine.
abbrev pub tag_root : ℕ → Tags → Tags
tag_root root t = elim (t root) [ temporary_checked ↦ put checked_ok root t | _ ↦ t ]

-- With fuel for the depth of the recursion.
unfoldable pub dfs_loop_search : ℕ → Graph → ℕ → Tags → Option Tags
dfs_loop_search zero g root t = none
dfs_loop_search (suc n) g root t = do
  done ← search_sons (dfs_loop_search n g) root (sons g root) (put temporary_checked root t)
  some (tag_root root done)

-- The loop of `loop_check` over the nodes: those that are inside a loop.
unfoldable pub check_nodes : ℕ → Graph → List ℕ → Tags → Option (List ℕ)
check_nodes n g [] t = some []
check_nodes n g (v ∷ vs) t = do
  checked ← search_child (dfs_loop_search n g) v t
  rest ← check_nodes n g vs checked
  some (if is_inside (checked v) then v ∷ rest else rest)

-- The depth is at most the number of nodes.
unfoldable pub loop_check : Graph → Option (List ℕ)
loop_check g = check_nodes (length (nodes g)) g (nodes g) (λ u. unchecked)
