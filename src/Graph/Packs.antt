-- ===== src/Graph/Packs.antt =====
-- `get_accessibility_packs` of alignak/graph.py. A set is a list without repetition.
use alignak.Prelude.{
  ℕ, zero, suc, Bool, true, false, Option, none, some, List, [], ◌∷◌, ◌>>=◌, ◌==◌, if◌then◌else◌,
  length, elem,
}
use alignak.Graph.Nodes.{Graph, nodes, sons}

-- `DFS_CHECKED` or `DFS_UNCHECKED`, of each node.
abbrev pub Checked : Type 0
Checked = ℕ → Bool

abbrev pub mark : ℕ → Checked → Checked
mark v t u = if u == v then true else t u

-- `ret.update(vs)`
abbrev pub update_set : List ℕ → List ℕ → List ℕ
update_set [] ret = ret
update_set (v ∷ vs) ret = update_set vs (if elem v ret then ret else v ∷ ret)

-- What the loop makes of a child: nothing if it was checked.
abbrev pub visit_child :
    (ℕ → Checked → Option (List ℕ × Checked)) → ℕ → Checked → Option (List ℕ × Checked)
visit_child visit child t = if t child then some ([], t) else visit child t

unfoldable pub visit_sons :
    (ℕ → Checked → Option (List ℕ × Checked))
    → List ℕ
    → List ℕ
    → Checked
    → Option (List ℕ × Checked)
visit_sons visit [] ret t = some (ret, t)
visit_sons visit (child ∷ rest) ret t = do
  seen ← visit_child visit child t
  visit_sons visit rest (update_set seen.0 ret) seen.1

-- With fuel for the depth of the recursion.
unfoldable pub dfs_get_all_childs : ℕ → Graph → ℕ → Checked → Option (List ℕ × Checked)
dfs_get_all_childs zero g root t = none
dfs_get_all_childs (suc n) g root t =
    visit_sons (dfs_get_all_childs n g) (sons g root) (update_set (sons g root) (root ∷ []))
      (mark root t)

-- The loop over the nodes.
unfoldable pub collect_packs : ℕ → Graph → List ℕ → Checked → Option (List (List ℕ))
collect_packs n g [] t = some []
collect_packs n g (v ∷ vs) t = do
  seen ← visit_child (dfs_get_all_childs n g) v t
  rest ← collect_packs n g vs seen.1
  some (if t v then rest else seen.0 ∷ rest)

-- The depth is at most the number of nodes.
unfoldable pub get_accessibility_packs : Graph → Option (List (List ℕ))
get_accessibility_packs g = collect_packs (length (nodes g)) g (nodes g) (λ u. false)
