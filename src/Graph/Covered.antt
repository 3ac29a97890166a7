-- ===== src/Graph/Covered.antt =====
-- Every node is in a pack of `get_accessibility_packs` (alignak/graph.py).
use alignak.Prelude.{
  ℕ, ◌≤◌, ◌≡◌, ◌⊎◌, inl, inr, refl, sym, ap, ◌∙◌, subst, Bool, true, false, Option, some, List, [],
  ◌∷◌, ◌>>=◌, ◌||◌, if◌then◌else◌, length, elem, arith,
}
use mathlib.Core.List.{Memᴰ}
use mathlib.Core.List.Memᴰ
use alignak.Graph.Nodes.{Graph, nodes, add_edge}
use alignak.Graph.Closed.{add_edge-IsClosed}
use alignak.Graph.Loops.{IsClosed}
use alignak.Graph.Packs.{Checked, dfs_get_all_childs, collect_packs, get_accessibility_packs}
use alignak.Graph.Visits.{left_in, left_in_mono, visit_child-Gives, dfs_get_all_childs-Visits}

-- The node is in one of the packs.
abbrev pub in_one : ℕ → List (List ℕ) → Bool
in_one v [] = false
in_one v (p ∷ ps) = elem v p || in_one v ps

in_rest :
    (b : Bool) (v : ℕ) (p : List ℕ) (rest : List (List ℕ))
    → in_one v rest ≡ true
    → in_one v (if b then rest else p ∷ rest) ≡ true
in_rest true v p rest e = e
in_rest false v p rest e = ground arith

in_first :
    (b : Bool) (v : ℕ) (p : List ℕ) (rest : List (List ℕ))
    → (b ≡ true → p ≡ [])
    → elem v p ≡ true
    → in_one v (if b then rest else p ∷ rest) ≡ true
in_first true v p rest f e = (let g = subst (λ q. elem v q ≡ true) (f refl) e in ground arith)
in_first false v p rest f e = ground arith

collect_packs-in_one :
    (n : ℕ) (g : Graph) (vs : List ℕ) (t : Checked)
    → IsClosed g
    → ((c : ℕ) → Memᴰ c vs → Memᴰ c (nodes g))
    → left_in t (nodes g) ≤ n
    → (packs : List (List ℕ)) × (collect_packs n g vs t ≡ some packs)
      × ((v : ℕ) → Memᴰ v vs → (t v ≡ true) ⊎ (in_one v packs ≡ true))
unfolding collect_packs
collect_packs-in_one n g [] t k m l = ([], refl, λ v i. elim i [ ])
collect_packs-in_one n g (c ∷ cs) t k m l =
    let (seen, e, (stays, self, given), none_new) =
      visit_child-Gives n g (dfs_get_all_childs n g) c t (dfs_get_all_childs-Visits n g k)
        (m c (Memᴰ.head refl)) l in
    let (rest, f, covered) =
      collect_packs-in_one n g cs seen.1 k (λ d i. m d (Memᴰ.tail i))
        (omega (arith, l, left_in_mono t seen.1 (nodes g) stays)) in
    (
      if t c then rest else seen.0 ∷ rest,
      ap
            (λ (o : Option (List ℕ × Checked)).
              o >>= λ s. collect_packs n g cs s.1 >>= λ ps. some (if t c then ps else s.0 ∷ ps))
            e
          ∙ ap (λ (o : Option (List (List ℕ))). o >>= λ ps. some (if t c then ps else seen.0 ∷ ps))
              f,
      λ v i.
          let checked : seen.1 v ≡ true
              → (t v ≡ true) ⊎ (in_one v (if t c then rest else seen.0 ∷ rest) ≡ true) =
            λ x. elim (given v x) [
              | inl y ↦ inl y
              | inr y ↦ inr (in_first (t c) v seen.0 rest none_new y)
            ] in
          elim (Memᴰ.cases_cons i) [
            | inl s ↦ checked (subst (λ d. seen.1 d ≡ true) (sym s) self)
            | inr j ↦ elim (covered v j) [
              | inl x ↦ checked x
              | inr x ↦ inr (in_rest (t c) v seen.0 rest x)
            ]
          ],
    )

all_left : (vs : List ℕ) → left_in (λ u. false) vs ≤ length vs
all_left [] = omega arith
all_left (v ∷ vs) = omega (arith, all_left vs)

in_or_checked :
    (v : ℕ) (ps : List (List ℕ)) → (false ≡ true) ⊎ (in_one v ps ≡ true) → in_one v ps ≡ true
in_or_checked v ps (inl e) = ground arith
in_or_checked v ps (inr e) = e

packs-in_one :
    (g : Graph)
    → IsClosed g
    → (packs : List (List ℕ)) × (get_accessibility_packs g ≡ some packs)
      × ((v : ℕ) → Memᴰ v (nodes g) → in_one v packs ≡ true)
unfolding get_accessibility_packs
packs-in_one g k =
    let (packs, e, f) =
      collect_packs-in_one (length (nodes g)) g (nodes g) (λ u. false) k (λ v m. m)
        (all_left (nodes g)) in
    (packs, e, λ v m. in_or_checked v packs (f v m))

-- The graph of some edges, added from the last to the first.
abbrev pub built : List (ℕ × ℕ) → Graph
built [] = []
built ((from_node, to_node) ∷ edges) = add_edge from_node to_node (built edges)

built-IsClosed : (edges : List (ℕ × ℕ)) → IsClosed (built edges)
built-IsClosed [] u v m = elim m [ ]
built-IsClosed ((a, b) ∷ edges) u v m =
    add_edge-IsClosed a b (built edges) (built-IsClosed edges) u v m

-- Whatever edges a graph is built of, `get_accessibility_packs` returns, and every node is in one of
-- the packs.
pub get_accessibility_packs-built :
    (edges : List (ℕ × ℕ))
    → (packs : List (List ℕ)) × (get_accessibility_packs (built edges) ≡ some packs)
      × ((v : ℕ) → Memᴰ v (nodes (built edges)) → in_one v packs ≡ true)
get_accessibility_packs-built edges = packs-in_one (built edges) (built-IsClosed edges)
