-- ===== src/Graph/Closed.antt =====
-- The graphs that `add_node` and `add_edge` of alignak/graph.py build.
use alignak.Prelude.{
  ℕ, ◌≡◌, refl, sym, subst, true, List, [], ◌∷◌, ◌++◌, if◌then◌else◌, ◌==◌, arith, ==_iff,
  Bool-cases, inl, inr,
}
use mathlib.Core.List.{Memᴰ}
use mathlib.Core.List.Memᴰ
use alignak.Graph.Nodes.{Graph, nodes, sons, is_node, put_sons, add_node, add_edge}
use alignak.Graph.Loops.{IsClosed}

sons-put_sons :
    (u v : ℕ) (ws : List ℕ) (g : Graph)
    → sons (put_sons u ws g) v ≡ (if u == v then ws else sons g v)
sons-put_sons u v ws [] = refl
sons-put_sons u v ws ((w, vs) ∷ g) = let rest = sons-put_sons u v ws g in ground arith

mem-put_sons_self : (u : ℕ) (ws : List ℕ) (g : Graph) → Memᴰ u (nodes (put_sons u ws g))
mem-put_sons_self u ws [] = Memᴰ.head refl
mem-put_sons_self u ws ((w, vs) ∷ g) = elim (Bool-cases (w == u)) [
  | inl e ↦ rw e (Memᴰ.head refl)
  | inr e ↦ rw e (Memᴰ.tail (mem-put_sons_self u ws g))
]

mem-put_sons :
    (u v : ℕ) (ws : List ℕ) (g : Graph) → Memᴰ v (nodes g) → Memᴰ v (nodes (put_sons u ws g))
mem-put_sons u v ws [] m = elim m [ ]
mem-put_sons u v ws ((w, vs) ∷ g) m = elim (Bool-cases (w == u)) [
  | inl e ↦ rw e (subst (λ x. Memᴰ v (x ∷ nodes g)) ((==_iff w u).0 e) m)
  | inr e ↦ rw e (elim (Memᴰ.cases_cons m) [
    | inl s ↦ Memᴰ.head s
    | inr n ↦ Memᴰ.tail (mem-put_sons u v ws g n)
  ])
]

is_node-mem : (u : ℕ) (g : Graph) → is_node u g ≡ true → Memᴰ u (nodes g)
is_node-mem u [] e = absurd (cc)
is_node-mem u ((w, vs) ∷ g) e = elim (Bool-cases (w == u)) [
  | inl s ↦ Memᴰ.head (sym ((==_iff w u).0 s))
  | inr n ↦ Memᴰ.tail (is_node-mem u g (rw n at e))
]

-- Sons that are nodes may be put.
put_sons-IsClosed :
    (u : ℕ) (ws : List ℕ) (g : Graph)
    → IsClosed g
    → ((w : ℕ) → Memᴰ w ws → Memᴰ w (nodes g))
    → IsClosed (put_sons u ws g)
put_sons-IsClosed u ws g k h v w m = elim (Bool-cases (u == v)) [
  | inl e ↦ mem-put_sons u w ws g (h w (rw (sons-put_sons u v ws g, e) at m))
  | inr e ↦ mem-put_sons u w ws g (k v w (rw (sons-put_sons u v ws g, e) at m))
]

-- A node that is added, known or not, has no sons.
pub add_node-IsClosed : (u : ℕ) (g : Graph) → IsClosed g → IsClosed (add_node u g)
unfolding add_node
add_node-IsClosed u g k = put_sons-IsClosed u [] g k (λ w m. elim m [ ])

-- An edge between any two nodes, known or not, keeps all sons among the nodes.
pub add_edge-IsClosed : (u v : ℕ) (g : Graph) → IsClosed g → IsClosed (add_edge u v g)
unfolding add_edge
add_edge-IsClosed u v g k = elim (Bool-cases (is_node v g)) [
  | inl e ↦ rw e (linked g k (is_node-mem v g e))
  | inr e ↦ rw e (linked (add_node v g) (add_node-IsClosed v g k) (mem-put_sons_self v [] g))
]
  where
    linked :
        (h : Graph) → IsClosed h → Memᴰ v (nodes h) → IsClosed (put_sons u (sons h u ++ (v ∷ [])) h)
    linked h k m = put_sons-IsClosed u (sons h u ++ (v ∷ [])) h k (λ w n.
        elim (Memᴰ.append_cases (sons h u) n) [
          | inl o ↦ k u w o
          | inr o ↦ subst (λ x. Memᴰ x (nodes h)) (sym (Memᴰ.eq_of_singleton o)) m
        ])
