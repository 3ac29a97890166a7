-- ===== src/Impact/Examples.antt =====
-- A host that is down, a web service that depends on it and a shop that depends on the service, and
-- what the theorems on problems and impacts say of them (alignak/objects/schedulingitem.py).
use alignak.Prelude.{
  ℕ, ◌≤◌, ◌≡◌, refl, sym, ap, subst, true, false, none, some, List, [], ◌∷◌, ◌==◌, if◌then◌else◌,
  elem, arith, Bool-cases, ==_iff, inl, inr,
}
use mathlib.Core.List.{Memᴰ}
use alignak.Graph.Nodes.{
  Graph, sons, add_edge, loop_check, check_nodes, dfs_loop_search, search_sons,
}
use alignak.Graph.Loops.{IsClosed}
use alignak.Graph.Closed.{add_edge-IsClosed}
use alignak.Item.Types.{Item}
use alignak.Item.Samples.{down_router, web, noon}
use alignak.Impact.Ties.{Link, TiedItem, Site, Store}
use alignak.Impact.Problems.{
  done, set_is_problem, set_is_impact, no_more_a_problem, set_myself_as_problem,
}
use alignak.Impact.Linked.{sources, is_problem_of}
use alignak.Impact.Registered.{Follows}
use alignak.Impact.Settled.{IsConsistent, IsRaised}
use alignak.Impact.Raised.{set_myself_as_problem-IsConsistent, no_more_a_problem-IsConsistent}

abbrev node_of : Item → List ℕ → List ℕ → TiedItem
node_of i problems us = record {
  item = i;
  source_problems = problems;
  impacts = us;
  business_impact = 3;
  my_own_business_impact = none;
}

abbrev link_to : ℕ → Link
link_to u = record { impact_id = u; status = b'd' ∷ b'c' ∷ []; timeperiod = none }

abbrev shop : Site
shop = record {
  env = noon;
  act_depend_of_me =
      λ u. if u == 1 then link_to 2 ∷ [] else (if u == 2 then link_to 3 ∷ [] else []);
  business_impact_modulations = λ u. [];
}

-- No problem is registered yet.
abbrev untied : Store
untied u = node_of (if u == 1 then down_router else web) [] []

-- The host is a problem of the service.
abbrev tied : Store
tied u =
    node_of (if u == 1 then set_is_problem true down_router else set_is_impact (u == 2) web)
      (if u == 2 then 1 ∷ [] else []) (if u == 1 then 2 ∷ [] else [])

abbrev edges : Graph
edges = add_edge 2 3 (add_edge 1 2 [])

edges-IsClosed : IsClosed edges
edges-IsClosed =
    add_edge-IsClosed 2 3 (add_edge 1 2 []) (add_edge-IsClosed 1 2 [] (λ u v m. elim m [ ]))

edges_checked : loop_check edges ≡ some []
unfolding loop_check check_nodes dfs_loop_search search_sons add_edge
edges_checked = refl

only_link : (l : Link) (v : ℕ) → Memᴰ l (link_to v ∷ []) → Memᴰ l.impact_id (v ∷ [])
only_link l v (Memᴰ.head e) = Memᴰ.head (ap (λ k. k.impact_id) e)
only_link l v (Memᴰ.tail m) = elim m [ ]

no_link : (u : ℕ) → (u == 1) ≡ false → (u == 2) ≡ false → shop.act_depend_of_me u ≡ []
no_link u n k = rw (n, k) refl

shop-Follows : Follows edges shop
unfolding add_edge
shop-Follows u l m = elim (Bool-cases (u == 1)) [
  | inl s ↦
      subst (λ x. Memᴰ l (shop.act_depend_of_me x) → Memᴰ l.impact_id (sons edges x))
        (sym ((==_iff u 1).0 s)) (only_link l 2) m
  | inr n ↦ elim (Bool-cases (u == 2)) [
    | inl s ↦
        subst (λ x. Memᴰ l (shop.act_depend_of_me x) → Memᴰ l.impact_id (sons edges x))
          (sym ((==_iff u 2).0 s)) (only_link l 3) m
    | inr k ↦ elim (subst (λ ls. Memᴰ l ls) (no_link u n k) m) [ ]
  ]
]

untied-IsConsistent : IsConsistent untied
untied-IsConsistent = record {
  linked = record {
    same = λ p u. refl;
    one = λ p u. ground arith;
    other = λ p. refl;
    flagged = λ u. ground arith;
  };
  cause = λ p b. refl;
}

tied-IsConsistent : IsConsistent tied
tied-IsConsistent = record {
  linked = record {
    same = λ p u. ground arith;
    one = λ p u. ground arith;
    other = λ p. ground arith;
    flagged = λ u. ground arith;
  };
  cause = λ p b. ground arith;
}

set_myself_as_problem-IsConsistent_example :
    (n : ℕ) × ((m : ℕ)
      → n ≤ m
      → (t : Store) × (set_myself_as_problem m shop 1 untied ≡ done t) × IsRaised 1 t)
set_myself_as_problem-IsConsistent_example =
    set_myself_as_problem-IsConsistent edges shop 1 untied edges-IsClosed edges_checked shop-Follows
      untied-IsConsistent

no_more_a_problem-IsConsistent_example :
    (t : Store) × (no_more_a_problem shop 1 tied ≡ done t)
    × IsConsistent t
    × (is_problem_of t 1 ≡ false)
    × ((v : ℕ) → elem 1 (sources t v) ≡ false)
no_more_a_problem-IsConsistent_example =
    no_more_a_problem-IsConsistent shop 1 tied tied-IsConsistent
