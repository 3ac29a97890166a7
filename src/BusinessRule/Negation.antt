-- ===== src/BusinessRule/Negation.antt =====
-- The NOT of rule nodes, `not_value` of alignak/dependencynode.py.
use alignak.Prelude.{
  ℕ, ◌≤◌, ◌≡◌, refl, Bool, true, false, Option, none, some, List, [], ◌∷◌, ◌>>=◌, arith,
  Option-cases, inl, inr,
}
use mathlib.Core.Option
use alignak.Item.Types.{Item}
use alignak.BusinessRule.Node.{
  Node, host_node, service_node, or_node, and_node, of_node, unknown_node, Items, Reached,
  get_state, get_states, host_state, service_state, get_reverse_state, reverse_if,
  get_complex_or_node_state, get_complex_and_node_state, get_complex_xof_node_state,
}

-- `son.not_value = True`, or False.
abbrev pub with_not : Bool → Node → Node
with_not b (host_node u n) = host_node u b
with_not b (service_node u n) = service_node u b
with_not b (or_node sons n) = or_node sons b
with_not b (and_node sons n) = and_node sons b
with_not b (of_node v mul sons n) = of_node v mul sons b
with_not b (unknown_node sons n) = unknown_node sons b

-- The node is no host that is UNREACHABLE.
abbrev pub IsReachable : Items → Node → Type 0
IsReachable items (host_node u n) = (h : Item) → items.hosts u ≡ some h → h.last_hard_state_id ≤ 2
IsReachable items _ = Unit

host_state-reverse :
    (items : Items) (u : ℕ)
    → ((h : Item) → items.hosts u ≡ some h → h.last_hard_state_id ≤ 2)
    → host_state items u true ≡ Option.map get_reverse_state (host_state items u false)
unfolding host_state
host_state-reverse items u k = elim (Option-cases (items.hosts u)) [
  | inl e ↦ rw e refl
  | inr (h, e) ↦ let b = k h e in rw e (ground arith)
]

service_state-reverse :
    (items : Items) (u : ℕ)
    → service_state items u true ≡ Option.map get_reverse_state (service_state items u false)
unfolding service_state
service_state-reverse items u = elim (Option-cases (items.services u)) [
  | inl e ↦ rw e refl
  | inr (h, e) ↦ rw e (ground arith)
]

map-reverse :
    (o : Option ℕ)
    → Option.map (reverse_if true) o
      ≡ Option.map get_reverse_state (Option.map (reverse_if false) o)
map-reverse none = refl
map-reverse (some s) = refl

-- An aggregation that ends in `not_value`, over states that may be missing.
bind-reverse :
    (o : Option (List ℕ)) (f : Bool → List ℕ → Option ℕ)
    → ((ss : List ℕ) → f true ss ≡ Option.map get_reverse_state (f false ss))
    → (o >>= f true) ≡ Option.map get_reverse_state (o >>= f false)
bind-reverse none f h = refl
bind-reverse (some ss) f h = h ss

or_state-reverse :
    (ss : List ℕ)
    → get_complex_or_node_state true ss
      ≡ Option.map get_reverse_state (get_complex_or_node_state false ss)
unfolding get_complex_or_node_state
or_state-reverse [] = refl
or_state-reverse (s ∷ ss) = refl

-- A node with NOT has the state of the node without it, reversed, unless it is a host that is
-- UNREACHABLE.
pub get_state-with_not :
    (r : Reached) (items : Items) (n : Node)
    → IsReachable items n
    → get_state r items (with_not true n)
      ≡ Option.map get_reverse_state (get_state r items (with_not false n))
unfolding get_state get_complex_and_node_state get_complex_xof_node_state
get_state-with_not r items (host_node u n) k = host_state-reverse items u k
get_state-with_not r items (service_node u n) k = service_state-reverse items u
get_state-with_not r items (or_node sons n) k =
    bind-reverse (get_states r items sons) get_complex_or_node_state or_state-reverse
get_state-with_not r items (and_node sons n) k =
    bind-reverse (get_states r items sons) get_complex_and_node_state (λ ss. map-reverse _)
get_state-with_not r items (of_node v mul sons n) k =
    bind-reverse (get_states r items sons) (get_complex_xof_node_state r v mul)
      (λ ss. map-reverse _)
get_state-with_not r items (unknown_node sons n) k = refl
