-- ===== src/BusinessRule/Total.antt =====
-- `DependencyNode.get_state` of alignak/dependencynode.py gives a state for every valid rule.
use alignak.Prelude.{
  ℕ, ◌≤◌, ◌≡◌, refl, Bool, true, false, some, List, [], ◌∷◌, if◌then◌else◌, arith,
}
use alignak.Item.Types.{Item}
use alignak.BusinessRule.Node.{
  Node, Nodes, host_node, service_node, or_node, and_node, of_node, unknown_node, no_son, son,
  Items, Reached, get_state, get_states, host_state, service_state, is_valid, are_valid,
}
use alignak.BusinessRule.Aggregates.{
  AllAtMost, IsWithin, or_state-IsWithin, and_state-IsWithin, xof_state-IsWithin,
}

-- The items of the rule exist, with hard states up to 4 (UNREACHABLE).
abbrev mutual
  pub IsKnown : Items → Node → Type 0
  IsKnown items (host_node u n) = (h : Item) × (items.hosts u ≡ some h) × h.last_hard_state_id ≤ 4
  IsKnown items (service_node u n) =
      (s : Item) × (items.services u ≡ some s) × s.last_hard_state_id ≤ 4
  IsKnown items (or_node sons n) = AreKnown items sons
  IsKnown items (and_node sons n) = AreKnown items sons
  IsKnown items (of_node v mul sons n) = AreKnown items sons
  IsKnown items (unknown_node sons n) = AreKnown items sons

  pub AreKnown : Items → Nodes → Type 0
  AreKnown items no_son = Unit
  AreKnown items (son s ss) = IsKnown items s × AreKnown items ss

both_true : (a b : Bool) → (if a then b else false) ≡ true → (a ≡ true) × (b ≡ true)
both_true a b e = ground arith

host_state-IsWithin :
    (items : Items) (u : ℕ) (n : Bool)
    → IsKnown items (host_node u n)
    → IsWithin 4 (host_state items u n)
unfolding host_state
host_state-IsWithin items u n k = rw k.1 (_, refl, ground arith)

service_state-IsWithin :
    (items : Items) (u : ℕ) (n : Bool)
    → IsKnown items (service_node u n)
    → IsWithin 4 (service_state items u n)
unfolding service_state
service_state-IsWithin items u n k = rw k.1 (_, refl, ground arith)

-- There is a first state, and all states are at most 4.
abbrev AreWithin : Reached → Items → Nodes → Type 0
AreWithin r items sons =
    (s : ℕ) × (ss : List ℕ) × (get_states r items sons ≡ some (s ∷ ss)) × s ≤ 4 × AllAtMost 4 ss

mutual
  unfolding get_state is_valid

  state-IsWithin :
      (r : Reached) (items : Items) (n : Node)
      → is_valid n ≡ true
      → IsKnown items n
      → IsWithin 4 (get_state r items n)
  state-IsWithin r items (host_node u n) v k = host_state-IsWithin items u n k
  state-IsWithin r items (service_node u n) v k = service_state-IsWithin items u n k
  state-IsWithin r items (or_node sons n) v k =
      let (s, ss, e, b, h) = states-AreWithin r items sons v k in
      rw e (or_state-IsWithin n s ss b h)
  state-IsWithin r items (and_node sons n) v k =
      let (s, ss, e, b, h) = states-AreWithin r items sons v k in
      rw e (and_state-IsWithin n s ss b h)
  state-IsWithin r items (of_node o mul sons n) v k =
      let (s, ss, e, b, h) = states-AreWithin r items sons v k in
      rw e (xof_state-IsWithin r o mul n s ss b h)
  state-IsWithin r items (unknown_node sons n) v k = (4, refl, omega arith)

  states-AreWithin :
      (r : Reached) (items : Items) (sons : Nodes)
      → are_valid sons ≡ true
      → AreKnown items sons
      → AreWithin r items sons
  states-AreWithin r items no_son v k = ground arith
  states-AreWithin r items (son n no_son) v k =
      let (s, e, b) = state-IsWithin r items n v k.0 in (s, [], rw e refl, b, tt)
  states-AreWithin r items (son n (son m ms)) v k =
      let valid = both_true (is_valid n) (are_valid (son m ms)) v in
      let (s, e, b) = state-IsWithin r items n valid.0 k.0 in
      let (t, ts, f, c, h) = states-AreWithin r items (son m ms) valid.1 k.1 in
      (s, t ∷ ts, rw (e, f) refl, b, (c, h))

-- A valid rule whose items all exist, with hard states up to 4, has a state, up to 4 too.
pub get_state-total :
    (r : Reached) (items : Items) (n : Node)
    → is_valid n ≡ true
    → IsKnown items n
    → (s : ℕ) × (get_state r items n ≡ some s) × s ≤ 4
get_state-total r items n v k = state-IsWithin r items n v k
