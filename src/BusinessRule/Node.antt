-- ===== src/BusinessRule/Node.antt =====
-- The class `DependencyNode` of alignak/dependencynode.py: the rule trees and their state.
--
-- A node holds its `operand` as its constructor. The numbers of an "X of" rule stand as they are
-- read from its text: `count 2` is "2", `count` of -2 is "-2", `percent 30` is "30%".
use alignak.Prelude.{
  ℕ, zero, suc, ◌-◌, ◌+◌, min, max, Bool, true, false, ◌||◌, Option, none, some, List, [], ◌∷◌,
  ◌>>=◌, leb, ◌==◌, if◌then◌else◌, ℤ, pos, negsuc, elem, length,
}
use mathlib.Core.Option
use alignak.Item.Types.{Item}

-- A number of an "X of" rule.
pub data Search : Type 0 where
  count : ℤ → Search
  percent : ℤ → Search

-- `of_values`: what is asked of the OK, WARNING and CRITICAL sons.
pub record OfValues : Type 0 where
  pub of_ok : Search
  pub of_warn : Search
  pub of_crit : Search

mutual
  pub data Node : Type 0 where
    host_node : (uuid : ℕ) → (not_value : Bool) → Node
    service_node : (uuid : ℕ) → (not_value : Bool) → Node
    or_node : Nodes → (not_value : Bool) → Node
    and_node : Nodes → (not_value : Bool) → Node
    of_node : OfValues → (is_of_mul : Bool) → Nodes → (not_value : Bool) → Node
    unknown_node : Nodes → (not_value : Bool) → Node

  pub data Nodes : Type 0 where
    no_son : Nodes
    son : Node → Nodes → Nodes

-- The items that a rule looks up.
pub record Items : Type 0 where
  pub hosts : ℕ → Option Item
  pub services : ℕ → Option Item

abbrev pub get_reverse_state : ℕ → ℕ
get_reverse_state state =
    if state == 1 then 1 else if state == 0 then 2 else if state == 2 then 0 else state

abbrev pub get_host_node_state : Bool → ℕ → Bool → Bool → ℕ
get_host_node_state not_value state problem_has_been_acknowledged in_scheduled_downtime =
    let down = if state == 1 then 2 else state in
    let seen = if problem_has_been_acknowledged || in_scheduled_downtime then 0 else down in
    if not_value then (if seen == 0 then 2 else 0) else seen

abbrev pub get_service_node_state : Bool → ℕ → Bool → Bool → ℕ
get_service_node_state not_value state problem_has_been_acknowledged in_scheduled_downtime =
    let seen = if problem_has_been_acknowledged || in_scheduled_downtime then 0 else state in
    if not_value then (if seen == 2 then 0 else if seen == 0 then 2 else seen) else seen

abbrev pub reverse_if : Bool → ℕ → ℕ
reverse_if not_value state = if not_value then get_reverse_state state else state

-- `min(states)` and `max(states)` of the state and those after it.
abbrev pub minimum : ℕ → List ℕ → ℕ
minimum s [] = s
minimum s (t ∷ ts) = min s (minimum t ts)

abbrev pub maximum : ℕ → List ℕ → ℕ
maximum s [] = s
maximum s (t ∷ ts) = max s (maximum t ts)

-- `max([])` raises.
unfoldable pub get_worst_state : List ℕ → Option ℕ
get_worst_state [] = none
get_worst_state (s ∷ ss) = some (if elem 2 (s ∷ ss) then 2 else maximum s ss)

unfoldable pub get_complex_or_node_state : Bool → List ℕ → Option ℕ
get_complex_or_node_state not_value [] = none
get_complex_or_node_state not_value (s ∷ ss) = some (reverse_if not_value (minimum s ss))

unfoldable pub get_complex_and_node_state : Bool → List ℕ → Option ℕ
get_complex_and_node_state not_value states =
    Option.map (reverse_if not_value) (get_worst_state states)

-- How many sons are in a state: `nb_ok`, `nb_warn` and `nb_crit`.
abbrev pub nb_of : ℕ → List ℕ → ℕ
nb_of state [] = 0
nb_of state (s ∷ ss) = let rest = nb_of state ss in if s == state then suc rest else rest

-- A negative number counts back from the total, down to 0.
abbrev pub nb_search : ℕ → ℤ → ℕ
nb_search nb_tot (pos n) = n
nb_search nb_tot (negsuc n) = nb_tot - suc n

-- `float(nb_real) / nb_tot * 100 >= nb_search`, which the machine's floating point decides.
abbrev pub Reached : Type 0
Reached = (nb_real nb_tot nb_search : ℕ) → Bool

-- A percentage of no son at all raises.
unfoldable pub get_state_for : Reached → ℕ → ℕ → Search → Option Bool
get_state_for reached nb_tot nb_real (count n) = some (leb (nb_search nb_tot n) nb_real)
get_state_for reached nb_tot nb_real (percent n) =
    if nb_tot == 0 then none else some (reached nb_real nb_tot (nb_search 100 n))

-- The worst state that applies, or else what a simple or a multiple rule falls back to.
unfoldable pub choose_state : Bool → List ℕ → Option Bool → Option Bool → Option Bool → Option ℕ
choose_state is_of_mul states (some ok) (some warn) (some crit) =
    if crit
    then some 2
    else if warn
    then some 1
    else if ok
    then some 0
    else if is_of_mul
    then some 0
    else get_worst_state states
choose_state is_of_mul states _ _ _ = none

-- The state of an "X of" node before its `not_value`.
unfoldable pub choose_xof_state : Reached → OfValues → Bool → List ℕ → Option ℕ
choose_xof_state reached v is_of_mul states =
    let nb_sons = length states in
    let nb_warn = nb_of 1 states in
    let nb_crit = nb_of 2 states in
    choose_state is_of_mul states (get_state_for reached nb_sons (nb_of 0 states) v.of_ok)
      (get_state_for reached nb_sons (nb_warn + nb_crit) v.of_warn)
      (get_state_for reached nb_sons nb_crit v.of_crit)

unfoldable pub get_complex_xof_node_state : Reached → OfValues → Bool → Bool → List ℕ → Option ℕ
get_complex_xof_node_state reached v is_of_mul not_value states =
    Option.map (reverse_if not_value) (choose_xof_state reached v is_of_mul states)

-- The state of a son that is an item.
unfoldable pub host_state : Items → ℕ → Bool → Option ℕ
host_state items uuid not_value = do
  host ← items.hosts uuid
  some (
      get_host_node_state not_value host.last_hard_state_id host.problem_has_been_acknowledged
        host.in_scheduled_downtime)

unfoldable pub service_state : Items → ℕ → Bool → Option ℕ
service_state items uuid not_value = do
  service ← items.services uuid
  some (
      get_service_node_state not_value service.last_hard_state_id
        service.problem_has_been_acknowledged service.in_scheduled_downtime)

unfoldable mutual
  pub get_state : Reached → Items → Node → Option ℕ
  get_state reached items (host_node uuid not_value) = host_state items uuid not_value
  get_state reached items (service_node uuid not_value) = service_state items uuid not_value
  get_state reached items (or_node sons not_value) = do
    states ← get_states reached items sons
    get_complex_or_node_state not_value states
  get_state reached items (and_node sons not_value) = do
    states ← get_states reached items sons
    get_complex_and_node_state not_value states
  get_state reached items (of_node v is_of_mul sons not_value) = do
    states ← get_states reached items sons
    get_complex_xof_node_state reached v is_of_mul not_value states
  get_state reached items (unknown_node sons not_value) = some 4

  -- `[s.get_state(hosts, services) for s in self.sons]`
  pub get_states : Reached → Items → Nodes → Option (List ℕ)
  get_states reached items no_son = some []
  get_states reached items (son s ss) = do
    state ← get_state reached items s
    states ← get_states reached items ss
    some (state ∷ states)

abbrev pub nb_sons : Nodes → ℕ
nb_sons no_son = 0
nb_sons (son s ss) = suc (nb_sons ss)

-- `if new_values[i] == '0': new_values[i] = str(nb_sons)`
abbrev pub switch_zero : ℕ → Search → Search
switch_zero n (count (pos zero)) = count (pos n)
switch_zero n v = v

unfoldable pub switch_zeros_of_values : Node → Node
switch_zeros_of_values (of_node v is_of_mul sons not_value) =
    let n = nb_sons sons in
    of_node
      (record {
        of_ok = switch_zero n v.of_ok;
        of_warn = switch_zero n v.of_warn;
        of_crit = switch_zero n v.of_crit;
      })
      is_of_mul sons not_value
switch_zeros_of_values node = node

-- Leaves hold an identifier, which is no node. The errors that are collected are left out.
unfoldable mutual
  pub is_valid : Node → Bool
  is_valid (host_node uuid not_value) = true
  is_valid (service_node uuid not_value) = true
  is_valid (or_node sons not_value) = are_valid sons
  is_valid (and_node sons not_value) = are_valid sons
  is_valid (of_node v is_of_mul sons not_value) = are_valid sons
  is_valid (unknown_node sons not_value) = are_valid sons

  -- There is a son, and all are valid.
  pub are_valid : Nodes → Bool
  are_valid no_son = false
  are_valid (son s no_son) = is_valid s
  are_valid (son s (son t ss)) =
      let rest = are_valid (son t ss) in if is_valid s then rest else false
