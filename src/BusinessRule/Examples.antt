-- ===== src/BusinessRule/Examples.antt =====
-- Rules over the items of the samples (alignak/dependencynode.py), and what the theorems say of them.
use alignak.Prelude.{
  ℕ, zero, suc, ◌*◌, ◌≤◌, ◌≡◌, refl, true, false, some, [], ◌∷◌, pos, negsuc, leb, arith,
  if◌then◌else◌,
}
use mathlib.Core.Option
use alignak.Item.Kinds.{service, ok, warning, hard}
use alignak.Item.Types.{Item}
use alignak.Item.Samples.{router, down_router, web, sample, sample_status}
use alignak.BusinessRule.Node.{
  Node, host_node, service_node, and_node, of_node, Nodes, no_son, son, Items, Reached, count,
  percent, get_state, get_states, host_state, service_state, is_valid, switch_zeros_of_values,
  get_reverse_state,
}
use alignak.BusinessRule.Total.{get_state-total}
use alignak.BusinessRule.Negation.{with_not, get_state-with_not}
use alignak.BusinessRule.Order.{IsMonotone, Le}
use alignak.BusinessRule.Monotone.{IsWorse, get_state_mono}
use alignak.BusinessRule.Elements.{list_all_elements, AgreeOn, list_all_elements-get_state}
use alignak.BusinessRule.Xof.{simple_rule, simple_state, switch_zeros_of_values-get_state}

-- The comparison of percentages without rounding.
abbrev exact : Reached
exact nb_real nb_tot nb_search = leb (nb_search * nb_tot) (nb_real * 100)

exact-IsMonotone : IsMonotone exact
exact-IsMonotone a b n k h e = let p = k * n in ground arith

abbrev fine : Item
fine = sample service (sample_status ok 0 hard 1)

abbrev slow : Item
slow = sample service (sample_status warning 1 hard 3)

-- Service 0 is CRITICAL, and host 0 UP; the others are fine.
abbrev before : Items
before = record {
  hosts = λ u. some router;
  services = λ u. elim u [ zero ↦ some web | suc _ ↦ some fine ];
}

-- The others have a problem too.
abbrev after : Items
after = record {
  hosts = λ u. elim u [ zero ↦ some router | suc _ ↦ some down_router ];
  services = λ u. elim u [ zero ↦ some web | suc _ ↦ some slow ];
}

abbrev three : Nodes
three = son (service_node 0 false) (son (service_node 1 false) (son (service_node 2 false) no_son))

-- h1 & (50%,2,-1 of: s0 & s1 & s2)
abbrev site : Node
site =
    and_node
      (son (host_node 1 false) (
        son
          (of_node
            (record {
              of_ok = percent (pos 50);
              of_warn = count (pos 2);
              of_crit = count (negsuc 0);
            })
            true three false)
          no_son))
      false

hosts-Le : (u : ℕ) → Le (host_state before u false) (host_state after u false)
unfolding host_state
hosts-Le zero = (omega arith, omega arith)
hosts-Le (suc u) = (omega arith, omega arith)

services-Le : (u : ℕ) → Le (service_state before u false) (service_state after u false)
unfolding service_state
services-Le zero = (omega arith, omega arith)
services-Le (suc u) = (omega arith, omega arith)

after-IsWorse : IsWorse before after
after-IsWorse = record { worse_hosts = hosts-Le; worse_services = services-Le }

get_state-total_example : (s : ℕ) × (get_state exact after site ≡ some s) × s ≤ 4
unfolding is_valid
get_state-total_example = get_state-total exact after site refl (
  (down_router, refl, omega arith),
  (((web, refl, omega arith), ((slow, refl, omega arith), ((slow, refl, omega arith), tt))), tt),
)

get_state-with_not_example :
    get_state exact after (with_not true (host_node 1 false))
    ≡ Option.map get_reverse_state (get_state exact after (with_not false (host_node 1 false)))
get_state-with_not_example =
    get_state-with_not exact after (host_node 1 false) (λ h e. ground arith)

get_state_mono_example :
    (s : ℕ) × (t : ℕ) × (get_state exact before site ≡ some s)
    × (get_state exact after site ≡ some t)
    × s ≤ t
unfolding is_valid
get_state_mono_example =
    get_state_mono exact before after site exact-IsMonotone refl
      (refl, (refl, ((refl, refl, (refl, (refl, (refl, tt)))), tt)))
      (
        (router, refl, omega arith),
        (
          ((web, refl, omega arith), ((fine, refl, omega arith), ((fine, refl, omega arith), tt))),
          tt,
        ),
      )
      (
        (down_router, refl, omega arith),
        (
          ((web, refl, omega arith), ((slow, refl, omega arith), ((slow, refl, omega arith), tt))),
          tt,
        ),
      )
      after-IsWorse

switch_zeros_of_values-get_state_example :
    get_state exact before (switch_zeros_of_values (simple_rule 2 three))
    ≡ simple_state 2 (2 ∷ 0 ∷ 0 ∷ [])
unfolding get_states get_state service_state
switch_zeros_of_values-get_state_example =
    switch_zeros_of_values-get_state exact before 2 three (2 ∷ 0 ∷ 0 ∷ []) (omega arith) refl

-- As before, with other hosts DOWN.
abbrev elsewhere : Items
elsewhere = record before { hosts = λ u. if leb u 2 then some router else some down_router }

same_elements : AgreeOn (list_all_elements (λ xs. xs) site) before elsewhere
unfolding list_all_elements
same_elements u m = ground arith

list_all_elements-get_state_example : get_state exact before site ≡ get_state exact elsewhere site
list_all_elements-get_state_example =
    list_all_elements-get_state exact (λ xs. xs) before elsewhere site (λ u xs m. m) same_elements
