-- ===== src/BusinessRule/Xof.antt =====
-- The "X of" rules of one number, as the parser leaves them after `switch_zeros_of_values`
-- (alignak/dependencynode.py).
use alignak.Prelude.{
  ℕ, zero, suc, ◌+◌, ◌≤◌, ◌<◌, ◌≡◌, refl, ◌∙◌, ap, sym, true, false, Option, none, some, List, [],
  ◌∷◌, arith, Option-cases, inl, inr, if◌then◌else◌, elem, length, ◌==◌, leb, pos,
}
use mathlib.Core.Option
use alignak.BusinessRule.Node.{
  Node, Nodes, of_node, no_son, son, nb_sons, switch_zeros_of_values, Items, Reached, get_state,
  get_states, count, nb_of, get_worst_state, get_state_for, choose_state, choose_xof_state,
  reverse_if, get_complex_xof_node_state,
}
use alignak.BusinessRule.Aggregates.{AllAtMost}

-- "x of: ..." as it is parsed.
abbrev pub simple_rule : ℕ → Nodes → Node
simple_rule x sons =
    of_node (record { of_ok = count (pos x); of_warn = count (pos 0); of_crit = count (pos 0) })
      false sons false

-- What a rule that asks for `x` sons that are fine gives: CRITICAL if all sons are, WARNING if all
-- have a problem, OK if enough are fine, and otherwise the worst state.
abbrev pub simple_state : ℕ → List ℕ → Option ℕ
simple_state x states =
    if nb_of 2 states == length states
    then some 2
    else if nb_of 1 states + nb_of 2 states == length states
    then some 1
    else if leb x (nb_of 0 states)
    then some 0
    else get_worst_state states

length-get_states :
    (r : Reached) (items : Items) (sons : Nodes) (ss : List ℕ)
    → get_states r items sons ≡ some ss
    → length ss ≡ nb_sons sons
unfolding get_states
length-get_states r items no_son ss e = ground arith
length-get_states r items (son n ns) ss e = elim (Option-cases (get_state r items n)) [
  | inl f ↦ ground arith
  | inr (s, f) ↦ elim (Option-cases (get_states r items ns)) [
    | inl g ↦ ground arith
    | inr (ts, g) ↦ let l = length-get_states r items ns ts g in ground arith
  ]
]

nb_of-le : (ss : List ℕ) → nb_of 0 ss + nb_of 1 ss + nb_of 2 ss ≤ length ss
nb_of-le [] = omega arith
nb_of-le (s ∷ ss) = let rest = nb_of-le ss in ground arith

xof_simple :
    (r : Reached) (x : ℕ) (ss : List ℕ)
    → 0 < x
    → choose_xof_state r
        (record {
          of_ok = count (pos x);
          of_warn = count (pos (length ss));
          of_crit = count (pos (length ss));
        })
        false
        ss
      ≡ simple_state x ss
unfolding choose_xof_state choose_state get_state_for
xof_simple r x ss p = let b = nb_of-le ss in ground arith

-- An "x of" rule of one number, x not 0, gives what such a rule asks for, once its zeros are
-- replaced by the number of sons and its sons have states.
pub switch_zeros_of_values-get_state :
    (r : Reached) (items : Items) (x : ℕ) (sons : Nodes) (ss : List ℕ)
    → 0 < x
    → get_states r items sons ≡ some ss
    → get_state r items (switch_zeros_of_values (simple_rule x sons)) ≡ simple_state x ss
unfolding get_state switch_zeros_of_values get_complex_xof_node_state
switch_zeros_of_values-get_state r items zero sons ss p e = ground arith
switch_zeros_of_values-get_state r items (suc x) sons ss p e =
    rw (e, sym (length-get_states r items sons ss e))
      (ap (Option.map (reverse_if false)) (xof_simple r (suc x) ss p) ∙ map-id _)
  where
    map-id : (o : Option ℕ) → Option.map (reverse_if false) o ≡ o
    map-id none = refl
    map-id (some s) = refl

simple_state_critical :
    (x : ℕ) (ss : List ℕ)
    → elem 2 ss ≡ true
    → 0 < nb_of 0 ss
    → nb_of 0 ss < x
    → simple_state x ss ≡ some 2
unfolding get_worst_state
simple_state_critical x [] c p l = ground arith
simple_state_critical x (s ∷ ss) c p l = let b = nb_of-le (s ∷ ss) in ground arith

simple_state_warning :
    (x : ℕ) (ss : List ℕ)
    → nb_of 1 ss + nb_of 2 ss ≡ length ss
    → nb_of 2 ss < length ss
    → simple_state x ss ≡ some 1
simple_state_warning x ss e l = ground arith

all_problems : (ss : List ℕ) → AllAtMost 2 ss → nb_of 0 ss ≡ 0 → nb_of 1 ss + nb_of 2 ss ≡ length ss
all_problems [] h z = omega arith
all_problems (s ∷ ss) h z = let rest = all_problems ss h.1 in let b = nb_of-le ss in ground arith

positive_of_lt : (x k : ℕ) → k < x → 0 < x
positive_of_lt x k l = omega arith

-- An "x of" rule of one number is CRITICAL while a son is CRITICAL and some sons, but fewer than x,
-- are fine; and it is WARNING when no son is fine any more, as long as not all are CRITICAL.
simple_rule_improves :
    (r : Reached) (items items' : Items) (x : ℕ) (sons : Nodes) (ss ts : List ℕ)
    → get_states r items sons ≡ some ss
    → get_states r items' sons ≡ some ts
    → elem 2 ss ≡ true
    → 0 < nb_of 0 ss
    → nb_of 0 ss < x
    → AllAtMost 2 ts
    → nb_of 0 ts ≡ 0
    → nb_of 2 ts < length ts
    → let rule = switch_zeros_of_values (simple_rule x sons) in
      (get_state r items rule ≡ some 2) × (get_state r items' rule ≡ some 1)
simple_rule_improves r items items' x sons ss ts e f c p l h z n =
    let positive = positive_of_lt x (nb_of 0 ss) l in
    (
      switch_zeros_of_values-get_state r items x sons ss positive e
          ∙ simple_state_critical x ss c p l,
      switch_zeros_of_values-get_state r items' x sons ts positive f
          ∙ simple_state_warning x ts (all_problems ts h z) n,
    )
