-- ===== src/BusinessRule/Monotone.antt =====
-- A rule without NOT of alignak/dependencynode.py never gets better when its items get worse.
use alignak.Prelude.{
  ℕ, ◌≤◌, ◌≡◌, refl, subst, true, false, Option, none, some, List, ◌∷◌, ◌>>=◌, arith,
}
use alignak.BusinessRule.Node.{
  Node, Nodes, host_node, service_node, or_node, and_node, of_node, unknown_node, no_son, son,
  Items, Reached, get_state, get_states, host_state, service_state, get_complex_or_node_state,
  get_complex_and_node_state, get_complex_xof_node_state, is_valid,
}
use alignak.BusinessRule.Aggregates.{IsWithin}
use alignak.BusinessRule.Total.{IsKnown, get_state-total}
use alignak.BusinessRule.Order.{
  AllLe, Le, IsMonotone, get_worst_state-Le, or_state-Le, map-Le, xof_state-Le,
}

-- No NOT in the rule, no unknown operand, and no "X of" with one number only.
abbrev mutual
  pub IsPlain : Node → Type 0
  IsPlain (host_node u n) = n ≡ false
  IsPlain (service_node u n) = n ≡ false
  IsPlain (or_node sons n) = (n ≡ false) × ArePlain sons
  IsPlain (and_node sons n) = (n ≡ false) × ArePlain sons
  IsPlain (of_node v mul sons n) = (n ≡ false) × (mul ≡ true) × ArePlain sons
  IsPlain (unknown_node sons n) = false ≡ true

  pub ArePlain : Nodes → Type 0
  ArePlain no_son = Unit
  ArePlain (son s ss) = IsPlain s × ArePlain ss

-- Each item is as bad or worse on the right, and none there is worse than CRITICAL.
pub record IsWorse (items items' : Items) : Type 0 where
  pub worse_hosts : (u : ℕ) → Le (host_state items u false) (host_state items' u false)
  pub worse_services : (u : ℕ) → Le (service_state items u false) (service_state items' u false)

-- The states of the sons, where they are all there.
abbrev AreLe : Option (List ℕ) → Option (List ℕ) → Type 0
AreLe (some xs) (some ys) = AllLe xs ys
AreLe _ _ = Unit

bind-Le :
    (o p : Option (List ℕ)) (f : List ℕ → Option ℕ)
    → AreLe o p
    → ((xs ys : List ℕ) → AllLe xs ys → Le (f xs) (f ys))
    → Le (o >>= f) (p >>= f)
bind-Le none p f h k = tt
bind-Le (some xs) (some ys) f h k = k xs ys h
bind-Le (some xs) none f h k = Le-none (f xs)
  where
    Le-none : (o : Option ℕ) → Le o none
    Le-none none = tt
    Le-none (some a) = tt

cons-AreLe :
    (o p : Option ℕ) (os ps : Option (List ℕ))
    → Le o p
    → AreLe os ps
    → AreLe (o >>= λ s. os >>= λ ss. some (s ∷ ss)) (p >>= λ s. ps >>= λ ss. some (s ∷ ss))
cons-AreLe o p os ps h k = ground arith

mutual
  unfolding get_state get_complex_and_node_state get_complex_xof_node_state

  state-Le :
      (r : Reached) (items items' : Items) (n : Node)
      → IsMonotone r
      → IsWorse items items'
      → IsPlain n
      → Le (get_state r items n) (get_state r items' n)
  state-Le r items items' (host_node u n) m w p = rw p (w.worse_hosts u)
  state-Le r items items' (service_node u n) m w p = rw p (w.worse_services u)
  state-Le r items items' (or_node sons n) m w p = rw p.0 (
      bind-Le _ _ (get_complex_or_node_state false) (states-AreLe r items items' sons m w p.1)
        or_state-Le)
  state-Le r items items' (and_node sons n) m w p = rw p.0 (
      bind-Le _ _ (get_complex_and_node_state false) (states-AreLe r items items' sons m w p.1)
        (λ xs ys h. map-Le _ _ (get_worst_state-Le xs ys h)))
  state-Le r items items' (of_node v mul sons n) m w p =
      rw (p.0, p.1)
        (bind-Le _ _ (get_complex_xof_node_state r v true false)
          (states-AreLe r items items' sons m w p.2)
          (λ xs ys h. map-Le _ _ (xof_state-Le r v xs ys m h)))
  state-Le r items items' (unknown_node sons n) m w p = ground arith

  states-AreLe :
      (r : Reached) (items items' : Items) (sons : Nodes)
      → IsMonotone r
      → IsWorse items items'
      → ArePlain sons
      → AreLe (get_states r items sons) (get_states r items' sons)
  states-AreLe r items items' no_son m w p = refl
  states-AreLe r items items' (son n ns) m w p =
      cons-AreLe _ _ _ _ (state-Le r items items' n m w p.0)
        (states-AreLe r items items' ns m w p.1)

both-Le :
    (o p : Option ℕ)
    → IsWithin 4 o
    → IsWithin 4 p
    → Le o p
    → (s : ℕ) × (t : ℕ) × (o ≡ some s) × (p ≡ some t) × s ≤ t
both-Le o p v w h =
    let (s, e, b) = v in
    let (t, f, c) = w in
    let l = subst (λ x. Le x (some t)) e (subst (Le o) f h) in (s, t, e, f, l.0)

-- When the items of a rule get worse, none of them worse than CRITICAL, the state of the rule is as
-- bad or worse: for a valid rule without NOT and without an "X of" of one number, whose items exist
-- with hard states up to 4, if more sons never reach a percentage less.
pub get_state_mono :
    (r : Reached) (items items' : Items) (n : Node)
    → IsMonotone r
    → is_valid n ≡ true
    → IsPlain n
    → IsKnown items n
    → IsKnown items' n
    → IsWorse items items'
    → (s : ℕ) × (t : ℕ) × (get_state r items n ≡ some s) × (get_state r items' n ≡ some t) × s ≤ t
get_state_mono r items items' n m v p k k' w =
    both-Le _ _ (get_state-total r items n v k) (get_state-total r items' n v k')
      (state-Le r items items' n m w p)
