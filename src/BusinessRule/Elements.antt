-- ===== src/BusinessRule/Elements.antt =====
-- `DependencyNode.list_all_elements` of alignak/dependencynode.py: the items that a rule reads.
use alignak.Prelude.{ℕ, ◌≡◌, refl, true, List, [], ◌∷◌, ◌++◌, elem, arith}
use alignak.BusinessRule.Node.{
  Node, Nodes, host_node, service_node, or_node, and_node, of_node, unknown_node, no_son, son,
  Items, Reached, get_state, get_states, host_state, service_state,
}

-- `unique` stands for `list(set(res))`, whose order the language does not fix.
unfoldable mutual
  pub list_all_elements : (List ℕ → List ℕ) → Node → List ℕ
  list_all_elements unique (host_node uuid not_value) = uuid ∷ []
  list_all_elements unique (service_node uuid not_value) = uuid ∷ []
  list_all_elements unique (or_node sons not_value) = unique (elements_of_sons unique sons)
  list_all_elements unique (and_node sons not_value) = unique (elements_of_sons unique sons)
  list_all_elements unique (of_node v is_of_mul sons not_value) =
      unique (elements_of_sons unique sons)
  list_all_elements unique (unknown_node sons not_value) = unique (elements_of_sons unique sons)

  -- `res.extend(son.list_all_elements())` for each son.
  pub elements_of_sons : (List ℕ → List ℕ) → Nodes → List ℕ
  elements_of_sons unique no_son = []
  elements_of_sons unique (son s ss) = list_all_elements unique s ++ elements_of_sons unique ss

-- A set made of a list keeps what is in the list.
abbrev pub KeepsAll : (List ℕ → List ℕ) → Type 0
KeepsAll unique = (u : ℕ) (xs : List ℕ) → elem u xs ≡ true → elem u (unique xs) ≡ true

-- The items of these identifiers are the same.
abbrev pub AgreeOn : List ℕ → Items → Items → Type 0
AgreeOn us items items' =
    (u : ℕ)
    → elem u us ≡ true
    → (items.hosts u ≡ items'.hosts u) × (items.services u ≡ items'.services u)

elem_first : (u : ℕ) → elem u (u ∷ []) ≡ true
elem_first u = ground arith

elem-append_left : (u : ℕ) (xs ys : List ℕ) → elem u xs ≡ true → elem u (xs ++ ys) ≡ true
elem-append_left u [] ys e = ground arith
elem-append_left u (x ∷ xs) ys e = let rest = elem-append_left u xs ys in ground arith

elem-append_right : (u : ℕ) (xs ys : List ℕ) → elem u ys ≡ true → elem u (xs ++ ys) ≡ true
elem-append_right u [] ys e = e
elem-append_right u (x ∷ xs) ys e = let rest = elem-append_right u xs ys e in ground arith

mutual
  unfolding get_state list_all_elements host_state service_state

  state_agree :
      (r : Reached) (unique : List ℕ → List ℕ) (items items' : Items) (n : Node)
      → KeepsAll unique
      → AgreeOn (list_all_elements unique n) items items'
      → get_state r items n ≡ get_state r items' n
  state_agree r q items items' (host_node u n) k a = rw ((a u (elem_first u)).0) refl
  state_agree r q items items' (service_node u n) k a = rw ((a u (elem_first u)).1) refl
  state_agree r q items items' (or_node sons n) k a =
      rw (states_agree r q items items' sons k (λ u m. a u (k u _ m))) refl
  state_agree r q items items' (and_node sons n) k a =
      rw (states_agree r q items items' sons k (λ u m. a u (k u _ m))) refl
  state_agree r q items items' (of_node v mul sons n) k a =
      rw (states_agree r q items items' sons k (λ u m. a u (k u _ m))) refl
  state_agree r q items items' (unknown_node sons n) k a = refl

  states_agree :
      (r : Reached) (unique : List ℕ → List ℕ) (items items' : Items) (sons : Nodes)
      → KeepsAll unique
      → AgreeOn (elements_of_sons unique sons) items items'
      → get_states r items sons ≡ get_states r items' sons
  states_agree r q items items' no_son k a = refl
  states_agree r q items items' (son n ns) k a =
      rw
        (
          state_agree r q items items' n k (λ u m. a u (elem-append_left u _ _ m)),
          states_agree r q items items' ns k (λ u m. a u (elem-append_right u _ _ m)),
        )
        refl

-- The state of a rule depends on the items that `list_all_elements` gives and on no other: it is
-- the same wherever these are, if the set that it makes of a list keeps what is in the list.
pub list_all_elements-get_state :
    (r : Reached) (unique : List ℕ → List ℕ) (items items' : Items) (n : Node)
    → KeepsAll unique
    → AgreeOn (list_all_elements unique n) items items'
    → get_state r items n ≡ get_state r items' n
list_all_elements-get_state r unique items items' n k a = state_agree r unique items items' n k a
