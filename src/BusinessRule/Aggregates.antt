-- ===== src/BusinessRule/Aggregates.antt =====
-- The aggregations of the states of sons (alignak/dependencynode.py), on lists of states.
use alignak.Prelude.{
  ℕ, suc, ◌+◌, ◌≤◌, ◌≡◌, refl, ap, Bool, true, false, Option, some, List, [], ◌∷◌, if◌then◌else◌,
  elem, length, arith,
}
use mathlib.Core.Option
use alignak.BusinessRule.Node.{
  Reached, Search, OfValues, count, percent, minimum, maximum, nb_of, nb_search, get_worst_state,
  get_complex_or_node_state, get_complex_and_node_state, get_complex_xof_node_state, get_state_for,
  choose_state, choose_xof_state, reverse_if,
}

-- Every state is at most `k`.
abbrev pub AllAtMost : ℕ → List ℕ → Type 0
AllAtMost k [] = Unit
AllAtMost k (s ∷ ss) = s ≤ k × AllAtMost k ss

minimum_le : (k s : ℕ) (ss : List ℕ) → s ≤ k → AllAtMost k ss → minimum s ss ≤ k
minimum_le k s [] b h = b
minimum_le k s (t ∷ ts) b h = omega arith

maximum_le : (k s : ℕ) (ss : List ℕ) → s ≤ k → AllAtMost k ss → maximum s ss ≤ k
maximum_le k s [] b h = b
maximum_le k s (t ∷ ts) b h = omega (arith, maximum_le k t ts h.0 h.1)

reverse_if_le : (n : Bool) (s : ℕ) → s ≤ 4 → reverse_if n s ≤ 4
reverse_if_le n s b = ground arith

-- A value that is there, and at most `k`.
abbrev pub IsWithin : ℕ → Option ℕ → Type 0
IsWithin k o = (s : ℕ) × (o ≡ some s) × s ≤ k

get_worst_state-IsWithin :
    (k s : ℕ) (ss : List ℕ) → 2 ≤ k → s ≤ k → AllAtMost k ss → IsWithin k (get_worst_state (s ∷ ss))
unfolding get_worst_state
get_worst_state-IsWithin k s ss two b h =
    let m = maximum_le k s ss b h in
    (if elem 2 (s ∷ ss) then 2 else maximum s ss, refl, ground arith)

reverse_if-IsWithin :
    (n : Bool) (o : Option ℕ) → IsWithin 4 o → IsWithin 4 (Option.map (reverse_if n) o)
reverse_if-IsWithin n o w =
    (reverse_if n w.0, ap (Option.map (reverse_if n)) w.1, reverse_if_le n w.0 w.2)

pub or_state-IsWithin :
    (n : Bool) (s : ℕ) (ss : List ℕ)
    → s ≤ 4
    → AllAtMost 4 ss
    → IsWithin 4 (get_complex_or_node_state n (s ∷ ss))
unfolding get_complex_or_node_state
or_state-IsWithin n s ss b h =
    (reverse_if n (minimum s ss), refl, reverse_if_le n (minimum s ss) (minimum_le 4 s ss b h))

pub and_state-IsWithin :
    (n : Bool) (s : ℕ) (ss : List ℕ)
    → s ≤ 4
    → AllAtMost 4 ss
    → IsWithin 4 (get_complex_and_node_state n (s ∷ ss))
unfolding get_complex_and_node_state
and_state-IsWithin n s ss b h =
    reverse_if-IsWithin n (get_worst_state (s ∷ ss))
      (get_worst_state-IsWithin 4 s ss (omega arith) b h)

get_state_for-some :
    (r : Reached) (n k : ℕ) (v : Search) → (b : Bool) × (get_state_for r (suc n) k v ≡ some b)
unfolding get_state_for
get_state_for-some r n k (count z) = (_, refl)
get_state_for-some r n k (percent z) = (r k (suc n) (nb_search 100 z), ground arith)

choose_state-IsWithin :
    (mul : Bool) (ss : List ℕ) (a b c : Bool)
    → IsWithin 4 (get_worst_state ss)
    → IsWithin 4 (choose_state mul ss (some a) (some b) (some c))
unfolding choose_state
choose_state-IsWithin mul ss a b true w = (2, refl, omega arith)
choose_state-IsWithin mul ss a true false w = (1, refl, omega arith)
choose_state-IsWithin mul ss true false false w = (0, refl, omega arith)
choose_state-IsWithin true ss false false false w = (0, refl, omega arith)
choose_state-IsWithin false ss false false false w = w

pub xof_state-IsWithin :
    (r : Reached) (v : OfValues) (mul n : Bool) (s : ℕ) (ss : List ℕ)
    → s ≤ 4
    → AllAtMost 4 ss
    → IsWithin 4 (get_complex_xof_node_state r v mul n (s ∷ ss))
unfolding get_complex_xof_node_state choose_xof_state
xof_state-IsWithin r v mul n s ss b h =
    let states = s ∷ ss in
    let ok = get_state_for-some r (length ss) (nb_of 0 states) v.of_ok in
    let warn = get_state_for-some r (length ss) (nb_of 1 states + nb_of 2 states) v.of_warn in
    let crit = get_state_for-some r (length ss) (nb_of 2 states) v.of_crit in
    reverse_if-IsWithin n (choose_xof_state r v mul states) (
      rw (ok.1, warn.1, crit.1)
        (choose_state-IsWithin mul states ok.0 warn.0 crit.0
          (get_worst_state-IsWithin 4 s ss (omega arith) b h)))
