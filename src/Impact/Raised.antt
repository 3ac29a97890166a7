-- ===== src/Impact/Raised.antt =====
-- A problem that tells its impacts (alignak/objects/schedulingitem.py): `set_myself_as_problem`
-- and `no_more_a_problem` keep problems and impacts consistent.
use alignak.Prelude.{
  ℕ, ◌≤◌, ◌≡◌, refl, sym, ap, ◌∙◌, true, false, some, [], ◌++◌, ◌==◌, if◌then◌else◌, elem,
  Bool-cases, ==_iff, inl, inr,
}
use alignak.Graph.Nodes.{Graph, loop_check}
use alignak.Graph.Loops.{IsClosed}
use alignak.Graph.Acyclic.{loop_check-IsFine}
use alignak.Impact.Ties.{Site, Store, tell, update_business_impact_value}
use alignak.Impact.Problems.{
  done, set_is_problem, change_item, set_impacts, no_more_a_problem, set_of, same_set,
  set_myself_as_problem,
}
use alignak.Impact.Counts.{count}
use alignak.Impact.Linked.{sources, is_problem_of, owe}
use alignak.Impact.Ended.{owed_same, Ended-HasCause, no_more-IsLinked}
use alignak.Impact.Excused.{impacts_of, no_extra}
use alignak.Impact.Added.{not_elem}
use alignak.Impact.Registered.{Follows, register_links-Enough}
use alignak.Impact.Settled.{IsConsistent, IsRaised, raised-IsOwed, settled-IsConsistent}

-- Where the links of the items are edges of a graph in which `loop_check` finds no loop, an item
-- of consistent problems and impacts that sets itself as a problem comes to an end, with enough
-- fuel for the depth, without a ValueError; it is a problem then, and the problems and impacts
-- stay consistent.
pub set_myself_as_problem-IsConsistent :
    (g : Graph) (w : Site) (u : ℕ) (st : Store)
    → IsClosed g
    → loop_check g ≡ some []
    → Follows g w
    → IsConsistent st
    → (n : ℕ) × ((m : ℕ)
        → n ≤ m
        → (t : Store) × (set_myself_as_problem m w u st ≡ done t) × IsRaised u t)
unfolding set_myself_as_problem
set_myself_as_problem-IsConsistent g w u st closed no_loop edges h =
    let (n, f) =
      register_links-Enough g w u (st u).impacts edges (loop_check-IsFine g closed no_loop u) in
    (
      n,
      λ m b.
          let (r, e, k) =
            f m b (st u).impacts (change_item (set_is_problem true) u st) (raised-IsOwed u st h) in
          let same = same_set ((st u).impacts ++ r.1) (r.0 u).impacts in
          (
            if same
                then r.0
                else tell u (
                    update_business_impact_value w u
                      (set_impacts (set_of ((st u).impacts ++ r.1)) u r.0)),
            rw e refl,
            settled-IsConsistent w u (st u).impacts r.1 same r.0 refl k,
          ),
    )

no_source : (p v : ℕ) (t : Store) → IsConsistent t → (t p).impacts ≡ [] → count p (sources t v) ≡ 0
no_source p v t h e = sym (h.linked.same p v) ∙ ap (count v) e

-- An item of consistent problems and impacts that is no problem any more comes to an end without
-- a ValueError, the problems and impacts stay consistent, and no item has it as a source.
pub no_more_a_problem-IsConsistent :
    (w : Site) (p : ℕ) (st : Store)
    → IsConsistent st
    → (t : Store) × (no_more_a_problem w p st ≡ done t)
      × IsConsistent t
      × (is_problem_of t p ≡ false)
      × ((v : ℕ) → elem p (sources t v) ≡ false)
no_more_a_problem-IsConsistent w p st h =
    let (t, e, l, ended) =
      no_more-IsLinked w (impacts_of st) no_extra st p h.linked h.cause refl (λ u c. refl) in
    let h' : IsConsistent t = record {
      linked =
          owed_same (owe p [] (impacts_of st)) (impacts_of t) no_extra t
            (λ q. elim (Bool-cases (q == p)) [
              | inl s ↦ rw s (sym (ap (impacts_of t) ((==_iff q p).0 s) ∙ ended.gone))
              | inr n ↦ rw n (sym (ended.other_impacts q n))
            ])
            l;
      cause = Ended-HasCause p st t ended h.cause;
    } in
    (t, e, h', ended.over, λ v. not_elem p (sources t v) (no_source p v t h' ended.gone))
