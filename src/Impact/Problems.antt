-- ===== src/Impact/Problems.antt =====
-- How problems reach the items that they impact: alignak/objects/schedulingitem.py.
--
-- The recursion along the dependencies has fuel for its depth. The exception of `list.remove` is
-- `value_error`.
use alignak.Prelude.{
  ℕ, zero, suc, Bool, true, false, ◌&&◌, none, some, List, [], ◌∷◌, ◌++◌, if◌then◌else◌, elem,
}
use alignak.Item.Types.{Item}
use alignak.Item.States.{is_state_letter, set_impact_state, unset_impact_state}
use alignak.Impact.Ties.{
  Link, TiedItem, Site, Store, put_item, remove_first, is_in_period, update_business_impact_value,
  tell,
}

pub data Result {ℓ} (A : Type ℓ) : Type ℓ where
  done : A → Result A
  value_error : Result A
  out_of_fuel : Result A

infixl 20 ◌>>=◌
abbrev pub ◌>>=◌ {ℓ κ} : {A : Type ℓ} {B : Type κ} → Result A → (A → Result B) → Result B
done a >>= f = f a
value_error >>= f = value_error
out_of_fuel >>= f = out_of_fuel

abbrev pub set_is_problem : Bool → Item → Item
set_is_problem b i = record i { impact = record i.impact { is_problem = b } }

abbrev pub set_is_impact : Bool → Item → Item
set_is_impact b i = record i { impact = record i.impact { is_impact = b } }

abbrev pub change_item : (Item → Item) → ℕ → Store → Store
change_item f u st = put_item u (record (st u) { item = f (st u).item }) st

abbrev pub set_impacts : List ℕ → ℕ → Store → Store
set_impacts us u st = put_item u (record (st u) { impacts = us }) st

-- What `unregister_a_problem` leaves of an item with these source problems.
abbrev pub without_problem : List ℕ → TiedItem → TiedItem
without_problem [] n = record n {
  source_problems = [];
  item = unset_impact_state (set_is_impact false n.item);
}
without_problem (p ∷ ps) n = record n { source_problems = p ∷ ps }

unfoldable pub unregister_a_problem : ℕ → ℕ → Store → Result Store
unregister_a_problem prob u st = elim (remove_first prob (st u).source_problems) [
  | none ↦ value_error
  | some ps ↦ done (tell u (put_item u (without_problem ps (st u)) st))
]

-- The loop over the impacts of a problem that is over.
unfoldable pub unregister_all : ℕ → List ℕ → Store → Result Store
unregister_all prob [] st = done st
unregister_all prob (u ∷ us) st = do
  next ← unregister_a_problem prob u st
  unregister_all prob us next

unfoldable pub no_more_a_problem : Site → ℕ → Store → Result Store
no_more_a_problem w u st =
    if (st u).item.is_problem
    then (unregister_all u (st u).impacts (change_item (set_is_problem false) u st) >>= λ next.
        done (tell u (update_business_impact_value w u (set_impacts [] u next))))
    else done (update_business_impact_value w u st)

-- What registers the problem with the item of a link: the impacts and the items after it.
abbrev pub Register : Type 0
Register = ℕ → Store → Result (Store × List ℕ)

-- The loop over the statuses of a link of the item.
unfoldable pub register_statuses :
    Register → Site → ℕ → Link → List ℕ → Store → Result (Store × List ℕ)
register_statuses register w u l [] st = done (st, [])
register_statuses register w u l (stat ∷ stats) st = do
  first ←
      (if is_state_letter (st u).item.my_type (st u).item.state stat
          && is_in_period l.timeperiod w.env.now
        then register l.impact_id st
        else done (st, []))
  rest ← register_statuses register w u l stats first.0
  done (rest.0, first.1 ++ rest.1)

-- The loop over the links of the item.
unfoldable pub register_links : Register → Site → ℕ → List Link → Store → Result (Store × List ℕ)
register_links register w u [] st = done (st, [])
register_links register w u (l ∷ ls) st = do
  first ← register_statuses register w u l l.status st
  rest ← register_links register w u ls first.0
  done (rest.0, first.1 ++ rest.1)

abbrev pub add_problem : ℕ → ℕ → Store → Store
add_problem prob u st =
    put_item u
      (record (st u) {
        source_problems =
            (if elem prob (st u).source_problems
              then (st u).source_problems
              else (st u).source_problems ++ (prob ∷ []));
      })
      st

-- `register_a_problem` of an item that does not know the problem.
unfoldable pub impacted_by : Register → Site → ℕ → ℕ → Store → Result (Store × List ℕ)
impacted_by register w prob u st = do
  let reached = change_item (set_is_impact true) u st in
      (if (st u).item.is_problem then no_more_a_problem w u reached else done reached)
      >>= λ excused.
          let turned =
            if (st u).item.is_impact
            then excused
            else change_item (set_impact_state w.env) u excused in
          register_links register w u (w.act_depend_of_me u) (add_problem prob u turned) >>= λ r.
          done (tell u r.0, u ∷ r.1)

unfoldable pub register_a_problem : ℕ → Site → ℕ → ℕ → Store → Result (Store × List ℕ)
register_a_problem zero w prob u st = out_of_fuel
register_a_problem (suc n) w prob u st =
    let reached = impacted_by (register_a_problem n w prob) w prob u st in
    if elem prob (st u).source_problems then done (st, []) else reached

-- `set(us)`, as a list without repetition.
unfoldable pub set_of : List ℕ → List ℕ
set_of [] = []
set_of (u ∷ us) = let rest = set_of us in if elem u us then rest else u ∷ rest

abbrev pub is_subset : List ℕ → List ℕ → Bool
is_subset [] vs = true
is_subset (u ∷ us) vs = elem u vs && is_subset us vs

abbrev pub same_set : List ℕ → List ℕ → Bool
same_set us vs = is_subset us vs && is_subset vs us

unfoldable pub set_myself_as_problem : ℕ → Site → ℕ → Store → Result Store
set_myself_as_problem n w u st =
    let marked = change_item (set_is_problem true) u st in
    register_links (register_a_problem n w u) w u (w.act_depend_of_me u) marked >>= λ r.
    let impacts = (st u).impacts ++ r.1 in
    done (
      if same_set impacts (r.0 u).impacts
      then r.0
      else tell u (update_business_impact_value w u (set_impacts (set_of impacts) u r.0)))
