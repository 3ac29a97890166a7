-- ===== src/Item/Dependencies.antt =====
-- What an item depends on: `is_enable_action_dependent`, `check_and_set_unreachability` and
-- `raise_dependencies_check` of alignak/objects/schedulingitem.py. The check that an item depended
-- on launches is a call on that item.
use alignak.Prelude.{
  ℕ, ◌+◌, Bool, true, false, not, ◌&&◌, ◌||◌, Option, none, some, List, [], ◌∷◌, ltb, if◌then◌else◌,
  elem,
}
use alignak.Item.Kinds.{State, down, unreachable, critical, unknown, same}
use alignak.Item.Checks.{Env, Dependency}
use alignak.Item.Types.{Item, Call, launch_check, wait_for_check}
use alignak.Item.States.{is_state_letter, set_unreachable}

-- `True in [dep.is_state(stat) for stat in status]`
abbrev pub matches_any : Dependency → List ℕ → Bool
matches_any d [] = false
matches_any d (c ∷ cs) = is_state_letter d.dep_type d.dep_state c || matches_any d cs

-- An entry that lets the actions through: it filters nothing, or what it depends on is fine.
abbrev pub lets_through : Dependency → Bool
lets_through d = elem b'n' d.status || not (matches_any d d.status)

unfoldable pub is_enable_action_dependent : List Dependency → Bool
is_enable_action_dependent [] = false
is_enable_action_dependent (d ∷ ds) = lets_through d || is_enable_action_dependent ds

abbrev pub is_not_ok : State → Bool
is_not_ok s = same s down || same s critical || same s unknown || same s unreachable

unfoldable pub all_parents_down : List Dependency → Bool
all_parents_down [] = true
all_parents_down (d ∷ ds) = is_not_ok d.dep_state && all_parents_down ds

unfoldable pub check_and_set_unreachability : Env → Item → Item
check_and_set_unreachability env i =
    if all_parents_down env.act_depend_of then set_unreachable env i else i

-- The uuids under 'new' and 'checking', with the calls made on the items depended on.
pub record Raised : Type 0 where
  pub new : List ℕ
  pub checking : List ℕ
  pub made : List Call

abbrev pub no_checks : Raised
no_checks = record { new = []; checking = []; made = [] }

-- The state of the dependency is too old, in a valid period, on an item that is actively checked.
abbrev pub is_stale : Env → Dependency → Bool
is_stale env d =
    d.period_is_valid
    && ltb (d.dep_last_state_update + env.cached_check_horizon) env.now
    && d.active_checks_enabled

abbrev pub add_launched : Dependency → Option ℕ → Raised → Raised
add_launched d none r = record r { made = launch_check d.dep_id ∷ r.made }
add_launched d (some c) r = record r { new = c ∷ r.new; made = launch_check d.dep_id ∷ r.made }

abbrev pub add_checking : List ℕ → Raised → Raised
add_checking [] r = r
add_checking (c ∷ cs) r = record r { checking = c ∷ r.checking; made = wait_for_check c ∷ r.made }

unfoldable pub raise_dependencies_check : Env → List Dependency → Raised
raise_dependencies_check env [] = no_checks
raise_dependencies_check env (d ∷ ds) =
    let rest = raise_dependencies_check env ds in
    if is_stale env d
    then (if d.dep_in_checking
        then add_checking d.dep_checks_in_progress rest
        else add_launched d d.launched rest)
    else rest
