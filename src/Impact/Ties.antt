-- ===== src/Impact/Ties.antt =====
-- The ties between items (`source_problems`, `impacts` and `act_depend_of_me` of
-- alignak/objects/schedulingitem.py), and the business impact
-- (alignak/objects/businessimpactmodulation.py).
--
-- A store holds the hosts and services by their identifiers. The ones that a tie names exist, as
-- the configuration sees to. What no method here changes is in `Site`: the dependencies and the
-- modulations of each item. An absent `my_own_business_impact` stands for -1.
use alignak.Prelude.{ℕ, max, Bool, true, Option, none, some, List, [], ◌∷◌, ◌==◌, if◌then◌else◌}
use alignak.Item.Types.{Item, update_status}
use alignak.Item.Logs.{add_brok}
use alignak.Item.Checks.{Env}

-- An entry of `act_depend_of_me`: the statuses are letters.
pub record Link : Type 0 where
  pub impact_id : ℕ
  pub status : List ℕ
  pub timeperiod : Option (ℕ → Bool)

pub record Businessimpactmodulation : Type 0 where
  pub modulation_period : Option (ℕ → Bool)
  pub modulated_impact : ℕ

pub record TiedItem : Type 0 where
  pub item : Item
  pub source_problems : List ℕ
  pub impacts : List ℕ
  pub business_impact : ℕ
  pub my_own_business_impact : Option ℕ

pub record Site : Type 0 where
  pub env : Env
  pub act_depend_of_me : ℕ → List Link
  pub business_impact_modulations : ℕ → List Businessimpactmodulation

abbrev pub Store : Type 0
Store = ℕ → TiedItem

abbrev pub put_item : ℕ → TiedItem → Store → Store
put_item u n st v = if v == u then n else st v

-- `list.remove`, which raises on a value that is not there, is none then.
unfoldable pub remove_first : ℕ → List ℕ → Option (List ℕ)
remove_first x [] = none
remove_first x (y ∷ ys) =
    let rest = remove_first x ys in
    if y == x then some ys else elim rest [ none ↦ none | some zs ↦ some (y ∷ zs) ]

-- `timeperiod is None or timeperiod.is_time_valid(now)`
abbrev pub is_in_period : Option (ℕ → Bool) → ℕ → Bool
is_in_period none now = true
is_in_period (some is_time_valid) now = is_time_valid now

-- The first modulation that applies.
abbrev pub modulated : ℕ → List Businessimpactmodulation → Option ℕ
modulated now [] = none
modulated now (m ∷ ms) =
    let rest = modulated now ms in
    if is_in_period m.modulation_period now then some m.modulated_impact else rest

abbrev pub or_else : Option ℕ → ℕ → ℕ
or_else none i = i
or_else (some j) i = j

abbrev pub own_impact : TiedItem → ℕ
own_impact n = or_else n.my_own_business_impact n.business_impact

-- `max(self.business_impact, max(bp_impacts))`
abbrev pub greatest_impact : Store → List ℕ → ℕ → ℕ
greatest_impact st [] least = least
greatest_impact st (u ∷ us) least = max (st u).business_impact (greatest_impact st us least)

abbrev pub set_business_impact : ℕ → ℕ → Store → Store
set_business_impact i u st = put_item u (record (st u) { business_impact = i }) st

-- The business impact of an item: the modulated one or its present one, at least that of what it
-- impacts; with no impacts, the modulated one or its own.
abbrev pub next_business_impact : Site → ℕ → Store → ℕ
next_business_impact w u st =
    let in_modulation = modulated w.env.now (w.business_impact_modulations u) in
    let present = or_else in_modulation (st u).business_impact in
    let own = or_else in_modulation (own_impact (st u)) in
    let after = set_business_impact present u st in
    elim (st u).impacts [ [] ↦ own | _ ∷ _ ↦ greatest_impact after (st u).impacts present ]

unfoldable pub update_business_impact_value : Site → ℕ → Store → Store
update_business_impact_value w u st =
    put_item u
      (record (st u) {
        business_impact = next_business_impact w u st;
        my_own_business_impact = some (own_impact (st u));
      })
      st

-- `self.broks.append(self.get_update_status_brok())`
unfoldable pub tell : ℕ → Store → Store
tell u st = put_item u (record (st u) { item = add_brok update_status (st u).item }) st
