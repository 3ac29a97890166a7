-- ===== src/Item/Schedule.antt =====
-- When an item is checked next: `schedule` of alignak/objects/schedulingitem.py.
--
-- Times are whole seconds. `random.uniform(0.0, 1.0)` times a number is an argument, for each of
-- its two calls, and so is the check period. The check that `launch_check` builds is the time that
-- it is given.
use alignak.Prelude.{
  ℕ, ◌+◌, ◌*◌, min, Bool, true, false, not, ◌&&◌, ◌||◌, Option, none, some, ltb, leb, ◌==◌,
  if◌then◌else◌,
}
use alignak.Item.Kinds.{MyType, host, service, StateType, soft, hard}
use alignak.Item.Types.{Timeperiod}

-- A `check_interval`: a number of `interval_length`, or the quotient of some seconds by it, which is
-- a float and gives these seconds again when it is multiplied by `interval_length`, as times are
-- whole seconds here.
pub data CheckInterval : Type 0 where
  units : ℕ → CheckInterval
  quotient : ℕ → CheckInterval

abbrev pub is_zero : CheckInterval → Bool
is_zero (units n) = n == 0
is_zero (quotient seconds) = seconds == 0

abbrev pub in_seconds : ℕ → CheckInterval → ℕ
in_seconds interval_length (units n) = n * interval_length
in_seconds interval_length (quotient seconds) = seconds

-- What an item is scheduled by. `next_chk` is 0 before the first time.
pub record Planned : Type 0 where
  pub my_type : MyType
  pub state_type : StateType
  pub in_checking : Bool
  pub active_checks_enabled : Bool
  pub execute_checks : Bool
  pub check_interval : CheckInterval
  pub retry_interval : ℕ
  pub interval_length : ℕ
  pub max_check_spread : ℕ
  pub next_chk : Option ℕ

-- A check is launched for a time, none is, or None is compared with a time.
pub data Outcome : Type 0 where
  launch_check_at : ℕ → Outcome
  no_check : Outcome
  type_error : Outcome

abbrev pub is_service : MyType → Bool
is_service service = true
is_service host = false

abbrev pub is_set : Option ℕ → Bool
is_set none = false
is_set (some t) = not (t == 0)

abbrev pub is_hard : StateType → Bool
is_hard hard = true
is_hard soft = false

-- An interval of 0 stands for five minutes, for a host.
abbrev pub fill_interval : Bool → Planned → Planned
fill_interval force p =
    if is_zero p.check_interval && not force then record p { check_interval = quotient 300 } else p

abbrev pub interval : Planned → ℕ
interval p =
    if is_hard p.state_type || p.retry_interval == 0
    then in_seconds p.interval_length p.check_interval
    else p.retry_interval * p.interval_length

abbrev pub spread_interval : Planned → ℕ
spread_interval p = min (interval p) (p.max_check_spread * p.interval_length)

abbrev pub time_add : (ℕ → ℕ) → Planned → ℕ
time_add uniform p = elim p.next_chk [
  | none ↦ interval p
  | some t ↦ if t == 0 then uniform (spread_interval p) else interval p
]

abbrev pub next_in : Option Timeperiod → ℕ → Option ℕ
next_in none t = some t
next_in (some period) t = period.get_next_valid_time_from_t t

abbrev pub last_planned : ℕ → Option ℕ → ℕ
last_planned now none = now
last_planned now (some t) = if t == 0 then now else t

-- The next time, if the last one has come.
abbrev pub first_try : Option Timeperiod → (ℕ → ℕ) → ℕ → Planned → Option ℕ
first_try period uniform now p =
    let last = last_planned now p.next_chk in
    if leb last now then next_in period (last + time_add uniform p) else some last

-- A time that is past is planned again from now. Without a time, the comparison raises.
abbrev pub second_try : Option Timeperiod → (ℕ → ℕ) → ℕ → Planned → Option ℕ → Outcome × Option ℕ
second_try period uniform now p none = (type_error, none)
second_try period uniform now p (some t) =
    let next = if ltb t now then next_in period (now + uniform (spread_interval p)) else some t in
    (elim next [ none ↦ no_check | some u ↦ launch_check_at u ], next)

abbrev pub with_next : Planned → Outcome × Option ℕ → Outcome × Planned
with_next p (outcome, next) = (outcome, record p { next_chk = next })

abbrev pub plan : Option Timeperiod → (ℕ → ℕ) → (ℕ → ℕ) → ℕ → Option ℕ → Planned → Outcome × Planned
plan period uniform uniform' now none p =
    with_next p (second_try period uniform' now p (first_try period uniform now p))
plan period uniform uniform' now (some t) p = (launch_check_at t, record p { next_chk = some t })

unfoldable pub schedule :
    Option Timeperiod → (ℕ → ℕ) → (ℕ → ℕ) → ℕ → Bool → Option ℕ → Planned → Outcome × Planned
schedule period uniform uniform' now force force_time p =
    if p.in_checking && not (force || is_set force_time)
    then (no_check, p)
    else if (not p.active_checks_enabled || not p.execute_checks) && not force
    then (no_check, p)
    else if is_zero p.check_interval && not force && is_service p.my_type
    then (no_check, p)
    else plan period uniform uniform' now force_time (fill_interval force p)
