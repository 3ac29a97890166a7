-- ===== src/Escalation/Rules.antt =====
-- The class `Escalation` of alignak/objects/escalation.py, and `is_escalable`,
-- `get_next_notification_time` and `get_escalable_contacts` of
-- alignak/objects/schedulingitem.py.
--
-- `in_notif_time` is the difference of two times, which are given instead of it, since it may be
-- below 0. An escalation holds its time period (none where it names none) by the times that are
-- valid. A name and a contact are a number, an option is the code of its letter, and a set of
-- contacts is a list without repetition.
use alignak.Prelude.{
  ℕ, ◌+◌, ◌*◌, Bool, true, false, not, ◌&&◌, ◌||◌, Option, none, some, List, [], ◌∷◌, ◌++◌, map,
  ◌==◌, ltb, if◌then◌else◌, elem,
}
use alignak.Item.Kinds.{State, up, down, unreachable, ok, warning, critical, unknown, pending}

-- A `notification_interval` of -1 is none.
pub record Escalation : Type 0 where
  pub name : ℕ
  pub time_based : Bool
  pub first_notification : ℕ
  pub last_notification : ℕ
  pub first_notification_time : ℕ
  pub last_notification_time : ℕ
  pub notification_interval : Option ℕ
  pub escalation_options : List ℕ
  pub escalation_period : Option (ℕ → Bool)
  pub contacts : List ℕ

-- The fields of a master notification that count here.
pub record Master : Type 0 where
  pub t_to_go : ℕ
  pub notif_nb : ℕ
  pub creation_time : ℕ
  pub already_start_escalations : List ℕ

-- The fields of an item that count here; `interval_length` is its class's.
pub record Notified : Type 0 where
  pub state : State
  pub notification_interval : ℕ
  pub interval_length : ℕ
  pub escalations : List Escalation

-- `p.replace('u', 'x')`
abbrev pub replace_u : ℕ → ℕ
replace_u p = if p == b'u' then b'x' else p

-- `__init__` of an escalation whose options are given.
unfoldable pub new_escalation : Escalation → Escalation
new_escalation params = record params {
  escalation_options = map replace_u params.escalation_options;
}

-- `short_states` of `is_eligible`, none for a status that it does not have.
abbrev pub eligible_letter : State → Option ℕ
eligible_letter up = some b'o'
eligible_letter down = some b'd'
eligible_letter unreachable = some b'x'
eligible_letter ok = some b'o'
eligible_letter warning = some b'w'
eligible_letter critical = some b'c'
eligible_letter unknown = some b'u'
eligible_letter pending = none

-- `short_states` of `get_next_notif_time`.
abbrev pub next_letter : State → Option ℕ
next_letter unreachable = some b'u'
next_letter status = eligible_letter status

-- `status in short_states and short_states[status] not in self.escalation_options`
abbrev pub is_refused : Option ℕ → List ℕ → Bool
is_refused none options = false
is_refused (some letter) options = not (elem letter options)

-- `escal_period is not None and not escal_period.is_time_valid(timestamp)`
abbrev pub is_out_of_period : Option (ℕ → Bool) → ℕ → Bool
is_out_of_period none timestamp = false
is_out_of_period (some is_time_valid) timestamp = not (is_time_valid timestamp)

abbrev pub is_out_of_numbers : Escalation → ℕ → Bool
is_out_of_numbers e notif_number =
    ltb notif_number e.first_notification
    || (not (e.last_notification == 0) && ltb e.last_notification notif_number)

abbrev pub is_out_of_times : Escalation → ℕ → ℕ → ℕ → Bool
is_out_of_times e now creation_time interval =
    ltb now (creation_time + e.first_notification_time * interval)
    || (not (e.last_notification_time == 0)
        && ltb (creation_time + e.last_notification_time * interval) now)

unfoldable pub is_eligible : Escalation → ℕ → State → ℕ → ℕ → ℕ → ℕ → Bool
is_eligible e timestamp status notif_number now creation_time interval =
    if (if e.time_based
      then is_out_of_times e now creation_time interval
      else is_out_of_numbers e notif_number)
    then false
    else if is_refused (eligible_letter status) e.escalation_options
    then false
    else not (is_out_of_period e.escalation_period timestamp)

unfoldable pub get_next_notif_time : Escalation → ℕ → State → ℕ → ℕ → Option ℕ
get_next_notif_time e t_wished status creation_time interval =
    let start = e.first_notification_time * interval + creation_time in
    if not e.time_based
    then none
    else if is_refused (next_letter status) e.escalation_options
    then none
    else if ltb t_wished start
    then none
    else if is_out_of_period e.escalation_period start
    then none
    else some start

-- Does the escalation match the notification of the item now?
abbrev pub matches : ℕ → Master → Notified → Escalation → Bool
matches now n i e = is_eligible e n.t_to_go i.state n.notif_nb now n.creation_time i.interval_length

abbrev pub is_one_eligible : ℕ → Master → Notified → List Escalation → Bool
is_one_eligible now n i [] = false
is_one_eligible now n i (e ∷ es) =
    let rest = is_one_eligible now n i es in if matches now n i e then true else rest

unfoldable pub is_escalable : ℕ → Master → Notified → Bool
is_escalable now n i = is_one_eligible now n i i.escalations

-- The first loop of `get_next_notification_time`.
abbrev pub shorter : Option ℕ → ℕ → ℕ
shorter none interval = interval
shorter (some own) interval = if ltb own interval then own else interval

unfoldable pub shortest_interval : ℕ → Master → Notified → List Escalation → ℕ → ℕ
shortest_interval now n i [] interval = interval
shortest_interval now n i (e ∷ es) interval =
    shortest_interval now n i es
      (if matches now n i e then shorter e.notification_interval interval else interval)

-- `std_time`
unfoldable pub standard_time : ℕ → Master → Notified → ℕ
standard_time now n i =
    let interval = shortest_interval now n i i.escalations i.notification_interval in
    let std_time = n.t_to_go + interval * i.interval_length in
    if ltb std_time now then now + interval * i.interval_length else std_time

-- The second loop of `get_next_notification_time`.
unfoldable pub earlier : ℕ → ℕ → Master → Notified → Escalation → ℕ → ℕ
earlier now std_time n i e res =
    if elem e.name n.already_start_escalations
    then res
    else elim (get_next_notif_time e std_time i.state n.creation_time i.interval_length) [
      | none ↦ res
      | some next_t ↦ if ltb now next_t && ltb next_t res then next_t else res
    ]

unfoldable pub earliest : ℕ → ℕ → Master → Notified → List Escalation → ℕ → ℕ
earliest now std_time n i [] res = res
earliest now std_time n i (e ∷ es) res =
    earliest now std_time n i es (earlier now std_time n i e res)

unfoldable pub get_next_notification_time : ℕ → Master → Notified → ℕ
get_next_notification_time now n i =
    let std_time = standard_time now n i in earliest now std_time n i i.escalations std_time

abbrev pub add_contacts : List ℕ → List ℕ → List ℕ
add_contacts [] contacts = contacts
add_contacts (c ∷ cs) contacts =
    add_contacts cs (if elem c contacts then contacts else contacts ++ (c ∷ []))

abbrev pub start_escalation : ℕ → Master → Master
start_escalation name n =
    if elem name n.already_start_escalations
    then n
    else record n { already_start_escalations = n.already_start_escalations ++ (name ∷ []) }

-- The loop of `get_escalable_contacts`, which marks the escalations of the notification.
unfoldable pub collect_contacts : ℕ → Notified → List Escalation → Master → List ℕ → Master × List ℕ
collect_contacts now i [] n contacts = (n, contacts)
collect_contacts now i (e ∷ es) n contacts =
    collect_contacts now i es (if matches now n i e then start_escalation e.name n else n)
      (if matches now n i e then add_contacts e.contacts contacts else contacts)

unfoldable pub get_escalable_contacts : ℕ → Master → Notified → Master × List ℕ
get_escalable_contacts now n i = collect_contacts now i i.escalations n []
