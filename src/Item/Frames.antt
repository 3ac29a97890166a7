-- ===== src/Item/Frames.antt =====
-- What the side operations leave alone: notifications, event handlers, acknowledgements and
-- downtimes change neither the configuration nor the status of an item.
use alignak.Prelude.{
  ℕ, ◌≡◌, refl, ◌∙◌, Bool, true, false, Option, none, some, List, [], ◌∷◌, arith, Bool-cases, inl,
  inr,
}
use alignak.Item.Kinds.{NotificationType, downtime_start}
use alignak.Item.Checks.{Env}
use alignak.Item.Types.{Item, Conf, Status, Downtime, Acknowledge, acknowledge_expire}
use alignak.Item.Logs.{
  raise_flapping_stop_log_entry, raise_flapping_start_log_entry, raise_alert_log_entry,
  raise_enter_downtime_log_entry, add_brok, add_call,
}
use alignak.Item.Notifications.{
  create_notifications, remove_in_progress_notifications, get_event_handlers,
}
use alignak.Item.Acknowledging.{
  acknowledge_problem, acknowledge_own_problem, unacknowledge_problem, del_comment_of,
  unacknowledge_problem_if_not_sticky,
}
use alignak.Item.Downtimes.{
  enter, place, announce_enter, start_flexible, check_for_flexible_downtime, may_start,
}
use alignak.Item.Flap.{
  add_flapping_change, update_flapping, stop_flapping, start_flapping, state_change_rate,
}
use alignak.Item.Branches.{notify_if, raise_problem_if}

-- The configuration and the status of an item.
abbrev pub core : Item → Conf × Status
core i = (i.conf, i.status)

pub core-create :
    (env : Env) (t : NotificationType) (i : Item) → core (create_notifications env t i) ≡ core i
unfolding create_notifications
core-create env t i = ground arith

pub core-notify_if : (e : Bool) (env : Env) (i : Item) → core (notify_if e env i) ≡ core i
core-notify_if true env i = core-create env _ i
core-notify_if false env i = refl

pub core-remove : (m : Bool) (i : Item) → core (remove_in_progress_notifications m i) ≡ core i
unfolding remove_in_progress_notifications
core-remove m i = refl

pub core-handlers : (i : Item) → core (get_event_handlers i) ≡ core i
unfolding get_event_handlers
core-handlers i = ground arith

pub core-alert : (i : Item) → core (raise_alert_log_entry i) ≡ core i
unfolding raise_alert_log_entry
core-alert i = ground arith

core-del_comment_of : (a : Option Acknowledge) (i : Item) → core (del_comment_of a i) ≡ core i
unfolding del_comment_of
core-del_comment_of none i = refl
core-del_comment_of (some a) i = refl

pub core-unacknowledge : (i : Item) → core (unacknowledge_problem i) ≡ core i
unfolding unacknowledge_problem
core-unacknowledge i =
    ground (arith, core-del_comment_of i.acknowledgement (add_brok acknowledge_expire i))

pub core-unacknowledge_if : (i : Item) → core (unacknowledge_problem_if_not_sticky i) ≡ core i
unfolding unacknowledge_problem_if_not_sticky
core-unacknowledge_if i = ground (arith, core-unacknowledge i)

core-acknowledge_own :
    (env : Env) (s : ℕ) (n : Bool) (e : ℕ) (i : Item)
    → core (acknowledge_own_problem env s n e i) ≡ core i
unfolding acknowledge_own_problem
core-acknowledge_own env s n e i = ground (
  arith,
  core-del_comment_of i.acknowledgement i,
  core-create env NotificationType.acknowledgement i,
  core-create env NotificationType.acknowledgement (del_comment_of i.acknowledgement i),
)

pub core-acknowledge :
    (env : Env) (s : ℕ) (n : Bool) (e : ℕ) (i : Item)
    → core (acknowledge_problem env s n e i) ≡ core i
unfolding acknowledge_problem
core-acknowledge env s n e i = ground (arith, core-acknowledge_own env s n e i)

core-announce_enter : (env : Env) (i : Item) → core (announce_enter env i).0 ≡ core i
unfolding announce_enter
core-announce_enter env i =
    let logged = raise_enter_downtime_log_entry i in
    let notified = create_notifications env downtime_start logged in
    ground (arith, core-create env downtime_start logged, core-acknowledge env 2 true 0 notified)

pub core-enter : (env : Env) (d : Downtime) (i : Item) → core (enter env d i).0 ≡ core i
unfolding enter place
core-enter env d i = ground (arith, core-announce_enter env (place env d i))

core-start_flexible :
    (env : Env) (ds : List Downtime) (i : Item) (b : Bool)
    → core (start_flexible env ds (i, b)).0 ≡ core i
unfolding start_flexible
core-start_flexible env [] i b = refl
core-start_flexible env (d ∷ ds) i b = elim (Bool-cases (may_start d i)) [
  | inl e ↦ rw (e, start_flexible) (core-start_flexible env ds _ true ∙ core-enter env d i)
  | inr e ↦ rw (e, start_flexible) (core-start_flexible env ds i b)
]

pub core-flexible : (env : Env) (i : Item) → core (check_for_flexible_downtime env i) ≡ core i
unfolding check_for_flexible_downtime
core-flexible env i = ground (arith, core-start_flexible env i.downtimes i false)

pub core-raise_problem_if : (e : Bool) (i : Item) → core (raise_problem_if e i) ≡ core i
unfolding add_call
core-raise_problem_if true i = refl
core-raise_problem_if false i = refl

core-flapping_stop_log : (i : Item) → core (raise_flapping_stop_log_entry i) ≡ core i
unfolding raise_flapping_stop_log_entry
core-flapping_stop_log i = ground arith

core-flapping_start_log : (i : Item) → core (raise_flapping_start_log_entry i) ≡ core i
unfolding raise_flapping_start_log_entry
core-flapping_start_log i = ground arith

core-stop_flapping : (env : Env) (i : Item) → core (stop_flapping env i) ≡ core i
unfolding stop_flapping
core-stop_flapping env i =
    let unset = record i { flapping = record i.flapping { is_flapping = false } } in
    let logged = raise_flapping_stop_log_entry unset in
    let dropped = remove_in_progress_notifications true logged in
    ground (
      arith,
      core-create env NotificationType.flapping_stop dropped,
      core-remove true logged,
      core-flapping_stop_log unset,
    )

core-start_flapping : (env : Env) (i : Item) → core (start_flapping env i) ≡ core i
unfolding start_flapping
core-start_flapping env i =
    let set = record i { flapping = record i.flapping { is_flapping = true } } in
    let logged = raise_flapping_start_log_entry set in
    let dropped = remove_in_progress_notifications true logged in
    ground (
      arith,
      core-create env NotificationType.flapping_start dropped,
      core-remove true logged,
      core-flapping_start_log set,
    )

pub core-update_flapping : (env : Env) (i : Item) → core (update_flapping env i) ≡ core i
unfolding update_flapping
core-update_flapping env i =
    let res = state_change_rate i.flap_history i.flapping_changes in
    let rated = record i { flapping = record i.flapping { percent_state_change = res } } in
    ground (
      arith,
      core-stop_flapping env rated,
      core-start_flapping env rated,
      core-start_flapping env (stop_flapping env rated),
    )

pub core-add_flapping_change : (b : Bool) (i : Item) → core (add_flapping_change b i) ≡ core i
unfolding add_flapping_change
core-add_flapping_change b i = ground arith
