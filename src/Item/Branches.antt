-- ===== src/Item/Branches.antt =====
-- The branches of `consume_result` of alignak/objects/schedulingitem.py on the exit status and the
-- last state of an item.
use alignak.Prelude.{ℕ, Bool, true, false, not, ◌&&◌, ◌||◌, ◌==◌, if◌then◌else◌}
use alignak.Item.Kinds.{pending, same, soft, hard, problem, recovery}
use alignak.Item.Checks.{Env}
use alignak.Item.Types.{Item, set_myself_as_problem, no_more_a_problem}
use alignak.Item.Logs.{add_call, raise_alert_log_entry}
use alignak.Item.Notifications.{
  ok_up, is_soft, create_notifications, remove_in_progress_notifications, get_event_handlers,
}
use alignak.Item.Acknowledging.{unacknowledge_problem, unacknowledge_problem_if_not_sticky}
use alignak.Item.Downtimes.{check_for_flexible_downtime}
use alignak.Item.States.{
  set_attempt, set_state_type, add_attempt, is_max_attempts, update_hard_unknown_phase_state,
}

-- Notifications of a problem, when the actions are enabled.
abbrev pub notify_if : Bool → Env → Item → Item
notify_if enable env i = if enable then create_notifications env problem i else i

abbrev pub raise_problem_if : Bool → Item → Item
raise_problem_if enable i =
    if enable
    then add_call set_myself_as_problem
        (record i { impact = record i.impact { is_problem = true } })
    else i

-- From UP, OK or PENDING to UP or OK.
unfoldable pub stay_ok : Item → Item
stay_ok i =
    let j = unacknowledge_problem i in
    if is_soft j.state_type && not (same j.last_state pending)
    then set_state_type (if is_max_attempts j then hard else soft) j
    else set_state_type hard (set_attempt 1 j)

-- From a problem to UP or OK, in a soft state.
unfoldable pub recover_soft : Bool → Item → Item
recover_soft dependent i =
    let counted = if dependent then i else add_attempt i in
    set_attempt 1 (set_state_type hard (get_event_handlers (raise_alert_log_entry counted)))

-- The end of the problem: this item's own part of `no_more_a_problem`.
unfoldable pub end_problem : Item → Item
unfolding add_call
end_problem i =
    add_call no_more_a_problem (record i { impact = record i.impact { is_problem = false } })

-- From a problem to UP or OK, in a hard state.
unfoldable pub recover_hard : Env → Bool → Item → Item
recover_hard env enable i =
    let dropped = remove_in_progress_notifications true (raise_alert_log_entry i) in
    let notified = if enable then create_notifications env recovery dropped else dropped in
    end_problem (set_attempt 1 (get_event_handlers notified))

-- From a problem to UP or OK.
unfoldable pub recover : Env → Bool → Bool → Item → Item
recover env dependent enable i =
    let j = unacknowledge_problem i in
    if is_soft j.state_type then recover_soft dependent j else recover_hard env enable j

-- A problem of a volatile service.
unfoldable pub volatile_problem : Env → Bool → Item → Item
volatile_problem env enable i =
    let logged = raise_alert_log_entry (set_state_type hard (set_attempt 1 i)) in
    let dropped = remove_in_progress_notifications true (check_for_flexible_downtime env logged) in
    raise_problem_if enable (get_event_handlers (notify_if enable env dropped))

-- The actions of a problem that has just become hard.
unfoldable pub hard_problem : Env → Bool → Item → Item
hard_problem env enable i =
    let logged = raise_alert_log_entry (set_state_type hard i) in
    let downtimed =
      check_for_flexible_downtime env (remove_in_progress_notifications true logged) in
    raise_problem_if enable (get_event_handlers (notify_if enable env downtimed))

-- From UP, OK or PENDING to a problem.
unfoldable pub new_problem : Env → Bool → Item → Item
new_problem env enable i =
    let j = set_attempt 1 i in
    if is_max_attempts j
    then hard_problem env enable j
    else get_event_handlers (raise_alert_log_entry (set_state_type soft j))

-- From a problem to a problem, in a soft state.
unfoldable pub soft_problem : Env → Bool → Bool → Item → Item
soft_problem env dependent enable i =
    let counted = if dependent then i else add_attempt i in
    let j =
      if same counted.state counted.last_state
      then counted
      else unacknowledge_problem_if_not_sticky counted in
    if is_max_attempts j
    then hard_problem env enable j
    else get_event_handlers (raise_alert_log_entry j)

-- A hard problem whose state has changed, outside an unknown phase.
unfoldable pub renotify : Env → Bool → Item → Item
renotify env enable i =
    let logged = raise_alert_log_entry (unacknowledge_problem_if_not_sticky i) in
    get_event_handlers (notify_if enable env (remove_in_progress_notifications true logged))

-- The notifications of a hard problem whose state has changed, and of one whose downtime ended.
unfoldable pub hard_change : Env → Bool → Item → Item
hard_change env enable i =
    let phased = update_hard_unknown_phase_state i in
    if same i.state i.last_state
    then (if i.in_scheduled_downtime_during_last_check
        then notify_if enable env (remove_in_progress_notifications true i)
        else i)
    else if phased.in_hard_unknown_reach_phase || phased.was_in_hard_unknown_reach_phase
    then phased
    else renotify env enable phased

-- Notifications may have been enabled since: a problem that was never notified is.
unfoldable pub notify_missing : Env → Bool → Item → Item
notify_missing env enable i =
    if enable && i.notifications_enabled && i.current_notification_number == 0
    then create_notifications env problem (remove_in_progress_notifications true i)
    else i

-- From a problem to a problem, in a hard state.
unfoldable pub still_hard_problem : Env → Bool → Item → Item
still_hard_problem env enable i =
    notify_missing env enable (raise_problem_if enable (hard_change env enable i))

-- The branches on the exit status and the last state.
unfoldable pub handle_state : Env → Bool → Bool → ℕ → Item → Item
handle_state env dependent enable code i =
    let was_ok = same i.last_state (ok_up i.my_type) || same i.last_state pending in
    if code == 0
    then (if was_ok then stay_ok i else recover env dependent enable i)
    else if i.is_volatile
    then volatile_problem env enable i
    else if was_ok
    then new_problem env enable i
    else if is_soft i.state_type
    then soft_problem env dependent enable i
    else still_hard_problem env enable i
