-- ===== src/Item/Machine.antt =====
-- The soft and hard states of an item as an abstract machine on its status, and the proof that the
-- branches of `consume_result` (`handle_state`) refine it.
use alignak.Prelude.{
  ℕ, ◌+◌, ◌≡◌, refl, ◌∙◌, min, Bool, true, not, ◌&&◌, ◌||◌, arith, leb, ◌==◌, if◌then◌else◌,
}
use alignak.Item.Kinds.{StateType, soft, hard, pending, same, NotificationType, recovery}
use alignak.Item.Checks.{Env}
use alignak.Item.Types.{Item, Conf, Status}
use alignak.Item.Logs.{raise_alert_log_entry}
use alignak.Item.Notifications.{
  ok_up, is_soft, remove_in_progress_notifications, get_event_handlers, create_notifications,
}
use alignak.Item.Acknowledging.{unacknowledge_problem, unacknowledge_problem_if_not_sticky}
use alignak.Item.Downtimes.{check_for_flexible_downtime}
use alignak.Item.States.{
  set_attempt, set_state_type, add_attempt, is_max_attempts, update_hard_unknown_phase_state,
}
use alignak.Item.Branches.{
  handle_state, stay_ok, recover, volatile_problem, hard_problem, new_problem, soft_problem,
  hard_change, still_hard_problem, recover_soft, recover_hard, end_problem, renotify,
  notify_missing, notify_if, raise_problem_if,
}
use alignak.Item.Frames.{
  core, core-create, core-notify_if, core-remove, core-handlers, core-alert, core-unacknowledge,
  core-unacknowledge_if, core-flexible, core-raise_problem_if,
}

abbrev pub to : StateType → ℕ → Status → Status
to t n s = record s { state_type = t; attempt = n }

-- Hard from the configured number of attempts on.
abbrev pub type_at : Conf → ℕ → StateType
type_at c n = if leb c.max_check_attempts n then hard else soft

abbrev pub was_fine : Conf → Status → Bool
was_fine c s = same s.last_state (ok_up c.my_type) || same s.last_state pending

-- One more attempt, up to the configured number, but for a check that another item asked for.
abbrev pub next_attempt : Conf → Bool → Status → ℕ
next_attempt c dependent s =
    if dependent then s.attempt else min (s.attempt + 1) c.max_check_attempts

-- A result 0 ends any problem. A problem counts its attempts while it is soft, and stays hard once
-- it is. A volatile item knows hard problems only.
unfoldable pub next_status : Conf → Bool → ℕ → Status → Status
next_status c dependent code s =
    if code == 0
    then (if was_fine c s && (is_soft s.state_type && not (same s.last_state pending))
        then to (type_at c s.attempt) s.attempt s
        else to hard 1 s)
    else if c.is_volatile
    then to hard 1 s
    else if was_fine c s
    then to (type_at c 1) 1 s
    else if is_soft s.state_type
    then (let n = next_attempt c dependent s in to (type_at c n) n s)
    else s

core-stay_ok :
    (i : Item)
    → core (stay_ok i) ≡ (
      i.conf,
      if is_soft i.state_type && not (same i.last_state pending)
          then to (type_at i.conf i.attempt) i.attempt i.status
          else to hard 1 i.status,
    )
unfolding stay_ok set_state_type set_attempt is_max_attempts
core-stay_ok i = ground (arith, core-unacknowledge i)

core-end_problem : (i : Item) → core (end_problem i) ≡ core i
unfolding end_problem
core-end_problem i = refl

core-recover_soft :
    (dep : Bool) (i : Item) → core (recover_soft dep i) ≡ (i.conf, to hard 1 i.status)
unfolding recover_soft set_state_type set_attempt add_attempt
core-recover_soft dep i =
    let counted = if dep then i else add_attempt i in
    ground (arith, core-handlers (raise_alert_log_entry counted), core-alert counted)

core-recover_hard :
    (env : Env) (en : Bool) (i : Item)
    → core (recover_hard env en i) ≡ (i.conf, to (i.state_type) 1 i.status)
unfolding recover_hard set_attempt
core-recover_hard env en i =
    let dropped = remove_in_progress_notifications true (raise_alert_log_entry i) in
    let notified = if en then create_notifications env recovery dropped else dropped in
    ground (
      arith,
      core-end_problem (set_attempt 1 (get_event_handlers notified)),
      core-handlers notified,
      core-create env recovery dropped,
      core-remove true (raise_alert_log_entry i),
      core-alert i,
    )

pub core-recover :
    (env : Env) (dep en : Bool) (i : Item)
    → core (recover env dep en i) ≡ (i.conf, to hard 1 i.status)
unfolding recover
core-recover env dep en i = ground (
  arith,
  core-unacknowledge i,
  core-recover_soft dep (unacknowledge_problem i),
  core-recover_hard env en (unacknowledge_problem i),
)

pub core-hard_problem :
    (env : Env) (en : Bool) (i : Item) → core (hard_problem env en i) ≡ core (set_state_type hard i)
unfolding hard_problem
core-hard_problem env en i =
    let logged = raise_alert_log_entry (set_state_type hard i) in
    let dropped = remove_in_progress_notifications true logged in
    let downtimed = check_for_flexible_downtime env dropped in
    let notified = notify_if en env downtimed in
    core-raise_problem_if en (get_event_handlers notified)
    ∙ core-handlers notified
    ∙ core-notify_if en env downtimed
    ∙ core-flexible env dropped
    ∙ core-remove true logged
    ∙ core-alert (set_state_type hard i)

pub core-volatile_problem :
    (env : Env) (en : Bool) (i : Item)
    → core (volatile_problem env en i) ≡ (i.conf, to hard 1 i.status)
unfolding volatile_problem set_state_type set_attempt
core-volatile_problem env en i =
    let logged = raise_alert_log_entry (set_state_type hard (set_attempt 1 i)) in
    let downtimed = check_for_flexible_downtime env logged in
    let dropped = remove_in_progress_notifications true downtimed in
    let notified = notify_if en env dropped in
    core-raise_problem_if en (get_event_handlers notified)
    ∙ core-handlers notified
    ∙ core-notify_if en env dropped
    ∙ core-remove true downtimed
    ∙ core-flexible env logged
    ∙ core-alert (set_state_type hard (set_attempt 1 i))

core-new_problem :
    (env : Env) (en : Bool) (i : Item)
    → core (new_problem env en i) ≡ (i.conf, to (type_at i.conf 1) 1 i.status)
unfolding new_problem set_state_type set_attempt is_max_attempts
core-new_problem env en i = ground (
  arith,
  core-hard_problem env en (set_attempt 1 i),
  core-handlers (raise_alert_log_entry (set_state_type soft (set_attempt 1 i))),
  core-alert (set_state_type soft (set_attempt 1 i)),
)

core-soft_problem :
    (env : Env) (dep en : Bool) (i : Item)
    → core (soft_problem env dep en i) ≡ (
      i.conf,
      let n = next_attempt i.conf dep i.status in
          to (if leb i.max_check_attempts n then hard else i.state_type) n i.status,
    )
unfolding soft_problem set_state_type add_attempt is_max_attempts
core-soft_problem env dep en i =
    let counted = if dep then i else add_attempt i in
    let unacked = unacknowledge_problem_if_not_sticky counted in
    ground (
      arith,
      core-unacknowledge_if counted,
      core-hard_problem env en counted,
      core-hard_problem env en unacked,
      core-handlers (raise_alert_log_entry counted),
      core-handlers (raise_alert_log_entry unacked),
      core-alert counted,
      core-alert unacked,
    )

pub core-phase : (i : Item) → core (update_hard_unknown_phase_state i) ≡ core i
unfolding update_hard_unknown_phase_state
core-phase i = ground arith

core-renotify : (env : Env) (en : Bool) (i : Item) → core (renotify env en i) ≡ core i
unfolding renotify
core-renotify env en i =
    let unacked = unacknowledge_problem_if_not_sticky i in
    let dropped = remove_in_progress_notifications true (raise_alert_log_entry unacked) in
    core-handlers (notify_if en env dropped)
    ∙ core-notify_if en env dropped
    ∙ core-remove true (raise_alert_log_entry unacked)
    ∙ core-alert unacked
    ∙ core-unacknowledge_if i

core-hard_change : (env : Env) (en : Bool) (i : Item) → core (hard_change env en i) ≡ core i
unfolding hard_change
core-hard_change env en i =
    let phased = update_hard_unknown_phase_state i in
    ground (
      arith,
      core-phase i,
      core-renotify env en phased,
      core-notify_if en env (remove_in_progress_notifications true i),
      core-remove true i,
    )

core-notify_missing : (env : Env) (en : Bool) (i : Item) → core (notify_missing env en i) ≡ core i
unfolding notify_missing
core-notify_missing env en i =
    let dropped = remove_in_progress_notifications true i in
    ground (arith, core-create env NotificationType.problem dropped, core-remove true i)

pub core-still : (env : Env) (en : Bool) (i : Item) → core (still_hard_problem env en i) ≡ core i
unfolding still_hard_problem
core-still env en i =
    let changed = hard_change env en i in
    core-notify_missing env en (raise_problem_if en changed)
    ∙ core-raise_problem_if en changed
    ∙ core-hard_change env en i

-- The branches of `consume_result` leave the item in the configuration it had and in the status
-- that the abstract machine prescribes, whatever the notifications, acknowledgements and downtimes.
pub handle_state-next_status :
    (env : Env) (dependent enable : Bool) (code : ℕ) (i : Item)
    → core (handle_state env dependent enable code i)
      ≡ (i.conf, next_status i.conf dependent code i.status)
unfolding handle_state next_status
handle_state-next_status env dep en code i = ground (
  arith,
  core-stay_ok i,
  core-recover env dep en i,
  core-volatile_problem env en i,
  core-new_problem env en i,
  core-soft_problem env dep en i,
  core-still env en i,
)
