-- ===== src/Item/Silence.antt =====
-- Results of `consume_result` that raise no PROBLEM and no RECOVERY notification: those that leave the
-- item soft, and those whose actions are disabled by the items that it depends on.
use alignak.Prelude.{ℕ, ◌≡◌, ◌⊎◌, refl, ◌∙◌, Bool, true, false, not, arith, if◌then◌else◌}
use alignak.Item.Kinds.{NotificationType, soft, hard, same}
use alignak.Item.Checks.{Env, Check, Counters}
use alignak.Item.Types.{Item}
use alignak.Item.Logs.{
  raise_alert_log_entry, raise_flapping_stop_log_entry, raise_flapping_start_log_entry,
  raise_check_result,
}
use alignak.Item.Notifications.{remove_in_progress_notifications}
use alignak.Item.Acknowledging.{unacknowledge_problem, unacknowledge_problem_if_not_sticky}
use alignak.Item.Downtimes.{check_for_flexible_downtime}
use alignak.Item.Flap.{
  update_flapping, add_flapping_change, stop_flapping, start_flapping, state_change_rate,
}
use alignak.Item.States.{
  set_state_from_exit_status, sample_flapping, move_state, set_attempt, set_state_type, add_attempt,
  update_hard_unknown_phase_state, update_event_and_problem_id, update_problem_id, set_unreachable,
}
use alignak.Item.Dependencies.{check_and_set_unreachability}
use alignak.Item.Branches.{
  handle_state, stay_ok, recover, recover_soft, recover_hard, end_problem, volatile_problem,
  hard_problem, new_problem, soft_problem, still_hard_problem, hard_change, renotify,
  notify_missing,
}
use alignak.Item.Consume.{
  digest, prepare, update_information, check_is_done, receive, take_code, finish, settle_item,
  report, taken_status, actions_enabled,
}
use alignak.Item.Machine.{core-recover, core-volatile_problem, core-hard_problem, core-still}
use alignak.Item.Outcome.{core-finish}
use alignak.Item.Quiet.{
  sent, sent-create, sent-handlers, sent-alert, sent-remove, sent-unacknowledge,
  sent-unacknowledge_if, sent-flexible,
}

sent-stay_ok : (i : Item) → sent (stay_ok i) ≡ sent i
unfolding stay_ok set_state_type set_attempt
sent-stay_ok i = ground (arith, sent-unacknowledge i)

sent-recover_soft : (dep : Bool) (i : Item) → sent (recover_soft dep i) ≡ sent i
unfolding recover_soft set_state_type set_attempt add_attempt
sent-recover_soft dep i =
    let counted = if dep then i else add_attempt i in
    ground (arith, sent-handlers (raise_alert_log_entry counted), sent-alert counted)

sent-recover : (env : Env) (dep : Bool) (i : Item) → sent (recover env dep false i) ≡ sent i
unfolding recover recover_hard end_problem set_attempt
sent-recover env dep i =
    let j = unacknowledge_problem i in
    let dropped = remove_in_progress_notifications true (raise_alert_log_entry j) in
    ground (
      arith,
      sent-unacknowledge i,
      sent-recover_soft dep j,
      sent-handlers dropped,
      sent-remove true (raise_alert_log_entry j),
      sent-alert j,
    )

sent-hard_problem : (env : Env) (i : Item) → sent (hard_problem env false i) ≡ sent i
unfolding hard_problem set_state_type
sent-hard_problem env i =
    let logged = raise_alert_log_entry (set_state_type hard i) in
    let dropped = remove_in_progress_notifications true logged in
    sent-handlers (check_for_flexible_downtime env dropped)
    ∙ sent-flexible env dropped
    ∙ sent-remove true logged
    ∙ sent-alert (set_state_type hard i)

sent-volatile : (env : Env) (i : Item) → sent (volatile_problem env false i) ≡ sent i
unfolding volatile_problem set_state_type set_attempt
sent-volatile env i =
    let logged = raise_alert_log_entry (set_state_type hard (set_attempt 1 i)) in
    let downtimed = check_for_flexible_downtime env logged in
    sent-handlers (remove_in_progress_notifications true downtimed)
    ∙ sent-remove true downtimed
    ∙ sent-flexible env logged
    ∙ sent-alert (set_state_type hard (set_attempt 1 i))

-- A soft or a hard new problem: quiet unless it is hard with its actions enabled.
sent-new_problem :
    (env : Env) (en : Bool) (i : Item)
    → ((new_problem env en i).state_type ≡ soft) ⊎ (en ≡ false)
    → sent (new_problem env en i) ≡ sent i
unfolding new_problem set_state_type set_attempt
sent-new_problem env en i h =
    let j = set_attempt 1 i in
    let logged = raise_alert_log_entry (set_state_type soft j) in
    ground (
      arith,
      sent-hard_problem env j,
      core-hard_problem env en j,
      sent-handlers logged,
      sent-alert (set_state_type soft j),
    )

sent-soft_problem :
    (env : Env) (dep en : Bool) (i : Item)
    → ((soft_problem env dep en i).state_type ≡ soft) ⊎ (en ≡ false)
    → sent (soft_problem env dep en i) ≡ sent i
unfolding soft_problem set_state_type add_attempt
sent-soft_problem env dep en i h =
    let counted = if dep then i else add_attempt i in
    let unacked = unacknowledge_problem_if_not_sticky counted in
    ground (
      arith,
      sent-unacknowledge_if counted,
      sent-hard_problem env counted,
      sent-hard_problem env unacked,
      core-hard_problem env en counted,
      core-hard_problem env en unacked,
      sent-handlers (raise_alert_log_entry counted),
      sent-handlers (raise_alert_log_entry unacked),
      sent-alert counted,
      sent-alert unacked,
    )

sent-phase : (i : Item) → sent (update_hard_unknown_phase_state i) ≡ sent i
unfolding update_hard_unknown_phase_state
sent-phase i = ground arith

sent-renotify : (env : Env) (i : Item) → sent (renotify env false i) ≡ sent i
unfolding renotify
sent-renotify env i =
    let unacked = unacknowledge_problem_if_not_sticky i in
    sent-handlers (remove_in_progress_notifications true (raise_alert_log_entry unacked))
    ∙ sent-remove true (raise_alert_log_entry unacked)
    ∙ sent-alert unacked
    ∙ sent-unacknowledge_if i

sent-still : (env : Env) (i : Item) → sent (still_hard_problem env false i) ≡ sent i
unfolding still_hard_problem notify_missing hard_change
sent-still env i =
    let phased = update_hard_unknown_phase_state i in
    ground (arith, sent-phase i, sent-renotify env phased, sent-remove true i)

sent-handle_state :
    (env : Env) (dep en : Bool) (code : ℕ) (i : Item)
    → ((handle_state env dep en code i).state_type ≡ soft) ⊎ (en ≡ false)
    → sent (handle_state env dep en code i) ≡ sent i
unfolding handle_state
sent-handle_state env dep en code i h = ground (
  arith,
  sent-stay_ok i,
  sent-recover env dep i,
  core-recover env dep en i,
  sent-volatile env i,
  core-volatile_problem env en i,
  sent-new_problem env en i,
  sent-soft_problem env dep en i,
  sent-still env i,
  core-still env en i,
)

sent-stop_flapping : (env : Env) (i : Item) → sent (stop_flapping env i) ≡ sent i
unfolding stop_flapping raise_flapping_stop_log_entry
sent-stop_flapping env i =
    let unset = record i { flapping = record i.flapping { is_flapping = false } } in
    let dropped = remove_in_progress_notifications true (raise_flapping_stop_log_entry unset) in
    ground (
      arith,
      sent-create env NotificationType.flapping_stop dropped refl,
      sent-remove true (raise_flapping_stop_log_entry unset),
    )

sent-start_flapping : (env : Env) (i : Item) → sent (start_flapping env i) ≡ sent i
unfolding start_flapping raise_flapping_start_log_entry
sent-start_flapping env i =
    let set = record i { flapping = record i.flapping { is_flapping = true } } in
    let dropped = remove_in_progress_notifications true (raise_flapping_start_log_entry set) in
    ground (
      arith,
      sent-create env NotificationType.flapping_start dropped refl,
      sent-remove true (raise_flapping_start_log_entry set),
    )

sent-update_flapping : (env : Env) (i : Item) → sent (update_flapping env i) ≡ sent i
unfolding update_flapping
sent-update_flapping env i =
    let res = state_change_rate i.flap_history i.flapping_changes in
    let rated = record i { flapping = record i.flapping { percent_state_change = res } } in
    ground (
      arith,
      sent-stop_flapping env rated,
      sent-start_flapping env rated,
      sent-start_flapping env (stop_flapping env rated),
    )

sent-sample : (env : Env) (i : Item) → sent (sample_flapping env i) ≡ sent i
unfolding sample_flapping add_flapping_change
sent-sample env i =
    ground
      (arith, sent-update_flapping env (add_flapping_change (not (same i.state i.last_state)) i))

sent-informed :
    (env : Env) (chk : Check) (code : ℕ) (i : Item)
    → sent (update_information env chk code i) ≡ sent i
unfolding update_information take_code set_state_from_exit_status move_state receive
sent-informed env chk code i = sent-sample env (move_state code (receive env chk i))

sent-prepare :
    (env : Env) (raise_log : Bool) (chk : Check) (i : Item)
    → sent (prepare env raise_log chk i) ≡ sent i
unfolding prepare check_is_done check_and_set_unreachability set_unreachable raise_check_result
sent-prepare env raise_log chk i =
    ground (arith, sent-informed env chk (taken_status env chk i.my_type) i)

sent-event : (c : Counters) (i : Item) → sent (update_event_and_problem_id c i).1 ≡ sent i
unfolding update_event_and_problem_id update_problem_id
sent-event c i = ground arith

sent-report : (env : Env) (chk : Check) (i : Item) → sent (report env chk i) ≡ sent i
unfolding report
sent-report env chk i = ground arith

sent-finish :
    (env : Env) (chk : Check) (c : Counters) (i : Item) → sent (finish env chk c i).1 ≡ sent i
unfolding finish settle_item
sent-finish env chk c i =
    let settled = settle_item env chk (update_hard_unknown_phase_state i) in
    sent-report env chk (update_event_and_problem_id c settled).1
    ∙ sent-event c settled
    ∙ sent-phase i

type-finish :
    (env : Env) (chk : Check) (c : Counters) (i : Item)
    → (finish env chk c i).1.state_type ≡ i.state_type
type-finish env chk c i = ground (arith, core-finish env chk c i)

-- A result that leaves the item soft, or whose actions its dependencies disable, queues neither a
-- PROBLEM nor a RECOVERY notification.
pub digest_silent :
    (env : Env) (raise_log : Bool) (chk : Check) (c : Counters) (i : Item)
    → ((digest env raise_log chk c i).1.state_type ≡ soft) ⊎ (actions_enabled env chk ≡ false)
    → sent (digest env raise_log chk c i).1 ≡ sent i
unfolding digest
digest_silent env raise_log chk c i h =
    let code = taken_status env chk i.my_type in
    let prepared = prepare env raise_log chk i in
    let en = actions_enabled env chk in
    let handled = handle_state env chk.dependency_check en code prepared in
    ground (
      arith,
      sent-finish env chk c handled,
      type-finish env chk c handled,
      sent-handle_state env chk.dependency_check en code prepared,
      sent-prepare env raise_log chk i,
    )
