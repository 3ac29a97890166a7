-- ===== src/Item/Recovery.antt =====
-- What a result 0 does to an item in `consume_result`: it ends the acknowledgement, and the item is
-- hard again at its first attempt.
use alignak.Prelude.{ℕ, ◌≡◌, ◌∙◌, Bool, true, false, not, ◌&&◌, arith, if◌then◌else◌}
use alignak.Item.Kinds.{NotificationType, hard, same, pending, recovery}
use alignak.Item.Checks.{Env, Check, Counters}
use alignak.Item.Types.{Item, Conf, Status}
use alignak.Item.Logs.{raise_alert_log_entry}
use alignak.Item.Notifications.{
  create_notifications, remove_in_progress_notifications, get_event_handlers, is_soft,
}
use alignak.Item.Acknowledging.{unacknowledge_problem}
use alignak.Item.States.{
  set_attempt, set_state_type, add_attempt, update_hard_unknown_phase_state,
  update_event_and_problem_id, update_problem_id,
}
use alignak.Item.Branches.{handle_state, stay_ok, recover, recover_soft, recover_hard, end_problem}
use alignak.Item.Consume.{
  digest, prepare, finish, settle_item, report, settle, taken_status, actions_enabled,
}
use alignak.Item.Machine.{next_status, was_fine}
use alignak.Item.Outcome.{observe, digest-next_status}

abbrev flag : Item → Bool
flag i = i.problem_has_been_acknowledged

flag-create :
    (env : Env) (t : NotificationType) (i : Item) → flag (create_notifications env t i) ≡ flag i
unfolding create_notifications
flag-create env t i = ground arith

flag-handlers : (i : Item) → flag (get_event_handlers i) ≡ flag i
unfolding get_event_handlers
flag-handlers i = ground arith

flag-alert : (i : Item) → flag (raise_alert_log_entry i) ≡ flag i
unfolding raise_alert_log_entry
flag-alert i = ground arith

flag-unacknowledge : (i : Item) → flag (unacknowledge_problem i) ≡ false
unfolding unacknowledge_problem
flag-unacknowledge i = ground arith

flag-recover_soft : (dep : Bool) (i : Item) → flag (recover_soft dep i) ≡ flag i
unfolding recover_soft set_attempt set_state_type add_attempt
flag-recover_soft dep i =
    let counted = if dep then i else add_attempt i in
    ground (arith, flag-handlers (raise_alert_log_entry counted), flag-alert counted)

flag-recover_hard : (env : Env) (en : Bool) (i : Item) → flag (recover_hard env en i) ≡ flag i
unfolding recover_hard set_attempt end_problem remove_in_progress_notifications
flag-recover_hard env en i =
    let dropped = remove_in_progress_notifications true (raise_alert_log_entry i) in
    let notified = if en then create_notifications env recovery dropped else dropped in
    ground (arith, flag-handlers notified, flag-create env recovery dropped, flag-alert i)

flag-handle_state :
    (env : Env) (dep en : Bool) (i : Item) → flag (handle_state env dep en 0 i) ≡ false
unfolding handle_state stay_ok recover set_attempt set_state_type
flag-handle_state env dep en i =
    let j = unacknowledge_problem i in
    ground (arith, flag-unacknowledge i, flag-recover_soft dep j, flag-recover_hard env en j)

flag-event : (c : Counters) (i : Item) → flag (update_event_and_problem_id c i).1 ≡ flag i
unfolding update_event_and_problem_id update_problem_id
flag-event c i = ground arith

flag-report : (env : Env) (chk : Check) (i : Item) → flag (report env chk i) ≡ flag i
unfolding report
flag-report env chk i = ground arith

flag-finish :
    (env : Env) (chk : Check) (c : Counters) (i : Item) → flag (finish env chk c i).1 ≡ flag i
unfolding finish settle_item update_hard_unknown_phase_state
flag-finish env chk c i =
    let settled = settle_item env chk (update_hard_unknown_phase_state i) in
    ground
      (arith, flag-report env chk (update_event_and_problem_id c settled).1, flag-event c settled)

-- Soft although it was fine: a state that only a modified status brings about.
abbrev pub is_odd : Conf → Status → Bool
is_odd c s = was_fine c s && (is_soft s.state_type && not (same s.last_state pending))

settle_hard :
    (now : ℕ) (fresh : Bool) (s : Status)
    → (s.state_type ≡ hard) × (s.attempt ≡ 1)
    → ((settle now fresh s).state_type ≡ hard) × ((settle now fresh s).attempt ≡ 1)
settle_hard now fresh s h = ground arith

next_hard :
    (c : Conf) (dependent : Bool) (code : ℕ) (s : Status)
    → code ≡ 0
    → is_odd c s ≡ false
    → let t = next_status c dependent code s in (t.state_type ≡ hard) × (t.attempt ≡ 1)
unfolding next_status
next_hard c dependent code s z e = ground arith

settled_hard :
    (env : Env) (raise_log : Bool) (chk : Check) (c : Counters) (i : Item)
    → taken_status env chk i.my_type ≡ 0
    → is_odd i.conf (observe env chk i) ≡ false
    → let j = (digest env raise_log chk c i).1 in (j.state_type ≡ hard) × (j.attempt ≡ 1)
settled_hard env raise_log chk c i z e =
    let s = observe env chk i in
    let t = next_status i.conf chk.dependency_check (taken_status env chk i.my_type) s in
    let u : (t.state_type ≡ hard) × (t.attempt ≡ 1) =
      next_hard i.conf chk.dependency_check (taken_status env chk i.my_type) s z e in
    let v = settle_hard env.now chk.freshness_expiry_check t u in
    ground (arith, digest-next_status env raise_log chk c i, v)

-- A result 0 that does not wait leaves no acknowledgement of a problem, and leaves the item hard at
-- its first attempt, unless the item was soft while its last state was fine.
pub digest_recovery :
    (env : Env) (raise_log : Bool) (chk : Check) (c : Counters) (i : Item)
    → taken_status env chk i.my_type ≡ 0
    → is_odd i.conf (observe env chk i) ≡ false
    → let j = (digest env raise_log chk c i).1 in
      (j.problem_has_been_acknowledged ≡ false) × (j.state_type ≡ hard) × (j.attempt ≡ 1)
unfolding digest
digest_recovery env raise_log chk c i z e =
    let prepared = prepare env raise_log chk i in
    let en = actions_enabled env chk in
    let code = taken_status env chk i.my_type in
    let h = settled_hard env raise_log chk c i z e in
    let f : flag (handle_state env chk.dependency_check en code prepared) ≡ false =
      rw z (flag-handle_state env chk.dependency_check en prepared) in
    (flag-finish env chk c (handle_state env chk.dependency_check en code prepared) ∙ f, h.0, h.1)
