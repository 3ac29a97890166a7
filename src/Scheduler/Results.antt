-- ===== src/Scheduler/Results.antt =====
-- `manage_results` and `clean_queues` of alignak/scheduler.py: what workers return, and what is
-- dropped when there is too much.
use alignak.Prelude.{suc, Bool, not, ◌&&◌, ◌||◌, none, some, if◌then◌else◌}
use alignak.Item.Kinds.{wait_consume, zombie}
use alignak.Scheduler.Jobs.{
  Job, a_check, a_notification, an_event_handler, find, is_in, update, is_timeout,
}
use alignak.Scheduler.Queues.{
  Scheduler, Statistics, update_status_brok, snapshot_brok, remove_in_progress_notification,
  last_notification, emit,
}

-- The result is managed, or a KeyError leaves the method, with the state that it leaves.
pub data Managed : Type 0 where
  managed : Scheduler → Managed
  key_error : Scheduler → Managed

-- `get_return_from`, of which the exit status and the time of the check are kept.
abbrev pub get_return_from : Job → Job → Job
get_return_from result c = record c {
  exit_status = result.exit_status;
  check_time = result.check_time;
}

abbrev pub count_action : Bool → Statistics → Statistics
count_action timed_out t =
    if timed_out
    then record t { nb_actions_results_timeout = suc t.nb_actions_results_timeout }
    else record t { nb_actions_results = suc t.nb_actions_results }

unfoldable pub manage_notification : Job → Scheduler → Managed
manage_notification a s = elim (find a.uuid s.actions) [
  | none ↦ managed s
  | some n ↦
      managed
        (record (emit (update_status_brok n.ref) (
          emit (last_notification n.ref a.check_time)
            (emit (remove_in_progress_notification n.ref a.uuid) s))) {
              actions =
                  update a.uuid (λ k. record k { exit_status = a.exit_status; status = zombie })
                    s.actions;
              statistics = count_action (is_timeout a.status) s.statistics;
            })
]

abbrev pub count_check : Bool → Bool → Statistics → Statistics
count_check timed_out passive t =
    if timed_out
    then record t { nb_checks_results_timeout = suc t.nb_checks_results_timeout }
    else if passive
    then record t {
      nb_checks_results = suc t.nb_checks_results;
      nb_checks_results_passive = suc t.nb_checks_results_passive;
    }
    else record t {
      nb_checks_results = suc t.nb_checks_results;
      nb_checks_results_active = suc t.nb_checks_results_active;
    }

-- What the queued check takes from a result. A timeout sets `timeout_exit_status` in the result.
abbrev pub take_result : Job → Job → Job
take_result a c =
    let returned = if is_timeout a.status || a.passive_check then c else get_return_from a c in
    record returned { status = wait_consume }

unfoldable pub manage_check : Job → Scheduler → Managed
manage_check a s = elim (find a.uuid s.checks) [
  | none ↦ managed s
  | some c ↦ managed (record s {
    checks = update a.uuid (take_result a) s.checks;
    statistics = count_check (is_timeout a.status) a.passive_check s.statistics;
  })
]

-- The log of a timeout looks the action up among the checks.
unfoldable pub manage_event_handler : Job → Scheduler → Managed
manage_event_handler a s = elim (find a.uuid s.actions) [
  | none ↦ managed s
  | some old_action ↦
      let returned = λ (k : Job). if a.is_snapshot then get_return_from a k else k in
      let dead = record s {
        actions = update a.uuid (λ k. record k { status = zombie }) s.actions;
      } in
      let counted = record dead {
        actions = update a.uuid returned dead.actions;
        statistics = count_action (is_timeout a.status) s.statistics;
      } in
      let done = if a.is_snapshot then emit (snapshot_brok old_action.ref) counted else counted in
      if is_timeout a.status && not (is_in a.uuid s.checks) then key_error dead else managed done
]

unfoldable pub manage_results : Job → Scheduler → Managed
manage_results a s = elim a.is_a [
  | a_notification ↦ manage_notification a s
  | a_check ↦ manage_check a s
  | an_event_handler ↦ manage_event_handler a s
]
