-- ===== src/Scheduler/Queues.antt =====
-- The state of the class `Scheduler` of alignak/scheduler.py, and what enters and leaves its queues.
--
-- Broks to the brokers and changes of items are recorded in their order (`Effect`).
use alignak.Prelude.{ℕ, suc, Bool, not, none, some, List, [], ◌∷◌, ◌++◌, if◌then◌else◌, keep}
use alignak.Scheduler.Jobs.{Job, a_check, a_notification, an_event_handler, is_in, is_zombie}

pub data Effect : Type 0 where
  next_schedule_brok : (ref : ℕ) → Effect
  initial_status_brok : (uuid : ℕ) → Effect
  update_status_brok : (ref : ℕ) → Effect
  snapshot_brok : (ref : ℕ) → Effect
  remove_in_progress_notification : (ref uuid : ℕ) → Effect
  remove_in_progress_check : (ref uuid : ℕ) → Effect
  last_notification : (ref time : ℕ) → Effect

-- The counters of a scheduler.
pub record Statistics : Type 0 where
  pub nb_checks : ℕ
  pub nb_notifications : ℕ
  pub nb_event_handlers : ℕ
  pub nb_checks_launched : ℕ
  pub nb_actions_launched : ℕ
  pub nb_checks_results : ℕ
  pub nb_checks_results_timeout : ℕ
  pub nb_checks_results_active : ℕ
  pub nb_checks_results_passive : ℕ
  pub nb_actions_results : ℕ
  pub nb_actions_results_timeout : ℕ
  pub nb_checks_dropped : ℕ
  pub nb_actions_dropped : ℕ

pub record Scheduler : Type 0 where
  pub checks : List Job
  pub actions : List Job
  pub statistics : Statistics
  pub open statistics use *
  pub effects : List Effect

abbrev pub emit : Effect → Scheduler → Scheduler
emit e s = record s { effects = s.effects ++ (e ∷ []) }

-- `active_checks_enabled` of the item that a check refers to is an argument.
unfoldable pub add_check : (ℕ → Bool) → Job → Scheduler → Scheduler
add_check active_checks_enabled c s =
    if is_in c.uuid s.checks
    then s
    else (let added = record s {
      checks = s.checks ++ (c ∷ []);
      statistics = record s.statistics { nb_checks = suc s.nb_checks };
    } in
        if active_checks_enabled c.ref then emit (next_schedule_brok c.ref) added else added)

unfoldable pub add_notification : Job → Scheduler → Scheduler
add_notification n s =
    if is_in n.uuid s.actions
    then s
    else (let added = record s {
      actions = s.actions ++ (n ∷ []);
      statistics = record s.statistics { nb_notifications = suc s.nb_notifications };
    } in
        elim n.contact [ none ↦ added | some c ↦ emit (initial_status_brok n.uuid) added ])

unfoldable pub add_event_handler : Job → Scheduler → Scheduler
add_event_handler a s = if is_in a.uuid s.actions then s else record s {
  actions = s.actions ++ (a ∷ []);
  statistics = record s.statistics { nb_event_handlers = suc s.nb_event_handlers };
}

-- `add` of a job, by its class.
unfoldable pub add : (ℕ → Bool) → Job → Scheduler → Scheduler
add active_checks_enabled j s = elim j.is_a [
  | a_check ↦ add_check active_checks_enabled j s
  | a_notification ↦ add_notification j s
  | an_event_handler ↦ add_event_handler j s
]

unfoldable pub delete_zombie_checks : Scheduler → Scheduler
delete_zombie_checks s = record s { checks = keep (λ c. not (is_zombie c.status)) s.checks }

unfoldable pub delete_zombie_actions : Scheduler → Scheduler
delete_zombie_actions s = record s { actions = keep (λ a. not (is_zombie a.status)) s.actions }
