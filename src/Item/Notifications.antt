-- ===== src/Item/Notifications.antt =====
-- Notifications of an item: `is_blocking_notifications` of alignak/objects/host.py and service.py,
-- and `create_notifications`, `remove_in_progress_notifications` and `get_event_handlers` of
-- alignak/objects/schedulingitem.py.
use alignak.Prelude.{
  ℕ, suc, ◌+◌, ◌*◌, min, Bool, true, false, not, ◌&&◌, ◌||◌, Option, none, some, List, [], ◌∷◌,
  ◌++◌, ltb, ◌==◌, if◌then◌else◌, keep, elem, exceeds,
}
use alignak.Item.Kinds.{
  MyType, host, service, State, up, down, unreachable, ok, warning, critical, unknown, same,
  StateType, soft, hard, NotificationType, problem, recovery, acknowledgement, flapping_start,
  flapping_stop, flapping_disabled, downtime_start, downtime_end, downtime_cancelled, custom,
}
use alignak.Item.Checks.{Env}
use alignak.Item.Types.{Item, Timeperiod, Notification, notification, event_handler}
use alignak.Item.Logs.{add_action, raise_event_handler_log_entry}

-- `n_type in (FLAPPINGSTART, FLAPPINGSTOP, FLAPPINGDISABLED)`
abbrev pub is_flapping_type : NotificationType → Bool
is_flapping_type flapping_start = true
is_flapping_type flapping_stop = true
is_flapping_type flapping_disabled = true
is_flapping_type _ = false

-- `n_type in (DOWNTIMESTART, DOWNTIMEEND, DOWNTIMECANCELLED)`
abbrev pub is_downtime_type : NotificationType → Bool
is_downtime_type downtime_start = true
is_downtime_type downtime_end = true
is_downtime_type downtime_cancelled = true
is_downtime_type _ = false

-- `n_type in (PROBLEM, RECOVERY)`
abbrev pub is_state_type : NotificationType → Bool
is_state_type problem = true
is_state_type recovery = true
is_state_type _ = false

abbrev pub is_problem_type : NotificationType → Bool
is_problem_type problem = true
is_problem_type _ = false

abbrev pub is_acknowledgement_type : NotificationType → Bool
is_acknowledgement_type acknowledgement = true
is_acknowledgement_type _ = false

-- `n_type in (DOWNTIMEEND, DOWNTIMECANCELLED)`
abbrev pub is_downtime_over_type : NotificationType → Bool
is_downtime_over_type downtime_end = true
is_downtime_over_type downtime_cancelled = true
is_downtime_over_type _ = false

abbrev pub is_soft : StateType → Bool
is_soft soft = true
is_soft hard = false

abbrev pub ok_up : MyType → State
ok_up host = up
ok_up service = ok

-- A notification period that does not allow `t_wished`.
abbrev pub out_of_period : Option Timeperiod → ℕ → Bool
out_of_period none t_wished = false
out_of_period (some period) t_wished = not (period.is_time_valid t_wished)

-- The state's option letter is missing.
unfoldable pub host_state_is_filtered : State → List ℕ → Bool
host_state_is_filtered s options =
    (same s down && not (elem b'd' options))
    || (same s up && not (elem b'r' options))
    || (same s unreachable && not (elem b'x' options))

unfoldable pub service_state_is_filtered : State → List ℕ → Bool
service_state_is_filtered s options =
    (same s unknown && not (elem b'u' options))
    || (same s warning && not (elem b'w' options))
    || (same s critical && not (elem b'c' options))
    || (same s ok && not (elem b'r' options))
    || (same s unreachable && not (elem b'x' options))

-- The tests that stand in both methods, up to the acknowledgement of an item that is fine.
unfoldable pub is_blocked_by_configuration :
    (State → List ℕ → Bool) → Env → NotificationType → ℕ → Item → Bool
is_blocked_by_configuration filtered env t t_wished i =
    not i.enable_notifications
    || not i.notifications_enabled
    || elem b'n' i.notification_options
    || out_of_period env.notification_period t_wished
    || (is_state_type t && filtered i.state i.notification_options)
    || (is_flapping_type t && not (elem b'f' i.notification_options))
    || (is_downtime_type t && not (elem b's' i.notification_options))

unfoldable pub is_blocked_by_rule : Env → NotificationType → Item → Bool
is_blocked_by_rule env t i =
    i.got_business_rule
    && i.business_rule_smart_notifications
    && env.rule_is_blocked
    && is_problem_type t

unfoldable pub host_is_blocking_notifications : Env → NotificationType → ℕ → Item → Bool
unfolding is_blocked_by_configuration is_blocked_by_rule
host_is_blocking_notifications env t t_wished i =
    is_blocked_by_configuration host_state_is_filtered env t t_wished i
    || (is_flapping_type t && exceeds i.scheduled_downtime_depth 0)
    || (is_acknowledgement_type t && same i.state up)
    || (exceeds i.scheduled_downtime_depth 1 && not (is_downtime_over_type t))
    || (exceeds i.scheduled_downtime_depth 0 && (is_state_type t || is_acknowledgement_type t))
    || (is_soft i.state_type && is_problem_type t)
    || (i.problem_has_been_acknowledged && not (is_acknowledgement_type t || is_downtime_type t))
    || (i.is_flapping && not (is_flapping_type t))
    || is_blocked_by_rule env t i

unfoldable pub service_is_blocking_notifications : Env → NotificationType → ℕ → Item → Bool
unfolding is_blocked_by_configuration is_blocked_by_rule
service_is_blocking_notifications env t t_wished i =
    is_blocked_by_configuration service_state_is_filtered env t t_wished i
    || (is_acknowledgement_type t && same i.state ok)
    || exceeds env.host_downtime_depth 0
    || (exceeds i.scheduled_downtime_depth 1 && not (is_downtime_over_type t))
    || (exceeds i.scheduled_downtime_depth 0
        && (is_state_type t || is_acknowledgement_type t || is_flapping_type t))
    || (is_soft i.state_type && is_problem_type t)
    || (i.problem_has_been_acknowledged && not (is_acknowledgement_type t))
    || (i.is_flapping && not (is_flapping_type t))
    || not (same env.host_state up)
    || is_blocked_by_rule env t i

unfoldable pub is_blocking_notifications : Env → NotificationType → ℕ → Item → Bool
is_blocking_notifications env t t_wished i = elim i.my_type [
  | host ↦ host_is_blocking_notifications env t t_wished i
  | service ↦ service_is_blocking_notifications env t t_wished i
]

-- The smallest of the times after `reference`, 0 if there is none.
unfoldable pub earliest_after : ℕ → List ℕ → ℕ
earliest_after reference [] = 0
earliest_after reference (t ∷ ts) =
    let rest = earliest_after reference ts in
    if ltb reference t then (if rest == 0 then t else min t rest) else rest

unfoldable pub last_time_non_ok_or_up : Item → ℕ
unfolding earliest_after
last_time_non_ok_or_up i = elim i.my_type [
  | host ↦ earliest_after (i.last_time up) (i.last_time down ∷ [])
  | service ↦
      earliest_after (i.last_time ok)
        (i.last_time warning ∷ i.last_time critical ∷ i.last_time unknown ∷ [])
]

-- When the notification is wished: a first problem waits for the first notification delay.
unfoldable pub wished_time : Env → NotificationType → Item → ℕ
wished_time env t i =
    if i.current_notification_number == 0 && is_problem_type t
    then (let last = last_time_non_ok_or_up i in if last == 0 then env.now else last + 1)
      + i.first_notification_delay * i.interval_length
    else env.now

abbrev pub next_valid_time : Option Timeperiod → ℕ → Option ℕ
next_valid_time none t = some t
next_valid_time (some period) t = period.get_next_valid_time_from_t t

-- The number of the new notification, and the item's own number after it.
abbrev pub notification_numbers : NotificationType → ℕ → ℕ × ℕ
notification_numbers problem n = (suc n, n)
notification_numbers recovery n = (0, 0)
notification_numbers _ n = (n, n)

-- `create_notifications` with no wished time, the way every caller here calls it.
unfoldable pub create_notifications : Env → NotificationType → Item → Item
unfolding add_action
create_notifications env t i =
    let t_wished = wished_time env t i in
    if is_blocking_notifications env t t_wished i
      && (i.first_notification_delay == 0 && i.notification_interval == 0)
    then i
    else let (next_notif_nb, own) = notification_numbers t i.current_notification_number in
      let notif : Notification = record {
        n_type = t;
        notif_nb = next_notif_nb;
        t_to_go = next_valid_time env.notification_period t_wished;
        has_contact = false;
      } in
      add_action (notification notif) (record i {
        notifying = record {
          current_notification_number = own;
          notifications_in_progress = i.notifications_in_progress ++ notif ∷ [];
        };
      })

-- Kept by `remove_in_progress_notifications`: with `master` those of a contact, and always the
-- types that are not about the current problem.
unfoldable pub is_preserved : Bool → Notification → Bool
is_preserved master n = (master && n.has_contact) || (elim n.n_type [
  | downtime_start ↦ true
  | downtime_end ↦ true
  | downtime_cancelled ↦ true
  | custom ↦ true
  | acknowledgement ↦ true
  | _ ↦ false
])

unfoldable pub remove_in_progress_notifications : Bool → Item → Item
unfolding is_preserved
remove_in_progress_notifications master i = record i {
  notifying = record i.notifying {
    notifications_in_progress = keep (is_preserved master) i.notifications_in_progress;
  };
  out = record i.out {
    zombies = i.zombies ++ keep (λ n. not (is_preserved master n)) i.notifications_in_progress;
  };
}

-- `get_event_handlers`, not for an external command.
unfoldable pub get_event_handlers : Item → Item
unfolding raise_event_handler_log_entry add_action
get_event_handlers i =
    if not i.event_handler_enabled || not i.enable_event_handlers
    then i
    else if i.in_scheduled_downtime && i.no_event_handlers_during_downtimes
    then i
    else if i.has_event_handler || i.has_global_event_handler
    then add_action event_handler (raise_event_handler_log_entry i)
    else i
