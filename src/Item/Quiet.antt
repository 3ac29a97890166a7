-- ===== src/Item/Quiet.antt =====
-- Results that raise no PROBLEM and no RECOVERY notification: those that leave the item soft, and
-- those whose actions the items depended on disable.
use alignak.Prelude.{
  ℕ, ◌+◌, ◌≡◌, refl, ◌∙◌, Bool, true, false, Option, none, some, List, [], ◌∷◌, ◌++◌, arith,
  Bool-cases, inl, inr, if◌then◌else◌,
}
use alignak.Item.Kinds.{NotificationType, downtime_start}
use alignak.Item.Checks.{Env}
use alignak.Item.Types.{
  Item, Downtime, Acknowledge, Action, notification, event_handler, acknowledge_expire,
  Notification,
}
use alignak.Item.Logs.{raise_alert_log_entry, raise_enter_downtime_log_entry, add_brok, add_action}
use alignak.Item.Notifications.{
  create_notifications, remove_in_progress_notifications, get_event_handlers, is_state_type,
  wished_time, notification_numbers, next_valid_time,
}
use alignak.Item.Acknowledging.{
  acknowledge_problem, acknowledge_own_problem, unacknowledge_problem, del_comment_of,
  unacknowledge_problem_if_not_sticky,
}
use alignak.Item.Downtimes.{
  enter, place, announce_enter, start_flexible, check_for_flexible_downtime, may_start,
}

-- The PROBLEM and RECOVERY notifications in a queue of actions.
abbrev pub alerts : List Action → ℕ
alerts [] = 0
alerts (notification n ∷ rest) = (if is_state_type n.n_type then 1 else 0) + alerts rest
alerts (event_handler ∷ rest) = alerts rest

alerts-append : (xs ys : List Action) → alerts (xs ++ ys) ≡ alerts xs + alerts ys
alerts-append [] ys = omega arith
alerts-append (notification n ∷ xs) ys = omega (arith, alerts-append xs ys)
alerts-append (event_handler ∷ xs) ys = alerts-append xs ys

-- Those that the item has queued.
abbrev pub sent : Item → ℕ
sent i = alerts i.actions

sent-add : (a : Action) (i : Item) → sent (add_action a i) ≡ sent i + alerts (a ∷ [])
unfolding add_action
sent-add a i = alerts-append i.actions (a ∷ [])

pub sent-create :
    (env : Env) (t : NotificationType) (i : Item)
    → is_state_type t ≡ false
    → sent (create_notifications env t i) ≡ sent i
unfolding create_notifications add_action
sent-create env t i h =
    let (number, own) = notification_numbers t i.current_notification_number in
    let notif : Notification = record {
      n_type = t;
      notif_nb = number;
      t_to_go = next_valid_time env.notification_period (wished_time env t i);
      has_contact = false;
    } in
    ground (arith, alerts-append i.actions (notification notif ∷ []))

pub sent-handlers : (i : Item) → sent (get_event_handlers i) ≡ sent i
unfolding get_event_handlers
sent-handlers i = ground (arith, alerts-append i.actions (event_handler ∷ []))

pub sent-alert : (i : Item) → sent (raise_alert_log_entry i) ≡ sent i
unfolding raise_alert_log_entry
sent-alert i = ground arith

pub sent-remove : (m : Bool) (i : Item) → sent (remove_in_progress_notifications m i) ≡ sent i
unfolding remove_in_progress_notifications
sent-remove m i = refl

sent-del_comment_of : (a : Option Acknowledge) (i : Item) → sent (del_comment_of a i) ≡ sent i
unfolding del_comment_of
sent-del_comment_of none i = refl
sent-del_comment_of (some a) i = refl

pub sent-unacknowledge : (i : Item) → sent (unacknowledge_problem i) ≡ sent i
unfolding unacknowledge_problem
sent-unacknowledge i =
    ground (arith, sent-del_comment_of i.acknowledgement (add_brok acknowledge_expire i))

pub sent-unacknowledge_if : (i : Item) → sent (unacknowledge_problem_if_not_sticky i) ≡ sent i
unfolding unacknowledge_problem_if_not_sticky
sent-unacknowledge_if i = ground (arith, sent-unacknowledge i)

sent-acknowledge_own :
    (env : Env) (s : ℕ) (n : Bool) (e : ℕ) (i : Item)
    → sent (acknowledge_own_problem env s n e i) ≡ sent i
unfolding acknowledge_own_problem
sent-acknowledge_own env s n e i = ground (
  arith,
  sent-del_comment_of i.acknowledgement i,
  sent-create env NotificationType.acknowledgement i refl,
  sent-create env NotificationType.acknowledgement (del_comment_of i.acknowledgement i) refl,
)

sent-acknowledge :
    (env : Env) (s : ℕ) (n : Bool) (e : ℕ) (i : Item)
    → sent (acknowledge_problem env s n e i) ≡ sent i
unfolding acknowledge_problem
sent-acknowledge env s n e i = ground (arith, sent-acknowledge_own env s n e i)

sent-announce_enter : (env : Env) (i : Item) → sent (announce_enter env i).0 ≡ sent i
unfolding announce_enter
sent-announce_enter env i =
    let logged = raise_enter_downtime_log_entry i in
    let notified = create_notifications env downtime_start logged in
    ground
      (arith, sent-create env downtime_start logged refl, sent-acknowledge env 2 true 0 notified)

sent-enter : (env : Env) (d : Downtime) (i : Item) → sent (enter env d i).0 ≡ sent i
unfolding enter place
sent-enter env d i = ground (arith, sent-announce_enter env (place env d i))

sent-start_flexible :
    (env : Env) (ds : List Downtime) (i : Item) (b : Bool)
    → sent (start_flexible env ds (i, b)).0 ≡ sent i
unfolding start_flexible
sent-start_flexible env [] i b = refl
sent-start_flexible env (d ∷ ds) i b = elim (Bool-cases (may_start d i)) [
  | inl e ↦ rw (e, start_flexible) (sent-start_flexible env ds _ true ∙ sent-enter env d i)
  | inr e ↦ rw (e, start_flexible) (sent-start_flexible env ds i b)
]

pub sent-flexible : (env : Env) (i : Item) → sent (check_for_flexible_downtime env i) ≡ sent i
unfolding check_for_flexible_downtime
sent-flexible env i = ground (arith, sent-start_flexible env i.downtimes i false)
