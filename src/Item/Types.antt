-- ===== src/Item/Types.antt =====
-- The data of a monitored item: the properties of alignak/objects/schedulingitem.py, host.py and
-- service.py that its handlers read or write, grouped by concern, and of the check
-- (alignak/check.py), the acknowledgement (alignak/acknowledge.py) and the downtime
-- (alignak/downtime.py) that they work on. Times are whole seconds.
use alignak.Prelude.{ℕ, Bool, Option, List, ℤ}
use alignak.Item.Kinds.{MyType, NotificationType, State, StateType}

-- What an item asks of a time period (alignak/objects/timeperiod.py).
pub record Timeperiod : Type 0 where
  pub is_time_valid : ℕ → Bool
  pub get_next_valid_time_from_t : ℕ → Option ℕ

-- The class attributes and the configuration of an item: no handler here changes them. An absent
-- flapping threshold stands for -1. Option letters are their code points.
pub record Conf : Type 0 where
  pub my_type : MyType
  pub enable_flap_detection : Bool
  pub flap_history : ℕ
  pub global_low_flap_threshold : ℕ
  pub global_high_flap_threshold : ℕ
  pub enable_problem_impacts_states_change : Bool
  pub enable_event_handlers : Bool
  pub no_event_handlers_during_downtimes : Bool
  pub has_global_event_handler : Bool
  pub enable_notifications : Bool
  pub interval_length : ℕ
  pub log_active_checks : Bool
  pub log_alerts : Bool
  pub log_flappings : Bool
  pub log_event_handlers : Bool
  pub log_acknowledgements : Bool
  pub log_downtimes : Bool
  pub max_check_attempts : ℕ
  pub is_volatile : Bool
  pub flap_detection_enabled : Bool
  pub flap_detection_options : List ℕ
  pub low_flap_threshold : Option ℕ
  pub high_flap_threshold : Option ℕ
  pub notifications_enabled : Bool
  pub notification_options : List ℕ
  pub first_notification_delay : ℕ
  pub notification_interval : ℕ
  pub got_business_rule : Bool
  pub business_rule_smart_notifications : Bool
  pub event_handler_enabled : Bool
  pub has_event_handler : Bool
  pub freshness_threshold : ℕ

-- The state of the item and its history. `last_time` is last_time_up, last_time_down, ...
pub record Status : Type 0 where
  pub state : State
  pub last_state : State
  pub state_id : ℕ
  pub state_type : StateType
  pub last_state_type : StateType
  pub state_type_id : ℕ
  pub last_hard_state : State
  pub last_hard_state_id : ℕ
  pub attempt : ℕ
  pub return_code : ℕ
  pub has_been_checked : Bool
  pub latency : ℕ
  pub last_chk : ℕ
  pub last_state_update : ℕ
  pub last_state_change : ℕ
  pub last_hard_state_change : ℕ
  pub last_time : State → ℕ
  pub freshness_expired : Bool

-- `percent_state_change` is a float, as in Item/Doubles.
pub record Flapping : Type 0 where
  pub is_flapping : Bool
  pub flapping_changes : List Bool
  pub percent_state_change : ℕ

pub record Phase : Type 0 where
  pub in_hard_unknown_reach_phase : Bool
  pub was_in_hard_unknown_reach_phase : Bool
  pub state_before_hard_unknown_reach_phase : State

pub record Impact : Type 0 where
  pub is_problem : Bool
  pub is_impact : Bool
  pub state_changed_since_impact : Bool
  pub state_before_impact : State
  pub state_id_before_impact : ℕ

pub record Acknowledge : Type 0 where
  pub sticky : Bool
  pub notify : Bool
  pub end_time : ℕ
  pub comment_id : ℕ

pub record Acknowledging : Type 0 where
  pub problem_has_been_acknowledged : Bool
  pub acknowledgement : Option Acknowledge

-- An absent trigger stands for '' and '0'.
pub record Downtime : Type 0 where
  pub uuid : ℕ
  pub fixed : Bool
  pub start_time : ℕ
  pub end_time : ℕ
  pub duration : ℕ
  pub real_end_time : ℕ
  pub trigger_id : Option ℕ
  pub activate_me : List ℕ
  pub comment_id : ℕ
  pub is_in_effect : Bool
  pub can_be_deleted : Bool

pub record InDowntime : Type 0 where
  pub downtimes : List Downtime
  pub scheduled_downtime_depth : ℤ
  pub in_scheduled_downtime : Bool
  pub in_scheduled_downtime_during_last_check : Bool

pub record Notification : Type 0 where
  pub n_type : NotificationType
  pub notif_nb : ℕ
  pub t_to_go : Option ℕ
  pub has_contact : Bool

-- The dict notifications_in_progress as a list: its keys are fresh for each notification.
pub record Notifying : Type 0 where
  pub current_notification_number : ℕ
  pub notifications_in_progress : List Notification

pub record Ids : Type 0 where
  pub current_event_id : ℕ
  pub last_event_id : ℕ
  pub current_problem_id : ℕ
  pub last_problem_id : ℕ

pub record Checking : Type 0 where
  pub checks_in_progress : List ℕ
  pub in_checking : Bool

-- The monitoring log entries (`raise_..._log_entry`).
pub data Log : Type 0 where
  active_check : State → ℕ → Log
  alert : State → StateType → ℕ → Log
  flapping_started flapping_stopped event_handled acknowledged unacknowledged downtime_entered
        downtime_exited downtime_cancelled :
      Log
  freshness : ℕ → Log

pub data Brok : Type 0 where
  update_status check_result acknowledge_raise acknowledge_expire downtime_raise downtime_expire :
      Brok
  monitoring_log : Log → Brok

pub data Action : Type 0 where
  notification : Notification → Action
  event_handler : Action

-- The calls that an item makes on other items, in their order.
pub data Call : Type 0 where
  set_myself_as_problem no_more_a_problem : Call
  acknowledge_services : ℕ → Bool → ℕ → Call
  enter_downtime : ℕ → Call
  cancel_downtime : ℕ → Call
  launch_check : ℕ → Call
  wait_for_check : ℕ → Call

-- What leaves the item: the broks and actions for the scheduler, the notifications whose status it
-- set to zombie, and the calls on other items.
pub record Out : Type 0 where
  pub broks : List Brok
  pub actions : List Action
  pub zombies : List Notification
  pub calls : List Call

pub record Item : Type 0 where
  pub conf : Conf
  pub open conf use *
  pub status : Status
  pub open status use *
  pub flapping : Flapping
  pub open flapping use *
  pub phase : Phase
  pub open phase use *
  pub impact : Impact
  pub open impact use *
  pub acknowledging : Acknowledging
  pub open acknowledging use *
  pub in_downtime : InDowntime
  pub open in_downtime use *
  pub notifying : Notifying
  pub open notifying use *
  pub ids : Ids
  pub open ids use *
  pub checking : Checking
  pub open checking use *
  pub out : Out
  pub open out use *
  pub comments : List ℕ
