-- ===== src/Item/Samples.antt =====
-- Items, checks and surroundings that the tests and examples run on.
use alignak.Prelude.{ℕ, Bool, true, false, none, some, [], ◌∷◌, pos, if◌then◌else◌}
use alignak.Item.Kinds.{
  MyType, host, service, State, up, down, critical, pending, StateType, hard, ActStatus,
  wait_consume,
}
use alignak.Item.Checks.{Env, Check, Counters, Dependency}
use alignak.Item.Types.{Item, Conf, Status, Downtime}

-- Three attempts, no flapping detection, default notification options.
abbrev pub sample_conf : MyType → Conf
sample_conf t = record {
  my_type = t;
  enable_flap_detection = true;
  flap_history = 20;
  global_low_flap_threshold = 20;
  global_high_flap_threshold = 30;
  enable_problem_impacts_states_change = false;
  enable_event_handlers = true;
  no_event_handlers_during_downtimes = true;
  has_global_event_handler = false;
  enable_notifications = true;
  interval_length = 60;
  log_active_checks = false;
  log_alerts = true;
  log_flappings = true;
  log_event_handlers = true;
  log_acknowledgements = true;
  log_downtimes = true;
  max_check_attempts = 3;
  is_volatile = false;
  flap_detection_enabled = true;
  flap_detection_options = b'o' ∷ b'd' ∷ b'x' ∷ b'w' ∷ b'c' ∷ [];
  low_flap_threshold = some 25;
  high_flap_threshold = some 50;
  notifications_enabled = true;
  notification_options = b'd' ∷ b'x' ∷ b'r' ∷ b'f' ∷ b's' ∷ b'c' ∷ b'w' ∷ [];
  first_notification_delay = 0;
  notification_interval = 0;
  got_business_rule = false;
  business_rule_smart_notifications = false;
  event_handler_enabled = true;
  has_event_handler = true;
  freshness_threshold = 0;
}

abbrev pub sample_status : State → ℕ → StateType → ℕ → Status
sample_status s id t n = record {
  state = s;
  last_state = s;
  state_id = id;
  state_type = t;
  last_state_type = t;
  state_type_id = 1;
  last_hard_state = s;
  last_hard_state_id = id;
  attempt = n;
  return_code = 0;
  has_been_checked = true;
  latency = 0;
  last_chk = 900;
  last_state_update = 900;
  last_state_change = 100;
  last_hard_state_change = 100;
  last_time = λ _. 0;
  freshness_expired = false;
}

abbrev pub sample : MyType → Status → Item
sample t s = record {
  conf = sample_conf t;
  status = s;
  flapping = record { is_flapping = false; flapping_changes = []; percent_state_change = 0 };
  phase = record {
    in_hard_unknown_reach_phase = false;
    was_in_hard_unknown_reach_phase = false;
    state_before_hard_unknown_reach_phase = up;
  };
  impact = record {
    is_problem = false;
    is_impact = false;
    state_changed_since_impact = false;
    state_before_impact = pending;
    state_id_before_impact = 0;
  };
  acknowledging = record { problem_has_been_acknowledged = false; acknowledgement = none };
  in_downtime = record {
    downtimes = [];
    scheduled_downtime_depth = pos 0;
    in_scheduled_downtime = false;
    in_scheduled_downtime_during_last_check = false;
  };
  notifying = record { current_notification_number = 0; notifications_in_progress = [] };
  ids = record {
    current_event_id = 0;
    last_event_id = 0;
    current_problem_id = 0;
    last_problem_id = 0;
  };
  checking = record { checks_in_progress = 7 ∷ []; in_checking = true };
  out = record { broks = []; actions = []; zombies = []; calls = [] };
  comments = [];
}

-- A host that is UP, one that is DOWN, and a service that is CRITICAL.
abbrev pub router : Item
router = sample host (sample_status up 0 hard 1)

abbrev pub down_router : Item
down_router = sample host (sample_status down 1 hard 3)

abbrev pub web : Item
web = sample service (sample_status critical 2 hard 3)

abbrev pub noon : Env
noon = record {
  now = 1000;
  notification_period = none;
  host_downtime_depth = pos 0;
  host_state = up;
  rule_is_blocked = false;
  act_depend_of = [];
  resultmodulations = [];
  cached_check_horizon = 30;
  new_comment_id = 55;
}

abbrev pub check_of : ℕ → ActStatus → Check
check_of code s = record {
  uuid = 7;
  exit_status = code;
  status = s;
  check_time = 990;
  t_to_go = 980;
  depend_on = [];
  depend_on_me = [];
  dependency_check = false;
  freshness_expiry_check = false;
}

abbrev pub failing : Check
failing = check_of 2 wait_consume

abbrev pub passing : Check
passing = check_of 0 wait_consume

abbrev pub none_yet : Counters
none_yet = record { event_id = 0; problem_id = 0 }

-- A downtime of one hour from now, in effect or not.
abbrev pub maintenance : Bool → Downtime
maintenance on = record {
  uuid = 4;
  fixed = true;
  start_time = 1000;
  end_time = 4600;
  duration = 3600;
  real_end_time = 4600;
  trigger_id = none;
  activate_me = [];
  comment_id = 9;
  is_in_effect = on;
  can_be_deleted = false;
}

-- An item with that downtime as its only one.
abbrev pub with_maintenance : Bool → Item → Item
with_maintenance on i = record i {
  in_downtime = record {
    downtimes = maintenance on ∷ [];
    scheduled_downtime_depth = pos (if on then 1 else 0);
    in_scheduled_downtime = on;
    in_scheduled_downtime_during_last_check = false;
  };
}

-- The router's own parent, which is DOWN.
abbrev pub parent : Dependency
parent = record {
  dep_id = 2;
  status = b'd' ∷ b'x' ∷ [];
  period_is_valid = true;
  dep_type = host;
  dep_state = down;
  dep_last_state_update = 100;
  active_checks_enabled = true;
  dep_in_checking = false;
  dep_checks_in_progress = [];
  launched = some 8;
}

abbrev pub storm : Env
storm = record noon { act_depend_of = parent ∷ [] }
