-- ===== src/Item/Checks.antt =====
-- Checks, and what an item reads of the rest of the program: alignak/check.py, and the items that
-- alignak/objects/schedulingitem.py looks up.
use alignak.Prelude.{ℕ, Bool, Option, List, ℤ}
use alignak.Item.Kinds.{ActStatus, MyType, State}
use alignak.Item.Types.{Timeperiod}

-- One entry of `act_depend_of`, with what the handlers read of the item depended on. `launched` is
-- what its `launch_check` returns.
pub record Dependency : Type 0 where
  pub dep_id : ℕ
  pub status : List ℕ
  pub period_is_valid : Bool
  pub dep_type : MyType
  pub dep_state : State
  pub dep_last_state_update : ℕ
  pub active_checks_enabled : Bool
  pub dep_in_checking : Bool
  pub dep_checks_in_progress : List ℕ
  pub launched : Option ℕ

-- alignak/objects/resultmodulation.py
pub record Resultmodulation : Type 0 where
  pub is_active : Bool
  pub exit_codes_match : List ℕ
  pub exit_code_modulation : Option ℕ

-- What a handler reads of the rest of the program: the clock, the notification period, the host
-- of a service, whether all problems of a business rule are acknowledged, the items depended on,
-- the result modulations, the age up to which a state is fresh, and the next comment's uuid.
pub record Env : Type 0 where
  pub now : ℕ
  pub notification_period : Option Timeperiod
  pub host_downtime_depth : ℤ
  pub host_state : State
  pub rule_is_blocked : Bool
  pub act_depend_of : List Dependency
  pub resultmodulations : List Resultmodulation
  pub cached_check_horizon : ℕ
  pub new_comment_id : ℕ

-- alignak/check.py
pub record Check : Type 0 where
  pub uuid : ℕ
  pub exit_status : ℕ
  pub status : ActStatus
  pub check_time : ℕ
  pub t_to_go : ℕ
  pub depend_on : List ℕ
  pub depend_on_me : List ℕ
  pub dependency_check : Bool
  pub freshness_expiry_check : Bool

-- The class attributes SchedulingItem.current_event_id and current_problem_id.
pub record Counters : Type 0 where
  pub event_id : ℕ
  pub problem_id : ℕ
