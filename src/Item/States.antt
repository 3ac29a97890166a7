-- ===== src/Item/States.antt =====
-- The state of an item: `set_state_from_exit_status` and `is_state` of alignak/objects/host.py and
-- service.py, and `set_unreachable`, `set_impact_state`, `unset_impact_state`, `add_attempt`,
-- `is_max_attempts`, `update_hard_unknown_phase_state` and `update_event_and_problem_id` of
-- alignak/objects/schedulingitem.py.
use alignak.Prelude.{
  ℕ, suc, ◌+◌, min, Bool, true, false, not, ◌&&◌, ◌||◌, leb, ◌==◌, if◌then◌else◌, elem,
}
use alignak.Item.Kinds.{
  MyType, host, service, State, up, down, unreachable, ok, warning, critical, unknown, pending,
  same, StateType,
}
use alignak.Item.Checks.{Env, Counters}
use alignak.Item.Types.{Item, Status}
use alignak.Item.Notifications.{ok_up, is_soft}
use alignak.Item.Flap.{add_flapping_change, update_flapping}

-- The state that an exit status stands for.
unfoldable pub state_of_exit : MyType → ℕ → State
state_of_exit host status = if status == 0 then up else if status == 4 then unreachable else down
state_of_exit service status =
    if status == 0
    then ok
    else if status == 1
    then warning
    else if status == 2
    then critical
    else if status == 3
    then unknown
    else if status == 4
    then unreachable
    else critical

-- The identifier and the option letter of a state, as the branches of the two methods set them.
abbrev pub id_of_state : State → ℕ
id_of_state up = 0
id_of_state ok = 0
id_of_state down = 1
id_of_state warning = 1
id_of_state critical = 2
id_of_state unknown = 3
id_of_state unreachable = 4
id_of_state pending = 0

abbrev pub host_letter : State → ℕ
host_letter up = b'u'
host_letter unreachable = b'x'
host_letter _ = b'd'

abbrev pub service_letter : State → ℕ
service_letter ok = b'o'
service_letter warning = b'w'
service_letter unknown = b'u'
service_letter unreachable = b'x'
service_letter _ = b'c'

abbrev pub letter : MyType → State → ℕ
letter host s = host_letter s
letter service s = service_letter s

abbrev pub stamp : (State → ℕ) → State → ℕ → State → ℕ
stamp last_time s t r = if same r s then t else last_time r

-- The state before: the one that an impact has overridden, if no check came in since.
unfoldable pub previous_state : Item → State
previous_state i =
    if i.enable_problem_impacts_states_change && i.is_impact && not i.state_changed_since_impact
    then i.state_before_impact
    else i.state

-- A host that goes from UNREACHABLE to DOWN keeps the date of its last change.
abbrev pub is_dated_change : MyType → State → State → Bool
is_dated_change host s last = not (same s last) && not (same s down && same last unreachable)
is_dated_change service s last = not (same s last)

abbrev pub date_change : Status → MyType → Status
date_change s t = record s {
  last_state_change =
      if is_dated_change t s.state s.last_state then s.last_state_update else s.last_state_change;
}

-- The new state, and the last one.
unfoldable pub move_state : ℕ → Item → Item
move_state exit_status i =
    let s = state_of_exit i.my_type exit_status in
    record i {
      status = record i.status {
        last_state = previous_state i;
        state = s;
        state_id = id_of_state s;
        last_time = stamp i.last_time s i.last_state_update;
      };
    }

-- A sample for the flapping detection, if the state's letter is among the options.
unfoldable pub sample_flapping : Env → Item → Item
sample_flapping env i =
    if elem (letter i.my_type i.state) i.flap_detection_options
    then update_flapping env (add_flapping_change (not (same i.state i.last_state)) i)
    else i

unfoldable pub set_state_from_exit_status : Env → ℕ → Item → Item
set_state_from_exit_status env exit_status i =
    let flapped = sample_flapping env (move_state exit_status i) in
    record flapped { status = date_change flapped.status flapped.my_type }

-- The letters of `is_state`, for a host and for a service.
abbrev pub is_state_letter : MyType → State → ℕ → Bool
is_state_letter host up c = c == b'o'
is_state_letter host down c = c == b'd'
is_state_letter host unreachable c = c == b'u' || c == b'x'
is_state_letter service ok c = c == b'o'
is_state_letter service warning c = c == b'w'
is_state_letter service critical c = c == b'c'
is_state_letter service unknown c = c == b'u'
is_state_letter service unreachable c = c == b'x'
is_state_letter _ _ c = false

unfoldable pub set_unreachable : Env → Item → Item
set_unreachable env i = record i {
  status = record i.status {
    state_id = 4;
    state = unreachable;
    last_time = stamp i.last_time unreachable env.now;
  };
}

unfoldable pub set_impact_state : Env → Item → Item
set_impact_state env i =
    if i.enable_problem_impacts_states_change
    then set_unreachable env (record i {
      impact = record i.impact {
        state_before_impact = i.state;
        state_id_before_impact = i.state_id;
        state_changed_since_impact = false;
      };
    })
    else i

unfoldable pub unset_impact_state : Item → Item
unset_impact_state i =
    if i.enable_problem_impacts_states_change && not i.state_changed_since_impact
    then record i {
      status = record i.status {
        state = i.state_before_impact;
        state_id = i.state_id_before_impact;
      };
    }
    else i

abbrev pub set_status : Status → Item → Item
set_status s i = record i { status = s }

unfoldable pub add_attempt : Item → Item
add_attempt i = record i {
  status = record i.status { attempt = min (i.attempt + 1) i.max_check_attempts };
}

unfoldable pub is_max_attempts : Item → Bool
is_max_attempts i = leb i.max_check_attempts i.attempt

unfoldable pub set_attempt : ℕ → Item → Item
set_attempt n i = record i { status = record i.status { attempt = n } }

unfoldable pub set_state_type : StateType → Item → Item
set_state_type t i = record i { status = record i.status { state_type = t } }

-- UNKNOWN or UNREACHABLE, and not so before.
abbrev pub starts_unknown_phase : State → State → Bool
starts_unknown_phase s last =
    (same s unknown && not (same last unknown))
    || (same s unreachable && not (same last unreachable))

unfoldable pub update_hard_unknown_phase_state : Item → Item
update_hard_unknown_phase_state i =
    let was = i.in_hard_unknown_reach_phase in
    let still = not (is_soft i.state_type || is_soft i.last_state_type) && was in
    let inside = still && (same i.state unknown || same i.state unreachable) in
    let same_as_before = same i.state i.state_before_hard_unknown_reach_phase in
    let left = record i {
      phase = record i.phase {
        in_hard_unknown_reach_phase = inside;
        was_in_hard_unknown_reach_phase = was && (inside || same_as_before);
      };
    } in
    if not still && starts_unknown_phase i.state i.last_state
    then record i {
      phase = record {
        in_hard_unknown_reach_phase = true;
        was_in_hard_unknown_reach_phase = was;
        state_before_hard_unknown_reach_phase = i.last_state;
      };
    }
    else left

-- `self.state != self.last_state and self.last_state != 'PENDING' or
-- self.state != ok_up and self.last_state == 'PENDING'`
abbrev pub is_event : Item → Bool
is_event i =
    (not (same i.state i.last_state) && not (same i.last_state pending))
    || (not (same i.state (ok_up i.my_type)) && same i.last_state pending)

-- The problem identifiers at an event.
unfoldable pub update_problem_id : Counters → Item → Counters × Item
update_problem_id c i =
    let fine = same i.state (ok_up i.my_type) in
    let was_fine = same i.last_state (ok_up i.my_type) in
    let raised : Counters × Item = (
      record c { problem_id = suc c.problem_id },
      record i {
        ids = record i.ids {
          last_problem_id = i.current_problem_id;
          current_problem_id = suc c.problem_id;
        };
      },
    ) in
    let cleared : Counters × Item = (
      c,
      record i {
        ids = record i.ids { last_problem_id = i.current_problem_id; current_problem_id = 0 };
      },
    ) in
    if not fine && same i.last_state pending
    then raised
    else if not (fine || was_fine)
    then (c, i)
    else if fine
    then cleared
    else raised

unfoldable pub update_event_and_problem_id : Counters → Item → Counters × Item
update_event_and_problem_id c i =
    let counted = record c { event_id = suc c.event_id } in
    let moved = record i {
      ids = record i.ids { last_event_id = i.current_event_id; current_event_id = suc c.event_id };
    } in
    if is_event i then update_problem_id counted moved else (c, i)
