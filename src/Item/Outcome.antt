-- ===== src/Item/Outcome.antt =====
-- The status of an item after `consume_result`: the abstract machine on what the check observed.
use alignak.Prelude.{
  ℕ, suc, ◌-◌, ◌≡◌, refl, ◌∙◌, ap, Bool, true, false, not, ◌&&◌, arith, inl, inr, Bool-cases,
  if◌then◌else◌,
}
use alignak.Item.Kinds.{unreachable, same}
use alignak.Item.Checks.{Env, Check, Counters}
use alignak.Item.Types.{Item, Conf, Status}
use alignak.Item.Logs.{raise_check_result}
use alignak.Item.States.{
  set_state_from_exit_status, sample_flapping, move_state, state_of_exit, previous_state,
  id_of_state, stamp, date_change, update_hard_unknown_phase_state, update_event_and_problem_id,
  update_problem_id, set_unreachable,
}
use alignak.Item.Flap.{add_flapping_change}
use alignak.Item.Dependencies.{all_parents_down, check_and_set_unreachability}
use alignak.Item.Branches.{handle_state}
use alignak.Item.Consume.{
  prepare, update_information, finish, settle, settle_item, report, taken_status, is_wait_dependent,
  digest, actions_enabled, check_is_done, receive, take_code,
}
use alignak.Item.Frames.{core, core-update_flapping, core-add_flapping_change}
use alignak.Item.Machine.{next_status, handle_state-next_status, core-phase}

core-sample : (env : Env) (i : Item) → core (sample_flapping env i) ≡ core i
unfolding sample_flapping
core-sample env i =
    let sampled = add_flapping_change (not (same i.state i.last_state)) i in
    ground (
      arith,
      core-update_flapping env sampled,
      core-add_flapping_change (not (same i.state i.last_state)) i,
    )

-- The item after the change of state, with the date of the change.
abbrev dated : Item → Conf × Status
dated i = (i.conf, date_change i.status i.my_type)

core-set_state :
    (env : Env) (code : ℕ) (i : Item)
    → core (set_state_from_exit_status env code i) ≡ dated (move_state code i)
unfolding set_state_from_exit_status
core-set_state env code i =
    ap (λ (p : Conf × Status). let q : Conf × Status = (p.0, date_change p.1 p.0.my_type) in q)
      (core-sample env (move_state code i))

-- What the exit status tells of an item: its state and dates.
unfoldable pub told : Env → Check → ℕ → Item → Status
told env chk code i =
    let updated = if chk.freshness_expiry_check then i.last_state_update else env.now in
    let now_in = state_of_exit i.my_type code in
    date_change
      (record i.status {
        latency = chk.check_time - chk.t_to_go;
        has_been_checked = true;
        last_chk = chk.check_time;
        last_state_update = updated;
        last_state = previous_state i;
        state = now_in;
        state_id = id_of_state now_in;
        last_time = stamp i.last_time now_in updated;
        last_state_type = i.state_type;
        return_code = code;
      })
      i.my_type

abbrev pub made_unreachable : ℕ → Status → Status
made_unreachable now s = record s {
  state = unreachable;
  state_id = 4;
  last_time = stamp s.last_time unreachable now;
}

-- What a check tells of an item, before the soft and hard states: the item is UNREACHABLE if the
-- check had waited for items that are all down.
unfoldable pub observe : Env → Check → Item → Status
observe env chk i =
    let s = told env chk (taken_status env chk i.my_type) i in
    if is_wait_dependent chk.status && all_parents_down env.act_depend_of
    then made_unreachable env.now s
    else s

core-check_result : (i : Item) → core (raise_check_result i) ≡ core i
unfolding raise_check_result
core-check_result i = ground arith

core-done : (chk : Check) (i : Item) → core (check_is_done chk i) ≡ core i
unfolding check_is_done
core-done chk i = refl

core-informed :
    (env : Env) (chk : Check) (code : ℕ) (i : Item)
    → core (update_information env chk code i) ≡ (i.conf, told env chk code i)
unfolding update_information take_code told move_state receive previous_state
core-informed env chk code i =
    ap
      (λ (p : Conf × Status).
        let s = p.1 in
        let q : Conf × Status =
          (p.0, record s { last_state_type = s.state_type; return_code = code }) in
        q)
      (core-set_state env code (receive env chk i))

core-unreachability :
    (env : Env) (i : Item)
    → core (check_and_set_unreachability env i) ≡ (
      i.conf,
      if all_parents_down env.act_depend_of then made_unreachable env.now i.status else i.status,
    )
unfolding check_and_set_unreachability set_unreachable
core-unreachability env i = ground arith

core-logged :
    (env : Env) (raise_log : Bool) (chk : Check) (i : Item)
    → let informed = update_information env chk (taken_status env chk i.my_type) i in
      core (check_is_done chk (if raise_log then raise_check_result informed else informed))
      ≡ (i.conf, told env chk (taken_status env chk i.my_type) i)
core-logged env true chk i =
    let informed = update_information env chk (taken_status env chk i.my_type) i in
    core-done chk (raise_check_result informed)
    ∙ core-check_result informed
    ∙ core-informed env chk (taken_status env chk i.my_type) i
core-logged env false chk i =
    core-done chk (update_information env chk (taken_status env chk i.my_type) i)
    ∙ core-informed env chk (taken_status env chk i.my_type) i

core-prepare :
    (env : Env) (raise_log : Bool) (chk : Check) (i : Item)
    → core (prepare env raise_log chk i) ≡ (i.conf, observe env chk i)
unfolding prepare observe
core-prepare env raise_log chk i =
    let informed = update_information env chk (taken_status env chk i.my_type) i in
    let logged = if raise_log then raise_check_result informed else informed in
    elim (Bool-cases (is_wait_dependent chk.status)) [
      | inl e ↦ rw e (
          core-unreachability env (check_is_done chk logged)
          ∙ ap
              (λ (p : Conf × Status).
                let q : Conf × Status = (
                  p.0,
                  if all_parents_down env.act_depend_of then made_unreachable env.now p.1 else p.1,
                ) in
                q)
              (core-logged env raise_log chk i))
      | inr e ↦ rw e (core-logged env raise_log chk i)
    ]

core-problem_id : (c : Counters) (i : Item) → core (update_problem_id c i).1 ≡ core i
unfolding update_problem_id
core-problem_id c i = ground arith

core-event : (c : Counters) (i : Item) → core (update_event_and_problem_id c i).1 ≡ core i
unfolding update_event_and_problem_id
core-event c i =
    let moved = record i {
      ids = record i.ids { last_event_id = i.current_event_id; current_event_id = suc c.event_id };
    } in
    ground (arith, core-problem_id (record c { event_id = suc c.event_id }) moved)

core-report : (env : Env) (chk : Check) (i : Item) → core (report env chk i) ≡ core i
unfolding report
core-report env chk i = ground arith

abbrev pub settled : Env → Check → Conf × Status → Conf × Status
settled env chk p = (p.0, settle env.now chk.freshness_expiry_check p.1)

pub core-finish :
    (env : Env) (chk : Check) (c : Counters) (i : Item)
    → core (finish env chk c i).1 ≡ settled env chk (core i)
unfolding finish settle_item
core-finish env chk c i =
    let phased = update_hard_unknown_phase_state i in
    core-report env chk (update_event_and_problem_id c (settle_item env chk phased)).1
    ∙ core-event c (settle_item env chk phased)
    ∙ ap (settled env chk) (core-phase i)

abbrev machine : Env → Check → ℕ → Conf × Status → Conf × Status
machine env chk code p = (p.0, next_status p.0 chk.dependency_check code p.1)

-- A result that does not wait for other items leaves the item in the status that the abstract
-- machine reaches from what the check observed, settled as a soft or a hard state.
pub digest-next_status :
    (env : Env) (raise_log : Bool) (chk : Check) (c : Counters) (i : Item)
    → core (digest env raise_log chk c i).1 ≡ (
      i.conf,
      settle env.now chk.freshness_expiry_check (
          next_status i.conf chk.dependency_check
            (taken_status env chk i.my_type)
            (observe env chk i)),
    )
unfolding digest
digest-next_status env raise_log chk c i =
    let code = taken_status env chk i.my_type in
    let prepared = prepare env raise_log chk i in
    core-finish env chk c
      (handle_state env chk.dependency_check (actions_enabled env chk) code prepared)
    ∙ ap (settled env chk) (
        handle_state-next_status env chk.dependency_check (actions_enabled env chk) code prepared
        ∙ ap (machine env chk code) (core-prepare env raise_log chk i))
