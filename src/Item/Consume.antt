-- ===== src/Item/Consume.antt =====
-- `consume_result` of alignak/objects/schedulingitem.py: what an item does with the result of a
-- check. The outputs, timings and performance data that it copies from the check, and the
-- stalking, performance and snapshot commands at its ends, are left out: no branch reads them.
use alignak.Prelude.{
  ℕ, ◌-◌, Bool, true, false, not, ◌&&◌, ◌||◌, none, some, List, [], ◌∷◌, ◌++◌, ◌==◌, if◌then◌else◌,
  keep, elem,
}
use alignak.Item.Kinds.{
  MyType, host, service, same, soft, hard, ActStatus, wait_dependent, wait_consume, wait_me, zombie,
}
use alignak.Item.Checks.{Env, Check, Counters, Resultmodulation}
use alignak.Item.Types.{Item, Status, check_result, freshness, monitoring_log}
use alignak.Item.Logs.{add_brok, raise_check_result}
use alignak.Item.Notifications.{is_soft}
use alignak.Item.Downtimes.{add_calls}
use alignak.Item.States.{
  set_state_from_exit_status, update_hard_unknown_phase_state, update_event_and_problem_id,
}
use alignak.Item.Dependencies.{
  is_enable_action_dependent, check_and_set_unreachability, raise_dependencies_check,
}
use alignak.Item.Branches.{handle_state}

-- `module_return` of alignak/objects/resultmodulation.py.
abbrev pub module_return : Resultmodulation → ℕ → ℕ
module_return m code =
    if m.is_active && elem code m.exit_codes_match
    then elim m.exit_code_modulation [ none ↦ code | some c ↦ c ]
    else code

unfoldable pub modulate : List Resultmodulation → ℕ → ℕ
modulate [] code = code
modulate (m ∷ ms) code = modulate ms (module_return m code)

-- A host's exit status 1 is taken for 2, but for a freshness check.
abbrev pub adapt_host_status : MyType → Bool → ℕ → ℕ
adapt_host_status host fresh code = if not fresh && code == 1 then 2 else code
adapt_host_status service fresh code = code

-- The status of the check when its result is consumed.
abbrev pub consumed_status : ActStatus → List ℕ → ActStatus
consumed_status wait_consume [] = zombie
consumed_status wait_consume (c ∷ cs) = wait_me
consumed_status wait_dependent [] = zombie
consumed_status wait_dependent (c ∷ cs) = wait_me
consumed_status s cs = s

abbrev pub is_wait_dependent : ActStatus → Bool
is_wait_dependent wait_dependent = true
is_wait_dependent _ = false

abbrev pub is_wait_consume : ActStatus → Bool
is_wait_consume wait_consume = true
is_wait_consume _ = false

unfoldable pub remove_in_progress_check : ℕ → Item → Item
remove_in_progress_check c i =
    let left = keep (λ d. not (d == c)) i.checks_in_progress in
    record i {
      checking = record {
        checks_in_progress = left;
        in_checking = elim left [ [] ↦ false | _ ∷ _ ↦ true ];
      };
    }

-- What the item takes from the check before its state is set.
unfoldable pub receive : Env → Check → Item → Item
receive env chk i = record i {
  status = record i.status {
    latency = chk.check_time - chk.t_to_go;
    has_been_checked = true;
    last_chk = chk.check_time;
    last_state_update = if chk.freshness_expiry_check then i.last_state_update else env.now;
  };
}

-- And after it.
unfoldable pub take_code : ℕ → Item → Item
take_code code i = record i {
  status = record i.status { last_state_type = i.state_type; return_code = code };
}

-- The item information, up to the return code.
unfoldable pub update_information : Env → Check → ℕ → Item → Item
update_information env chk code i =
    take_code code (set_state_from_exit_status env code (receive env chk i))

-- The last hard state and the date of its change.
abbrev pub settle : ℕ → Bool → Status → Status
settle now fresh s = elim s.state_type [
  | soft ↦ record s { state_type_id = 0 }
  | hard ↦ record s {
    state_type_id = 1;
    last_hard_state = s.state;
    last_hard_state_id = s.state_id;
    last_hard_state_change =
        if fresh || is_soft s.last_state_type || not (same s.last_state s.state)
        then now
        else s.last_hard_state_change;
    freshness_expired = s.freshness_expired || fresh;
  }
]

-- The last hard state of the item, and the flag that a downtime's end leaves for one check.
unfoldable pub settle_item : Env → Check → Item → Item
settle_item env chk i = record i {
  status = settle env.now chk.freshness_expiry_check i.status;
  in_downtime = record i.in_downtime { in_scheduled_downtime_during_last_check = false };
}

-- The log of a freshness check, and the brok of the result.
unfoldable pub report : Env → Check → Item → Item
unfolding add_brok
report env chk i =
    let age = env.now - i.last_state_update - i.freshness_threshold in
    add_brok check_result
      (if chk.freshness_expiry_check then add_brok (monitoring_log (freshness age)) i else i)

-- What follows the branches.
unfoldable pub finish : Env → Check → Counters → Item → Counters × Item
finish env chk c i =
    let settled = settle_item env chk (update_hard_unknown_phase_state i) in
    let (c', counted) = update_event_and_problem_id c settled in (c', report env chk counted)

-- The check waits for the checks of the items that its item depends on.
unfoldable pub wait_for_dependencies : Env → Check → Item → Check × Item × List ℕ
wait_for_dependencies env chk i =
    let deps = raise_dependencies_check env env.act_depend_of in
    (
      record chk {
        status = wait_dependent;
        depend_on = chk.depend_on ++ (deps.new ++ deps.checking);
      },
      add_calls deps.made i,
      deps.new,
    )

-- The exit status that the item takes from the check.
abbrev pub taken_status : Env → Check → MyType → ℕ
taken_status env chk t =
    adapt_host_status t chk.freshness_expiry_check (modulate env.resultmodulations chk.exit_status)

-- Whether the actions are enabled: only a check that waited for its dependencies asks them.
abbrev pub actions_enabled : Env → Check → Bool
actions_enabled env chk =
    if is_wait_dependent chk.status then is_enable_action_dependent env.act_depend_of else true

-- A check whose item is to wait for what it depends on.
abbrev pub must_wait : Env → Check → Bool
must_wait env chk =
    not (chk.exit_status == 0)
    && is_wait_consume chk.status
    && elim env.act_depend_of [ [] ↦ false | _ ∷ _ ↦ true ]

-- The item once the check is no longer in progress.
unfoldable pub check_is_done : Check → Item → Item
unfolding remove_in_progress_check
check_is_done chk i =
    remove_in_progress_check chk.uuid
      (record i { impact = record i.impact { state_changed_since_impact = true } })

-- The item when the branches are reached.
unfoldable pub prepare : Env → Bool → Check → Item → Item
prepare env raise_log chk i =
    let informed = update_information env chk (taken_status env chk i.my_type) i in
    let logged = if raise_log then raise_check_result informed else informed in
    let done = check_is_done chk logged in
    if is_wait_dependent chk.status then check_and_set_unreachability env done else done

-- Any result but that of a freshness check ends the expiry.
unfoldable pub expire : Check → Item → Item
expire chk i = record i {
  status = record i.status {
    freshness_expired = i.freshness_expired && chk.freshness_expiry_check;
  };
}

-- The consumption of a result that does not wait: the counters and the item.
unfoldable pub digest : Env → Bool → Check → Counters → Item → Counters × Item
digest env raise_log chk c i = finish env chk c (
    handle_state env chk.dependency_check (actions_enabled env chk) (taken_status env chk i.my_type)
      (prepare env raise_log chk i))

-- The whole handler: the check, the class counters, the item and the new checks to launch.
unfoldable pub consume_result :
    Env → Bool → Check → Counters → Item → Check × Counters × Item × List ℕ
consume_result env raise_log chk c i =
    let (waiting, asked, new) = wait_for_dependencies env chk (expire chk i) in
    let (c', done) = digest env raise_log chk c (expire chk i) in
    if must_wait env chk then (waiting, c, asked, new) else (
      record chk {
        exit_status = taken_status env chk i.my_type;
        status = consumed_status chk.status chk.depend_on_me;
      },
      c',
      done,
      [],
    )
