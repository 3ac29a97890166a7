-- ===== src/Item/Examples.antt =====
-- The theorems on items at concrete hosts, services and checks.
use alignak.Prelude.{
  ◌+◌, ◌-◌, ◌*◌, Bool, List, ◌≡◌, refl, inl, inr, not, ◌&&◌, true, false, [], ◌∷◌, arith,
}
use alignak.Item.Types.{Item}
use alignak.Item.Kinds.{host, hard, same, problem, wait_dependent}
use alignak.Item.Consume.{digest, settle, modulate}
use alignak.Item.Frames.{core}
use alignak.Item.Machine.{next_status}
use alignak.Item.Outcome.{observe, told, digest-next_status}
use alignak.Item.Attempts.{IsSettled, after, digest-IsSettled}
use alignak.Item.Streak.{IsStreak, IsProblem, Result, consume_all, consume_all-IsStreak}
use alignak.Item.Quiet.{sent}
use alignak.Item.Silence.{digest_silent}
use alignak.Item.Recovery.{digest_recovery}
use alignak.Item.DowntimeDepth.{
  IsCounted, in_effect, find, enter-IsCounted, exit-IsCounted, cancel-IsCounted, cancel_pending,
}
use Prim.Native.Nat.{◌^◌}
use alignak.Item.Doubles.{nearest, excess, float}
use alignak.Item.FlapRate.{hysteresis, update_flapping-hysteresis}
use alignak.Item.Flap.{update_flapping, state_change_rate}
use alignak.Item.States.{previous_state, state_of_exit}
use alignak.Item.Dependencies.{is_enable_action_dependent}
use alignak.Item.Downtimes.{enter, exit, cancel}
use alignak.Item.Blocking.{
  problem_let_through, is_configured, is_raised, has_quiet_host, is_rule_quiet,
}
use alignak.Item.Notifications.{is_blocking_notifications}
use alignak.Item.Samples.{
  router, down_router, noon, failing, passing, check_of, none_yet, maintenance, with_maintenance,
  storm,
}

digest-next_status_example : core (digest noon true failing none_yet router).1 ≡ (
  router.conf,
  settle 1000 false (next_status router.conf false 2 (observe noon failing router)),
)
unfolding modulate
digest-next_status_example = digest-next_status noon true failing none_yet router

digest-IsSettled_example :
    IsSettled
      (after noon true failing none_yet router).conf
      (after noon true failing none_yet router).status
digest-IsSettled_example =
    digest-IsSettled noon true failing none_yet router (omega arith) (omega arith)

abbrev failed_once : Result
failed_once = record { env = noon; raise_log = true; chk = failing }

IsProblem-seen : IsProblem host failed_once
unfolding modulate
IsProblem-seen = ((λ e. cc), refl)

-- Three problems in a row, with three attempts configured.
consume_all-IsStreak_example :
    IsStreak router.conf 3
      (consume_all (failed_once ∷ failed_once ∷ failed_once ∷ []) none_yet router).1.status
unfolding same
consume_all-IsStreak_example =
    consume_all-IsStreak failed_once (failed_once ∷ failed_once ∷ []) none_yet router
      (omega arith, refl, refl) (IsProblem-seen, (IsProblem-seen, (IsProblem-seen, tt))) (inl refl)

-- The check waited for the router's parent, which is DOWN.
digest_silent_example :
    sent (digest storm true (check_of 2 wait_dependent) none_yet down_router).1 ≡ 0
unfolding is_enable_action_dependent
digest_silent_example =
    digest_silent storm true (check_of 2 wait_dependent) none_yet down_router (inr refl)

digest_recovery_example :
    let j = (digest noon true passing none_yet down_router).1 in
    (j.problem_has_been_acknowledged ≡ false) × (j.state_type ≡ hard) × (j.attempt ≡ 1)
unfolding observe told modulate same previous_state state_of_exit
digest_recovery_example = digest_recovery noon true passing none_yet down_router refl refl

enter-IsCounted_example :
    IsCounted (enter noon (maintenance false) (with_maintenance false router)).0
unfolding find in_effect
enter-IsCounted_example =
    enter-IsCounted noon (maintenance false) (with_maintenance false router) (tt, tt) refl refl
      (record { depth = refl; flag = refl })

exit-IsCounted_example : IsCounted (exit noon (maintenance true) (with_maintenance true router)).0
unfolding find in_effect
exit-IsCounted_example =
    exit-IsCounted noon (maintenance true) (with_maintenance true router) (tt, tt) refl
      (record { depth = refl; flag = refl })

cancel-IsCounted_example : IsCounted (cancel (maintenance true) (with_maintenance true router)).0
unfolding find in_effect
cancel-IsCounted_example =
    cancel-IsCounted (maintenance true) (with_maintenance true router) (tt, tt) refl refl
      (record { depth = refl; flag = refl })

cancel_pending_example : ¬ IsCounted (cancel (maintenance false) (with_maintenance false router)).0
unfolding find in_effect
cancel_pending_example =
    cancel_pending (maintenance false) (with_maintenance false router) (tt, tt) refl refl
      (record { depth = refl; flag = refl })

-- Two changes of two samples: the float is a bit more than 110.
two_changes : state_change_rate 2 (true ∷ true ∷ []) ≡ 110 * 2 ^ 1074 + 2 ^ 1028
unfolding state_change_rate nearest excess float
two_changes = refl

-- Twenty samples whose exact rate is 50.
abbrev half_changed : List Bool
half_changed =
    true ∷ true ∷ true ∷ true ∷ true ∷ false ∷ false ∷ false ∷ false ∷ false ∷ false ∷ false ∷ true
    ∷ false ∷ true ∷ false ∷ false ∷ true ∷ true ∷ true ∷ []

-- The float is a bit less than 50.
half_rate : state_change_rate 20 half_changed ≡ 50 * 2 ^ 1074 - 2 ^ 1028
unfolding state_change_rate nearest excess float
half_rate = refl

abbrev sampled : Bool → Item
sampled flag = record router {
  flapping = record {
    is_flapping = flag;
    flapping_changes = half_changed;
    percent_state_change = 0;
  };
}

-- Between the thresholds of 25 and 50.
update_flapping-hysteresis_example : (update_flapping noon (sampled true)).flapping ≡ record {
  is_flapping = hysteresis true (state_change_rate 20 half_changed) (float 25) (float 50) true;
  flapping_changes = half_changed;
  percent_state_change = state_change_rate 20 half_changed;
}
update_flapping-hysteresis_example = update_flapping-hysteresis noon (sampled true) (omega arith)

still_flapping :
    hysteresis true (state_change_rate 20 half_changed) (float 25) (float 50) true ≡ true
unfolding state_change_rate nearest excess float
still_flapping = refl

not_flapping_yet :
    hysteresis true (state_change_rate 20 half_changed) (float 25) (float 50) false ≡ false
unfolding state_change_rate nearest excess float
not_flapping_yet = refl

problem_let_through_example :
    is_blocking_notifications noon problem 1000 down_router
    ≡ not (
        is_configured noon 1000 down_router
        && is_raised down_router
        && not (has_quiet_host noon host)
        && not (is_rule_quiet noon down_router))
problem_let_through_example = problem_let_through noon 1000 down_router
