-- ===== src/Scheduler/Examples.antt =====
-- Queues at work (alignak/scheduler.py), and what the theorems say of them.
use alignak.Prelude.{ℕ, ◌≡◌, ◌≢◌, refl, true, false, not, ◌&&◌, none, some, [], ◌∷◌, ◌++◌, arith}
use mathlib.Core.List.{Memᴰ}
use alignak.Item.Kinds.{ActStatus, scheduled, in_poller, wait_consume, wait_dependent, timeout}
use alignak.Item.Samples.{router, noon, none_yet}
use alignak.Scheduler.Jobs.{Job, Kind, a_check, an_event_handler, find}
use alignak.Scheduler.Queues.{Scheduler}
use alignak.Scheduler.Polling.{
  Request, hand_out, get_to_run_checks, is_lost, take_back, check_orphaned,
}
use alignak.Scheduler.Handed.{
  is_check_handed, is_action_handed, handed, get_to_run_checks-get_to_run_checks,
}
use alignak.Scheduler.Orphans.{check_orphaned-get_to_run_checks}
use alignak.Scheduler.Results.{manage_results}
use alignak.Scheduler.Timeouts.{left_by, uuids, uuids-manage_results, manage_results_timeout}
use alignak.Scheduler.Consuming.{Surroundings, Store, consume_results, out_of_rounds}
use alignak.Scheduler.Rounds.{consume_results-ne-out_of_rounds}

abbrev job : ℕ → Kind → ActStatus → Job
job u k t = record {
  uuid = u;
  ref = 1;
  is_a = k;
  internal = false;
  creation_time = 900;
  is_orphan = false;
  status = t;
  exit_status = 3;
  t_to_go = some 950;
  check_time = 0;
  tag = 0;
  module_type = 0;
  my_worker = 0;
  contact = none;
  passive_check = false;
  is_snapshot = false;
  dependency_check = false;
  freshness_expiry_check = false;
  depend_on = [];
  depend_on_me = [];
}

-- Check 1 is due, check 2 is with a poller, and the event handler 5 with a reactionner.
abbrev queues : Scheduler
queues = record {
  checks = job 1 a_check scheduled ∷ job 2 a_check in_poller ∷ [];
  actions = job 5 an_event_handler in_poller ∷ [];
  statistics = record {
    nb_checks = 2;
    nb_notifications = 0;
    nb_event_handlers = 1;
    nb_checks_launched = 1;
    nb_actions_launched = 1;
    nb_checks_results = 0;
    nb_checks_results_timeout = 0;
    nb_checks_results_active = 0;
    nb_checks_results_passive = 0;
    nb_actions_results = 0;
    nb_actions_results_timeout = 0;
    nb_checks_dropped = 0;
    nb_actions_dropped = 0;
  };
  effects = [];
}

-- A poller with the arguments that it has by default.
abbrev poller : Request
poller = record {
  do_checks = true;
  do_actions = false;
  poller_tags = none;
  reactionner_tags = none;
  worker_name = 8;
  module_types = none;
}

get_to_run_checks-get_to_run_checks_example :
    (get_to_run_checks 1001 poller (get_to_run_checks 1000 poller queues).0).1
    ≡ handed
        (λ c. is_check_handed 1001 poller c && not (is_check_handed 1000 poller c))
        8
        queues.checks
      ++ handed
          (λ a. is_action_handed 1001 poller a && not (is_action_handed 1000 poller a))
          8
          queues.actions
get_to_run_checks-get_to_run_checks_example =
    get_to_run_checks-get_to_run_checks 1000 1001 poller poller queues

check_orphaned-get_to_run_checks_example :
    Memᴰ
      (hand_out 8 (take_back (job 2 a_check in_poller)))
      (get_to_run_checks 1300 poller (check_orphaned 1300 (λ u. 300) queues)).1
unfolding is_lost
check_orphaned-get_to_run_checks_example =
    check_orphaned-get_to_run_checks 1300 1300 (λ u. 300) poller queues (job 2 a_check in_poller)
      (Memᴰ.tail (Memᴰ.head refl)) refl
      (record { wanted = refl; external = refl; tagged = refl; typed = refl }) (omega arith)

-- The results of check 2 and of the event handler 5 are timeouts.
abbrev late_check : Job
late_check = record (job 2 a_check timeout) { exit_status = 2 }

abbrev late_handler : Job
late_handler = job 5 an_event_handler timeout

uuids-manage_results_example :
    (uuids (left_by (manage_results late_check queues)).checks ≡ 1 ∷ 2 ∷ [])
    × (uuids (left_by (manage_results late_check queues)).actions ≡ 5 ∷ [])
uuids-manage_results_example = uuids-manage_results late_check queues

manage_results_timeout_example :
    find 2 (left_by (manage_results late_check queues)).checks ≡ some (job 2 a_check wait_consume)
manage_results_timeout_example =
    manage_results_timeout late_check (job 2 a_check in_poller) queues refl refl refl

-- Check 1 waits for check 2, which has its result.
abbrev chained : Store
chained = record {
  items = λ u. router;
  counters = none_yet;
  checks =
      record (job 1 a_check wait_dependent) { depend_on = 2 ∷ [] }
      ∷ record (job 2 a_check wait_consume) { depend_on_me = 1 ∷ [] }
      ∷ [];
}

abbrev alone : Surroundings
alone = record {
  env_of = λ items u. noon;
  launched = λ u. job u a_check scheduled;
  log_active_checks = false;
}

consume_results-ne-out_of_rounds_example : consume_results 5 alone chained ≢ out_of_rounds
consume_results-ne-out_of_rounds_example =
    consume_results-ne-out_of_rounds 5 alone chained (omega arith)
