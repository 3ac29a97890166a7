-- ===== src/Scheduler/Polling.antt =====
-- What pollers and reactionners take from the queues, and what comes back to them when it is lost:
-- `get_to_run_checks` and `check_orphaned` of alignak/scheduler.py.
use alignak.Prelude.{
  ℕ, ◌+◌, Bool, true, false, not, ◌&&◌, Option, none, some, List, [], ◌∷◌, ◌++◌, leb, ◌==◌,
  if◌then◌else◌, elem, length, map,
}
use alignak.Item.Kinds.{scheduled, in_poller}
use alignak.Scheduler.Jobs.{Job, is_scheduled, is_polled, is_launchable, is_master}
use alignak.Scheduler.Queues.{Scheduler}

-- The names that stand for a tag 'None' and a module type 'fork'.
abbrev pub no_tag : ℕ
no_tag = 0

abbrev pub fork : ℕ
fork = 0

-- The arguments of a call of a worker: `none` where it gives no list.
pub record Request : Type 0 where
  pub do_checks : Bool
  pub do_actions : Bool
  pub poller_tags : Option (List ℕ)
  pub reactionner_tags : Option (List ℕ)
  pub worker_name : ℕ
  pub module_types : Option (List ℕ)

abbrev pub or_only : ℕ → Option (List ℕ) → List ℕ
or_only x none = x ∷ []
or_only x (some xs) = xs

-- Is a check one that this poller runs now?
unfoldable pub is_check_to_run : ℕ → Request → Job → Bool
is_check_to_run now r c =
    not c.internal
    && elem c.tag (or_only no_tag r.poller_tags)
    && elem c.module_type (or_only fork r.module_types)
    && is_scheduled c.status
    && is_launchable now c.t_to_go

unfoldable pub is_action_to_run : ℕ → Request → Job → Bool
is_action_to_run now r a =
    not a.internal
    && not (is_master a)
    && elem a.tag (or_only no_tag r.reactionner_tags)
    && elem a.module_type (or_only fork r.module_types)
    && is_scheduled a.status
    && is_launchable now a.t_to_go

abbrev pub hand_out : ℕ → Job → Job
hand_out worker j = record j { status = in_poller; my_worker = worker }

-- The loop over a queue: the queue after it, and what is handed out.
unfoldable pub take_to_run : (Job → Bool) → ℕ → List Job → List Job × List Job
take_to_run is_to_run worker [] = ([], [])
take_to_run is_to_run worker (j ∷ js) =
    let (left, res) = take_to_run is_to_run worker js in
    if is_to_run j then (hand_out worker j ∷ left, hand_out worker j ∷ res) else (j ∷ left, res)

-- The part of a call for checks, and the part for actions.
unfoldable pub poll_checks : ℕ → Request → Scheduler → Scheduler × List Job
poll_checks now r s =
    if r.do_checks
    then (let (left, res) = take_to_run (is_check_to_run now r) r.worker_name s.checks in
        (
          record s {
            checks = left;
            statistics = record s.statistics {
              nb_checks_launched = s.nb_checks_launched + length res;
            };
          },
          res,
        ))
    else (s, [])

unfoldable pub poll_actions : ℕ → Request → Scheduler → Scheduler × List Job
poll_actions now r s =
    if r.do_actions
    then (let (left, res) = take_to_run (is_action_to_run now r) r.worker_name s.actions in
        (
          record s {
            actions = left;
            statistics = record s.statistics {
              nb_actions_launched = s.nb_actions_launched + length res;
            };
          },
          res,
        ))
    else (s, [])

unfoldable pub get_to_run_checks : ℕ → Request → Scheduler → Scheduler × List Job
get_to_run_checks now r s =
    let (with_checks, checks) = poll_checks now r s in
    let (done, actions) = poll_actions now r with_checks in (done, checks ++ actions)

-- Is a job with a worker for too long? `time_to_orphanage` is what its item says, 0 for never. A
-- job that was handed out has a time.
unfoldable pub is_lost : ℕ → (ℕ → ℕ) → Job → Bool
is_lost now time_to_orphanage j =
    is_polled j.status
    && not (time_to_orphanage j.ref == 0)
    && elim j.t_to_go [ none ↦ false | some t ↦ leb (t + time_to_orphanage j.ref) now ]

abbrev pub take_back : Job → Job
take_back j = record j { status = scheduled; is_orphan = true }

abbrev pub take_back_lost : ℕ → (ℕ → ℕ) → Job → Job
take_back_lost now time_to_orphanage j = if is_lost now time_to_orphanage j then take_back j else j

unfoldable pub check_orphaned : ℕ → (ℕ → ℕ) → Scheduler → Scheduler
check_orphaned now time_to_orphanage s = record s {
  checks = map (take_back_lost now time_to_orphanage) s.checks;
  actions = map (take_back_lost now time_to_orphanage) s.actions;
}
