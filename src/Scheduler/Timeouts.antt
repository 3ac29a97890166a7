-- ===== src/Scheduler/Timeouts.antt =====
-- What `manage_results` of alignak/scheduler.py does to the queues, timeouts included.
use alignak.Prelude.{
  ℕ, ◌≡◌, refl, Bool, true, false, not, ◌&&◌, none, some, List, [], ◌∷◌, map, if◌then◌else◌, arith,
}
use alignak.Item.Kinds.{wait_consume, zombie, timeout}
use alignak.Scheduler.Jobs.{Job, Kind, a_check, an_event_handler, find, is_in, update, is_timeout}
use alignak.Scheduler.Queues.{Scheduler}
use alignak.Scheduler.Results.{
  Managed, managed, key_error, manage_results, manage_check, manage_notification,
  manage_event_handler, take_result, get_return_from,
}

abbrev pub left_by : Managed → Scheduler
left_by (managed s) = s
left_by (key_error s) = s

abbrev pub uuids : List Job → List ℕ
uuids = map (λ j. j.uuid)

uuids-update :
    (u : ℕ) (f : Job → Job) (js : List Job)
    → ((j : Job) → (f j).uuid ≡ j.uuid)
    → uuids (update u f js) ≡ uuids js
uuids-update u f [] h = refl
uuids-update u f (j ∷ js) h = let rest = uuids-update u f js h in let k = h j in ground arith

module _ (a : Job) (s : Scheduler) where
  uuids-manage_check :
      (uuids (left_by (manage_check a s)).checks ≡ uuids s.checks)
      × (uuids (left_by (manage_check a s)).actions ≡ uuids s.actions)
  unfolding manage_check
  uuids-manage_check =
      let e = uuids-update a.uuid (take_result a) s.checks (λ j. ground arith) in ground arith

  uuids-manage_notification :
      (uuids (left_by (manage_notification a s)).checks ≡ uuids s.checks)
      × (uuids (left_by (manage_notification a s)).actions ≡ uuids s.actions)
  unfolding manage_notification
  uuids-manage_notification =
      let e =
        uuids-update a.uuid (λ k. record k { exit_status = a.exit_status; status = zombie })
          s.actions (λ j. refl) in
      ground arith

  uuids-manage_event_handler :
      (uuids (left_by (manage_event_handler a s)).checks ≡ uuids s.checks)
      × (uuids (left_by (manage_event_handler a s)).actions ≡ uuids s.actions)
  unfolding manage_event_handler
  uuids-manage_event_handler =
      let dead = update a.uuid (λ (k : Job). record k { status = zombie }) s.actions in
      let e = uuids-update a.uuid (λ k. record k { status = zombie }) s.actions (λ j. refl) in
      let f =
        uuids-update a.uuid (λ k. if a.is_snapshot then get_return_from a k else k) dead
          (λ j. ground arith) in
      ground arith

-- A result, known or not and on every branch, neither adds a job to the queues nor removes one.
pub uuids-manage_results :
    (a : Job) (s : Scheduler)
    → (uuids (left_by (manage_results a s)).checks ≡ uuids s.checks)
      × (uuids (left_by (manage_results a s)).actions ≡ uuids s.actions)
unfolding manage_results
uuids-manage_results a s =
    let c = uuids-manage_check a s in
    let n = uuids-manage_notification a s in let e = uuids-manage_event_handler a s in ground arith

find-update :
    (u : ℕ) (f : Job → Job) (js : List Job) (c : Job)
    → ((j : Job) → (f j).uuid ≡ j.uuid)
    → find u js ≡ some c
    → find u (update u f js) ≡ some (f c)
find-update u f [] c h e = ground arith
find-update u f (j ∷ js) c h e = let k = h j in let rest = find-update u f js c h in ground arith

-- A check that timed out waits to be consumed with the exit status that it had when it was queued,
-- whatever status its result has.
pub manage_results_timeout :
    (a c : Job) (s : Scheduler)
    → a.is_a ≡ a_check
    → a.status ≡ timeout
    → find a.uuid s.checks ≡ some c
    → let t = left_by (manage_results a s) in
      find a.uuid t.checks ≡ some (record c { status = wait_consume })
unfolding manage_results manage_check
manage_results_timeout a c s k t f =
    let e = find-update a.uuid (take_result a) s.checks c (λ j. ground arith) f in ground arith

abbrev pub is_key_error : Managed → Bool
is_key_error (managed s) = false
is_key_error (key_error s) = true

abbrev pub is_event_handler : Kind → Bool
is_event_handler an_event_handler = true
is_event_handler _ = false

is_in-find :
    (u : ℕ) (js : List Job) → is_in u js ≡ elim (find u js) [ none ↦ false | some j ↦ true ]
is_in-find u [] = refl
is_in-find u (j ∷ js) = let rest = is_in-find u js in ground arith

-- A KeyError leaves the method exactly for an event handler that timed out and is known among the
-- actions, unless a check has its uuid.
manage_results-key_error :
    (a : Job) (s : Scheduler)
    → is_key_error (manage_results a s) ≡ (
        is_event_handler a.is_a
        && is_timeout a.status
        && is_in a.uuid s.actions
        && not (is_in a.uuid s.checks))
unfolding manage_results manage_event_handler manage_check manage_notification
manage_results-key_error a s = let e = is_in-find a.uuid s.actions in ground arith
