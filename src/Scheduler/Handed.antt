-- ===== src/Scheduler/Handed.antt =====
-- What `get_to_run_checks` of alignak/scheduler.py hands out.
use alignak.Prelude.{
  ℕ, ◌≡◌, refl, sym, ap, ◌∙◌, Bool, true, false, not, ◌&&◌, List, [], ◌∷◌, ◌++◌, map, if◌then◌else◌,
  keep, arith,
}
use alignak.Scheduler.Jobs.{Job}
use alignak.Scheduler.Queues.{Scheduler}
use alignak.Scheduler.Polling.{
  Request, is_check_to_run, is_action_to_run, hand_out, take_to_run, poll_checks, poll_actions,
  get_to_run_checks,
}

-- The jobs that a call hands out, among the checks and among the actions.
abbrev pub is_check_handed : ℕ → Request → Job → Bool
is_check_handed now r c = r.do_checks && is_check_to_run now r c

abbrev pub is_action_handed : ℕ → Request → Job → Bool
is_action_handed now r a = r.do_actions && is_action_to_run now r a

abbrev pub hand_out_if : (Job → Bool) → ℕ → Job → Job
hand_out_if p worker j = if p j then hand_out worker j else j

abbrev pub handed : (Job → Bool) → ℕ → List Job → List Job
handed p worker js = map (hand_out worker) (keep p js)

take_to_run-handed :
    (p : Job → Bool) (w : ℕ) (js : List Job)
    → take_to_run p w js ≡ (map (hand_out_if p w) js, handed p w js)
unfolding take_to_run
take_to_run-handed p w [] = refl
take_to_run-handed p w (j ∷ js) = let rest = take_to_run-handed p w js in ground arith

keep_none : (js : List Job) → keep (λ j. false) js ≡ []
keep_none [] = refl
keep_none (j ∷ js) = keep_none js

map_unchanged : (js : List Job) → map (λ j. j) js ≡ js
map_unchanged [] = refl
map_unchanged (j ∷ js) = ap (λ (l : List Job). j ∷ l) (map_unchanged js)

-- Both halves of a call, whether it asks for them or not.
asked_for :
    (do_it : Bool) (p : Job → Bool) (w : ℕ) (js : List Job)
    → (map (hand_out_if (λ j. do_it && p j) w) js, handed (λ j. do_it && p j) w js)
      ≡ (if do_it then take_to_run p w js else (js, []))
asked_for true p w js = sym (take_to_run-handed p w js)
asked_for false p w js = rw (map_unchanged js, keep_none js) refl

poll_checks-handed :
    (now : ℕ) (r : Request) (s : Scheduler)
    → ((poll_checks now r s).0.checks
        ≡ map (hand_out_if (is_check_handed now r) r.worker_name) s.checks)
      × ((poll_checks now r s).0.actions ≡ s.actions)
      × ((poll_checks now r s).1 ≡ handed (is_check_handed now r) r.worker_name s.checks)
unfolding poll_checks
poll_checks-handed now r s =
    let e = asked_for r.do_checks (is_check_to_run now r) r.worker_name s.checks in ground arith

poll_actions-handed :
    (now : ℕ) (r : Request) (s : Scheduler)
    → ((poll_actions now r s).0.actions
        ≡ map (hand_out_if (is_action_handed now r) r.worker_name) s.actions)
      × ((poll_actions now r s).0.checks ≡ s.checks)
      × ((poll_actions now r s).1 ≡ handed (is_action_handed now r) r.worker_name s.actions)
unfolding poll_actions
poll_actions-handed now r s =
    let e = asked_for r.do_actions (is_action_to_run now r) r.worker_name s.actions in ground arith

-- A call returns the jobs that it hands out, and changes these in the queues and no others.
pub get_to_run_checks-handed :
    (now : ℕ) (r : Request) (s : Scheduler)
    → let (t, res) = get_to_run_checks now r s in
      let w = r.worker_name in
      (res
        ≡ handed (is_check_handed now r) w s.checks ++ handed (is_action_handed now r) w s.actions)
      × (t.checks ≡ map (hand_out_if (is_check_handed now r) w) s.checks)
      × (t.actions ≡ map (hand_out_if (is_action_handed now r) w) s.actions)
unfolding get_to_run_checks
get_to_run_checks-handed now r s =
    let c = poll_checks-handed now r s in
    let a = poll_actions-handed now r (poll_checks now r s).0 in ground arith

not_again :
    (p q : Job → Bool) (v w : ℕ)
    → ((j : Job) → q (hand_out v j) ≡ false)
    → (js : List Job) → handed q w (map (hand_out_if p v) js) ≡ handed (λ j. q j && not (p j)) w js
not_again p q v w h [] = refl
not_again p q v w h (j ∷ js) = let rest = not_again p q v w h js in let k = h j in ground arith

is_check_handed-hand_out :
    (now : ℕ) (r : Request) (w : ℕ) (j : Job) → is_check_handed now r (hand_out w j) ≡ false
unfolding is_check_to_run
is_check_handed-hand_out now r w j = ground arith

is_action_handed-hand_out :
    (now : ℕ) (r : Request) (w : ℕ) (j : Job) → is_action_handed now r (hand_out w j) ≡ false
unfolding is_action_to_run
is_action_handed-hand_out now r w j = ground arith

-- After a call, another call, of any worker and at any time, is handed only jobs that the first one
-- did not hand out.
pub get_to_run_checks-get_to_run_checks :
    (now now' : ℕ) (r r' : Request) (s : Scheduler)
    → (get_to_run_checks now' r' (get_to_run_checks now r s).0).1
      ≡ handed
          (λ c. is_check_handed now' r' c && not (is_check_handed now r c))
          r'.worker_name
          s.checks
        ++ handed
            (λ a. is_action_handed now' r' a && not (is_action_handed now r a))
            r'.worker_name
            s.actions
get_to_run_checks-get_to_run_checks now now' r r' s =
    let first = get_to_run_checks-handed now r s in
    let second = get_to_run_checks-handed now' r' (get_to_run_checks now r s).0 in
    second.0
    ∙ rw (first.1, first.2)
        (rw
          (
            not_again _ _ r.worker_name r'.worker_name
                (is_check_handed-hand_out now' r' r.worker_name) s.checks,
            not_again _ _ r.worker_name r'.worker_name
                (is_action_handed-hand_out now' r' r.worker_name) s.actions,
          )
          refl)
