-- ===== src/Scheduler/Consuming.antt =====
-- `consume_results` of alignak/scheduler.py: the checks that wait are consumed by their items, and
-- the checks that waited for others follow.
--
-- What an item reads of the rest of the program is an argument, `Surroundings`, of which
-- `launched` gives the check that a `launch_check` builds for a uuid.
-- What `launch_check` changes in the items that are depended on is left out, and the checks in
-- progress of an item are among those of the scheduler, so that looking one up raises no KeyError.
use alignak.Prelude.{
  ℕ, zero, suc, Bool, true, false, not, ◌&&◌, Option, none, some, List, [], ◌∷◌, ◌++◌, ◌>>=◌, ◌==◌,
  if◌then◌else◌, elem, map,
}
use alignak.Item.Kinds.{scheduled, zombie}
use alignak.Item.Types.{Item}
use alignak.Item.Checks.{Env, Check, Counters}
use alignak.Item.Dependencies.{raise_dependencies_check}
use alignak.Item.Consume.{consume_result, must_wait, is_wait_consume, is_wait_dependent}
use alignak.Scheduler.Jobs.{Job, find, is_in, update, is_waiting_me}

pub record Surroundings : Type 0 where
  pub env_of : (ℕ → Item) → ℕ → Env
  pub launched : ℕ → Job
  pub log_active_checks : Bool

-- The items by uuid, the counters of their class, and the checks of the scheduler.
pub record Store : Type 0 where
  pub items : ℕ → Item
  pub counters : Counters
  pub checks : List Job

abbrev pub check_of : Job → Check
check_of j = record {
  uuid = j.uuid;
  exit_status = j.exit_status;
  status = j.status;
  check_time = j.check_time;
  t_to_go = elim j.t_to_go [ none ↦ 0 | some t ↦ t ];
  depend_on = j.depend_on;
  depend_on_me = j.depend_on_me;
  dependency_check = j.dependency_check;
  freshness_expiry_check = j.freshness_expiry_check;
}

abbrev pub put_back : Check → Job → Job
put_back chk j = record j {
  exit_status = chk.exit_status;
  status = chk.status;
  depend_on = chk.depend_on;
}

-- The check waits for the check `j`: `depend_on_me.append(chk)`.
abbrev pub wait_for : ℕ → List ℕ → Job → Job
wait_for parent awaited j =
    if elem j.uuid awaited then record j { depend_on_me = j.depend_on_me ++ (parent ∷ []) } else j

-- A check that was launched for the one that waits for it.
abbrev pub launch : Surroundings → ℕ → ℕ → Job
launch w parent u = record (w.launched u) {
  uuid = u;
  status = scheduled;
  depend_on = [];
  depend_on_me = parent ∷ [];
}

-- `self.add(check)` for each new check; one whose uuid is known is not added.
abbrev pub add_new : List Job → List Job → List Job
add_new [] checks = checks
add_new (c ∷ cs) checks = add_new cs (if is_in c.uuid checks then checks else checks ++ (c ∷ []))

-- The checks that this one comes to wait for, if it has to wait.
abbrev pub awaited_by : Env → Check → List ℕ
awaited_by env chk =
    if must_wait env chk then (raise_dependencies_check env env.act_depend_of).checking else []

-- `item.consume_result(chk, ...)`
unfoldable pub consume : Surroundings → Job → Store → Store
consume w j s =
    let env = w.env_of s.items j.ref in
    let (chk, c, i, new) =
      consume_result env (w.log_active_checks && not j.passive_check) (check_of j) s.counters
        (s.items j.ref) in
    let waiting = map (wait_for j.uuid (awaited_by env (check_of j))) s.checks in
    record {
      items = λ u. if u == j.ref then i else s.items u;
      counters = c;
      checks = add_new (map (launch w j.uuid) new) (update j.uuid (put_back chk) waiting);
    }

-- Consume the check with this uuid, if it passes.
unfoldable pub consume_if : Surroundings → (Job → Bool) → ℕ → Store → Store
consume_if w p u s = elim (find u s.checks) [ none ↦ s | some j ↦ if p j then consume w j s else s ]

-- A loop over the values of the dict as they are when it starts, which consumes those that pass.
unfoldable pub consume_each : Surroundings → (Job → Bool) → List ℕ → Store → Store
consume_each w p [] s = s
consume_each w p (u ∷ us) s = consume_each w p us (consume_if w p u s)

abbrev pub ids : List Job → List ℕ
ids [] = []
ids (j ∷ js) = j.uuid ∷ ids js

-- `depend_on.remove(uuid)`, which raises where it is missing.
abbrev pub remove : ℕ → List ℕ → Option (List ℕ)
remove u [] = none
remove u (v ∷ vs) = if v == u then some vs else remove u vs >>= λ rest. some (v ∷ rest)

-- The same for the check that waits, which may have been deleted from the dict.
unfoldable pub release_one : ℕ → ℕ → List Job → Option (List Job)
release_one u waiting checks = elim (find waiting checks) [
  | none ↦ some checks
  | some d ↦ do
    left ← remove u d.depend_on
    some (update waiting (λ k. record k { depend_on = left }) checks)
]

unfoldable pub release : ℕ → List ℕ → List Job → Option (List Job)
release u [] checks = some checks
release u (d ∷ ds) checks = do next ← release_one u d checks; release u ds next

-- The first loop of a round: the checks, and whether one was waited for.
unfoldable pub release_each : List ℕ → List Job → Option (List Job × Bool)
release_each [] checks = some (checks, false)
release_each (u ∷ us) checks = elim (find u checks) [
  | none ↦ release_each us checks
  | some c ↦
      if is_waiting_me c.status
      then (do
        next ← release u c.depend_on_me checks
        rest ← release_each us (update u (λ k. record k { status = zombie }) next)
        some (rest.0, elim c.depend_on_me [ [] ↦ rest.1 | _ ∷ _ ↦ true ]))
      else release_each us checks
]

-- A check that waits for none any more.
abbrev pub is_freed : Job → Bool
is_freed j = is_wait_dependent j.status && elim j.depend_on [ [] ↦ true | _ ∷ _ ↦ false ]

pub data Resolution : Type 0 where
  resolved : Store → Resolution
  value_error : Resolution
  out_of_rounds : Resolution

-- The second loop of a round, and the rounds that follow if a check was waited for.
abbrev pub end_round : Surroundings → (Store → Resolution) → Store → List Job × Bool → Resolution
end_round w more s (checks, have_resolved) =
    let next = consume_each w is_freed (ids checks) (record s { checks = checks }) in
    if have_resolved then more next else resolved next

-- The `while` loop, with fuel for its rounds.
unfoldable pub resolve : ℕ → Surroundings → Store → Resolution
resolve zero w s = out_of_rounds
resolve (suc n) w s = elim (release_each (ids s.checks) s.checks) [
  | none ↦ value_error
  | some r ↦ end_round w (resolve n w) s r
]

-- The checks that wait to be consumed, and then the rounds.
unfoldable pub consume_results : ℕ → Surroundings → Store → Resolution
consume_results n w s =
    resolve n w (consume_each w (λ j. is_wait_consume j.status) (ids s.checks) s)
