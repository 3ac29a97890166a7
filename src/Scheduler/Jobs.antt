-- ===== src/Scheduler/Jobs.antt =====
-- Checks, notifications and event handlers as the scheduler queues them: the class `ActionBase` of
-- alignak/action.py with its children in alignak/check.py, notification.py and eventhandler.py.
--
-- `tag` is the poller tag of a check and the reactionner tag of another job. Commands, outputs and
-- timings are left out, and names are numbers.
use alignak.Prelude.{
  ℕ, Bool, true, false, Option, none, some, List, [], ◌∷◌, ◌==◌, leb, if◌then◌else◌,
}
use alignak.Item.Kinds.{ActStatus, scheduled, in_poller, wait_me, timeout, zombie}

-- `is_a`
pub data Kind : Type 0 where
  a_check a_notification an_event_handler : Kind

pub record Job : Type 0 where
  pub uuid : ℕ
  pub ref : ℕ
  pub is_a : Kind
  pub internal : Bool
  pub creation_time : ℕ
  pub is_orphan : Bool
  pub status : ActStatus
  pub exit_status : ℕ
  pub t_to_go : Option ℕ
  pub check_time : ℕ
  pub tag : ℕ
  pub module_type : ℕ
  pub my_worker : ℕ
  pub contact : Option ℕ
  pub passive_check : Bool
  pub is_snapshot : Bool
  pub dependency_check : Bool
  pub freshness_expiry_check : Bool
  pub depend_on : List ℕ
  pub depend_on_me : List ℕ

abbrev pub is_scheduled : ActStatus → Bool
is_scheduled scheduled = true
is_scheduled _ = false

abbrev pub is_polled : ActStatus → Bool
is_polled in_poller = true
is_polled _ = false

abbrev pub is_waiting_me : ActStatus → Bool
is_waiting_me wait_me = true
is_waiting_me _ = false

abbrev pub is_zombie : ActStatus → Bool
is_zombie zombie = true
is_zombie _ = false

abbrev pub is_timeout : ActStatus → Bool
is_timeout timeout = true
is_timeout _ = false

abbrev pub is_launchable : ℕ → Option ℕ → Bool
is_launchable timestamp none = false
is_launchable timestamp (some t_to_go) = leb t_to_go timestamp

-- A notification without a contact is a master one, which no reactionner runs.
abbrev pub is_master : Job → Bool
is_master j = elim j.is_a [
  | a_notification ↦ elim j.contact [ none ↦ true | some c ↦ false ]
  | _ ↦ false
]

-- The dicts `checks` and `actions`, from uuid to job, are lists in their order.
abbrev pub find : ℕ → List Job → Option Job
find u [] = none
find u (j ∷ js) = if j.uuid == u then some j else find u js

abbrev pub is_in : ℕ → List Job → Bool
is_in u [] = false
is_in u (j ∷ js) = if j.uuid == u then true else is_in u js

-- A change of the job with this uuid: a key of a dict has one value.
abbrev pub update : ℕ → (Job → Job) → List Job → List Job
update u f [] = []
update u f (j ∷ js) = let rest = update u f js in if j.uuid == u then f j ∷ js else j ∷ rest
