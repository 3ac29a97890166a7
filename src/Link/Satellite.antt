-- ===== src/Link/Satellite.antt =====
-- The liveness of a `SatelliteLink` (alignak/objects/satellitelink.py), and the start of its
-- connection, `daemon_connection_init` of alignak/daemon.py.
--
-- What a daemon replies is an argument. The context that a link clears is its broks: the actions,
-- results and commands that go with them are left out.
use alignak.Prelude.{
  ℕ, zero, suc, Bool, true, false, not, ◌&&◌, List, [], ◌∷◌, ◌++◌, if◌then◌else◌, leb, ◌==◌,
}

-- What a status brok tells of the link.
pub record StatusBrok : Type 0 where
  pub told_alive : Bool
  pub told_reachable : Bool
  pub told_attempt : ℕ

-- `con` tells whether there is a connection; no `running_id` is 0.
pub record SatelliteLink : Type 0 where
  pub active : Bool
  pub alive : Bool
  pub reachable : Bool
  pub attempt : ℕ
  pub max_check_attempts : ℕ
  pub stopping : Bool
  pub con : Bool
  pub running_id : ℕ
  pub broks : List StatusBrok

abbrev pub get_update_status_brok : SatelliteLink → StatusBrok
get_update_status_brok l = record {
  told_alive = l.alive;
  told_reachable = l.reachable;
  told_attempt = l.attempt;
}

abbrev pub append_status : SatelliteLink → SatelliteLink
append_status l = record l { broks = l.broks ++ (get_update_status_brok l ∷ []) }

unfoldable pub set_alive : SatelliteLink → SatelliteLink
set_alive l =
    let risen = record l { alive = true; reachable = true; attempt = 0 } in
    if l.alive then risen else append_status risen

unfoldable pub set_dead : SatelliteLink → SatelliteLink
set_dead l =
    let fallen = record l { alive = false; reachable = false; attempt = 0; con = false } in
    if l.alive && not l.stopping then append_status fallen else fallen

unfoldable pub add_failed_check_attempt : SatelliteLink → SatelliteLink
add_failed_check_attempt l =
    let failed = record l { reachable = false; attempt = suc l.attempt } in
    if leb failed.max_check_attempts failed.attempt then set_dead failed else failed

-- The number of the live state.
unfoldable pub get_livestate : SatelliteLink → ℕ
get_livestate l =
    if l.active then (if not l.reachable then 1 else if not l.alive then 2 else 0) else 3

-- The exceptions of a call to the daemon.
pub data HttpError : Type 0 where
  connection_error : HttpError
  timeout_error : HttpError
  data_error : HttpError
  client_error : HttpError

-- What the daemon replies to `identity`.
pub data Reply : Type 0 where
  identity : (running_id : ℕ) → Reply
  fails : HttpError → Reply

-- What a call through `communicate` returns: True, None or False; or it ends the program.
pub data Returned : Type 0 where
  got_it : Returned
  got_none : Returned
  got_false : Returned
  bails_out : Returned

unfoldable pub clear_context : SatelliteLink → SatelliteLink
clear_context l = record l { broks = [] }

-- `get_running_id` under its decorator, for a daemon that answered.
unfoldable pub take_running_id : ℕ → SatelliteLink → SatelliteLink
take_running_id id l =
    let former_running_id = if l.running_id == 0 then id else l.running_id in
    let named = record l { running_id = id } in
    set_alive (if former_running_id == id then named else clear_context named)

-- The `except` clauses of `communicate`.
unfoldable pub except : HttpError → SatelliteLink → Returned × SatelliteLink
except connection_error l = (got_none, set_dead l)
except timeout_error l = (got_false, add_failed_check_attempt l)
except data_error l = (bails_out, l)
except client_error l = (got_none, add_failed_check_attempt l)

-- A link that is not reachable raises a LinkError, which counts as a timeout.
unfoldable pub communicate :
    (SatelliteLink → Returned × SatelliteLink) → SatelliteLink → Returned × SatelliteLink
communicate call l =
    if not l.alive
    then (got_none, l)
    else if not l.reachable
    then except timeout_error l
    else call l

abbrev pub ask_running_id : Reply → SatelliteLink → Returned × SatelliteLink
ask_running_id (identity id) l = (got_it, take_running_id id l)
ask_running_id (fails e) l = except e l

unfoldable pub get_running_id : Reply → SatelliteLink → Returned × SatelliteLink
get_running_id reply = communicate (ask_running_id reply)

-- The loop of `daemon_connection_init`: `n` turns left, of which the next is turn `k`, and what the
-- last one gave.
unfoldable pub try_running_id :
    ℕ → ℕ → (ℕ → Reply) → Returned → SatelliteLink → Returned × SatelliteLink
try_running_id zero k replies last l = (last, l)
try_running_id (suc n) k replies last l =
    let (got, next) = get_running_id (replies k) l in
    let later = try_running_id n (suc k) replies got next in
    elim got [
      | got_none ↦ later
      | got_false ↦ later
      | got_it ↦ (got_it, next)
      | bails_out ↦ (bails_out, next)
    ]

-- Without `set_wait_new_conf`, and where the client of the connection can be created.
unfoldable pub daemon_connection_init : (ℕ → Reply) → SatelliteLink → Returned × SatelliteLink
daemon_connection_init replies l =
    if l.active
    then try_running_id l.max_check_attempts 0 replies got_none
        (record l { con = true; alive = true; reachable = true })
    else (got_false, l)
