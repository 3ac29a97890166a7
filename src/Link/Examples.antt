-- ===== src/Link/Examples.antt =====
-- Links to daemons (alignak/objects/satellitelink.py, alignak/daemon.py), and what the theorems say
-- of them.
use alignak.Prelude.{ℕ, zero, suc, ◌≡◌, refl, true, false, [], length, arith}
use alignak.Link.Satellite.{
  SatelliteLink, Reply, identity, fails, client_error, timeout_error, get_running_id,
  daemon_connection_init,
}
use alignak.Link.Life.{IsSound, get_running_id-IsSound, fail_times, fail_times-alive}
use alignak.Link.Connection.{
  IsLost, IsIdentified, daemon_connection_init-IsLost, daemon_connection_init-IsIdentified,
}

-- A poller that answers.
abbrev poller : SatelliteLink
poller = record {
  active = true;
  alive = true;
  reachable = true;
  attempt = 0;
  max_check_attempts = 3;
  stopping = false;
  con = true;
  running_id = 17;
  broks = [];
}

-- One that is dead.
abbrev dead_poller : SatelliteLink
dead_poller = record poller { alive = false; reachable = false; con = false }

-- A daemon that is late for the first turn only.
abbrev late : ℕ → Reply
late zero = fails timeout_error
late (suc k) = identity 18

poller-IsSound : IsSound poller
poller-IsSound = record {
  has_attempts = λ e. omega arith;
  is_alive = λ e. refl;
  no_connection = λ e. ground arith;
}

dead_poller-IsSound : IsSound dead_poller
dead_poller-IsSound = record {
  has_attempts = λ e. omega arith;
  is_alive = λ e. ground arith;
  no_connection = λ e. refl;
}

get_running_id-IsSound_example : IsSound (get_running_id (fails client_error) poller).1
get_running_id-IsSound_example =
    get_running_id-IsSound (fails client_error) poller (omega arith) poller-IsSound

fail_times-alive_example :
    ((fail_times 4 poller).alive ≡ false) × (length (fail_times 4 poller).broks ≡ 1)
fail_times-alive_example = fail_times-alive 4 poller (omega arith) refl refl

daemon_connection_init-IsLost_example : IsLost (daemon_connection_init late dead_poller)
daemon_connection_init-IsLost_example =
    daemon_connection_init-IsLost late dead_poller refl (omega arith) refl

daemon_connection_init-IsIdentified_example :
    IsIdentified 18 (daemon_connection_init (λ k. identity 18) dead_poller)
daemon_connection_init-IsIdentified_example =
    daemon_connection_init-IsIdentified (λ k. identity 18) 18 dead_poller refl (omega arith) refl
