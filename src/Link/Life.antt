-- ===== src/Link/Life.antt =====
-- How a link lives and dies: alignak/objects/satellitelink.py.
use alignak.Prelude.{
  ℕ, zero, suc, ◌+◌, ◌<◌, ◌≡◌, ◌≢◌, refl, true, false, [], ◌∷◌, length, length-append,
  if◌then◌else◌, ltb, arith,
}
use alignak.Link.Satellite.{
  SatelliteLink, StatusBrok, set_alive, set_dead, add_failed_check_attempt, get_livestate,
  HttpError, connection_error, timeout_error, data_error, client_error, Reply, identity, fails,
  clear_context, take_running_id, except, communicate, get_running_id,
}

-- A link that is alive has attempts left, one that can be reached is alive, and one that is dead
-- has no connection.
pub record IsSound (l : SatelliteLink) : Type 0 where
  pub has_attempts : l.alive ≡ true → l.attempt < l.max_check_attempts
  pub is_alive : l.reachable ≡ true → l.alive ≡ true
  pub no_connection : l.alive ≡ false → l.con ≡ false

set_alive-IsSound : (l : SatelliteLink) → 0 < l.max_check_attempts → IsSound (set_alive l)
unfolding set_alive
set_alive-IsSound l p = ground arith

set_dead-IsSound : (l : SatelliteLink) → IsSound (set_dead l)
unfolding set_dead
set_dead-IsSound l = ground arith

failed-IsSound : (l : SatelliteLink) → IsSound l → IsSound (add_failed_check_attempt l)
unfolding add_failed_check_attempt set_dead
failed-IsSound l h = ground arith

take_running_id-max :
    (id : ℕ) (l : SatelliteLink) → 0 < l.max_check_attempts → IsSound (take_running_id id l)
unfolding take_running_id clear_context set_alive
take_running_id-max id l p = ground arith

except-IsSound : (e : HttpError) (l : SatelliteLink) → IsSound l → IsSound (except e l).1
unfolding except
except-IsSound connection_error l h = set_dead-IsSound l
except-IsSound timeout_error l h = failed-IsSound l h
except-IsSound data_error l h = h
except-IsSound client_error l h = failed-IsSound l h

-- Whatever the daemon replies to `identity`, with max_check_attempts not 0, the link keeps its
-- attempts below max_check_attempts while it is alive, can be reached only if it is alive, and has
-- no connection when it is dead.
pub get_running_id-IsSound :
    (reply : Reply) (l : SatelliteLink)
    → 0 < l.max_check_attempts
    → IsSound l
    → IsSound (get_running_id reply l).1
unfolding get_running_id communicate
get_running_id-IsSound (identity id) l p h =
    let k = take_running_id-max id l p in let f = except-IsSound timeout_error l h in ground arith
get_running_id-IsSound (fails e) l p h =
    let k = except-IsSound e l h in let f = except-IsSound timeout_error l h in ground arith

-- The live state of a sound link is never 2, the one of a dead link: such a link cannot be reached
-- either, which gives 1.
get_livestate_not_dead : (l : SatelliteLink) → IsSound l → get_livestate l ≢ 2
unfolding get_livestate
get_livestate_not_dead l h e = let r = h.is_alive in ground arith

-- `n` failed attempts in a row.
abbrev pub fail_times : ℕ → SatelliteLink → SatelliteLink
fail_times zero l = l
fail_times (suc n) l = add_failed_check_attempt (fail_times n l)

-- After n failures: how far the link is from its start `l`.
record IsFailing (n : ℕ) (l m : SatelliteLink) : Type 0 where
  same_max : m.max_check_attempts ≡ l.max_check_attempts
  same_stopping : m.stopping ≡ l.stopping
  counts : n < l.max_check_attempts → m.attempt ≡ n
  lives : m.alive ≡ ltb n l.max_check_attempts
  told :
      length m.broks
      ≡ length l.broks + (if l.stopping then 0 else if ltb n l.max_check_attempts then 0 else 1)

-- The brok of a death.
abbrev dead_brok : StatusBrok
dead_brok = record { told_alive = false; told_reachable = false; told_attempt = 0 }

failed-IsFailing :
    (n : ℕ) (l m : SatelliteLink)
    → IsFailing n l m
    → IsFailing (suc n) l (add_failed_check_attempt m)
unfolding add_failed_check_attempt set_dead
failed-IsFailing n l m h =
    let e = h.same_max in
    let f = h.same_stopping in
    let c = h.counts in
    let a = h.lives in
    let b = h.told in
    record {
      same_max = ground arith;
      same_stopping = ground arith;
      counts = ground arith;
      lives = ground arith;
      told = ground (arith, length-append m.broks (dead_brok ∷ []));
    }

fail_times-IsFailing :
    (n : ℕ) (l : SatelliteLink)
    → 0 < l.max_check_attempts
    → l.alive ≡ true
    → l.attempt ≡ 0
    → IsFailing n l (fail_times n l)
fail_times-IsFailing zero l p a c = record {
  same_max = refl;
  same_stopping = refl;
  counts = λ b. c;
  lives = ground arith;
  told = ground arith;
}
fail_times-IsFailing (suc n) l p a c =
    failed-IsFailing n l (fail_times n l) (fail_times-IsFailing n l p a c)

-- A link that is alive and has no failed attempt, with max_check_attempts not 0, is alive after n
-- failures exactly if n is below max_check_attempts, and its death is told in one status brok, however many failures follow, and
-- in none when the program is stopping.
pub fail_times-alive :
    (n : ℕ) (l : SatelliteLink)
    → 0 < l.max_check_attempts
    → l.alive ≡ true
    → l.attempt ≡ 0
    → let m = fail_times n l in
      (m.alive ≡ ltb n l.max_check_attempts)
      × (length m.broks
          ≡ length l.broks
            + (if l.stopping then 0 else if ltb n l.max_check_attempts then 0 else 1))
fail_times-alive n l p a c = let f = fail_times-IsFailing n l p a c in (f.lives, f.told)
