-- ===== src/Link/Connection.antt =====
-- The start of a connection: `daemon_connection_init` of alignak/daemon.py, over the links of
-- alignak/objects/satellitelink.py.
use alignak.Prelude.{
  ap, ◌∙◌, Bool-cases, inl, inr, subst, sym, ℕ, zero, suc, ◌+◌, ◌≤◌, ◌<◌, ◌≡◌, refl, Bool, true,
  false, arith,
}
use alignak.Link.Satellite.{
  SatelliteLink, set_alive, set_dead, add_failed_check_attempt, connection_error, timeout_error,
  data_error, client_error, Reply, identity, fails, Returned, got_it, got_none, got_false,
  bails_out, take_running_id, clear_context, except, communicate, get_running_id, try_running_id,
  daemon_connection_init,
}

-- The call gave None or False, and the link is dead.
abbrev pub is_refused : Returned → Bool
is_refused got_none = true
is_refused got_false = true
is_refused _ = false

abbrev pub IsLost : Returned × SatelliteLink → Type 0
IsLost r = (is_refused r.0 ≡ true) × (r.1.alive ≡ false)

-- The daemon fails, other than by an answer that it should not give.
abbrev pub is_failure : Reply → Bool
is_failure (identity id) = false
is_failure (fails data_error) = false
is_failure (fails _) = true

-- A dead link is not asked.
get_running_id-dead :
    (reply : Reply) (l : SatelliteLink) → l.alive ≡ false → get_running_id reply l ≡ (got_none, l)
unfolding get_running_id communicate
get_running_id-dead reply l d = ground arith

-- A turn that is refused goes on to the next.
try_running_id-next :
    (n k : ℕ) (replies : ℕ → Reply) (last g : Returned) (l m : SatelliteLink)
    → get_running_id (replies k) l ≡ (g, m)
    → is_refused g ≡ true
    → try_running_id (suc n) k replies last l ≡ try_running_id n (suc k) replies g m
unfolding try_running_id
try_running_id-next n k replies last g l m e r = ap turn e ∙ go g r
  where
    turn : Returned × SatelliteLink → Returned × SatelliteLink
    turn q = elim q.0 as (λ x. Returned × SatelliteLink) [
      | got_none ↦ try_running_id n (suc k) replies q.0 q.1
      | got_false ↦ try_running_id n (suc k) replies q.0 q.1
      | got_it ↦ (got_it, q.1)
      | bails_out ↦ (bails_out, q.1)
    ]

    go : (g : Returned) → is_refused g ≡ true → turn (g, m) ≡ try_running_id n (suc k) replies g m
    go got_none r = refl
    go got_false r = refl
    go got_it r = ground arith
    go bails_out r = ground arith

try_running_id-dead :
    (n k : ℕ) (replies : ℕ → Reply) (last : Returned) (l : SatelliteLink)
    → is_refused last ≡ true
    → l.alive ≡ false
    → IsLost (try_running_id n k replies last l)
unfolding try_running_id
try_running_id-dead zero k replies last l r d = (r, d)
try_running_id-dead (suc n) k replies last l r d =
    subst IsLost
      (sym (
        try_running_id-next n k replies last got_none l l (get_running_id-dead (replies k) l d)
          refl))
      (try_running_id-dead n (suc k) replies got_none l refl d)

-- Nor is one that cannot be reached, which counts a failed attempt.
get_running_id-unreachable :
    (reply : Reply) (l : SatelliteLink)
    → l.alive ≡ true
    → l.reachable ≡ false
    → get_running_id reply l ≡ (got_false, add_failed_check_attempt l)
unfolding get_running_id communicate except
get_running_id-unreachable reply l a r = ground arith

-- After a failed attempt the link is dead, or as alive as before with one attempt less.
failed-cases :
    (l : SatelliteLink)
    → let m = add_failed_check_attempt l in
      (m.max_check_attempts ≡ l.max_check_attempts)
      × (m.reachable ≡ false)
      × (m.alive ≡ true → (m.attempt ≡ suc l.attempt) × (suc l.attempt < l.max_check_attempts))
unfolding add_failed_check_attempt set_dead
failed-cases l = ground arith

-- So all the turns that are left are lost.
try_running_id-unreachable :
    (n k : ℕ) (replies : ℕ → Reply) (last : Returned) (l : SatelliteLink)
    → is_refused last ≡ true
    → l.reachable ≡ false
    → (l.alive ≡ true → (l.attempt < l.max_check_attempts) × (l.max_check_attempts ≤ l.attempt + n))
    → IsLost (try_running_id n k replies last l)
try_running_id-unreachable zero k replies last l s r b = elim (Bool-cases l.alive) [
  | inr d ↦ try_running_id-dead 0 k replies last l s d
  | inl a ↦ let c = b a in ground arith
]
try_running_id-unreachable (suc n) k replies last l s r b = elim (Bool-cases l.alive) [
  | inr d ↦ try_running_id-dead (suc n) k replies last l s d
  | inl a ↦
      let m = add_failed_check_attempt l in
      let c = b a in
      let f = failed-cases l in
      subst IsLost
        (sym (
          try_running_id-next n k replies last got_false l m
            (get_running_id-unreachable (replies k) l a r) refl))
        (try_running_id-unreachable n (suc k) replies got_false m refl f.1
          (λ t. let g = f.2 t in ground arith))
]

-- A first call that fails leaves a link that cannot be reached.
first_failure :
    (reply : Reply) (l : SatelliteLink)
    → is_failure reply ≡ true
    → l.alive ≡ true
    → l.reachable ≡ true
    → let r = get_running_id reply l in
      (is_refused r.0 ≡ true)
      × (r.1.reachable ≡ false)
      × (r.1.max_check_attempts ≡ l.max_check_attempts)
      × (r.1.alive ≡ true → (r.1.attempt ≡ suc l.attempt) × (suc l.attempt < l.max_check_attempts))
unfolding get_running_id communicate except add_failed_check_attempt set_dead
first_failure (fails connection_error) l e a r = ground arith
first_failure (fails timeout_error) l e a r = ground arith
first_failure (fails data_error) l e a r = ground arith
first_failure (fails client_error) l e a r = ground arith
first_failure (identity id) l e a r = ground arith

first_turn :
    (n : ℕ) (replies : ℕ → Reply) (l : SatelliteLink)
    → is_failure (replies 0) ≡ true
    → l.alive ≡ true
    → l.reachable ≡ true
    → l.max_check_attempts ≡ suc n
    → IsLost (try_running_id (suc n) 0 replies got_none l)
first_turn n replies l e a r s =
    let q = get_running_id (replies 0) l in
    let f = first_failure (replies 0) l e a r in
    subst IsLost (sym (try_running_id-next n 0 replies got_none q.0 l q.1 refl f.0)) (
      try_running_id-unreachable n 1 replies q.0 q.1 f.0 f.1
        (λ t. let g = f.3 t in let m = f.2 in ground arith))

max_turns :
    (n : ℕ) (replies : ℕ → Reply) (l : SatelliteLink)
    → 0 < n
    → is_failure (replies 0) ≡ true
    → l.alive ≡ true
    → l.reachable ≡ true
    → l.max_check_attempts ≡ n
    → IsLost (try_running_id n 0 replies got_none l)
max_turns zero replies l p e a r s = ground arith
max_turns (suc n) replies l p e a r s = first_turn n replies l e a r s

-- When the daemon fails to reply to the first turn (a wrong answer aside) and max_check_attempts is
-- not 0, the connection of an active link is not made and the link is dead, whatever the daemon
-- would reply to the other turns.
pub daemon_connection_init-IsLost :
    (replies : ℕ → Reply) (l : SatelliteLink)
    → l.active ≡ true
    → 0 < l.max_check_attempts
    → is_failure (replies 0) ≡ true
    → IsLost (daemon_connection_init replies l)
unfolding daemon_connection_init
daemon_connection_init-IsLost replies l a p e = rw a (
    max_turns l.max_check_attempts replies
      (record l { active = true; con = true; alive = true; reachable = true }) p e refl refl refl)

-- The call gave True, and the link is alive under this identifier, without failed attempts.
abbrev pub IsIdentified : ℕ → Returned × SatelliteLink → Type 0
IsIdentified id r =
    (r.0 ≡ got_it)
    × (r.1.running_id ≡ id)
    × (r.1.alive ≡ true)
    × (r.1.reachable ≡ true)
    × (r.1.attempt ≡ 0)

first_identity :
    (reply : Reply) (id : ℕ) (l : SatelliteLink)
    → reply ≡ identity id
    → l.alive ≡ true
    → l.reachable ≡ true
    → IsIdentified id (get_running_id reply l)
unfolding get_running_id communicate take_running_id set_alive clear_context
first_identity reply id l e a r = rw e (ground arith)

identity_turn :
    (n id : ℕ) (replies : ℕ → Reply) (l : SatelliteLink)
    → 0 < n
    → IsIdentified id (get_running_id (replies 0) l)
    → IsIdentified id (try_running_id n 0 replies got_none l)
unfolding try_running_id
identity_turn zero id replies l p h = ground arith
identity_turn (suc n) id replies l p h = ground arith

-- When the daemon identifies itself on the first turn and max_check_attempts is not 0, the
-- connection of an active link is made, with this identifier, and the link is alive, without failed
-- attempts.
pub daemon_connection_init-IsIdentified :
    (replies : ℕ → Reply) (id : ℕ) (l : SatelliteLink)
    → l.active ≡ true
    → 0 < l.max_check_attempts
    → replies 0 ≡ identity id
    → IsIdentified id (daemon_connection_init replies l)
unfolding daemon_connection_init
daemon_connection_init-IsIdentified replies id l a p e =
    let m = record l { active = true; con = true; alive = true; reachable = true } in
    rw a (
      identity_turn l.max_check_attempts id replies m p
        (first_identity (replies 0) id m e refl refl))
