-- ===== src/Item/Attempts.antt =====
-- Attempts and hard states: what `consume_result` keeps of the status of an item, and how many
-- problems in a row make a hard one.
use alignak.Prelude.{ℕ, ◌≤◌, ◌<◌, ◌≡◌, sym, ◌∙◌, ap, subst, Bool, arith}
use alignak.Item.Kinds.{soft, hard}
use alignak.Item.Checks.{Env, Check, Counters}
use alignak.Item.Types.{Item, Conf, Status}
use alignak.Item.States.{id_of_state}
use alignak.Item.Consume.{digest, settle, taken_status}
use alignak.Item.Machine.{next_status}
use alignak.Item.Outcome.{observe, told, digest-next_status}

-- The attempts stay within the configured number, a soft state has attempts left, and the numbers
-- and the last hard state go with the state.
pub record IsSettled (c : Conf) (s : Status) : Type 0 where
  pub attempts_bounded : s.attempt ≤ c.max_check_attempts
  pub soft_has_attempts : s.state_type ≡ soft → s.attempt < c.max_check_attempts
  pub soft_id : s.state_type ≡ soft → s.state_type_id ≡ 0
  pub hard_id : s.state_type ≡ hard → s.state_type_id ≡ 1
  pub hard_state : s.state_type ≡ hard → s.last_hard_state ≡ s.state
  pub hard_state_id : s.state_type ≡ hard → s.last_hard_state_id ≡ s.state_id
  pub state_has_id : s.state_id ≡ id_of_state s.state

settle-IsSettled :
    (now : ℕ) (fresh : Bool) (c : Conf) (s : Status)
    → s.attempt ≤ c.max_check_attempts
    → (s.state_type ≡ soft → s.attempt < c.max_check_attempts)
    → s.state_id ≡ id_of_state s.state
    → IsSettled c (settle now fresh s)
settle-IsSettled now fresh c s b h e = ground arith

next_status-bounds :
    (c : Conf) (dependent : Bool) (code : ℕ) (s : Status)
    → 0 < c.max_check_attempts
    → s.attempt ≤ c.max_check_attempts
    → let t = next_status c dependent code s in
      (t.attempt ≤ c.max_check_attempts)
      × (t.state_type ≡ soft → t.attempt < c.max_check_attempts)
      × (t.state ≡ s.state)
      × (t.state_id ≡ s.state_id)
unfolding next_status
next_status-bounds c dependent code s pos b = ground arith

observe-id :
    (env : Env) (chk : Check) (i : Item)
    → (observe env chk i).state_id ≡ id_of_state (observe env chk i).state
unfolding observe told
observe-id env chk i = ground arith

observe-attempt : (env : Env) (chk : Check) (i : Item) → (observe env chk i).attempt ≡ i.attempt
unfolding observe told
observe-attempt env chk i = ground arith

-- The status and the configuration of the item after a result that does not wait.
abbrev pub after : Env → Bool → Check → Counters → Item → Item
after env raise_log chk c i = (digest env raise_log chk c i).1

-- Every result that does not wait keeps the status settled, whatever it was but for the attempts:
-- these stay within the configured number, and a soft state has attempts left.
pub digest-IsSettled :
    (env : Env) (raise_log : Bool) (chk : Check) (c : Counters) (i : Item)
    → 0 < i.max_check_attempts
    → i.attempt ≤ i.max_check_attempts
    → IsSettled (after env raise_log chk c i).conf (after env raise_log chk c i).status
digest-IsSettled env raise_log chk c i pos b =
    let p = digest-next_status env raise_log chk c i in
    let code = taken_status env chk i.my_type in
    let s = observe env chk i in
    let b' : s.attempt ≤ i.max_check_attempts = rw (observe-attempt env chk i) b in
    let t = next_status i.conf chk.dependency_check code s in
    let bounds = next_status-bounds i.conf chk.dependency_check code s pos b' in
    let e : t.state_id ≡ id_of_state t.state =
      bounds.3 ∙ observe-id env chk i ∙ ap id_of_state (sym bounds.2) in
    subst (λ (q : Conf × Status). IsSettled q.0 q.1) (sym p)
      (settle-IsSettled env.now chk.freshness_expiry_check i.conf t bounds.0 bounds.1 e)
