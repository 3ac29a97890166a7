-- ===== src/Item/Streak.antt =====
-- Problems in a row: after k of them an item that was fine is soft with k attempts below
-- max_check_attempts, and hard from there on. The results are those of `consume_result` that do not
-- wait for other items.
use alignak.Prelude.{
  ℕ, suc, ◌+◌, ◌<◌, ◌≡◌, ◌≢◌, ◌⊎◌, sym, ◌∙◌, subst, min, Bool, true, false, arith, List, [], ◌∷◌,
  length,
}
use alignak.Item.Kinds.{pending, unreachable, same, MyType}
use alignak.Item.Checks.{Env, Check, Counters}
use alignak.Item.Types.{Item, Conf, Status}
use alignak.Item.Notifications.{ok_up}
use alignak.Item.States.{state_of_exit, previous_state}
use alignak.Item.Consume.{digest, settle, taken_status}
use alignak.Item.Machine.{next_status, type_at}
use alignak.Item.Outcome.{observe, told, digest-next_status}

-- A check result with what the rest of the program looked like when it came.
pub record Result : Type 0 where
  pub env : Env
  pub raise_log : Bool
  pub chk : Check

-- The results one after another.
unfoldable pub consume_all : List Result → Counters → Item → Counters × Item
consume_all [] c i = (c, i)
consume_all (r ∷ rs) c i = let (c', i') = digest r.env r.raise_log r.chk c i in consume_all rs c' i'

-- A result that the item takes for a problem, of a check that no other item asked for.
abbrev pub IsProblem : MyType → Result → Type 0
IsProblem t r = (taken_status r.env r.chk t ≢ 0) × (r.chk.dependency_check ≡ false)

abbrev pub AllProblems : MyType → List Result → Type 0
AllProblems t [] = Unit {0}
AllProblems t (r ∷ rs) = IsProblem t r × AllProblems t rs

-- After k problems in a row.
pub record IsStreak (c : Conf) (k : ℕ) (s : Status) : Type 0 where
  pub not_fine : same s.state (ok_up c.my_type) ≡ false
  pub not_pending : same s.state pending ≡ false
  pub attempts : s.attempt ≡ min k c.max_check_attempts
  pub type : s.state_type ≡ type_at c k

-- What the item is configured for: no volatile states, no states overridden by impacts.
abbrev pub IsPlain : Conf → Type 0
IsPlain c =
    (0 < c.max_check_attempts)
    × (c.is_volatile ≡ false)
    × (c.enable_problem_impacts_states_change ≡ false)

exit_not_fine :
    (t : MyType) (code : ℕ)
    → code ≢ 0
    → (same (state_of_exit t code) (ok_up t) ≡ false)
      × (same (state_of_exit t code) pending ≡ false)
unfolding state_of_exit same
exit_not_fine t code h = ground arith

unreachable_not_fine :
    (t : MyType) → (same unreachable (ok_up t) ≡ false) × (same unreachable pending ≡ false)
unfolding same
unreachable_not_fine t = ground arith

observed :
    (env : Env) (chk : Check) (i : Item)
    → taken_status env chk i.my_type ≢ 0
    → i.enable_problem_impacts_states_change ≡ false
    → let s = observe env chk i in
      (same s.state (ok_up i.my_type) ≡ false)
      × (same s.state pending ≡ false)
      × (s.last_state ≡ i.state)
      × (s.attempt ≡ i.attempt)
      × (s.state_type ≡ i.state_type)
unfolding observe told previous_state
observed env chk i h e = ground (
  arith,
  exit_not_fine i.my_type (taken_status env chk i.my_type) h,
  unreachable_not_fine i.my_type,
)

-- The first problem of an item that was fine, and one more.
next_first :
    (c : Conf) (code : ℕ) (s : Status)
    → IsPlain c
    → code ≢ 0
    → (same s.last_state (ok_up c.my_type) ≡ true) ⊎ (same s.last_state pending ≡ true)
    → let t = next_status c false code s in
      (t.attempt ≡ min 1 c.max_check_attempts) × (t.state_type ≡ type_at c 1) × (t.state ≡ s.state)
unfolding next_status
next_first c code s p h f = ground arith

next_more :
    (c : Conf) (code k : ℕ) (s : Status)
    → IsPlain c
    → code ≢ 0
    → same s.last_state (ok_up c.my_type) ≡ false
    → same s.last_state pending ≡ false
    → s.attempt ≡ min (suc k) c.max_check_attempts
    → s.state_type ≡ type_at c (suc k)
    → let t = next_status c false code s in
      (t.attempt ≡ min (suc (suc k)) c.max_check_attempts)
      × (t.state_type ≡ type_at c (suc (suc k)))
      × (t.state ≡ s.state)
unfolding next_status
next_more c code k s p h f g a t = ground arith

settle-keeps :
    (now : ℕ) (fresh : Bool) (s : Status)
    → let t = settle now fresh s in
      (t.attempt ≡ s.attempt) × (t.state_type ≡ s.state_type) × (t.state ≡ s.state)
settle-keeps now fresh s = ground arith

-- The item's status after a result, up to what settling changes.
digest-parts :
    (r : Result) (c : Counters) (i : Item)
    → r.chk.dependency_check ≡ false
    → let j = (digest r.env r.raise_log r.chk c i).1 in
      let t =
        next_status i.conf false (taken_status r.env r.chk i.my_type) (observe r.env r.chk i) in
      (j.conf ≡ i.conf)
      × (j.attempt ≡ t.attempt)
      × (j.state_type ≡ t.state_type)
      × (j.state ≡ t.state)
digest-parts r c i d =
    let t =
      next_status i.conf r.chk.dependency_check (taken_status r.env r.chk i.my_type)
        (observe r.env r.chk i) in
    ground (
      arith,
      digest-next_status r.env r.raise_log r.chk c i,
      settle-keeps r.env.now r.chk.freshness_expiry_check t,
    )

IsStreak-first :
    (r : Result) (c : Counters) (i : Item)
    → IsPlain i.conf
    → IsProblem i.my_type r
    → (same i.state (ok_up i.my_type) ≡ true) ⊎ (same i.state pending ≡ true)
    → let j = (digest r.env r.raise_log r.chk c i).1 in
      (j.conf ≡ i.conf) × IsStreak i.conf 1 j.status
IsStreak-first r c i p q f =
    let s = observe r.env r.chk i in
    let o = observed r.env r.chk i q.0 p.2 in
    let n = next_first i.conf (taken_status r.env r.chk i.my_type) s p q.0 (rw o.2 f) in
    let d = digest-parts r c i q.1 in
    (
      d.0,
      record {
        not_fine = rw (d.3 ∙ n.2) o.0;
        not_pending = rw (d.3 ∙ n.2) o.1;
        attempts = d.1 ∙ n.0;
        type = d.2 ∙ n.1;
      },
    )

IsStreak-more :
    (r : Result) (k : ℕ) (c : Counters) (i : Item)
    → IsPlain i.conf
    → IsProblem i.my_type r
    → IsStreak i.conf (suc k) i.status
    → let j = (digest r.env r.raise_log r.chk c i).1 in
      (j.conf ≡ i.conf) × IsStreak i.conf (suc (suc k)) j.status
IsStreak-more r k c i p q h =
    let code = taken_status r.env r.chk i.my_type in
    let s = observe r.env r.chk i in
    let o = observed r.env r.chk i q.0 p.2 in
    let n =
      next_more i.conf code k s p q.0 (rw o.2 h.not_fine) (rw o.2 h.not_pending) (o.3 ∙ h.attempts)
        (o.4 ∙ h.type) in
    let d = digest-parts r c i q.1 in
    (
      d.0,
      record {
        not_fine = rw (d.3 ∙ n.2) o.0;
        not_pending = rw (d.3 ∙ n.2) o.1;
        attempts = d.1 ∙ n.0;
        type = d.2 ∙ n.1;
      },
    )

IsStreak-from :
    (rs : List Result) (k n : ℕ) (c : Counters) (i : Item) (conf : Conf)
    → i.conf ≡ conf
    → IsPlain conf
    → AllProblems conf.my_type rs
    → IsStreak conf (suc k) i.status
    → n ≡ suc k + length rs
    → IsStreak conf n (consume_all rs c i).1.status
unfolding consume_all
IsStreak-from [] k n c i conf e p all h m =
    let m' : suc k ≡ n = omega arith in subst (λ x. IsStreak conf x i.status) m' h
IsStreak-from (r ∷ rs) k n c i conf e p all h m =
    let (c', j) = digest r.env r.raise_log r.chk c i in
    let problem : IsProblem i.my_type r = subst (λ q. IsProblem q.my_type r) (sym e) all.0 in
    let more = IsStreak-more r k c i (rw e p) problem (rw e h) in
    IsStreak-from rs (suc k) n c' j conf (more.0 ∙ e) p all.1
      (subst (λ q. IsStreak q (suc (suc k)) j.status) e more.1) (omega arith)

-- An item that was fine or pending, with neither volatile nor overridden states, after k problems
-- in a row, k at least 1: it is not fine, its attempt is k or max_check_attempts, whichever is
-- less, and it is hard exactly if k reaches max_check_attempts.
pub consume_all-IsStreak :
    (r : Result) (rs : List Result) (c : Counters) (i : Item)
    → IsPlain i.conf
    → AllProblems i.my_type (r ∷ rs)
    → (same i.state (ok_up i.my_type) ≡ true) ⊎ (same i.state pending ≡ true)
    → IsStreak i.conf (length (r ∷ rs)) (consume_all (r ∷ rs) c i).1.status
unfolding consume_all
consume_all-IsStreak r rs c i p all f =
    let (c', j) = digest r.env r.raise_log r.chk c i in
    let first = IsStreak-first r c i p all.0 f in
    IsStreak-from rs 0 (length (r ∷ rs)) c' j i.conf first.0 p all.1 first.1 (omega arith)
