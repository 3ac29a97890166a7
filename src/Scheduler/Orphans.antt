-- ===== src/Scheduler/Orphans.antt =====
-- A check that a worker never returns comes back: `check_orphaned` and `get_to_run_checks` of
-- alignak/scheduler.py.
use alignak.Prelude.{
  ℕ, ◌≤◌, ◌≡◌, refl, sym, subst, Bool, true, false, List, [], ◌∷◌, keep, elem, arith, Bool-cases,
  inl, inr,
}
use mathlib.Core.List.{Memᴰ}
use mathlib.Core.List.Memᴰ
use alignak.Scheduler.Jobs.{Job}
use alignak.Scheduler.Queues.{Scheduler}
use alignak.Scheduler.Polling.{
  Request, is_check_to_run, hand_out, get_to_run_checks, is_lost, take_back, take_back_lost,
  check_orphaned, or_only, no_tag, fork,
}
use alignak.Scheduler.Handed.{is_check_handed, get_to_run_checks-handed}

mem-keep : (p : Job → Bool) (j : Job) (js : List Job) → p j ≡ true → Memᴰ j js → Memᴰ j (keep p js)
mem-keep p j [] e m = elim m [ ]
mem-keep p j (k ∷ ks) e (Memᴰ.head f) = rw (subst (λ (x : Job). p x ≡ true) f e) (Memᴰ.head f)
mem-keep p j (k ∷ ks) e (Memᴰ.tail m) = elim (Bool-cases (p k)) [
  | inl t ↦ rw t (Memᴰ.tail (mem-keep p j ks e m))
  | inr f ↦ rw f (mem-keep p j ks e m)
]

-- The check is one that this poller may run: not internal, with one of its tags and module types.
pub record IsFor (r : Request) (c : Job) : Type 0 where
  pub wanted : r.do_checks ≡ true
  pub external : c.internal ≡ false
  pub tagged : elem c.tag (or_only no_tag r.poller_tags) ≡ true
  pub typed : elem c.module_type (or_only fork r.module_types) ≡ true

take_back-handed :
    (now now' : ℕ) (tto : ℕ → ℕ) (r : Request) (c : Job)
    → IsFor r c
    → is_lost now tto c ≡ true
    → now ≤ now'
    → is_check_handed now' r (take_back c) ≡ true
unfolding is_lost is_check_to_run
take_back-handed now now' tto r c f l b = ground arith

-- A check that its poller has kept for the time to orphanage of its item is handed out again, once
-- the orphans are looked for, by the next call of any poller that may run it.
pub check_orphaned-get_to_run_checks :
    (now now' : ℕ) (tto : ℕ → ℕ) (r : Request) (s : Scheduler) (c : Job)
    → Memᴰ c s.checks
    → is_lost now tto c ≡ true
    → IsFor r c
    → now ≤ now'
    → Memᴰ
        (hand_out r.worker_name (take_back c))
        (get_to_run_checks now' r (check_orphaned now tto s)).1
unfolding check_orphaned
check_orphaned-get_to_run_checks now now' tto r s c m l f b =
    let t = check_orphaned now tto s in
    let back =
      subst (λ (x : Job). Memᴰ x t.checks) (taken l) (Memᴰ.map (take_back_lost now tto) m) in
    subst (Memᴰ (hand_out r.worker_name (take_back c))) (sym (get_to_run_checks-handed now' r t).0)
      (Memᴰ.append_left _ (
        Memᴰ.map (hand_out r.worker_name) (
          mem-keep (is_check_handed now' r) (take_back c) t.checks
            (take_back-handed now now' tto r c f l b) back)))
  where
    taken : is_lost now tto c ≡ true → take_back_lost now tto c ≡ take_back c
    taken e = rw e refl
