-- ===== src/Scheduler/Rounds.antt =====
-- The rounds of `consume_results` (alignak/scheduler.py) come to an end.
use alignak.Prelude.{
  bind-some, some_inj, ℕ, zero, suc, ◌+◌, ◌≤◌, ◌<◌, ◌≡◌, ◌≢◌, refl, ap, subst, ◌∙◌, Bool, true,
  false, not, ◌&&◌, Option, none, some, List, [], ◌∷◌, ◌++◌, ◌>>=◌, map, if◌then◌else◌, ◌==◌, arith,
  length, Option-cases, Bool-cases, inl, inr,
}
use alignak.Item.Kinds.{ActStatus, zombie, wait_consume, wait_dependent, wait_me}
use alignak.Item.Consume.{consume_result, is_wait_consume}
use alignak.Scheduler.Jobs.{Job, find, update, is_waiting_me}
use alignak.Scheduler.Consuming.{
  Surroundings, Store, check_of, put_back, wait_for, launch, add_new, awaited_by, consume,
  consume_if, consume_each, ids, remove, release_one, release, release_each, is_freed, Resolution,
  value_error, out_of_rounds, end_round, resolve, consume_results,
}

-- How many more changes of status a check can see: it is consumed, waits for others, and is waited
-- for before it is a zombie.
abbrev pub rank : ActStatus → ℕ
rank wait_consume = 2
rank wait_dependent = 2
rank wait_me = 1
rank _ = 0

abbrev pub pending : List Job → ℕ
pending [] = 0
pending (j ∷ js) = rank j.status + pending js

abbrev rank_of : ℕ → List Job → ℕ
rank_of u [] = 0
rank_of u (j ∷ js) = if j.uuid == u then rank j.status else rank_of u js

rank_le : (s : ActStatus) → rank s ≤ 2
rank_le s = ground arith

rank_of-find : (u : ℕ) (js : List Job) (j : Job) → find u js ≡ some j → rank_of u js ≡ rank j.status
rank_of-find u [] j e = ground arith
rank_of-find u (k ∷ ks) j e = let rest = rank_of-find u ks j in ground arith

-- A change to a status whose rank is at most `r`.
pending-update :
    (u r : ℕ) (f : Job → Job) (js : List Job)
    → ((j : Job) → rank (f j).status ≤ r)
    → pending (update u f js) + rank_of u js ≤ pending js + r
pending-update u r f [] h = omega arith
pending-update u r f (j ∷ js) h =
    let k = h j in let rest = pending-update u r f js h in ground arith

-- The ranks are the same ones.
abbrev SameRanks : List Job → List Job → Type 0
SameRanks js ks = (pending js ≡ pending ks) × ((u : ℕ) → rank_of u js ≡ rank_of u ks)

SameRanks-update :
    (u : ℕ) (f : Job → Job) (js : List Job)
    → ((j : Job) → ((f j).status ≡ j.status) × ((f j).uuid ≡ j.uuid))
    → SameRanks (update u f js) js
SameRanks-update u f [] h = (refl, λ v. refl)
SameRanks-update u f (j ∷ js) h =
    let k = h j in
    let rest = SameRanks-update u f js h in (ground arith, λ v. (let r = rest.1 v in ground arith))

pending-wait_for :
    (u : ℕ) (awaited : List ℕ) (js : List Job) → pending (map (wait_for u awaited) js) ≡ pending js
pending-wait_for u awaited [] = refl
pending-wait_for u awaited (j ∷ js) = let rest = pending-wait_for u awaited js in ground arith

rank_of-wait_for :
    (u v : ℕ) (awaited : List ℕ) (js : List Job)
    → rank_of v (map (wait_for u awaited) js) ≡ rank_of v js
rank_of-wait_for u v awaited [] = refl
rank_of-wait_for u v awaited (j ∷ js) = let rest = rank_of-wait_for u v awaited js in ground arith

pending-append : (js ks : List Job) → pending (js ++ ks) ≡ pending js + pending ks
pending-append [] ks = omega arith
pending-append (j ∷ js) ks = omega (arith, pending-append js ks)

pending-add_new :
    (w : Surroundings) (u : ℕ) (new : List ℕ) (js : List Job)
    → pending (add_new (map (launch w u) new) js) ≡ pending js
pending-add_new w u [] js = refl
pending-add_new w u (n ∷ ns) js =
    pending-add_new w u ns _ ∙ (let e = pending-append js (launch w u n ∷ []) in ground arith)

-- Consuming a check that waits, to be consumed or for others, makes no more changes pending.
pending-consume :
    (w : Surroundings) (j : Job) (s : Store)
    → rank_of j.uuid s.checks ≡ 2
    → pending (consume w j s).checks ≤ pending s.checks
unfolding consume
pending-consume w j s e =
    let env = w.env_of s.items j.ref in
    let waiting = map (wait_for j.uuid (awaited_by env (check_of j))) s.checks in
    let r =
      consume_result env (w.log_active_checks && not j.passive_check) (check_of j) s.counters
        (s.items j.ref) in
    let added = pending-add_new w j.uuid r.3 (update j.uuid (put_back r.0) waiting) in
    let put = pending-update j.uuid 2 (put_back r.0) waiting (λ k. rank_le r.0.status) in
    let same = pending-wait_for j.uuid (awaited_by env (check_of j)) s.checks in
    let same' = rank_of-wait_for j.uuid j.uuid (awaited_by env (check_of j)) s.checks in
    omega (arith, added, put, same, same', e)

find-uuid : (u : ℕ) (js : List Job) (j : Job) → find u js ≡ some j → j.uuid ≡ u
find-uuid u [] j e = ground arith
find-uuid u (k ∷ ks) j e = let rest = find-uuid u ks j in ground arith

pending-consume_if :
    (w : Surroundings) (p : Job → Bool) (u : ℕ) (s : Store)
    → ((j : Job) → p j ≡ true → rank j.status ≡ 2)
    → pending (consume_if w p u s).checks ≤ pending s.checks
unfolding consume_if
pending-consume_if w p u s h = elim (Option-cases (find u s.checks)) [
  | inl e ↦ ground arith
  | inr (j, e) ↦
      let one = pending-consume w j s in
      let k = h j in
      let r = rank_of-find u s.checks j e in
      let f = find-uuid u s.checks j e in
      let g = ap (λ v. rank_of v s.checks) f in ground (arith, one)
]

pending-consume_each :
    (w : Surroundings) (p : Job → Bool) (us : List ℕ) (s : Store)
    → ((j : Job) → p j ≡ true → rank j.status ≡ 2)
    → pending (consume_each w p us s).checks ≤ pending s.checks
unfolding consume_each
pending-consume_each w p [] s h = omega arith
pending-consume_each w p (u ∷ us) s h =
    omega (arith, pending-consume_each w p us (consume_if w p u s) h, pending-consume_if w p u s h)

-- A successful bind.
SameRanks-trans : (js ks ls : List Job) → SameRanks js ks → SameRanks ks ls → SameRanks js ls
SameRanks-trans js ks ls h k = (h.0 ∙ k.0, λ u. h.1 u ∙ k.1 u)

release_one-SameRanks :
    (u d : ℕ) (js ks : List Job) → release_one u d js ≡ some ks → SameRanks ks js
unfolding release_one
release_one-SameRanks u d js ks e = elim (Option-cases (find d js)) [
  | inl f ↦
      let g : js ≡ ks = (let h = f in ground arith) in
      subst (λ l. SameRanks l js) g (refl, λ v. refl)
  | inr (k, f) ↦
      let (left, g, h) =
        bind-some (remove u k.depend_on) (λ l. some (update d (λ m. record m { depend_on = l }) js))
          ks (unwrap k f) in
      subst (λ l. SameRanks l js) (some_inj _ _ h)
        (SameRanks-update d (λ m. record m { depend_on = left }) js (λ m. (refl, refl)))
]
  where
    unwrap :
        (k : Job)
        → find d js ≡ some k
        → (remove u k.depend_on >>= λ l. some (update d (λ m. record m { depend_on = l }) js))
          ≡ some ks
    unwrap k f = rw (f, release_one) at e

release-SameRanks :
    (u : ℕ) (ds : List ℕ) (js ks : List Job) → release u ds js ≡ some ks → SameRanks ks js
unfolding release
release-SameRanks u [] js ks e = subst (λ l. SameRanks l js) (some_inj _ _ e) (refl, λ v. refl)
release-SameRanks u (d ∷ ds) js ks e =
    let (ls, f, g) = bind-some (release_one u d js) (release u ds) ks e in
    SameRanks-trans ks ls js (release-SameRanks u ds ls ks g) (release_one-SameRanks u d js ls f)

-- Fewer changes are pending, or as many and no check was waited for.
abbrev Drops : List Job → List Job × Bool → Type 0
Drops js r = (pending r.0 ≤ pending js) × (r.1 ≡ true → pending r.0 < pending js)

-- A check that is done with becomes a zombie.
pending-release :
    (u : ℕ) (c : Job) (js next : List Job)
    → find u js ≡ some c
    → is_waiting_me c.status ≡ true
    → release u c.depend_on_me js ≡ some next
    → pending (update u (λ k. record k { status = zombie }) next) < pending js
pending-release u c js next f w e =
    let same = release-SameRanks u c.depend_on_me js next e in
    let r = rank_of-find u js c f in
    let s = same.1 u in
    let p = same.0 in
    let d =
      pending-update u 0 (λ (k : Job). record k { status = zombie }) next (λ k. omega arith) in
    let one : rank c.status ≡ 1 = ground arith in omega arith

release_each-Drops :
    (us : List ℕ) (js : List Job) (r : List Job × Bool) → release_each us js ≡ some r → Drops js r
unfolding release_each
release_each-Drops [] js r e = subst (Drops js) (some_inj _ _ e) (omega arith, λ f. cc)
release_each-Drops (u ∷ us) js r e = elim (Option-cases (find u js)) [
  | inl f ↦ release_each-Drops us js r (rw (f, release_each) at e)
  | inr (c, f) ↦ elim (Bool-cases (is_waiting_me c.status)) [
    | inr n ↦ release_each-Drops us js r (rw (f, n, release_each) at e)
    | inl w ↦
        let (next, g, h) =
          bind-some (release u c.depend_on_me js) _ r (rw (f, w, release_each) at e) in
        let (rest, k, l) =
          bind-some (release_each us (update u (λ k. record k { status = zombie }) next)) _ r h in
        let d = release_each-Drops us (update u (λ k. record k { status = zombie }) next) rest k in
        let p = pending-release u c js next f w g in
        subst (Drops js) (some_inj _ _ l) (omega (arith, d.0, p), λ t. omega (arith, d.0, p))
  ]
]

freed_rank : (j : Job) → is_freed j ≡ true → rank j.status ≡ 2
freed_rank j e = ground arith

waiting_rank : (j : Job) → is_wait_consume j.status ≡ true → rank j.status ≡ 2
waiting_rank j e = ground arith

-- A round ends the loop, or leaves fewer changes pending.
end_round-ne-out_of_rounds :
    (n : ℕ) (w : Surroundings) (s : Store) (more : Store → Resolution) (r : List Job × Bool)
    → ((t : Store) → pending t.checks < n → more t ≢ out_of_rounds)
    → Drops s.checks r
    → pending s.checks < suc n
    → end_round w more s r ≢ out_of_rounds
end_round-ne-out_of_rounds n w s more (cs, false) h d b = λ e. cc
end_round-ne-out_of_rounds n w s more (cs, true) h d b =
    let start = record s { checks = cs } in
    let c = pending-consume_each w is_freed (ids cs) start freed_rank in
    h (consume_each w is_freed (ids cs) start) (omega (arith, c, d.1 refl))

resolve-ne-out_of_rounds :
    (n : ℕ) (w : Surroundings) (s : Store) → pending s.checks < n → resolve n w s ≢ out_of_rounds
unfolding resolve
resolve-ne-out_of_rounds zero w s b = absurd (omega arith)
resolve-ne-out_of_rounds (suc n) w s b =
    round (release_each (ids s.checks) s.checks) (resolve-ne-out_of_rounds n w) refl
  where
    round :
        (o : Option (List Job × Bool))
        → ((t : Store) → pending t.checks < n → resolve n w t ≢ out_of_rounds)
        → release_each (ids s.checks) s.checks ≡ o
        → (elim o as (λ x. Resolution) [
          | none ↦ value_error
          | some r ↦ end_round w (resolve n w) s r
        ])
          ≢ out_of_rounds
    round none more e = λ f. cc
    round (some r) more e =
        end_round-ne-out_of_rounds n w s (resolve n w) r more
          (release_each-Drops (ids s.checks) s.checks r e) b

pending_le : (js : List Job) → pending js ≤ length js + length js
pending_le [] = omega arith
pending_le (j ∷ js) = omega (arith, rank_le j.status, pending_le js)

-- However the checks depend on one another, the rounds of `consume_results` end: one round more
-- than twice the number of checks is enough.
pub consume_results-ne-out_of_rounds :
    (n : ℕ) (w : Surroundings) (s : Store)
    → length s.checks + length s.checks < n
    → consume_results n w s ≢ out_of_rounds
unfolding consume_results
consume_results-ne-out_of_rounds n w s b =
    let waits = λ (j : Job). is_wait_consume j.status in
    let p = pending-consume_each w waits (ids s.checks) s waiting_rank in
    resolve-ne-out_of_rounds n w (consume_each w waits (ids s.checks) s)
      (omega (arith, p, pending_le s.checks))
