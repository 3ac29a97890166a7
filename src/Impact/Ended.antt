-- ===== src/Impact/Ended.antt =====
-- The end of a problem (alignak/objects/schedulingitem.py): `unregister_a_problem` and
-- `no_more_a_problem`.
use alignak.Prelude.{
  ℕ, ◌≤◌, ◌≡◌, refl, sym, ap, ◌∙◌, subst, Bool, false, some, List, [], ◌∷◌, ◌==◌, arith, Bool-cases,
  ==_iff, inl, inr,
}
use alignak.Impact.Ties.{Site, Store, put_item, remove_first, update_business_impact_value, tell}
use alignak.Impact.Problems.{
  done, set_is_problem, change_item, set_impacts, without_problem, unregister_a_problem,
  unregister_all, no_more_a_problem,
}
use alignak.Impact.Counts.{count, remove_first-count}
use alignak.Impact.Linked.{
  sources, is_problem_of, IsLinked, Keeps, owe, Keeps-refl, Keeps-trans, Silent-IsLinked, put_same,
  put_self, put_off, put-Silent, tell-Silent, update-Silent, without_flags, unregistered-IsLinked,
}

pub owed_same :
    (imp imp' : ℕ → List ℕ) (extra : ℕ → Bool) (st : Store)
    → ((q : ℕ) → imp q ≡ imp' q)
    → IsLinked imp extra st
    → IsLinked imp' extra st
owed_same imp imp' extra st e h = record {
  same = λ p u. ap (count u) (sym (e p)) ∙ h.same p u;
  one = h.one;
  other = h.other;
  flagged = h.flagged;
}

unregister_done :
    (p u : ℕ) (st : Store) (ps : List ℕ)
    → remove_first p (sources st u) ≡ some ps
    → unregister_a_problem p u st ≡ done (tell u (put_item u (without_problem ps (st u)) st))
unfolding unregister_a_problem
unregister_done p u st ps e = rw (e, unregister_a_problem) refl

nothing_owed : (p : ℕ) (imp : ℕ → List ℕ) → imp p ≡ [] → (q : ℕ) → imp q ≡ owe p [] imp q
nothing_owed p imp e q = elim (Bool-cases (q == p)) [
  | inl s ↦ rw s (ap imp ((==_iff q p).0 s) ∙ e)
  | inr n ↦ rw n refl
]

unregister-IsLinked :
    (imp : ℕ → List ℕ) (extra : ℕ → Bool) (st : Store) (p u : ℕ) (us : List ℕ)
    → IsLinked imp extra st
    → imp p ≡ u ∷ us
    → extra u ≡ false
    → (t : Store) × (unregister_a_problem p u st ≡ done t)
      × IsLinked (owe p us imp) extra t
      × Keeps st t
unregister-IsLinked imp extra st p u us h e x =
    let k : 1 ≤ count p (sources st u) =
      (let a = h.same p u in let b = ap (count u) e in ground arith) in
    let (ps, f, (c, d)) = remove_first-count p (sources st u) k in
    let after = put_item u (without_problem ps (st u)) st in
    let (quiet, kept) = tell-Silent u after in
    (
      tell u after,
      unregister_done p u st ps f,
      Silent-IsLinked (owe p us imp) extra after (tell u after) quiet
          (unregistered-IsLinked imp extra st p u us ps h e x c d),
      Keeps-trans st after (tell u after)
          (record {
            same_problems = λ v.
                put_same (λ m. m.item.is_problem) u (without_problem ps (st u)) st v
                  (without_flags ps (st u)).2;
            same_impacts = λ v.
                put_same (λ m. m.impacts) u (without_problem ps (st u)) st v
                  (without_flags ps (st u)).1;
          })
          kept,
    )

unregister_all-IsLinked :
    (imp : ℕ → List ℕ) (extra : ℕ → Bool) (st : Store) (p : ℕ) (us : List ℕ)
    → IsLinked imp extra st
    → imp p ≡ us
    → ((u : ℕ) → 1 ≤ count u us → extra u ≡ false)
    → (t : Store) × (unregister_all p us st ≡ done t) × IsLinked (owe p [] imp) extra t × Keeps st t
unfolding unregister_all
unregister_all-IsLinked imp extra st p [] h e x =
    (st, refl, owed_same imp (owe p [] imp) extra st (nothing_owed p imp e) h, Keeps-refl st)
unregister_all-IsLinked imp extra st p (u ∷ us) h e x =
    let (t, f, g, k) = unregister-IsLinked imp extra st p u us h e (x u (ground arith)) in
    let (t', f', g', k') =
      unregister_all-IsLinked (owe p us imp) extra t p us g (ground arith)
        (λ v c. x v (ground arith)) in
    (
      t',
      rw f f',
      owed_same (owe p [] (owe p us imp)) (owe p [] imp) extra t' (λ q. twice q) g',
      Keeps-trans st t t' k k',
    )
  where
    twice : (q : ℕ) → owe p [] (owe p us imp) q ≡ owe p [] imp q
    twice q = ground arith

-- What the end of a problem leaves.
pub record Ended (p : ℕ) (st t : Store) : Type 0 where
  pub gone : (t p).impacts ≡ []
  pub over : is_problem_of t p ≡ false
  pub other_problems : (q : ℕ) → (q == p) ≡ false → is_problem_of t q ≡ is_problem_of st q
  pub other_impacts : (q : ℕ) → (q == p) ≡ false → (t q).impacts ≡ (st q).impacts

-- Only problems have impacts.
abbrev pub HasCause : Store → Type 0
HasCause st = (p : ℕ) → is_problem_of st p ≡ false → (st p).impacts ≡ []

pub Ended-HasCause : (p : ℕ) (st t : Store) → Ended p st t → HasCause st → HasCause t
Ended-HasCause p st t ended h q b = elim (Bool-cases (q == p)) [
  | inl s ↦ subst (λ x. (t x).impacts ≡ []) (sym ((==_iff q p).0 s)) ended.gone
  | inr n ↦ ended.other_impacts q n ∙ h q (sym (ended.other_problems q n) ∙ b)
]

-- A problem whose impacts were told loses its list of them.
abbrev cleared : Site → ℕ → Store → Store
cleared w p t = tell p (update_business_impact_value w p (set_impacts [] p t))

cleared-IsLinked :
    (w : Site) (imp : ℕ → List ℕ) (extra : ℕ → Bool) (t : Store) (p : ℕ)
    → IsLinked imp extra t
    → IsLinked imp extra (cleared w p t)
cleared-IsLinked w imp extra t p h =
    let emptied = set_impacts [] p t in
    let updated = update_business_impact_value w p emptied in
    Silent-IsLinked imp extra updated (tell p updated) (tell-Silent p updated).0 (
      Silent-IsLinked imp extra emptied updated (update-Silent w p emptied).0 (
        Silent-IsLinked imp extra t emptied
          (put-Silent p (record (t p) { impacts = [] }) t refl refl) h))

cleared-Ended :
    (w : Site) (st t : Store) (p : ℕ)
    → Keeps (change_item (set_is_problem false) p st) t
    → Ended p st (cleared w p t)
cleared-Ended w st t p k =
    let unmarked = record (st p) { item = set_is_problem false (st p).item } in
    let emptied = record (t p) { impacts = [] } in
    let kept = (update-Silent w p (set_impacts [] p t)).1 in
    let kept' = (tell-Silent p (update_business_impact_value w p (set_impacts [] p t))).1 in
    record {
      gone = kept'.same_impacts p ∙ kept.same_impacts p ∙ put_self (λ m. m.impacts) p emptied t;
      over =
          kept'.same_problems p
          ∙ kept.same_problems p
          ∙ put_same (λ m. m.item.is_problem) p emptied t p refl
          ∙ k.same_problems p
          ∙ put_self (λ m. m.item.is_problem) p unmarked st;
      other_problems = λ q n.
          kept'.same_problems q
          ∙ kept.same_problems q
          ∙ put_off (λ m. m.item.is_problem) p emptied t q n
          ∙ k.same_problems q
          ∙ put_off (λ m. m.item.is_problem) p unmarked st q n;
      other_impacts = λ q n.
          kept'.same_impacts q
          ∙ kept.same_impacts q
          ∙ put_off (λ m. m.impacts) p emptied t q n
          ∙ k.same_impacts q
          ∙ put_off (λ m. m.impacts) p unmarked st q n;
    }

pub no_more-IsLinked :
    (w : Site) (imp : ℕ → List ℕ) (extra : ℕ → Bool) (st : Store) (p : ℕ)
    → IsLinked imp extra st
    → HasCause st
    → imp p ≡ (st p).impacts
    → ((u : ℕ) → 1 ≤ count u (st p).impacts → extra u ≡ false)
    → (t : Store) × (no_more_a_problem w p st ≡ done t)
      × IsLinked (owe p [] imp) extra t
      × Ended p st t
unfolding no_more_a_problem
no_more-IsLinked w imp extra st p h c e x = elim (Bool-cases (is_problem_of st p)) [
  | inl b ↦
      let marked = change_item (set_is_problem false) p st in
      let quiet =
        put-Silent p (record (st p) { item = set_is_problem false (st p).item }) st refl refl in
      let (t, f, g, k) =
        unregister_all-IsLinked imp extra marked p (st p).impacts
          (Silent-IsLinked imp extra st marked quiet h) e x in
      (
        cleared w p t,
        rw (b, f) refl,
        cleared-IsLinked w (owe p [] imp) extra t p g,
        cleared-Ended w st t p k,
      )
  | inr b ↦
      let (quiet, kept) = update-Silent w p st in
      let t = update_business_impact_value w p st in
      (
        t,
        rw b refl,
        owed_same imp (owe p [] imp) extra t (nothing_owed p imp (e ∙ c p b))
            (Silent-IsLinked imp extra st t quiet h),
        record {
          gone = kept.same_impacts p ∙ c p b;
          over = kept.same_problems p ∙ b;
          other_problems = λ q n. kept.same_problems q;
          other_impacts = λ q n. kept.same_impacts q;
        },
      )
]
