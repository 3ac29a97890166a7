-- ===== src/Impact/Settled.antt =====
-- The end of `set_myself_as_problem` (alignak/objects/schedulingitem.py): the list of impacts of a
-- problem becomes what it owes.
use alignak.Prelude.{
  ℕ, ◌≤◌, ◌≡◌, refl, sym, ap, ◌∙◌, subst, Bool, true, false, ◌&&◌, List, [], ◌∷◌, ◌++◌, ◌==◌,
  if◌then◌else◌, elem, arith, Bool-cases, ==_iff, inl, inr,
}
use alignak.Impact.Ties.{Site, Store, put_item, tell, update_business_impact_value}
use alignak.Impact.Problems.{set_is_problem, change_item, set_impacts, set_of, is_subset, same_set}
use alignak.Impact.Counts.{count, count-append, elem-count, elem_not-count, set_of-count}
use alignak.Impact.Linked.{
  is_problem_of, IsLinked, owe, Silent-IsLinked, put_same, put_self, put_off, put-Silent,
  tell-Silent, update-Silent,
}
use alignak.Impact.Ended.{owed_same, HasCause}
use alignak.Impact.Excused.{IsOwed, Silent-IsOwed, impacts_of, no_extra}
use alignak.Impact.Registers.{owed_here}

-- The impacts of each problem are the items that have it as a source, an item is an impact if it
-- has a source, and only problems have impacts.
pub record IsConsistent (st : Store) : Type 0 where
  pub linked : IsLinked (impacts_of st) no_extra st
  pub cause : HasCause st

is_subset-elem :
    (x : ℕ) (us vs : List ℕ) → is_subset us vs ≡ true → elem x us ≡ true → elem x vs ≡ true
is_subset-elem x [] vs e i = ground arith
is_subset-elem x (u ∷ us) vs e i = ground (arith, is_subset-elem x us vs)

both_left : (a b : Bool) → (a && b) ≡ true → a ≡ true
both_left a b e = ground arith

-- What has no impact twice is the same as a set only if it is the same list.
same_set-count :
    (x : ℕ) (was new : List ℕ)
    → same_set (was ++ new) was ≡ true
    → count x (was ++ new) ≤ 1
    → count x was ≡ count x (was ++ new)
same_set-count x was new e one = elim (Bool-cases (elem x (was ++ new))) [
  | inl i ↦ omega (
    arith,
    one,
    count-append x was new,
    elem-count x (was ++ new) i,
    elem-count x was (
        is_subset-elem x (was ++ new) was
          (both_left (is_subset (was ++ new) was) (is_subset was (was ++ new)) e) i),
  )
  | inr n ↦ omega (arith, count-append x was new, elem_not-count x (was ++ new) n)
]

abbrev pub IsRaised : ℕ → Store → Type 0
IsRaised u st = IsConsistent st × (is_problem_of st u ≡ true)

-- What is owed is paid by the list of impacts of the problem.
paid-IsConsistent :
    (prob : ℕ) (was us : List ℕ) (st : Store)
    → ((v : ℕ) → count v (st prob).impacts ≡ count v us)
    → IsOwed prob was us no_extra st
    → IsRaised prob st
paid-IsConsistent prob was us st e h = (
  record {
    linked = record {
      same = λ p v. elim (Bool-cases (p == prob)) [
        | inl s ↦
            ap (λ q. count v (st q).impacts) ((==_iff p prob).0 s)
            ∙ e v
            ∙ ap (λ b. count v (if b then us else (st p).impacts)) (sym s)
            ∙ h.linked.same p v
        | inr n ↦ ap (λ b. count v (if b then us else (st p).impacts)) (sym n) ∙ h.linked.same p v
      ];
      one = h.linked.one;
      other = h.linked.other;
      flagged = h.linked.flagged;
    };
    cause = h.cause;
  },
  h.still,
)

still_problem :
    (u p : ℕ) (st : Store)
    → is_problem_of st u ≡ true
    → (p == u) ≡ true
    → is_problem_of st p ≡ false
    → (st p).impacts ≡ []
still_problem u p st own s b =
    let same : is_problem_of st p ≡ true =
      subst (λ x. is_problem_of st x ≡ true) (sym ((==_iff p u).0 s)) own in
    absurd (cc)

pub raised-IsOwed :
    (u : ℕ) (st : Store)
    → IsConsistent st
    → IsOwed u (st u).impacts (st u).impacts no_extra (change_item (set_is_problem true) u st)
raised-IsOwed u st h =
    let node = record (st u) { item = set_is_problem true (st u).item } in
    let same_list : (q : ℕ) → (put_item u node st q).impacts ≡ (st q).impacts =
      λ q. put_same (λ m. m.impacts) u node st q refl in
    let own : is_problem_of (put_item u node st) u ≡ true =
      put_self (λ m. m.item.is_problem) u node st in
    record {
      linked =
          owed_same (impacts_of st) (owe u (st u).impacts (impacts_of (put_item u node st)))
            no_extra (put_item u node st)
            (λ q. elim (Bool-cases (q == u)) [
              | inl s ↦ rw s (ap (impacts_of st) ((==_iff q u).0 s))
              | inr n ↦ rw n (sym (same_list q))
            ])
            (Silent-IsLinked (impacts_of st) no_extra st (put_item u node st)
              (put-Silent u node st refl refl) h.linked);
      cause = λ p b. elim (Bool-cases (p == u)) [
        | inl s ↦ still_problem u p (put_item u node st) own s b
        | inr n ↦ same_list p ∙ h.cause p (sym (put_off (λ m. m.item.is_problem) u node st p n) ∙ b)
      ];
      still = own;
      kept = same_list u;
    }

-- The impacts in full are given to the problem.
given-IsConsistent :
    (w : Site) (u : ℕ) (was us : List ℕ) (st : Store)
    → IsOwed u was us no_extra st
    → IsRaised u (tell u (update_business_impact_value w u (set_impacts (set_of us) u st)))
given-IsConsistent w u was us st h =
    let node = record (st u) { impacts = set_of us } in
    let given = set_impacts (set_of us) u st in
    let once : (v : ℕ) → count v us ≤ 1 =
      λ v. subst (λ n. n ≤ 1) (sym (owed_here u was us no_extra st v h)) (h.linked.one u v) in
    let own : is_problem_of given u ≡ true =
      put_same (λ m. m.item.is_problem) u node st u refl ∙ h.still in
    let h' : IsOwed u (set_of us) us no_extra given = record {
      linked =
          owed_same (owe u us (impacts_of st)) (owe u us (impacts_of given)) no_extra given
            (λ q. elim (Bool-cases (q == u)) [
              | inl s ↦ rw s refl
              | inr n ↦ rw n (sym (put_off (λ m. m.impacts) u node st q n))
            ])
            (Silent-IsLinked (owe u us (impacts_of st)) no_extra st given
              (put-Silent u node st refl refl) h.linked);
      cause = λ p b. elim (Bool-cases (p == u)) [
        | inl s ↦ still_problem u p given own s b
        | inr n ↦
            put_off (λ m. m.impacts) u node st p n
            ∙ h.cause p (sym (put_off (λ m. m.item.is_problem) u node st p n) ∙ b)
      ];
      still = own;
      kept = put_self (λ m. m.impacts) u node st;
    } in
    let updated = update_business_impact_value w u given in
    let (quiet, kept) = update-Silent w u given in
    let (quiet', kept') = tell-Silent u updated in
    let h'' =
      Silent-IsOwed u (set_of us) us no_extra updated (tell u updated) quiet' kept'
        (Silent-IsOwed u (set_of us) us no_extra given updated quiet kept h') in
    paid-IsConsistent u (set_of us) us (tell u updated)
      (λ v. ap (count v) h''.kept ∙ set_of-count v us (once v)) h''

pub settled-IsConsistent :
    (w : Site) (u : ℕ) (was new : List ℕ) (b : Bool) (st : Store)
    → same_set (was ++ new) (st u).impacts ≡ b
    → IsOwed u was (was ++ new) no_extra st
    → IsRaised u (
        if b
        then st
        else tell u (update_business_impact_value w u (set_impacts (set_of (was ++ new)) u st)))
settled-IsConsistent w u was new true st e h =
    paid-IsConsistent u was (was ++ new) st
      (λ v.
        ap (count v) h.kept
        ∙ same_set-count v was new (ap (same_set (was ++ new)) (sym h.kept) ∙ e) (
            subst (λ n. n ≤ 1) (sym (owed_here u was (was ++ new) no_extra st v h))
              (h.linked.one u v)))
      h
settled-IsConsistent w u was new false st e h = given-IsConsistent w u was (was ++ new) st h
