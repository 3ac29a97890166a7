-- ===== src/Impact/Excused.antt =====
-- An item that a problem reaches (alignak/objects/schedulingitem.py): `register_a_problem`.
use alignak.Prelude.{
  ℕ, ◌≤◌, ◌≡◌, refl, sym, ap, ◌∙◌, subst, Bool, true, false, List, [], ◌==◌, if◌then◌else◌, arith,
  Bool-cases, ==_iff, inl, inr,
}
use alignak.Impact.Ties.{Site, Store}
use alignak.Impact.Problems.{done, set_is_impact, change_item, no_more_a_problem}
use alignak.Impact.Counts.{count}
use alignak.Impact.Linked.{
  sources, is_problem_of, is_impact_of, IsLinked, Keeps, owe, Silent, Silent-IsLinked, put_same,
  put_self, put_off,
}
use alignak.Impact.Ended.{owed_same, Ended, HasCause, Ended-HasCause, no_more-IsLinked}

abbrev pub impacts_of : Store → ℕ → List ℕ
impacts_of st q = (st q).impacts

abbrev pub no_extra : ℕ → Bool
no_extra u = false

abbrev pub while_reached : ℕ → ℕ → Bool
while_reached u i = i == u

-- While a problem is being registered, `us` are its impacts, and `was` its list of them.
pub record IsOwed (prob : ℕ) (was us : List ℕ) (extra : ℕ → Bool) (st : Store) : Type 0 where
  pub linked : IsLinked (owe prob us (impacts_of st)) extra st
  pub cause : HasCause st
  pub still : is_problem_of st prob ≡ true
  pub kept : (st prob).impacts ≡ was

pub Silent-IsOwed :
    (prob : ℕ) (was us : List ℕ) (extra : ℕ → Bool) (st t : Store)
    → Silent st t
    → Keeps st t
    → IsOwed prob was us extra st
    → IsOwed prob was us extra t
Silent-IsOwed prob was us extra st t s k h = record {
  linked =
      owed_same (owe prob us (impacts_of st)) (owe prob us (impacts_of t)) extra t
        (λ q. ap (λ l. if q == prob then us else l) (sym (k.same_impacts q)))
        (Silent-IsLinked (owe prob us (impacts_of st)) extra st t s h.linked);
  cause = λ p b. k.same_impacts p ∙ h.cause p (sym (k.same_problems p) ∙ b);
  still = k.same_problems prob ∙ h.still;
  kept = k.same_impacts prob ∙ h.kept;
}

module _ (prob : ℕ) (was us : List ℕ) (u : ℕ) (st : Store) (d : (u == prob) ≡ false) where
  abbrev pub marked : Store
  marked = change_item (set_is_impact true) u st

  pub marked-IsOwed : IsOwed prob was us no_extra st → IsOwed prob was us (while_reached u) marked
  marked-IsOwed h =
      let node = record (st u) { item = set_is_impact true (st u).item } in
      let same_list : (q : ℕ) → (marked q).impacts ≡ (st q).impacts =
        λ q. put_same (λ m. m.impacts) u node st q refl in
      let same_problem : (q : ℕ) → is_problem_of marked q ≡ is_problem_of st q =
        λ q. put_same (λ m. m.item.is_problem) u node st q refl in
      let same_sources : (q : ℕ) → sources marked q ≡ sources st q =
        λ q. put_same (λ m. m.source_problems) u node st q refl in
      let l = h.linked in
      record {
        linked = record {
          same = λ p v.
              ap (λ x. count v (if p == prob then us else x)) (same_list p)
              ∙ l.same p v
              ∙ ap (count p) (sym (same_sources v));
          one = λ p v. rw (same_sources v) (l.one p v);
          other = λ p. rw (same_sources p) (l.other p);
          flagged = λ v. elim (Bool-cases (v == u)) [
            | inl s ↦ rw s (
                subst (λ x. is_impact_of marked x ≡ true) (sym ((==_iff v u).0 s))
                  (put_self (λ m. m.item.is_impact) u node st))
            | inr n ↦
                rw (n, same_sources v) (put_off (λ m. m.item.is_impact) u node st v n ∙ l.flagged v)
          ];
        };
        cause = λ p b. same_list p ∙ h.cause p (sym (same_problem p) ∙ b);
        still = same_problem prob ∙ h.still;
        kept = same_list prob ∙ h.kept;
      }

not_itself : (u : ℕ) (us : List ℕ) → count u us ≡ 0 → (v : ℕ) → 1 ≤ count v us → (v == u) ≡ false
not_itself u us e v c = elim (Bool-cases (v == u)) [
  | inl s ↦ absurd (omega (arith, e, subst (λ x. 1 ≤ count x us) ((==_iff v u).0 s) c))
  | inr n ↦ n
]

not_equal_sym : (u v : ℕ) → (u == v) ≡ false → (v == u) ≡ false
not_equal_sym u v d = ground arith

-- What ends with a problem leaves what the others owe.
still_owed :
    (prob : ℕ) (us : List ℕ) (u : ℕ) (st t : Store)
    → (u == prob) ≡ false
    → Ended u st t
    → (q : ℕ) → owe u [] (owe prob us (impacts_of st)) q ≡ owe prob us (impacts_of t) q
still_owed prob us u st t d ended q = elim (Bool-cases (q == u)) [
  | inl s ↦ rw s (
      subst (λ x. [] ≡ owe prob us (impacts_of t) x) (sym ((==_iff q u).0 s))
        (rw d (sym ended.gone)))
  | inr n ↦ rw n (ap (λ l. if q == prob then us else l) (sym (ended.other_impacts q n)))
]

-- An item that is reached is no problem any more.
pub excused-IsOwed :
    (w : Site) (prob : ℕ) (was us : List ℕ) (u : ℕ) (b : Bool) (st : Store)
    → (u == prob) ≡ false
    → IsOwed prob was us (while_reached u) st
    → (t : Store) × ((if b then no_more_a_problem w u st else done st) ≡ done t)
      × IsOwed prob was us (while_reached u) t
excused-IsOwed w prob was us u false st d h = (st, refl, h)
excused-IsOwed w prob was us u true st d h =
    let imp = owe prob us (impacts_of st) in
    let own : imp u ≡ (st u).impacts = rw d refl in
    let no_own : count u (st u).impacts ≡ 0 =
      ap (count u) (sym own) ∙ h.linked.same u u ∙ h.linked.other u in
    let unreached : (v : ℕ) → 1 ≤ count v (st u).impacts → while_reached u v ≡ false =
      not_itself u (st u).impacts no_own in
    let (t, e, l, ended) =
      no_more-IsLinked w imp (while_reached u) st u h.linked h.cause own unreached in
    (
      t,
      e,
      record {
        linked =
            owed_same (owe u [] imp) (owe prob us (impacts_of t)) (while_reached u) t
              (still_owed prob us u st t d ended) l;
        cause = Ended-HasCause u st t ended h.cause;
        still = ended.other_problems prob (not_equal_sym u prob d) ∙ h.still;
        kept = ended.other_impacts prob (not_equal_sym u prob d) ∙ h.kept;
      },
    )
