-- ===== src/Impact/Added.antt =====
-- A problem that is added to an item (alignak/objects/schedulingitem.py): the item itself in
-- `register_a_problem`.
use alignak.Prelude.{
  ℕ, ◌+◌, ◌≤◌, ◌≡◌, refl, sym, ap, ◌∙◌, subst, Bool, true, false, ◌||◌, List, [], ◌∷◌, ◌++◌, ◌==◌,
  if◌then◌else◌, elem, arith, Bool-cases, ==_iff, inl, inr,
}
use alignak.Item.States.{set_impact_state, set_unreachable}
use alignak.Impact.Ties.{TiedItem, Site, Store, put_item}
use alignak.Impact.Problems.{change_item, add_problem}
use alignak.Impact.Counts.{count, count-append, elem-count}
use alignak.Impact.Linked.{
  sources, is_problem_of, is_impact_of, has_some, owe, put_same, put_self, put_off, put-Silent,
  put-Keeps,
}
use alignak.Impact.Excused.{IsOwed, Silent-IsOwed, impacts_of, no_extra, while_reached}

impact_state_flags :
    (w : Site) (n : TiedItem)
    → ((set_impact_state w.env n.item).is_impact ≡ n.item.is_impact)
      × ((set_impact_state w.env n.item).is_problem ≡ n.item.is_problem)
unfolding set_impact_state set_unreachable
impact_state_flags w n = ground arith

pub turned-IsOwed :
    (w : Site) (prob : ℕ) (was us : List ℕ) (extra : ℕ → Bool) (u : ℕ) (b : Bool) (st : Store)
    → IsOwed prob was us extra st
    → IsOwed prob was us extra (if b then st else change_item (set_impact_state w.env) u st)
turned-IsOwed w prob was us extra u true st h = h
turned-IsOwed w prob was us extra u false st h =
    let node = record (st u) { item = set_impact_state w.env (st u).item } in
    Silent-IsOwed prob was us extra st (put_item u node st)
      (put-Silent u node st refl (impact_state_flags w (st u)).0)
      (put-Keeps u node st (impact_state_flags w (st u)).1 refl) h

pub not_elem : (x : ℕ) (ys : List ℕ) → count x ys ≡ 0 → elem x ys ≡ false
not_elem x ys e = ground (arith, elem-count x ys)

count_last :
    (x y : ℕ) (ys : List ℕ) → count x (ys ++ (y ∷ [])) ≡ count x ys + (if y == x then 1 else 0)
count_last x y ys = ground (arith, count-append x ys (y ∷ []))

abbrev one_more : Bool → Bool → ℕ
one_more a b = if a then (if b then 1 else 0) else 0

one_if :
    (a b : Bool) (m n : ℕ) → m ≡ n + one_more a b → n ≤ 1 → (a ≡ true → b ≡ true → n ≡ 0) → m ≤ 1
one_if true true m n e l z = omega (arith, e, z refl refl)
one_if true false m n e l z = omega arith
one_if false b m n e l z = omega arith

zero_if :
    (a b : Bool) (m n : ℕ) → m ≡ n + one_more a b → n ≡ 0 → (a ≡ true → b ≡ true → 1 ≤ n) → m ≡ 0
zero_if true true m n e l z = absurd (omega (arith, z refl refl))
zero_if true false m n e l z = omega arith
zero_if false b m n e l z = omega arith

has_last : (us : List ℕ) (u : ℕ) → has_some (us ++ (u ∷ [])) ≡ true
has_last [] u = refl
has_last (v ∷ vs) u = refl

same_both : (u prob p n : ℕ) → (u == prob) ≡ false → (p == prob) ≡ true → (u == p) ≡ true → 1 ≤ n
same_both u prob p n d a b = ground arith

module _ (prob : ℕ) (was us : List ℕ) (u : ℕ) (st : Store) (d : (u == prob) ≡ false)
    (h : IsOwed prob was us (while_reached u) st) (z : count prob (sources st u) ≡ 0) where
  abbrev pub added : Store
  added = add_problem prob u st

  abbrev owed : ℕ → List ℕ
  owed = owe prob (us ++ (u ∷ [])) (impacts_of added)

  abbrev added_node : TiedItem
  added_node = record (st u) {
    source_problems =
        (if elem prob (st u).source_problems
          then (st u).source_problems
          else (st u).source_problems ++ (prob ∷ []));
  }

  sources_at : sources added u ≡ sources st u ++ (prob ∷ [])
  sources_at =
      put_self (λ m. m.source_problems) u added_node st
      ∙ ap (λ b. if b then sources st u else sources st u ++ (prob ∷ []))
          (not_elem prob (sources st u) z)

  sources_off : (v : ℕ) → (v == u) ≡ false → sources added v ≡ sources st v
  sources_off v n = put_off (λ m. m.source_problems) u added_node st v n

  same_impacts : (q : ℕ) → (added q).impacts ≡ (st q).impacts
  same_impacts q = put_same (λ m. m.impacts) u added_node st q refl

  same_problems : (q : ℕ) → is_problem_of added q ≡ is_problem_of st q
  same_problems q = put_same (λ m. m.item.is_problem) u added_node st q refl

  same_flags : (q : ℕ) → is_impact_of added q ≡ is_impact_of st q
  same_flags q = put_same (λ m. m.item.is_impact) u added_node st q refl

  -- Each source of an item is counted by its problem, and the new one too.
  count-owed :
      (p v : ℕ)
      → count v (owed p)
        ≡ count p (sources st v) + (if p == prob then (if u == v then 1 else 0) else 0)
  count-owed p v = elim (Bool-cases (p == prob)) [
    | inl s ↦
        let was : count v us ≡ count p (sources st v) =
          ap (λ b. count v (if b then us else (st p).impacts)) (sym s) ∙ h.linked.same p v in
        rw s (count_last v u us ∙ ap (λ n. n + (if u == v then 1 else 0)) was)
    | inr n ↦
        let was : count v (st p).impacts ≡ count p (sources st v) =
          ap (λ b. count v (if b then us else (st p).impacts)) (sym n) ∙ h.linked.same p v in
        rw n (ap (count v) (same_impacts p) ∙ was ∙ omega arith)
  ]

  count-sources :
      (p v : ℕ)
      → count p (sources added v)
        ≡ count p (sources st v) + (if p == prob then (if u == v then 1 else 0) else 0)
  count-sources p v = elim (Bool-cases (v == u)) [
    | inl s ↦
        rw ((==_iff v u).0 s)
          (ap (count p) sources_at ∙ count_last p prob (sources st u) ∙ ground arith)
    | inr n ↦ ap (count p) (sources_off v n) ∙ ground arith
  ]

  one_source : (p v : ℕ) → count p (sources added v) ≤ 1
  one_source p v =
      one_if (p == prob) (u == v) (count p (sources added v)) (count p (sources st v))
        (count-sources p v) (h.linked.one p v)
        (λ a b.
          subst (λ x. count p (sources st x) ≡ 0) ((==_iff u v).0 b)
            (subst (λ x. count x (sources st u) ≡ 0) (sym ((==_iff p prob).0 a)) z))

  no_own_source : (p : ℕ) → count p (sources added p) ≡ 0
  no_own_source p =
      zero_if (p == prob) (u == p) (count p (sources added p)) (count p (sources st p))
        (count-sources p p) (h.linked.other p)
        (λ a b. same_both u prob p (count p (sources st p)) d a b)

  flagged_at : (v : ℕ) → is_impact_of added v ≡ has_some (sources added v)
  flagged_at v = elim (Bool-cases (v == u)) [
    | inl s ↦
        let own_flag : is_impact_of st v ≡ true =
          h.linked.flagged v ∙ ap (λ b. b || has_some (sources st v)) s in
        same_flags v
        ∙ own_flag
        ∙ subst (λ x. true ≡ has_some (sources added x)) (sym ((==_iff v u).0 s))
            (sym (ap has_some sources_at ∙ has_last (sources st u) prob))
    | inr n ↦
        same_flags v
        ∙ h.linked.flagged v
        ∙ ap (λ b. b || has_some (sources st v)) n
        ∙ ap has_some (sym (sources_off v n))
  ]

  pub added-IsOwed : IsOwed prob was (us ++ (u ∷ [])) no_extra added
  added-IsOwed = record {
    linked = record {
      same = λ p v. count-owed p v ∙ sym (count-sources p v);
      one = one_source;
      other = no_own_source;
      flagged = flagged_at;
    };
    cause = λ p b. same_impacts p ∙ h.cause p (sym (same_problems p) ∙ b);
    still = same_problems prob ∙ h.still;
    kept = same_impacts prob ∙ h.kept;
  }
