-- ===== src/Impact/Linked.antt =====
-- Problems and impacts that name each other (alignak/objects/schedulingitem.py), and the methods
-- that remove problems.
use alignak.Prelude.{
  ℕ, suc, ◌≤◌, ◌≡◌, ◌≢◌, refl, sym, ap, ◌∙◌, Bool, true, false, ◌&&◌, ◌||◌, List, [], ◌∷◌, ◌==◌,
  if◌then◌else◌, arith, Bool-cases, ==_iff, inl, inr,
}
use alignak.Item.Logs.{add_brok}
use alignak.Item.States.{unset_impact_state}
use alignak.Impact.Ties.{TiedItem, Site, Store, put_item, update_business_impact_value, tell}
use alignak.Impact.Problems.{without_problem}
use alignak.Impact.Counts.{count}

abbrev pub sources : Store → ℕ → List ℕ
sources st u = (st u).source_problems

abbrev pub is_problem_of : Store → ℕ → Bool
is_problem_of st u = (st u).item.is_problem

abbrev pub is_impact_of : Store → ℕ → Bool
is_impact_of st u = (st u).item.is_impact

abbrev pub has_some : List ℕ → Bool
has_some [] = false
has_some (u ∷ us) = true

-- The impacts that each problem has, by `imp`, are the items that have it as a source, once; and
-- an item is an impact if it has a source, or by `extra` while it is being reached.
pub record IsLinked (imp : ℕ → List ℕ) (extra : ℕ → Bool) (st : Store) : Type 0 where
  pub same : (p u : ℕ) → count u (imp p) ≡ count p (sources st u)
  pub one : (p u : ℕ) → count p (sources st u) ≤ 1
  pub other : (p : ℕ) → count p (sources st p) ≡ 0
  pub flagged : (u : ℕ) → is_impact_of st u ≡ (extra u || has_some (sources st u))

-- What most steps leave as it is.
pub record Keeps (st t : Store) : Type 0 where
  pub same_problems : (u : ℕ) → is_problem_of t u ≡ is_problem_of st u
  pub same_impacts : (u : ℕ) → (t u).impacts ≡ (st u).impacts

abbrev pub owe : ℕ → List ℕ → (ℕ → List ℕ) → ℕ → List ℕ
owe p us imp q = if q == p then us else imp q

pub Keeps-refl : (st : Store) → Keeps st st
Keeps-refl st = record { same_problems = λ u. refl; same_impacts = λ u. refl }

pub Keeps-trans : (a b c : Store) → Keeps a b → Keeps b c → Keeps a c
Keeps-trans a b c g h = record {
  same_problems = λ u. h.same_problems u ∙ g.same_problems u;
  same_impacts = λ u. h.same_impacts u ∙ g.same_impacts u;
}

-- A step that leaves the ties alone.
pub record Silent (st t : Store) : Type 0 where
  pub same_sources : (u : ℕ) → sources t u ≡ sources st u
  pub same_flags : (u : ℕ) → is_impact_of t u ≡ is_impact_of st u

pub Silent-IsLinked :
    (imp : ℕ → List ℕ) (extra : ℕ → Bool) (st t : Store)
    → Silent st t
    → IsLinked imp extra st
    → IsLinked imp extra t
Silent-IsLinked imp extra st t s h = record {
  same = λ p u. h.same p u ∙ ap (count p) (sym (s.same_sources u));
  one = λ p u. rw (s.same_sources u) (h.one p u);
  other = λ p. rw (s.same_sources p) (h.other p);
  flagged = λ u. rw (s.same_sources u, s.same_flags u) (h.flagged u);
}

-- What a change of one node leaves as it is.
pub put_same {ℓ} :
    {A : Type ℓ} (f : TiedItem → A) (u : ℕ) (n : TiedItem) (st : Store) (v : ℕ)
    → f n ≡ f (st u)
    → f (put_item u n st v) ≡ f (st v)
put_same f u n st v e = elim (Bool-cases (v == u)) [
  | inl s ↦ rw s (e ∙ ap (λ x. f (st x)) (sym ((==_iff v u).0 s)))
  | inr d ↦ rw d refl
]

pub put_self {ℓ} :
    {A : Type ℓ} (f : TiedItem → A) (u : ℕ) (n : TiedItem) (st : Store)
    → f (put_item u n st u) ≡ f n
put_self f u n st = ground arith

-- A change of one node that leaves its ties alone.
pub put-Silent :
    (u : ℕ) (n : TiedItem) (st : Store)
    → n.source_problems ≡ sources st u
    → n.item.is_impact ≡ is_impact_of st u
    → Silent st (put_item u n st)
put-Silent u n st e f = record {
  same_sources = λ v. put_same (λ m. m.source_problems) u n st v e;
  same_flags = λ v. put_same (λ m. m.item.is_impact) u n st v f;
}

pub put-Keeps :
    (u : ℕ) (n : TiedItem) (st : Store)
    → n.item.is_problem ≡ is_problem_of st u
    → n.impacts ≡ (st u).impacts
    → Keeps st (put_item u n st)
put-Keeps u n st e f = record {
  same_problems = λ v. put_same (λ m. m.item.is_problem) u n st v e;
  same_impacts = λ v. put_same (λ m. m.impacts) u n st v f;
}

pub tell-Silent : (u : ℕ) (st : Store) → Silent st (tell u st) × Keeps st (tell u st)
unfolding tell add_brok
tell-Silent u st = (put-Silent u _ st refl refl, put-Keeps u _ st refl refl)

pub update-Silent :
    (w : Site) (u : ℕ) (st : Store)
    → Silent st (update_business_impact_value w u st)
      × Keeps st (update_business_impact_value w u st)
unfolding update_business_impact_value
update-Silent w u st = (put-Silent u _ st refl refl, put-Keeps u _ st refl refl)

-- The node that `unregister_a_problem` leaves.
pub without_flags :
    (ps : List ℕ) (n : TiedItem)
    → ((without_problem ps n).source_problems ≡ ps)
      × ((without_problem ps n).impacts ≡ n.impacts)
      × ((without_problem ps n).item.is_problem ≡ n.item.is_problem)
      × ((without_problem ps n).item.is_impact ≡ (has_some ps && n.item.is_impact))
unfolding unset_impact_state
without_flags [] n = ground arith
without_flags (p ∷ ps) n = ground arith

pub put_off {ℓ} :
    {A : Type ℓ} (f : TiedItem → A) (u : ℕ) (n : TiedItem) (st : Store) (v : ℕ)
    → (v == u) ≡ false
    → f (put_item u n st v) ≡ f (st v)
put_off f u n st v d = rw d refl

pub some_of_count : (x : ℕ) (us : List ℕ) → 1 ≤ count x us → has_some us ≡ true
some_of_count x [] h = ground arith
some_of_count x (u ∷ us) h = refl

module _ (imp : ℕ → List ℕ) (extra : ℕ → Bool) (st : Store) (p u : ℕ) (us ps : List ℕ)
    (h : IsLinked imp extra st) (e : imp p ≡ u ∷ us) (x : extra u ≡ false)
    (c : count p (sources st u) ≡ suc (count p ps))
    (d : (v : ℕ) → v ≢ p → count v ps ≡ count v (sources st u)) where
  abbrev pub unregistered : Store
  unregistered = put_item u (without_problem ps (st u)) st

  sources_at : sources unregistered u ≡ ps
  sources_at =
      put_self (λ m. m.source_problems) u (without_problem ps (st u)) st
      ∙ (without_flags ps (st u)).0

  sources_off : (v : ℕ) → (v == u) ≡ false → sources unregistered v ≡ sources st v
  sources_off v n = put_off (λ m. m.source_problems) u (without_problem ps (st u)) st v n

  fewer : (q : ℕ) → count q ps ≤ count q (sources st u)
  fewer q = elim (Bool-cases (q == p)) [
    | inl s ↦ rw ((==_iff q p).0 s) (omega (arith, c))
    | inr n ↦ omega (arith, d q (ground arith))
  ]

  flag_at : is_impact_of unregistered u ≡ (has_some ps && is_impact_of st u)
  flag_at =
      put_self (λ m. m.item.is_impact) u (without_problem ps (st u)) st
      ∙ (without_flags ps (st u)).3

  same_at : (q : ℕ) → count u (owe p us imp q) ≡ count q ps
  same_at q = elim (Bool-cases (q == p)) [
    | inl s ↦
        let a = h.same p u in let b = ap (count u) e in rw s (rw ((==_iff q p).0 s) (ground arith))
    | inr n ↦ rw n (h.same q u ∙ sym (d q (ground arith)))
  ]

  same_off : (q v : ℕ) → (v == u) ≡ false → count v (owe p us imp q) ≡ count q (sources st v)
  same_off q v n = elim (Bool-cases (q == p)) [
    | inl s ↦
        let a = h.same p v in let b = ap (count v) e in rw s (rw ((==_iff q p).0 s) (ground arith))
    | inr m ↦ rw m (h.same q v)
  ]

  flagged_at : is_impact_of unregistered u ≡ (extra u || has_some (sources unregistered u))
  flagged_at =
      flag_at
      ∙ was_impact (some_of_count p (sources st u) (omega (arith, c)))
      ∙ ap (λ l. extra u || has_some l) (sym sources_at)
    where
      was_impact :
          has_some (sources st u) ≡ true
          → (has_some ps && is_impact_of st u) ≡ (extra u || has_some ps)
      was_impact k = let f = h.flagged u in ground arith

  pub unregistered-IsLinked : IsLinked (owe p us imp) extra unregistered
  unregistered-IsLinked = record {
    same = λ q v. elim (Bool-cases (v == u)) [
      | inl s ↦ rw ((==_iff v u).0 s) (same_at q ∙ ap (count q) (sym sources_at))
      | inr n ↦ same_off q v n ∙ ap (count q) (sym (sources_off v n))
    ];
    one = λ q v. elim (Bool-cases (v == u)) [
      | inl s ↦ rw ((==_iff v u).0 s) (rw sources_at (omega (arith, fewer q, h.one q u)))
      | inr n ↦ rw (sources_off v n) (h.one q v)
    ];
    other = λ q. elim (Bool-cases (q == u)) [
      | inl s ↦ rw ((==_iff q u).0 s) (rw sources_at (omega (arith, fewer u, h.other u)))
      | inr n ↦ rw (sources_off q n) (h.other q)
    ];
    flagged = λ v. elim (Bool-cases (v == u)) [
      | inl s ↦ rw ((==_iff v u).0 s) (flagged_at)
      | inr n ↦
          put_off (λ m. m.item.is_impact) u (without_problem ps (st u)) st v n
          ∙ h.flagged v
          ∙ ap (λ l. extra v || has_some l) (sym (sources_off v n))
    ];
  }
