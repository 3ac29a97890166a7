-- ===== src/Impact/Registers.antt =====
-- The steps of `register_a_problem` (alignak/objects/schedulingitem.py): the loops over statuses and
-- links, and the item itself.
use alignak.Prelude.{
  ℕ, ◌≡◌, refl, sym, ap, ◌∙◌, subst, Bool, true, false, ◌&&◌, List, [], ◌∷◌, ◌++◌, ◌==◌,
  if◌then◌else◌, elem, arith, Bool-cases, inl, inr,
}
use mathlib.Core.List.{Memᴰ}
use alignak.Item.States.{is_state_letter, set_impact_state}
use alignak.Impact.Ties.{Link, Site, Store, is_in_period, tell}
use alignak.Impact.Problems.{
  Result, done, ◌>>=◌, change_item, Register, register_statuses, register_links, add_problem,
  impacted_by,
}
use alignak.Impact.Counts.{count, elem_not-count}
use alignak.Impact.Linked.{sources, is_problem_of, tell-Silent}
use alignak.Impact.Excused.{
  IsOwed, Silent-IsOwed, impacts_of, no_extra, while_reached, marked, marked-IsOwed, excused-IsOwed,
}
use alignak.Impact.Added.{turned-IsOwed, added-IsOwed}

-- A step that returns the new impacts of the problem.
abbrev pub Registers : ℕ → List ℕ → (Store → Result (Store × List ℕ)) → Type 0
Registers prob was step =
    (us : List ℕ) (st : Store)
    → IsOwed prob was us no_extra st
    → (r : Store × List ℕ) × (step st ≡ done r) × IsOwed prob was (us ++ r.1) no_extra r.0

append_nil : (us : List ℕ) → us ++ [] ≡ us
append_nil [] = refl
append_nil (u ∷ us) = ap (λ vs. u ∷ vs) (append_nil us)

append_assoc : (us vs ws : List ℕ) → (us ++ vs) ++ ws ≡ us ++ (vs ++ ws)
append_assoc [] vs ws = refl
append_assoc (u ∷ us) vs ws = ap (λ xs. u ∷ xs) (append_assoc us vs ws)

Registers-nothing : (prob : ℕ) (was : List ℕ) → Registers prob was (λ st. done (st, []))
Registers-nothing prob was us st h =
    ((st, []), refl, subst (λ x. IsOwed prob was x no_extra st) (sym (append_nil us)) h)

Registers-if :
    (prob : ℕ) (was : List ℕ) (test : Store → Bool) (f : Store → Result (Store × List ℕ))
    → Registers prob was f
    → Registers prob was (λ st. if test st then f st else done (st, []))
Registers-if prob was test f hf us st h = elim (Bool-cases (test st)) [
  | inl b ↦ let (r, e, k) = hf us st h in (r, rw b e, k)
  | inr b ↦ let (r, e, k) = Registers-nothing prob was us st h in (r, rw b e, k)
]

-- One step after the other.
Registers-then :
    (prob : ℕ) (was : List ℕ) (f g : Store → Result (Store × List ℕ))
    → Registers prob was f
    → Registers prob was g
    → Registers prob was (λ st. f st >>= λ a. g a.0 >>= λ b. done (b.0, a.1 ++ b.1))
Registers-then prob was f g hf hg us st h =
    let (a, e, k) = hf us st h in
    let (b, e', k') = hg (us ++ a.1) a.0 k in
    (
      (b.0, a.1 ++ b.1),
      rw (e, e') refl,
      subst (λ x. IsOwed prob was x no_extra b.0) (append_assoc us a.1 b.1) k',
    )

register_statuses-Registers :
    (register : Register) (w : Site) (u : ℕ) (l : Link) (prob : ℕ) (was : List ℕ)
    → Registers prob was (register l.impact_id)
    → (stats : List ℕ) → Registers prob was (register_statuses register w u l stats)
unfolding register_statuses
register_statuses-Registers register w u l prob was h [] = Registers-nothing prob was
register_statuses-Registers register w u l prob was h (stat ∷ stats) =
    Registers-then prob was
      (λ st.
        if is_state_letter (st u).item.my_type (st u).item.state stat
          && is_in_period l.timeperiod w.env.now
        then register l.impact_id st
        else done (st, []))
      (register_statuses register w u l stats)
      (Registers-if prob was
        (λ st.
          is_state_letter (st u).item.my_type (st u).item.state stat
          && is_in_period l.timeperiod w.env.now)
        (register l.impact_id) h)
      (register_statuses-Registers register w u l prob was h stats)

pub register_links-Registers :
    (register : Register) (w : Site) (u prob : ℕ) (was : List ℕ) (ls : List Link)
    → ((l : Link) → Memᴰ l ls → Registers prob was (register l.impact_id))
    → Registers prob was (register_links register w u ls)
unfolding register_links
register_links-Registers register w u prob was [] h = Registers-nothing prob was
register_links-Registers register w u prob was (l ∷ ls) h =
    Registers-then prob was (register_statuses register w u l l.status)
      (register_links register w u ls)
      (register_statuses-Registers register w u l prob was (h l (Memᴰ.head refl)) l.status)
      (register_links-Registers register w u prob was ls (λ k m. h k (Memᴰ.tail m)))

pub owed_here :
    (prob : ℕ) (was us : List ℕ) (extra : ℕ → Bool) (st : Store) (u : ℕ)
    → IsOwed prob was us extra st
    → count u us ≡ count prob (sources st u)
owed_here prob was us extra st u h =
    ap (λ b. count u (if b then us else impacts_of st prob)) (sym (refl_test prob))
    ∙ h.linked.same prob u
  where
    refl_test : (n : ℕ) → (n == n) ≡ true
    refl_test n = ground arith

impacted_by-Registers :
    (register : Register) (w : Site) (u prob : ℕ) (was us : List ℕ) (st : Store)
    → (u == prob) ≡ false
    → Registers prob was (register_links register w u (w.act_depend_of_me u))
    → elem prob (sources st u) ≡ false
    → IsOwed prob was us no_extra st
    → (r : Store × List ℕ) × (impacted_by register w prob u st ≡ done r)
      × IsOwed prob was (us ++ r.1) no_extra r.0
unfolding impacted_by
impacted_by-Registers register w u prob was us st d links e h =
    let none_yet : count u us ≡ 0 =
      owed_here prob was us no_extra st u h ∙ elem_not-count prob (sources st u) e in
    let reached = marked prob was us u st d in
    let (excused, f, k) =
      excused-IsOwed w prob was us u (is_problem_of st u) reached d
        (marked-IsOwed prob was us u st d h) in
    let turned =
      if (st u).item.is_impact then excused else change_item (set_impact_state w.env) u excused in
    let k' = turned-IsOwed w prob was us (while_reached u) u (st u).item.is_impact excused k in
    let k'' =
      added-IsOwed prob was us u turned d k'
        (sym (owed_here prob was us (while_reached u) turned u k') ∙ none_yet) in
    let (r, g, k3) = links (us ++ (u ∷ [])) (add_problem prob u turned) k'' in
    let (quiet, kept) = tell-Silent u r.0 in
    (
      (tell u r.0, u ∷ r.1),
      rw (f, g) refl,
      subst (λ x. IsOwed prob was x no_extra (tell u r.0)) (append_assoc us (u ∷ []) r.1)
          (Silent-IsOwed prob was (us ++ (u ∷ []) ++ r.1) no_extra r.0 (tell u r.0) quiet kept k3),
    )

pub known-Registers :
    (register : Register) (w : Site) (u prob : ℕ) (was us : List ℕ) (st : Store)
    → (u == prob) ≡ false
    → Registers prob was (register_links register w u (w.act_depend_of_me u))
    → IsOwed prob was us no_extra st
    → (r : Store × List ℕ) × ((if elem prob (sources st u)
          then done (st, [])
          else impacted_by register w prob u st)
        ≡ done r)
      × IsOwed prob was (us ++ r.1) no_extra r.0
known-Registers register w u prob was us st d links h =
    elim (Bool-cases (elem prob (sources st u))) [
      | inl b ↦ let (r, e, k) = Registers-nothing prob was us st h in (r, rw b e, k)
      | inr b ↦
          let (r, e, k) = impacted_by-Registers register w u prob was us st d links b h in
          (r, rw b e, k)
    ]
