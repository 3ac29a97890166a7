-- ===== src/Daterange/Starts.antt =====
-- The starts of time ranges within a day (alignak/daterange.py), as `get_next_future_timerange_valid`
-- looks for them.
use alignak.Prelude.{
  ℕ, leb_le, min_right, ◌≤◌, ◌<◌, min, ◌≡◌, ◌⊎◌, refl, sym, ap, ◌∙◌, Bool, true, false, ◌&&◌, ◌||◌,
  Option, none, some, some_inj, subst, List, [], ◌∷◌, leb, if◌then◌else◌, arith, Bool-cases, inl,
  inr,
}
use alignak.Daterange.Calendar.{Library, get_sec_from_morning}
use alignak.Daterange.Ranges.{Timerange, range_start, range_end, is_in_timerange}
use alignak.Daterange.Days.{least, is_in_some, starts_from}

-- A second of the day lies in one of the ranges.
abbrev pub holds : ℕ → Timerange → Bool
holds sec r = r.is_valid && (leb (range_start r) sec && leb sec (range_end r))

abbrev pub some_holds : ℕ → List Timerange → Bool
some_holds sec [] = false
some_holds sec (r ∷ rs) = holds sec r || some_holds sec rs

pub is_in_some-some_holds :
    (lib : Library) (t : ℕ) (rs : List Timerange)
    → is_in_some lib t rs ≡ some_holds (get_sec_from_morning lib t) rs
is_in_some-some_holds lib t [] = refl
is_in_some-some_holds lib t (r ∷ rs) =
    ap (λ b. is_in_timerange lib t r || b) (is_in_some-some_holds lib t rs)

-- Each range is valid, and starts before its end and before midnight.
pub data AreOrdered : List Timerange → Type 0 where
  no_ranges : AreOrdered []
  one_more :
      {r : Timerange} {rs : List Timerange}
      → r.is_valid ≡ true
      → range_start r ≤ range_end r
      → range_start r < 86400
      → AreOrdered rs
      → AreOrdered (r ∷ rs)

-- What a start that was found is.
abbrev pub StartsAt : ℕ → ℕ → List Timerange → Type 0
StartsAt sec m rs = (sec ≤ m) × (m < 86400) × (some_holds m rs ≡ true)

holds_start :
    (r : Timerange)
    → r.is_valid ≡ true
    → range_start r ≤ range_end r
    → holds (range_start r) r ≡ true
holds_start r v o = ground arith

later_range :
    (sec m : ℕ) (r : Timerange) (rs : List Timerange) → StartsAt sec m rs → StartsAt sec m (r ∷ rs)
later_range sec m r rs (a, b, c) = (a, b, ground arith)

-- The least of a list that has a number more, or not.
least_if :
    (b : Bool) (a : ℕ) (xs : List ℕ) (m : ℕ)
    → least (if b then a ∷ xs else xs) ≡ some m
    → (least xs ≡ some m) ⊎ ((b ≡ true) × (m ≡ a))
least_if false a xs m e = inl e
least_if true a xs m e = least_more a (least xs) m e
  where
    least_more :
        (a : ℕ) (o : Option ℕ) (m : ℕ)
        → elim o [ none ↦ some a | some n ↦ some (min a n) ] ≡ some m
        → (o ≡ some m) ⊎ ((true ≡ true) × (m ≡ a))
    least_more a none m e = inr (refl, sym (some_inj a m e))
    least_more a (some n) m e = elim (Bool-cases (leb a n)) [
      | inl s ↦ inr (refl, sym (some_inj (min a n) m e) ∙ ground arith)
      | inr t ↦ inl (ap some (sym (min_right a n t) ∙ some_inj (min a n) m e))
    ]

least_below :
    (b : Bool) (a : ℕ) (xs : List ℕ) (top : ℕ)
    → ((b ≡ true) × (a ≤ top)) ⊎ ((n : ℕ) × (least xs ≡ some n) × (n ≤ top))
    → (m : ℕ) × (least (if b then a ∷ xs else xs) ≡ some m) × (m ≤ top)
least_below false a xs top (inl (c, l)) = ground arith
least_below false a xs top (inr h) = h
least_below true a xs top h = least_more_below a (least xs) top h
  where
    least_more_below :
        (a : ℕ) (o : Option ℕ) (top : ℕ)
        → ((true ≡ true) × (a ≤ top)) ⊎ ((n : ℕ) × (o ≡ some n) × (n ≤ top))
        → (m : ℕ) × (elim o [ none ↦ some a | some n ↦ some (min a n) ] ≡ some m) × (m ≤ top)
    least_more_below a none top (inl (c, l)) = (a, refl, l)
    least_more_below a none top (inr (n, e, l)) = ground arith
    least_more_below a (some n) top (inl (c, l)) = (min a n, refl, omega arith)
    least_more_below a (some n) top (inr (k, e, l)) =
        let same = some_inj n k e in (min a n, refl, omega arith)

pub least-StartsAt :
    (sec m : ℕ) (rs : List Timerange)
    → AreOrdered rs
    → least (starts_from sec rs) ≡ some m
    → StartsAt sec m rs
least-StartsAt sec m [] no_ranges e = ground arith
least-StartsAt sec m (r ∷ rs) (one_more v o h k) e =
    elim (least_if (leb sec (range_start r)) (range_start r) (starts_from sec rs) m e) [
      | inl f ↦ later_range sec m r rs (least-StartsAt sec m rs k f)
      | inr (s, a) ↦
          subst (λ x. StartsAt sec x (r ∷ rs)) (sym a)
            (
              leb_le sec (range_start r) s,
              h,
              ap (λ b. b || some_holds (range_start r) rs) (holds_start r v o),
            )
    ]

free_head : (a b : Bool) (sec : ℕ) → (((a || b) ≡ false) ⊎ (sec ≡ 0)) → (a ≡ false) ⊎ (sec ≡ 0)
free_head true b sec (inl e) = absurd (cc)
free_head false b sec (inl e) = inl refl
free_head a b sec (inr z) = inr z

free_rest : (a b : Bool) (sec : ℕ) → (((a || b) ≡ false) ⊎ (sec ≡ 0)) → (b ≡ false) ⊎ (sec ≡ 0)
free_rest true b sec (inl e) = absurd (cc)
free_rest false b sec (inl e) = inl e
free_rest a b sec (inr z) = inr z

holds_from :
    (sec later : ℕ) (r : Timerange)
    → sec ≤ later
    → ((holds sec r ≡ false) ⊎ (sec ≡ 0))
    → holds later r ≡ true
    → (leb sec (range_start r) ≡ true) × (range_start r ≤ later)
holds_from sec later r l (inl f) e = (ground arith, ground arith)
holds_from sec later r l (inr z) e = (ground arith, ground arith)

-- A second of the day that a range holds has a start before it, from a second on that comes before
-- it and is held by no range, or from midnight on.
pub start_before :
    (sec later : ℕ) (rs : List Timerange)
    → sec ≤ later
    → ((some_holds sec rs ≡ false) ⊎ (sec ≡ 0))
    → some_holds later rs ≡ true
    → (m : ℕ) × (least (starts_from sec rs) ≡ some m) × (m ≤ later)
start_before sec later [] l free e = ground arith
start_before sec later (r ∷ rs) l free e =
    least_below (leb sec (range_start r)) (range_start r) (starts_from sec rs) later
      (elim (Bool-cases (holds later r)) [
        | inl s ↦
            inl (holds_from sec later r l (free_head (holds sec r) (some_holds sec rs) sec free) s)
        | inr n ↦ inr (
            start_before sec later rs l (free_rest (holds sec r) (some_holds sec rs) sec free)
              (sym (ap (λ b. b || some_holds later rs) n) ∙ e))
      ])

-- From midnight on there is a start.
pub first_start :
    (r : Timerange) (rs : List Timerange) → (m : ℕ) × (least (starts_from 0 (r ∷ rs)) ≡ some m)
first_start r rs =
    let (m, e, l) =
      least_below (leb 0 (range_start r)) (range_start r) (starts_from 0 rs) (range_start r)
        (inl (ground arith, omega arith)) in
    (m, e)
