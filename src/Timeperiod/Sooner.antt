-- ===== src/Timeperiod/Sooner.antt =====
-- The first valid time of several calendar ranges (alignak/objects/timeperiod.py).
use alignak.Prelude.{
  ℕ, min_left, min_right, not_leb, ◌≤◌, ◌<◌, min, ◌≡◌, refl, sym, ap, subst, Bool, true, false,
  Option, none, some, List, [], ◌∷◌, leb, arith, Bool-cases, inl, inr,
}
use alignak.Daterange.Calendar.{Library}
use alignak.Daterange.Ranges.{Timerange, Daterange, calendar_daterange}
use alignak.Daterange.Bounds.{calendar_bounds}
use alignak.Daterange.Days.{is_time_valid, get_next_valid_time_from_t}
use alignak.Daterange.Starts.{AreOrdered}
use alignak.Daterange.Valid.{IsCivil, IsDated, IsFirstTime, get_next_valid_time_from_t-IsFirstTime}
use alignak.Timeperiod.Periods.{ranges_valid}
use alignak.Timeperiod.Search.{next_of_each, insert_time, sorted_times, first_of}

-- A calendar range from 1971 on that does not end before it starts, with time ranges in order.
pub record IsPlanned (lib : Library) (d : Daterange) : Type 0 where
  pub is_calendar : d.range_class ≡ calendar_daterange
  pub dated : IsDated d
  pub in_order : (calendar_bounds lib d).0 ≤ (calendar_bounds lib d).1
  pub a_range : Timerange
  pub more_ranges : List Timerange
  pub ranges_are : d.timeranges ≡ a_range ∷ more_ranges
  pub ordered : AreOrdered d.timeranges

pub data ArePlanned (lib : Library) : List Daterange → Type 0 where
  no_ranges : ArePlanned lib []
  one_more :
      {d : Daterange} {ds : List Daterange}
      → IsPlanned lib d
      → ArePlanned lib ds
      → ArePlanned lib (d ∷ ds)

-- The first time from `t` on at which one of the ranges is valid; none if there is none.
abbrev pub IsFirstOfAll : Library → List Daterange → ℕ → Option ℕ → Type 0
IsFirstOfAll lib ds t none = (x : ℕ) → t ≤ x → ranges_valid lib x ds ≡ some (ds, false)
IsFirstOfAll lib ds t (some r) =
    (t ≤ r)
    × (ranges_valid lib r ds ≡ some (ds, true))
    × ((x : ℕ) → t ≤ x → x < r → ranges_valid lib x ds ≡ some (ds, false))

abbrev pub sooner : Option ℕ → Option ℕ → Option ℕ
sooner none o = o
sooner (some a) none = some a
sooner (some a) (some b) = some (min a b)

one_valid :
    (lib : Library) (x : ℕ) (d : Daterange) (ds : List Daterange)
    → is_time_valid lib x d ≡ some (d, true)
    → ranges_valid lib x (d ∷ ds) ≡ some (d ∷ ds, true)
unfolding ranges_valid
one_valid lib x d ds e = rw e refl

other_valid :
    (lib : Library) (x : ℕ) (d : Daterange) (ds : List Daterange) (b : Bool)
    → is_time_valid lib x d ≡ some (d, false)
    → ranges_valid lib x ds ≡ some (ds, b)
    → ranges_valid lib x (d ∷ ds) ≡ some (d ∷ ds, b)
unfolding ranges_valid
other_valid lib x d ds b e f = rw (e, f) refl

-- The sooner of the first times of a range and of others is the first of all.
sooner-IsFirstOfAll :
    (lib : Library) (d : Daterange) (ds : List Daterange) (t : ℕ) (a b : Option ℕ)
    → IsFirstTime lib d t a
    → IsFirstOfAll lib ds t b
    → IsFirstOfAll lib (d ∷ ds) t (sooner a b)
sooner-IsFirstOfAll lib d ds t none none h k = λ x l. other_valid lib x d ds false (h x l) (k x l)
sooner-IsFirstOfAll lib d ds t none (some r) h (l, v, k) = (
  l,
  other_valid lib r d ds true (h r l) v,
  λ x i j. other_valid lib x d ds false (h x i) (k x i j),
)
sooner-IsFirstOfAll lib d ds t (some r) none (l, v, h) k =
    (l, one_valid lib r d ds v, λ x i j. other_valid lib x d ds false (h x i j) (k x i))
sooner-IsFirstOfAll lib d ds t (some r) (some s) (l, v, h) (l', v', k) = (
  omega arith,
  elim (Bool-cases (leb r s)) [
    | inl e ↦
        subst (λ x. ranges_valid lib x (d ∷ ds) ≡ some (d ∷ ds, true)) (sym (min_left r s e))
          (one_valid lib r d ds v)
    | inr e ↦
        subst (λ x. ranges_valid lib x (d ∷ ds) ≡ some (d ∷ ds, true)) (sym (min_right r s e))
          (other_valid lib s d ds true (h s l' (not_leb r s e)) v')
  ],
  λ x i j. other_valid lib x d ds false (h x i (omega arith)) (k x i (omega arith)),
)

-- The first of a list with one more time in its place.
first-insert_time :
    (x : ℕ) (ys : List ℕ) → first_of (insert_time x ys) ≡ sooner (some x) (first_of ys)
first-insert_time x [] = refl
first-insert_time x (y ∷ ys) = elim (Bool-cases (leb x y)) [
  | inl e ↦ rw e (ap some (sym (min_left x y e)))
  | inr e ↦ rw e (ap some (sym (min_right x y e)))
]

abbrev pub best : List (Option ℕ) → Option ℕ
best os = first_of (sorted_times os)

best-sooner : (o : Option ℕ) (os : List (Option ℕ)) → best (o ∷ os) ≡ sooner o (best os)
best-sooner none os = refl
best-sooner (some x) os = first-insert_time x (sorted_times os)

each_next :
    (lib : Library) (t : ℕ) (d : Daterange) (ds : List Daterange) (o : Option ℕ)
    (os : List (Option ℕ))
    → get_next_valid_time_from_t lib t d ≡ some (d, o)
    → next_of_each lib t ds ≡ some (ds, os)
    → next_of_each lib t (d ∷ ds) ≡ some (d ∷ ds, o ∷ os)
unfolding next_of_each
each_next lib t d ds o os e f = rw (e, f) refl

-- The first of the next times of all ranges.
pub next_of_each-IsFirstOfAll :
    (lib : Library) (t : ℕ) (ds : List Daterange)
    → IsCivil lib
    → ArePlanned lib ds
    → (os : List (Option ℕ)) × (next_of_each lib t ds ≡ some (ds, os))
      × IsFirstOfAll lib ds t (best os)
unfolding next_of_each ranges_valid
next_of_each-IsFirstOfAll lib t [] c no_ranges = ([], refl, λ x l. refl)
next_of_each-IsFirstOfAll lib t (d ∷ ds) c (one_more p ps) =
    let (o, e, h) =
      get_next_valid_time_from_t-IsFirstTime lib d t p.a_range p.more_ranges c p.is_calendar p.dated
        p.in_order p.ranges_are p.ordered in
    let (os, f, k) = next_of_each-IsFirstOfAll lib t ds c ps in
    (
      o ∷ os,
      each_next lib t d ds o os e f,
      subst (IsFirstOfAll lib (d ∷ ds) t) (sym (best-sooner o os))
          (sooner-IsFirstOfAll lib d ds t o (best os) h k),
    )
