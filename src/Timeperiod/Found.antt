-- ===== src/Timeperiod/Found.antt =====
-- The next valid time of a period of calendar ranges without excludes
-- (alignak/objects/timeperiod.py).
use alignak.Prelude.{
  ℕ, suc, ◌≤◌, ◌<◌, ◌≡◌, refl, sym, ap, subst, Bool, true, false, Option, none, some, List, [], ◌∷◌,
  ◌>>=◌, if◌then◌else◌, arith, Bool-cases, inl, inr,
}
use alignak.Daterange.Calendar.{Library}
use alignak.Daterange.Ranges.{Daterange}
use alignak.Daterange.Valid.{IsCivil}
use alignak.Timeperiod.Periods.{
  Cache, Period, Periods, period, no_period, ranges_valid, is_period_valid, is_one_valid,
  find_from_cache, put_in_cache,
}
use alignak.Timeperiod.Search.{
  next_of_each, insert_time, sorted_times, or_time, pick_time, first_of, next_turn, within_year,
  search_valid, get_next_valid_time,
}
use alignak.Timeperiod.Sooner.{ArePlanned, IsFirstOfAll, best, next_of_each-IsFirstOfAll}

pick_kept :
    (lib : Library) (ts : List ℕ) (t : ℕ)
    → pick_time lib ts (some t) no_period ≡ some (no_period, some t)
unfolding pick_time
pick_kept lib [] t = refl
pick_kept lib (s ∷ ts) t = pick_kept lib ts t

pick_first :
    (lib : Library) (ts : List ℕ) → pick_time lib ts none no_period ≡ some (no_period, first_of ts)
unfolding pick_time
pick_first lib [] = refl
pick_first lib (t ∷ ts) = pick_kept lib ts t

-- What the search comes to: the first time, if it is within the year.
abbrev in_year : ℕ → Option ℕ → Option ℕ
in_year t none = none
in_year t (some r) = if within_year t r then some r else none

no_next_turn :
    (n : ℕ) (lib : Library) (ts : List ℕ) → next_turn n lib ts no_period ≡ some (no_period, none)
unfolding next_turn alignak.Timeperiod.Search.invalid_of_each
no_next_turn n lib [] = refl
no_next_turn n lib (t ∷ ts) = refl

search_valid-in_year :
    (n : ℕ) (lib : Library) (t : ℕ) (ds : List Daterange) (os : List (Option ℕ))
    → next_of_each lib t ds ≡ some (ds, os)
    → search_valid (suc n) lib t t ds no_period ≡ some (ds, no_period, in_year t (best os))
unfolding search_valid
search_valid-in_year n lib t ds os e = rw (e, pick_first lib (sorted_times os)) (by_best (best os))
  where
    by_best :
        (o : Option ℕ)
        → ◌≡◌ {A = Option (List Daterange × Periods × Option ℕ)}
            (elim o [
              | some found ↦ some (ds, no_period, if within_year t found then some found else none)
              | none ↦
                  (next_turn n lib (sorted_times os) no_period >>= λ next. elim next.1 [
                    | none ↦ some (ds, next.0, none)
                    | some later ↦
                        if within_year t later
                        then search_valid n lib t later ds next.0
                        else some (ds, next.0, none)
                  ])
            ])
            (some (ds, no_period, in_year t o))
    by_best none = rw (no_next_turn n lib (sorted_times os)) refl
    by_best (some found) = refl

-- The first time at which a period is valid, of those that are at most a year (366 days and a
-- second) later; none if there is none.
abbrev pub IsFirstInYear : Library → Period → ℕ → Option ℕ → Type 0
IsFirstInYear lib p t none =
    (x : ℕ) → t ≤ x → within_year t x ≡ true → is_period_valid lib x p ≡ some (p, false)
IsFirstInYear lib p t (some r) =
    (t ≤ r)
    × (within_year t r ≡ true)
    × (is_period_valid lib r p ≡ some (p, true))
    × ((x : ℕ) → t ≤ x → x < r → is_period_valid lib x p ≡ some (p, false))

nearer : (t x r : ℕ) → within_year t x ≡ true → within_year t r ≡ false → x < r
nearer t x r e f = ground arith

module _ (lib : Library) (ds : List Daterange) (cache invalid : Cache) where
  period_valid :
      (x : ℕ) (b : Bool)
      → ranges_valid lib x ds ≡ some (ds, b)
      → is_period_valid lib x (period ds no_period cache invalid)
        ≡ some (period ds no_period cache invalid, b)
  unfolding is_period_valid is_one_valid
  period_valid x b e = rw e refl

  in_year-IsFirstInYear :
      (t : ℕ) (o : Option ℕ)
      → IsFirstOfAll lib ds t o
      → IsFirstInYear lib (period ds no_period cache invalid) t (in_year t o)
  in_year-IsFirstInYear t none h = λ x l w. period_valid x false (h x l)
  in_year-IsFirstInYear t (some r) (l, v, h) = elim (Bool-cases (within_year t r)) [
    | inl w ↦
        subst (IsFirstInYear lib (period ds no_period cache invalid) t)
          (sym (ap (λ b. if b then some r else none) w))
          (l, w, period_valid r true v, λ x i j. period_valid x false (h x i j))
    | inr w ↦
        subst (IsFirstInYear lib (period ds no_period cache invalid) t)
          (sym (ap (λ b. if b then some r else none) w))
          (λ x i near. period_valid x false (h x i (nearer t x r near w)))
  ]

searched_period :
    (n : ℕ) (lib : Library) (t : ℕ) (ds : List Daterange) (cache invalid : Cache) (o : Option ℕ)
    → find_from_cache t cache ≡ none
    → search_valid n lib t t ds no_period ≡ some (ds, no_period, o)
    → get_next_valid_time n lib t (period ds no_period cache invalid)
      ≡ some (period ds no_period (put_in_cache t o cache) invalid, o)
unfolding get_next_valid_time
searched_period n lib t ds cache invalid o e f = rw (e, f, get_next_valid_time) refl

-- In a zone whose days all have 86400 seconds, `get_next_valid_time_from_t` of a period without
-- excludes, whose ranges are calendar ranges from 1971 on that do not end before they start, with
-- valid time ranges in order, and whose cache has no time for the time asked, gives on the first
-- turn the first valid time from it on, if it is at most 366 days and a second later, and None if
-- there is none.
pub get_next_valid_time-IsFirstInYear :
    (n : ℕ) (lib : Library) (t : ℕ) (ds : List Daterange) (cache invalid : Cache)
    → IsCivil lib
    → ArePlanned lib ds
    → find_from_cache t cache ≡ none
    → (o : Option ℕ) × (get_next_valid_time (suc n) lib t (period ds no_period cache invalid)
        ≡ some (period ds no_period (put_in_cache t o cache) invalid, o))
      × IsFirstInYear lib (period ds no_period cache invalid) t o
get_next_valid_time-IsFirstInYear n lib t ds cache invalid c p e =
    let (os, f, h) = next_of_each-IsFirstOfAll lib t ds c p in
    (
      in_year t (best os),
      searched_period (suc n) lib t ds cache invalid (in_year t (best os)) e
          (search_valid-in_year n lib t ds os f),
      in_year-IsFirstInYear lib ds cache invalid t (best os) h,
    )
