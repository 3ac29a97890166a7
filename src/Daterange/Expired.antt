-- ===== src/Daterange/Expired.antt =====
-- The years that a MonthDateDaterange writes down (alignak/daterange.py).
use alignak.Prelude.{
  ℕ, lt_ltb, suc, ◌-◌, ◌<◌, ◌≡◌, ◌≢◌, refl, sym, ap, subst, ◌∙◌, Bool, true, false, ◌&&◌, some,
  ◌>>=◌, ltb, leb, if◌then◌else◌, arith, Bool-cases, inl, inr,
}
use alignak.Daterange.Calendar.{Tm, Library}
use alignak.Daterange.Ranges.{month_date_daterange, Daterange}
use alignak.Daterange.Bounds.{
  Bounds, epoch, year_of, with_years, yearly_bounds, date_start, date_end, month_date_bounds,
  get_start_and_end_time,
}
use alignak.Daterange.Days.{give, is_in_some, is_time_day_valid, is_time_valid}
use alignak.Daterange.Fixed.{some_step}

over_leb : (s e t : ℕ) (b : Bool) → e < t → ((leb s t && leb t e) && b) ≡ false
over_leb s e t b l = ground arith

some_branch :
    (b c : Bool) (p q r s : Bounds)
    → (bounds : Bounds) × ((if b
          then (if c then some p else some q)
          else (if c then some r else some s))
        ≡ some bounds)
some_branch true true p q r s = (p, refl)
some_branch true false p q r s = (q, refl)
some_branch false true p q r s = (r, refl)
some_branch false false p q r s = (s, refl)

-- `yearly_bounds` gives bounds if there are starts and ends.
some_bounds :
    (start last end : ℕ → ℕ) (syear eyear now : ℕ)
    → (bounds : Bounds) × (yearly_bounds
          (λ y. some (start y))
          (λ y. some (last y))
          (λ y. some (end y))
          syear
          eyear
          now
        ≡ some bounds)
unfolding yearly_bounds
some_bounds start last end syear eyear now =
    some_branch (ltb (end eyear) (start syear)) (ltb (end eyear) now) (start syear, end (suc eyear))
      (last (syear - 1), end eyear) (start (suc syear), end (suc eyear)) (start syear, end eyear)

-- What `yearly_bounds` gives long after the years of the range.
over_bounds :
    (start last end : ℕ → ℕ) (syear eyear now : ℕ)
    → end eyear < now
    → end (suc eyear) < now
    → (bounds : Bounds) × (yearly_bounds
          (λ y. some (start y))
          (λ y. some (last y))
          (λ y. some (end y))
          syear
          eyear
          now
        ≡ some bounds)
      × (bounds.1 < now)
unfolding yearly_bounds
over_bounds start last end syear eyear now h k = elim (Bool-cases (ltb (end eyear) (start syear))) [
  | inl s ↦ ((start syear, end (suc eyear)), rw (s, lt_ltb (end eyear) now h) refl, k)
  | inr n ↦ ((start (suc syear), end (suc eyear)), rw (n, lt_ltb (end eyear) now h) refl, k)
]

bounds_of :
    (lib : Library) (d : Daterange) (ref : ℕ)
    → d.range_class ≡ month_date_daterange
    → get_start_and_end_time lib ref d ≡ (
        month_date_bounds lib (lib.localtime ref) (with_years (lib.localtime ref) d) >>= λ bounds.
        some (with_years (lib.localtime ref) d, bounds))
unfolding get_start_and_end_time
bounds_of lib d ref c = rw c refl

bounds_are :
    (lib : Library) (d : Daterange) (ref : ℕ) (bounds : Bounds)
    → d.range_class ≡ month_date_daterange
    → month_date_bounds lib (lib.localtime ref) (with_years (lib.localtime ref) d) ≡ some bounds
    → get_start_and_end_time lib ref d ≡ some (with_years (lib.localtime ref) d, bounds)
bounds_are lib d ref bounds c e =
    bounds_of lib d ref c
    ∙ ap (λ o. o >>= λ bounds. some (with_years (lib.localtime ref) d, bounds)) e

not_valid :
    (lib : Library) (d : Daterange) (t : ℕ) (bounds : Bounds)
    → get_start_and_end_time lib t d ≡ some (d, bounds)
    → bounds.1 < t
    → is_time_valid lib t d ≡ some (d, false)
unfolding is_time_valid is_time_day_valid
not_valid lib d t bounds e l =
    some_step (is_time_day_valid lib t) (λ v e. some (e, v && is_in_some lib t e.timeranges)) d d
      (leb bounds.0 t && leb t bounds.1)
      (some_step (get_start_and_end_time lib t) (λ b. give (leb b.0 t && leb t b.1)) d d bounds e)
    ∙ ap (λ b. some (d, b)) (over_leb bounds.0 bounds.1 t (is_in_some lib t d.timeranges) l)

year_kept : (y : ℕ) (now : Tm) → y ≢ 0 → year_of y now ≡ y
year_kept y now n = ground arith

with_years_kept : (now : Tm) (d : Daterange) → d.syear ≢ 0 → d.eyear ≢ 0 → with_years now d ≡ d
with_years_kept now d s e =
    ap (λ x. record d { syear = x; eyear = year_of d.eyear now }) (year_kept d.syear now s)
    ∙ ap (λ x. record d { eyear = x }) (year_kept d.eyear now e)

-- A MonthDateDaterange without years that was asked at a time is not valid any more at a time after
-- its ends in the year of that time and in the next one.
pub is_time_valid_expired :
    (lib : Library) (d : Daterange) (ref t : ℕ)
    → d.range_class ≡ month_date_daterange
    → d.syear ≡ 0
    → d.eyear ≡ 0
    → (lib.localtime ref).tm_year ≢ 0
    → epoch lib (lib.localtime t) ≡ t
    → date_end lib d.emday d.emon (lib.localtime ref).tm_year < t
    → date_end lib d.emday d.emon (suc (lib.localtime ref).tm_year) < t
    → (asked : Daterange) × (bounds : Bounds) × (get_start_and_end_time lib ref d
        ≡ some (asked, bounds))
      × (is_time_valid lib t asked ≡ some (asked, false))
unfolding month_date_bounds
is_time_valid_expired lib d ref t c s e y n h k =
    let now = lib.localtime ref in
    let asked = with_years now d in
    let (first, at_first) =
      some_bounds (date_start lib d.smday d.smon) (date_start lib d.emday d.smon)
        (date_end lib d.emday d.emon) asked.syear asked.eyear (epoch lib now) in
    let syear_is : asked.syear ≡ now.tm_year = rw s refl in
    let eyear_is : asked.eyear ≡ now.tm_year = rw e refl in
    let kept : with_years (lib.localtime t) asked ≡ asked =
      with_years_kept (lib.localtime t) asked (rw syear_is y) (rw eyear_is y) in
    let (later, at_later, over) =
      over_bounds (date_start lib d.smday d.smon) (date_start lib d.emday d.smon)
        (date_end lib d.emday d.emon) asked.syear asked.eyear (epoch lib (lib.localtime t))
        (subst (λ x. date_end lib d.emday d.emon x < epoch lib (lib.localtime t)) (sym eyear_is)
          (subst (λ x. date_end lib d.emday d.emon now.tm_year < x) (sym n) h))
        (subst (λ x. date_end lib d.emday d.emon (suc x) < epoch lib (lib.localtime t))
          (sym eyear_is)
          (subst (λ x. date_end lib d.emday d.emon (suc now.tm_year) < x) (sym n) k)) in
    (
      asked,
      first,
      bounds_are lib d ref first c at_first,
      not_valid lib asked t later
          (bounds_are lib asked t later c
              (ap (month_date_bounds lib (lib.localtime t)) kept ∙ at_later)
            ∙ ap (λ x. some (x, later)) kept)
          (subst (λ x. later.1 < x) n over),
    )
