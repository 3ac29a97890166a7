-- ===== src/Daterange/Valid.antt =====
-- When date ranges are valid (alignak/daterange.py): the next valid time of a CalendarDaterange, and
-- the years of a MonthDateDaterange.
use alignak.Prelude.{
  ℕ, ◌≤◌, ◌<◌, ◌≡◌, refl, ap, ◌∙◌, true, false, Option, none, some, List, ◌∷◌, pos, sym, subst,
}
use alignak.Daterange.Calendar.{Library, get_sec_from_morning, get_start_of_day, get_end_of_day}
use alignak.Daterange.Ranges.{Timerange, calendar_daterange, Daterange}
use alignak.Daterange.Bounds.{Bounds, calendar_bounds, get_start_and_end_time}
use alignak.Daterange.Days.{is_time_valid, get_next_valid_time_from_t}
use alignak.Daterange.Starts.{AreOrdered}
use alignak.Daterange.Fixed.{
  IsUniform, IsFixed, valid_at, time_valid, next_time, get_next_valid_time_from_t-next_time,
}
use alignak.Daterange.First.{FirstValid, next_time-FirstValid}

-- The dates of a calendar entry, from 1971 on.
abbrev pub IsDate : ℕ → ℕ → ℕ → Type 0
IsDate year month day =
    (1970 < year) × (year ≤ 9999) × (1 ≤ month) × (month ≤ 12) × (1 ≤ day) × (day ≤ 31)

-- Days of 86400 seconds, whose first and last seconds `mktime` gives. A time before 0 is no number
-- here, so that only the dates from 1971 on, which are later in every zone, have these seconds.
pub record IsCivil (lib : Library) : Type 0 where
  pub uniform : IsUniform lib
  pub midnight :
      (year month day : ℕ)
      → IsDate year month day
      → get_sec_from_morning lib (get_start_of_day lib year month (pos day)) ≡ 0
  pub last_second :
      (year month day : ℕ)
      → IsDate year month day
      → get_sec_from_morning lib (get_end_of_day lib year month (pos day)) ≡ 86399

-- The first and the last day of a range are dates.
pub record IsDated (d : Daterange) : Type 0 where
  pub sday : ℕ
  pub start_day : d.smday ≡ pos sday
  pub start_date : IsDate d.syear d.smon sday
  pub eday : ℕ
  pub end_day : d.emday ≡ pos eday
  pub end_date : IsDate d.eyear d.emon eday

-- The first time from `t` on at which the range is valid; none if there is none.
abbrev pub IsFirstTime : Library → Daterange → ℕ → Option ℕ → Type 0
IsFirstTime lib d t none = (x : ℕ) → t ≤ x → is_time_valid lib x d ≡ some (d, false)
IsFirstTime lib d t (some r) =
    (t ≤ r)
    × (is_time_valid lib r d ≡ some (d, true))
    × ((x : ℕ) → t ≤ x → x < r → is_time_valid lib x d ≡ some (d, false))

calendar_fixed :
    (lib : Library) (d : Daterange) (ref : ℕ)
    → d.range_class ≡ calendar_daterange
    → get_start_and_end_time lib ref d ≡ some (d, calendar_bounds lib d)
unfolding get_start_and_end_time
calendar_fixed lib d ref c = rw c refl

FirstValid-IsFirstTime :
    (lib : Library) (d : Daterange) (bounds : Bounds) (f : IsFixed lib d bounds) (t : ℕ)
    (o : Option ℕ)
    → FirstValid (valid_at lib d bounds) t o
    → IsFirstTime lib d t o
FirstValid-IsFirstTime lib d bounds f t none h =
    λ x l. time_valid lib d bounds f x ∙ ap (λ b. some (d, b)) (h x l)
FirstValid-IsFirstTime lib d bounds f t (some r) (l, v, h) = (
  l,
  time_valid lib d bounds f r ∙ ap (λ b. some (d, b)) v,
  λ x i j. time_valid lib d bounds f x ∙ ap (λ b. some (d, b)) (h x i j),
)

-- In a zone whose days all have 86400 seconds, `get_next_valid_time_from_t` of a CalendarDaterange
-- from 1971 on that does not end before it starts, with a time range at least, all of them valid, none of them
-- ending before it starts or starting after the day, gives the first valid time from the time on,
-- and None if there is none.
pub get_next_valid_time_from_t-IsFirstTime :
    (lib : Library) (d : Daterange) (t : ℕ) (r : Timerange) (rs : List Timerange)
    → IsCivil lib
    → d.range_class ≡ calendar_daterange
    → IsDated d
    → (calendar_bounds lib d).0 ≤ (calendar_bounds lib d).1
    → d.timeranges ≡ r ∷ rs
    → AreOrdered d.timeranges
    → (o : Option ℕ) × (get_next_valid_time_from_t lib t d ≡ some (d, o)) × IsFirstTime lib d t o
unfolding calendar_bounds
get_next_valid_time_from_t-IsFirstTime lib d t r rs civil c dated order g ordered =
    let bounds = calendar_bounds lib d in
    let f : IsFixed lib d bounds = record {
      fixed = λ ref. calendar_fixed lib d ref c;
      in_order = order;
      first_second =
          subst (λ day. get_sec_from_morning lib (get_start_of_day lib d.syear d.smon day) ≡ 0)
            (sym dated.start_day) (civil.midnight d.syear d.smon dated.sday dated.start_date);
      last_second =
          subst (λ day. get_sec_from_morning lib (get_end_of_day lib d.eyear d.emon day) ≡ 86399)
            (sym dated.end_day) (civil.last_second d.eyear d.emon dated.eday dated.end_date);
    } in
    (
      next_time lib d bounds f t,
      get_next_valid_time_from_t-next_time lib d bounds f t,
      FirstValid-IsFirstTime lib d bounds f t (next_time lib d bounds f t)
          (next_time-FirstValid lib civil.uniform d bounds f ordered r rs g t),
    )
