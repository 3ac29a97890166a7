-- ===== src/Daterange/Bounds.antt =====
-- `get_start_and_end_time` of each class of date ranges (alignak/daterange.py).
--
-- A range that comes back each year or month writes down the year of the call in which it was
-- first asked: a method returns the range too. None is an exception.
use alignak.Prelude.{ℕ, suc, ◌+◌, ◌-◌, ◌%◌, Option, some, ◌>>=◌, ltb, ◌==◌, if◌then◌else◌, ℤ, pos}
use alignak.Daterange.Calendar.{
  Tm, Library, get_start_of_day, get_end_of_day, find_day_by_weekday_offset, find_day_by_offset,
}
use alignak.Daterange.Ranges.{
  calendar_daterange, standard_daterange, month_week_day_daterange, month_date_daterange,
  week_day_daterange, month_day_daterange, Daterange,
}

abbrev pub Bounds : Type 0
Bounds = ℕ × ℕ

-- `time.mktime(now)`
abbrev pub epoch : Library → Tm → ℕ
epoch lib now =
    lib.mktime now.tm_year now.tm_mon (pos now.tm_mday) now.tm_hour now.tm_min now.tm_sec

abbrev pub year_of : ℕ → Tm → ℕ
year_of year now = if year == 0 then now.tm_year else year

abbrev pub with_years : Tm → Daterange → Daterange
with_years now d = record d { syear = year_of d.syear now; eyear = year_of d.eyear now }

unfoldable pub calendar_bounds : Library → Daterange → Bounds
calendar_bounds lib d =
    (get_start_of_day lib d.syear d.smon d.smday, get_end_of_day lib d.eyear d.emon d.emday)

unfoldable pub standard_bounds : Library → Tm → Daterange → Bounds
standard_bounds lib now d =
    let today_morning = get_start_of_day lib now.tm_year now.tm_mon (pos now.tm_mday) in
    let tonight = get_end_of_day lib now.tm_year now.tm_mon (pos now.tm_mday) in
    let day_diff = (d.day + 7 - now.tm_wday) % 7 in
    (lib.later day_diff today_morning, lib.later day_diff tonight)

-- The bounds of a range of each year, from its start and end in a year; `last_start` is the start
-- in the year before.
unfoldable pub yearly_bounds :
    (ℕ → Option ℕ) → (ℕ → Option ℕ) → (ℕ → Option ℕ) → ℕ → ℕ → ℕ → Option Bounds
yearly_bounds start last_start end syear eyear now_epoch = do
  start_time ← start syear
  end_time ← end eyear
  if ltb end_time start_time
      then if ltb end_time now_epoch
        then (end (suc eyear) >>= λ next_end. some (start_time, next_end))
        else (last_start (syear - 1) >>= λ last. some (last, end_time))
      else if ltb end_time now_epoch
      then (start (suc syear) >>= λ s. end (suc eyear) >>= λ e. some (s, e))
      else some (start_time, end_time)

-- The starts and ends by weekdays and by days of a month.
unfoldable pub weekday_start : Library → Daterange → ℕ → ℕ → Option ℕ
weekday_start lib d month year = do
  day_start ← find_day_by_weekday_offset lib year month d.swday d.swday_offset
  some (get_start_of_day lib year month (pos day_start))

unfoldable pub weekday_end : Library → Daterange → ℕ → ℕ → Option ℕ
weekday_end lib d month year = do
  day_end ← find_day_by_weekday_offset lib year month d.ewday d.ewday_offset
  some (get_end_of_day lib year month (pos day_end))

unfoldable pub date_start : Library → ℤ → ℕ → ℕ → ℕ
date_start lib mday month year =
    get_start_of_day lib year month (pos (find_day_by_offset lib year month mday))

unfoldable pub date_end : Library → ℤ → ℕ → ℕ → ℕ
date_end lib mday month year =
    get_end_of_day lib year month (pos (find_day_by_offset lib year month mday))

unfoldable pub month_week_day_bounds : Library → Tm → Daterange → Option Bounds
month_week_day_bounds lib now d =
    yearly_bounds (weekday_start lib d d.smon) (weekday_start lib d d.smon)
      (weekday_end lib d d.emon) d.syear d.eyear (epoch lib now)

-- The start in the year before is looked for by the day of the end.
unfoldable pub month_date_bounds : Library → Tm → Daterange → Option Bounds
month_date_bounds lib now d =
    yearly_bounds (λ year. some (date_start lib d.smday d.smon year))
      (λ year. some (date_start lib d.emday d.smon year))
      (λ year. some (date_end lib d.emday d.emon year)) d.syear d.eyear (epoch lib now)

-- The month after, and its year.
abbrev pub month_after : ℕ → ℕ → ℕ × ℕ
month_after month year = if ltb 12 (suc month) then (1, suc year) else (suc month, year)

-- The month before, and its year.
abbrev pub month_before : ℕ → ℕ → ℕ × ℕ
month_before month year = if ltb (month - 1) 1 then (12, year - 1) else (month - 1, year)

-- The years of a range and its bounds.
abbrev pub Placed : Type 0
Placed = ℕ × ℕ × ℕ × ℕ

-- The second half: if the range is over, it is the one of a month later.
unfoldable pub week_day_later : Library → Tm → Daterange → ℕ × ℕ → ℕ × ℕ → Bounds → Option Placed
week_day_later lib now d (smonth, syear) (emonth, eyear) (start_time, end_time) =
    let (smonth', syear') = month_after smonth syear in
    let (emonth', eyear') = month_after emonth eyear in
    if ltb end_time (epoch lib now)
    then (weekday_start lib d smonth' syear' >>= λ s.
        weekday_end lib d emonth' eyear' >>= λ e. some (syear', eyear', s, e))
    else some (syear, eyear, start_time, end_time)

unfoldable pub week_day_bounds : Library → Tm → Daterange → Option Placed
week_day_bounds lib now d = do
  start_time ← weekday_start lib d now.tm_mon d.syear
  end_time ← weekday_end lib d now.tm_mon d.eyear
  let (emonth, eyear) = month_after now.tm_mon d.eyear in
      if ltb end_time start_time
      then (weekday_end lib d emonth eyear >>= λ e.
          week_day_later lib now d (now.tm_mon, d.syear) (emonth, eyear) (start_time, e))
      else week_day_later lib now d (now.tm_mon, d.syear) (now.tm_mon, d.eyear)
          (start_time, end_time)

unfoldable pub month_day_bounds : Library → Tm → Daterange → Placed
month_day_bounds lib now d =
    let first_start = date_start lib d.smday now.tm_mon d.syear in
    let end_time = date_end lib d.emday now.tm_mon d.eyear in
    let (smonth, syear) =
      if ltb end_time first_start then month_before now.tm_mon d.syear else (now.tm_mon, d.syear) in
    let (smonth', syear') = month_after smonth syear in
    let (emonth', eyear') = month_after now.tm_mon d.eyear in
    if ltb end_time (epoch lib now)
    then (
      syear',
      eyear',
      date_start lib d.smday smonth' syear',
      date_end lib d.emday emonth' eyear',
    )
    else (syear, d.eyear, date_start lib d.smday smonth syear, end_time)

abbrev pub place_in : Daterange → Placed → Daterange × Bounds
place_in d (syear, eyear, s, e) = (record d { syear = syear; eyear = eyear }, (s, e))

unfoldable pub get_start_and_end_time : Library → ℕ → Daterange → Option (Daterange × Bounds)
get_start_and_end_time lib ref d =
    let now = lib.localtime ref in
    let dated = with_years now d in
    elim d.range_class [
      | calendar_daterange ↦ some (d, calendar_bounds lib d)
      | standard_daterange ↦ some (d, standard_bounds lib now d)
      | month_week_day_daterange ↦
          (month_week_day_bounds lib now dated >>= λ bounds. some (dated, bounds))
      | month_date_daterange ↦ (month_date_bounds lib now dated >>= λ bounds. some (dated, bounds))
      | week_day_daterange ↦
          (week_day_bounds lib now dated >>= λ placed. some (place_in dated placed))
      | month_day_daterange ↦ some (place_in dated (month_day_bounds lib now dated))
    ]
