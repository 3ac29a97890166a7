-- ===== src/Daterange/Examples.antt =====
-- Date ranges in a simple calendar, and what the theorems say of them (alignak/daterange.py).
use alignak.Prelude.{ℕ, ◌<◌, ◌≡◌, ◌≢◌, refl, false, Option, some, [], pos, arith}
use alignak.Daterange.Calendar.{find_day_by_offset}
use alignak.Daterange.Ranges.{Daterange, calendar_daterange, month_date_daterange}
use alignak.Daterange.Bounds.{Bounds, date_end, get_start_and_end_time}
use alignak.Daterange.Days.{is_time_valid, get_next_valid_time_from_t}
use alignak.Daterange.Valid.{IsFirstTime, get_next_valid_time_from_t-IsFirstTime}
use alignak.Daterange.Expired.{is_time_valid_expired}
use alignak.Daterange.Samples.{
  simple, office, range_of, simple-IsCivil, office-AreOrdered, in_order, dated,
}

year_given : (simple.localtime 64360800).tm_year ≢ 0
year_given = omega arith

in_time : date_end simple (pos 15) 3 1972 < 163000000
unfolding date_end find_day_by_offset
in_time = omega arith

later_in_time : date_end simple (pos 15) 3 1973 < 163000000
unfolding date_end find_day_by_offset
later_in_time = omega arith

get_next_valid_time_from_t-IsFirstTime_example :
    (o : Option ℕ) × (get_next_valid_time_from_t simple 64360800 (range_of calendar_daterange 1972)
      ≡ some (range_of calendar_daterange 1972, o))
    × IsFirstTime simple (range_of calendar_daterange 1972) 64360800 o
get_next_valid_time_from_t-IsFirstTime_example =
    get_next_valid_time_from_t-IsFirstTime simple (range_of calendar_daterange 1972) 64360800 office
      [] simple-IsCivil refl dated in_order refl office-AreOrdered

is_time_valid_expired_example :
    (asked : Daterange) × (bounds : Bounds) × (get_start_and_end_time simple 64360800
        (range_of month_date_daterange 0)
      ≡ some (asked, bounds))
    × (is_time_valid simple 163000000 asked ≡ some (asked, false))
is_time_valid_expired_example =
    is_time_valid_expired simple (range_of month_date_daterange 0) 64360800 163000000 refl refl refl
      year_given refl in_time later_in_time
