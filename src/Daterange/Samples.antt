-- ===== src/Daterange/Samples.antt =====
-- A simple calendar of twelve months with 31 days in a zone an hour east of UTC, and ranges that the tests run on
-- (alignak/daterange.py).
use alignak.Prelude.{
  ℕ, ◌+◌, ◌-◌, ◌*◌, ◌/◌, ◌%◌, ◌≤◌, ◌≡◌, refl, true, [], ◌∷◌, ℤ, pos, negsuc, arith,
}
use alignak.Daterange.Calendar.{
  Tm, Library, get_sec_from_morning, get_day, get_start_of_day, get_end_of_day,
}
use alignak.Daterange.Ranges.{Timerange, Daterange, RangeClass, calendar_daterange}
use alignak.Daterange.Bounds.{calendar_bounds}
use alignak.Daterange.Starts.{AreOrdered}
use alignak.Daterange.Fixed.{IsUniform}
use alignak.Daterange.Valid.{IsCivil, IsDated}

abbrev of_day : ℕ → Tm
of_day days = record {
  tm_year = 1970 + days / 372;
  tm_mon = 1 + days % 372 / 31;
  tm_mday = 1 + days % 31;
  tm_hour = 0;
  tm_min = 0;
  tm_sec = 0;
  tm_wday = (days + 3) % 7;
}

abbrev at_time : ℕ → Tm → Tm
at_time sec day = record day {
  tm_hour = sec / 3600;
  tm_min = sec % 3600 / 60;
  tm_sec = sec % 3600 % 60;
}

abbrev day_number : ℕ → ℕ → ℤ → ℕ
day_number year month (pos day) = (year - 1970) * 372 + (month - 1) * 31 + (day - 1)
day_number year month (negsuc n) = 0

abbrev pub simple : Library
simple = record {
  localtime = λ t. at_time ((t + 3600) % 86400) (of_day ((t + 3600) / 86400));
  mktime = λ year month day hour minute second.
      day_number year month day * 86400 + hour * 3600 + minute * 60 + second - 3600;
  monthcalendar = λ year month. [];
  days_in_month = λ year month. 31;
  later = λ days t. t + days * 86400;
}

simple_sec : (t : ℕ) → get_sec_from_morning simple t ≡ (t + 3600) % 86400
simple_sec t = omega arith

simple-IsUniform : IsUniform simple
simple-IsUniform = record {
  within = λ t. omega (arith, simple_sec t);
  along = λ t sec late l. omega (arith, simple_sec t, simple_sec (get_day simple t + sec));
  next = λ t late. omega (arith, simple_sec t, simple_sec (get_day simple t + 86400));
}

pub simple-IsCivil : IsCivil simple
simple-IsCivil = record {
  uniform = simple-IsUniform;
  midnight = λ year month day date.
      omega (arith, date.0, simple_sec (get_start_of_day simple year month (pos day)));
  last_second = λ year month day date.
      omega (arith, date.0, simple_sec (get_end_of_day simple year month (pos day)));
}

-- 09:00-17:00
abbrev pub office : Timerange
office = record { hstart = 9; mstart = 0; hend = 17; mend = 0; is_valid = true }

abbrev pub range_of : RangeClass → ℕ → Daterange
range_of c year = record {
  range_class = c;
  syear = year;
  smon = 2;
  smday = pos 1;
  swday = 0;
  swday_offset = pos 0;
  eyear = year;
  emon = 3;
  emday = pos 15;
  ewday = 0;
  ewday_offset = pos 0;
  day = 0;
  timeranges = office ∷ [];
}

pub office-AreOrdered : AreOrdered (office ∷ [])
office-AreOrdered = AreOrdered.one_more refl (omega arith) (omega arith) AreOrdered.no_ranges

pub in_order :
    (calendar_bounds simple (range_of calendar_daterange 1972)).0
    ≤ (calendar_bounds simple (range_of calendar_daterange 1972)).1
unfolding calendar_bounds
in_order = omega arith

pub dated : IsDated (range_of calendar_daterange 1972)
dated = record {
  sday = 1;
  start_day = refl;
  start_date = (omega arith, omega arith, omega arith, omega arith, omega arith, omega arith);
  eday = 15;
  end_day = refl;
  end_date = (omega arith, omega arith, omega arith, omega arith, omega arith, omega arith);
}
