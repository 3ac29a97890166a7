-- ===== src/Daterange/Ranges.antt =====
-- `Timerange` and the data of the date ranges (alignak/daterange.py).
--
-- The texts of configuration entries are read before: hours and minutes are numbers, and a day of
-- the week is its identifier.
use alignak.Prelude.{ℕ, ◌+◌, ◌*◌, Bool, true, ◌&&◌, List, [], ◌∷◌, leb, ◌==◌, if◌then◌else◌, ℤ}
use alignak.Daterange.Calendar.{Library, get_sec_from_morning}

pub record Timerange : Type 0 where
  pub hstart : ℕ
  pub mstart : ℕ
  pub hend : ℕ
  pub mend : ℕ
  pub is_valid : Bool

-- `Timerange.get_sec_from_morning`
abbrev pub range_start : Timerange → ℕ
range_start r = r.hstart * 3600 + r.mstart * 60

abbrev pub range_end : Timerange → ℕ
range_end r = r.hend * 3600 + r.mend * 60

abbrev pub get_first_sec_out_from_morning : Timerange → ℕ
get_first_sec_out_from_morning r = if r.hstart == 0 && r.mstart == 0 then range_end r else 0

-- `Timerange.is_time_valid`
abbrev pub is_in_timerange : Library → ℕ → Timerange → Bool
is_in_timerange lib timestamp r =
    let sec_from_morning = get_sec_from_morning lib timestamp in
    r.is_valid && (leb (range_start r) sec_from_morning && leb sec_from_morning (range_end r))

-- The subclasses of `AbstractDaterange`.
pub data RangeClass : Type 0 where
  calendar_daterange standard_daterange month_week_day_daterange month_date_daterange
        week_day_daterange month_day_daterange :
      RangeClass

-- A year that is not given is 0. `day` is the weekday of a StandardDaterange.
pub record Daterange : Type 0 where
  pub range_class : RangeClass
  pub syear : ℕ
  pub smon : ℕ
  pub smday : ℤ
  pub swday : ℕ
  pub swday_offset : ℤ
  pub eyear : ℕ
  pub emon : ℕ
  pub emday : ℤ
  pub ewday : ℕ
  pub ewday_offset : ℤ
  pub day : ℕ
  pub timeranges : List Timerange

abbrev pub all_correct : List Timerange → Bool
all_correct [] = true
all_correct (r ∷ rs) = r.is_valid && all_correct rs

-- `is_correct` of each class: a MonthWeekDayDaterange asks no more for its time ranges.
unfoldable pub is_correct : Daterange → Bool
is_correct d = elim d.range_class [
  | standard_daterange ↦ leb d.day 6 && all_correct d.timeranges
  | month_week_day_daterange ↦ leb d.swday 6 && leb d.ewday 6
  | _ ↦ all_correct d.timeranges
]
