-- ===== src/Timeperiod/Examples.antt =====
-- A time period of a calendar range, and what the theorem says of it
-- (alignak/objects/timeperiod.py).
use alignak.Prelude.{ℕ, zero, true, false, pos, negsuc, ◌≡◌, refl, Option, none, some, [], ◌∷◌}
use alignak.Daterange.Ranges.{calendar_daterange}
use alignak.Daterange.Samples.{
  simple, office, range_of, simple-IsCivil, office-AreOrdered, in_order, dated,
}
use alignak.Timeperiod.Periods.{period, no_period, put_in_cache, find_from_cache}
use alignak.Timeperiod.Search.{get_next_valid_time}
use alignak.Timeperiod.Activation.{never_active, log_change, logged_of, IsChain, logged_of-IsChain}
use alignak.Timeperiod.Merged.{merge_periods, merge_from, sorted_spans, insert_span}
use alignak.Timeperiod.Sooner.{ArePlanned, one_more, no_ranges}
use alignak.Timeperiod.Found.{IsFirstInYear, get_next_valid_time-IsFirstInYear}

planned : ArePlanned simple (range_of calendar_daterange 1972 ∷ [])
planned =
    one_more
      (record {
        is_calendar = refl;
        dated = dated;
        in_order = in_order;
        a_range = office;
        more_ranges = [];
        ranges_are = refl;
        ordered = office-AreOrdered;
      })
      no_ranges

-- A span within another one cuts it short.
nested_spans : merge_periods ((0, 100) ∷ (10, 20) ∷ []) ≡ some ((0, 20) ∷ [])
unfolding merge_periods merge_from sorted_spans insert_span
nested_spans = refl

nothing_cached : find_from_cache 64360800 [] ≡ none
unfolding find_from_cache
nothing_cached = refl

get_next_valid_time-IsFirstInYear_example :
    (o : Option ℕ) × (get_next_valid_time 1 simple 64360800
        (period (range_of calendar_daterange 1972 ∷ []) no_period [] [])
      ≡ some (
        period (range_of calendar_daterange 1972 ∷ []) no_period (put_in_cache 64360800 o []) [],
        o,
      ))
    × IsFirstInYear simple
        (period (range_of calendar_daterange 1972 ∷ []) no_period [] [])
        64360800
        o
get_next_valid_time-IsFirstInYear_example =
    get_next_valid_time-IsFirstInYear 0 simple 64360800 (range_of calendar_daterange 1972 ∷ []) []
      [] simple-IsCivil planned nothing_cached

logged_of-IsChain_example :
    IsChain (negsuc zero) (logged_of (false ∷ true ∷ true ∷ false ∷ true ∷ []) never_active)
logged_of-IsChain_example = logged_of-IsChain (false ∷ true ∷ true ∷ false ∷ true ∷ [])

-- A period that comes to be valid, and then is not.
rises_and_falls :
    logged_of (false ∷ true ∷ true ∷ false ∷ []) never_active
    ≡ (negsuc zero, pos 1) ∷ (pos 1, pos 0) ∷ []
unfolding logged_of log_change
rises_and_falls = refl
