-- ===== src/Timeperiod/Periods.antt =====
-- `Timeperiod` and when it is valid (alignak/objects/timeperiod.py).
--
-- The ranges of a period may change when they are asked, so that a method returns the period too.
-- None is an exception.
use alignak.Prelude.{
  ℕ, Bool, true, false, not, Option, none, some, List, [], ◌∷◌, ◌>>=◌, ltb, ◌==◌, if◌then◌else◌,
  keep,
}
use alignak.Daterange.Calendar.{Library}
use alignak.Daterange.Ranges.{Daterange}
use alignak.Daterange.Days.{is_time_valid}

-- `cache` and `invalid_cache`, by times.
abbrev pub Cache : Type 0
Cache = List (ℕ × Option ℕ)

-- The date ranges of a period, its excludes and its caches.
mutual
  pub data Period : Type 0 where
    period : List Daterange → Periods → Cache → Cache → Period

  pub data Periods : Type 0 where
    no_period : Periods
    more_periods : Period → Periods → Periods

-- The loop over date ranges, which ends at a range that is valid.
unfoldable pub ranges_valid : Library → ℕ → List Daterange → Option (List Daterange × Bool)
ranges_valid lib t [] = some ([], false)
ranges_valid lib t (d ∷ ds) = do
  first ← is_time_valid lib t d
  let rest = ranges_valid lib t ds in
      if first.1
      then some (first.0 ∷ ds, true)
      else (rest >>= λ others. some (first.0 ∷ others.0, others.1))

-- `Timeperiod.is_time_valid`, and its loop over excludes.
unfoldable mutual
  pub is_period_valid : Library → ℕ → Period → Option (Period × Bool)
  is_period_valid lib t (period ds exclude cache invalid) = do
    excluded ← is_one_valid lib t exclude
    if excluded.1
        then some (period ds excluded.0 cache invalid, false)
        else (ranges_valid lib t ds >>= λ valid.
            some (period valid.0 excluded.0 cache invalid, valid.1))

  pub is_one_valid : Library → ℕ → Periods → Option (Periods × Bool)
  is_one_valid lib t no_period = some (no_period, false)
  is_one_valid lib t (more_periods p ps) = do
    first ← is_period_valid lib t p
    let rest = is_one_valid lib t ps in
        if first.1
        then some (more_periods first.0 ps, true)
        else (rest >>= λ others. some (more_periods first.0 others.0, others.1))

-- `self.cache[timestamp]`; a time that is not there and None that is there look the same.
unfoldable pub find_from_cache : ℕ → Cache → Option ℕ
find_from_cache t [] = none
find_from_cache t ((key, value) ∷ cache) =
    let rest = find_from_cache t cache in if key == t then value else rest

-- `self.cache[timestamp] = value`
abbrev pub put_in_cache : ℕ → Option ℕ → Cache → Cache
put_in_cache t value cache = (t, value) ∷ cache

-- `clean_cache`: the entries that are not older than now.
unfoldable pub clean_cache : ℕ → Period → Period
clean_cache now (period ds exclude cache invalid) =
    period ds exclude (keep (λ entry. not (ltb entry.0 now)) cache)
      (keep (λ entry. not (ltb entry.0 now)) invalid)
