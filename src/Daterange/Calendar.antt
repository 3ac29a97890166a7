-- ===== src/Daterange/Calendar.antt =====
-- Days and times: the functions of alignak/daterange.py.
--
-- The libraries `time`, `calendar` and `datetime` are a parameter. Times are whole seconds; none is
-- an exception.
use alignak.Prelude.{
  ℕ, zero, suc, ◌+◌, ◌-◌, ◌*◌, min, max, Option, none, some, List, [], ◌∷◌, ◌++◌, ◌>>=◌, ◌==◌,
  if◌then◌else◌, ℤ, pos, negsuc,
}

-- `time.struct_time`
pub record Tm : Type 0 where
  pub tm_year : ℕ
  pub tm_mon : ℕ
  pub tm_mday : ℕ
  pub tm_hour : ℕ
  pub tm_min : ℕ
  pub tm_sec : ℕ
  pub tm_wday : ℕ

-- `later` adds days to a local time, as `timedelta` does.
pub record Library : Type 0 where
  pub localtime : ℕ → Tm
  pub mktime : ℕ → ℕ → ℤ → ℕ → ℕ → ℕ → ℕ
  pub monthcalendar : ℕ → ℕ → List (List ℕ)
  pub days_in_month : ℕ → ℕ → ℕ
  pub later : ℕ → ℕ → ℕ

abbrev pub get_start_of_day : Library → ℕ → ℕ → ℤ → ℕ
get_start_of_day lib year month day = lib.mktime year month day 0 0 0

abbrev pub get_end_of_day : Library → ℕ → ℕ → ℤ → ℕ
get_end_of_day lib year month day = lib.mktime year month day 23 59 59

abbrev pub get_sec_from_morning : Library → ℕ → ℕ
get_sec_from_morning lib timestamp =
    let t_lt = lib.localtime timestamp in t_lt.tm_hour * 3600 + t_lt.tm_min * 60 + t_lt.tm_sec

-- Of a time that is before the first midnight from time 0 on, the source gives a negative number,
-- and this gives 0.
abbrev pub get_day : Library → ℕ → ℕ
get_day lib timestamp = timestamp - get_sec_from_morning lib timestamp

abbrev pub get_wday : Library → ℕ → ℕ
get_wday lib timestamp = (lib.localtime timestamp).tm_wday

abbrev pub get_elem? {ℓ} : {A : Type ℓ} → List A → ℕ → Option A
get_elem? [] n = none
get_elem? (x ∷ xs) zero = some x
get_elem? (x ∷ xs) (suc n) = get_elem? xs n

abbrev pub reverse {ℓ} : {A : Type ℓ} → List A → List A
reverse [] = []
reverse (x ∷ xs) = reverse xs ++ (x ∷ [])

-- The loop over the weeks of a month, 0 for a day of another month. None is an IndexError, or the
-- None that the source returns, which `mktime` refuses.
unfoldable pub search_weeks : ℕ → ℕ → ℕ → ℕ → List (List ℕ) → Option ℕ
search_weeks weekday offset nb_found zero weeks = none
search_weeks weekday offset nb_found (suc turns) [] = none
search_weeks weekday offset nb_found (suc turns) (week ∷ weeks) = do
  day ← get_elem? week weekday
  let found = if day == 0 then nb_found else suc nb_found in
      let rest = search_weeks weekday offset found turns weeks in
      if found == offset then some day else rest

unfoldable pub find_day_by_weekday_offset : Library → ℕ → ℕ → ℕ → ℤ → Option ℕ
find_day_by_weekday_offset lib year month weekday (pos offset) =
    search_weeks weekday offset 0 (suc offset) (lib.monthcalendar year month)
find_day_by_weekday_offset lib year month weekday (negsuc n) =
    search_weeks weekday (suc n) 0 (suc (suc n)) (reverse (lib.monthcalendar year month))

unfoldable pub find_day_by_offset : Library → ℕ → ℕ → ℤ → ℕ
find_day_by_offset lib year month (pos offset) = min offset (lib.days_in_month year month)
find_day_by_offset lib year month (negsuc n) = max 1 (lib.days_in_month year month - n)
