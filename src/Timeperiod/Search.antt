-- ===== src/Timeperiod/Search.antt =====
-- The next valid and the next invalid time of a time period (alignak/objects/timeperiod.py).
--
-- Loops have fuel for their turns. None is an exception, or fuel that ran out.
use alignak.Prelude.{
  ℕ, zero, suc, ◌+◌, ◌*◌, Bool, not, Option, none, some, List, [], ◌∷◌, ◌++◌, ◌>>=◌, ltb, leb,
  if◌then◌else◌,
}
use alignak.Daterange.Calendar.{Library}
use alignak.Daterange.Ranges.{Daterange}
use alignak.Daterange.Days.{get_next_valid_time_from_t, get_next_invalid_time_from_t}
use alignak.Timeperiod.Periods.{
  Period, Periods, period, no_period, more_periods, is_period_valid, find_from_cache, put_in_cache,
}
use alignak.Timeperiod.Merged.{Span, merge_periods}

-- `dr_mins`
unfoldable pub next_of_each :
    Library → ℕ → List Daterange → Option (List Daterange × List (Option ℕ))
next_of_each lib t [] = some ([], [])
next_of_each lib t (d ∷ ds) = do
  first ← get_next_valid_time_from_t lib t d
  rest ← next_of_each lib t ds
  some (first.0 ∷ rest.0, first.1 ∷ rest.1)

-- `sorted([d for d in dr_mins if d is not None])`
abbrev pub insert_time : ℕ → List ℕ → List ℕ
insert_time x [] = x ∷ []
insert_time x (y ∷ ys) = let rest = insert_time x ys in if leb x y then x ∷ y ∷ ys else y ∷ rest

abbrev pub sorted_times : List (Option ℕ) → List ℕ
sorted_times [] = []
sorted_times (none ∷ os) = sorted_times os
sorted_times (some x ∷ os) = insert_time x (sorted_times os)

abbrev pub or_time : Option ℕ → ℕ → Option ℕ
or_time none t = some t
or_time (some s) t = some s

-- The loop over the excludes for a time: every one of them is asked.
unfoldable pub pick_excluded : Library → ℕ → Option ℕ → Periods → Option (Periods × Option ℕ)
pick_excluded lib t01 found no_period = some (no_period, found)
pick_excluded lib t01 found (more_periods p ps) = do
  first ← is_period_valid lib t01 p
  rest ← pick_excluded lib t01 (if not first.1 then or_time found t01 else found) ps
  some (more_periods first.0 rest.0, rest.1)

-- The loop over the times: `found` is `local_min`, and nothing is found while `still_loop`.
unfoldable pub pick_time : Library → List ℕ → Option ℕ → Periods → Option (Periods × Option ℕ)
pick_time lib [] found exclude = some (exclude, found)
pick_time lib (t01 ∷ ts) found no_period = pick_time lib ts (or_time found t01) no_period
pick_time lib (t01 ∷ ts) found (more_periods p ps) = do
  first ← pick_excluded lib t01 found (more_periods p ps)
  pick_time lib ts first.1 first.0

-- The loop of `get_next_invalid_time_from_t` over the spans of a date range.
unfoldable pub spans_of : ℕ → Library → ℕ → ℕ → Daterange → Option (Daterange × List Span)
spans_of zero lib original_t t d = none
spans_of (suc n) lib original_t t d = do
  start ← get_next_valid_time_from_t lib t d
  elim start.1 [
    | none ↦ some (start.0, [])
    | some s ↦
        (get_next_invalid_time_from_t lib s start.0 >>= λ stop. stop.1 >>= λ e.
        (if ltb (original_t + 3600 * 24 * 365) e
          then some (stop.0, [])
          else spans_of n lib original_t e stop.0)
        >>= λ rest. some (rest.0, (s, e) ∷ rest.1))
  ]

unfoldable pub spans_of_each :
    ℕ → Library → ℕ → List Daterange → Option (List Daterange × List Span)
spans_of_each n lib t [] = some ([], [])
spans_of_each n lib t (d ∷ ds) = do
  first ← spans_of n lib t t d
  rest ← spans_of_each n lib t ds
  some (first.0 ∷ rest.0, first.1 ++ rest.1)

unfoldable pub spans_of_excludes : ℕ → Library → ℕ → Periods → Option (Periods × List Span)
spans_of_excludes n lib t no_period = some (no_period, [])
spans_of_excludes n lib t (more_periods (period ds exclude cache invalid) ps) = do
  first ← spans_of_each n lib t ds
  rest ← spans_of_excludes n lib t ps
  some (more_periods (period first.0 exclude cache invalid) rest.0, first.1 ++ rest.1)

-- The first end of the periods, or the start of the first exclude before it.
abbrev pub first_end : ℕ → List Span → List Span → ℕ
first_end t [] excluded = t
first_end t (s ∷ ss) [] = if ltb t s.0 then t else s.1
first_end t (s ∷ ss) (e ∷ es) = if ltb t s.0 then t else (if ltb e.0 s.1 then e.0 else s.1)

abbrev pub merged_excludes : List Span → Option (List Span)
merged_excludes [] = some []
merged_excludes (s ∷ ss) = merge_periods (s ∷ ss)

-- `get_next_invalid_time_from_t`: without any span, None is compared with the time, which raises.
unfoldable pub get_next_invalid_time : ℕ → Library → ℕ → Period → Option (Period × ℕ)
get_next_invalid_time n lib t (period ds exclude cache invalid) = do
  own ← spans_of_each n lib t ds
  periods ← merge_periods own.1
  others ← spans_of_excludes n lib t exclude
  periods_exclude ← merged_excludes others.1
  some (period own.0 others.0 cache invalid, first_end t periods periods_exclude)

-- `exc_mins`
unfoldable pub invalid_of_each : ℕ → Library → ℕ → Periods → Option (Periods × List (Option ℕ))
invalid_of_each n lib t no_period = some (no_period, [])
invalid_of_each n lib t (more_periods p ps) = do
  first ← get_next_invalid_time n lib t p
  rest ← invalid_of_each n lib t ps
  some (more_periods first.0 rest.0, some first.1 ∷ rest.1)

abbrev pub first_of : List ℕ → Option ℕ
first_of [] = none
first_of (t ∷ ts) = some t

-- Without a time, the first one at which an exclude ends is where the next turn starts.
unfoldable pub next_turn : ℕ → Library → List ℕ → Periods → Option (Periods × Option ℕ)
next_turn n lib [] exclude = some (exclude, none)
next_turn n lib (t ∷ ts) exclude = do
  exc_mins ← invalid_of_each n lib t exclude
  some (exc_mins.0, first_of (sorted_times exc_mins.1))

-- `No loop more than one year`
abbrev pub within_year : ℕ → ℕ → Bool
within_year original_t t = not (ltb (original_t + 3600 * 24 * 366 + 1) t)

-- The loop of `get_next_valid_time_from_t`, from the time of this turn.
unfoldable pub search_valid :
    ℕ → Library → ℕ → ℕ → List Daterange → Periods → Option (List Daterange × Periods × Option ℕ)
search_valid zero lib original_t t ds exclude = none
search_valid (suc n) lib original_t t ds exclude = do
  mins ← next_of_each lib t ds
  picked ← pick_time lib (sorted_times mins.1) none exclude
  elim picked.1 [
    | some found ↦
        some (mins.0, picked.0, if within_year original_t found then some found else none)
    | none ↦
        (next_turn n lib (sorted_times mins.1) picked.0 >>= λ next. elim next.1 [
          | none ↦ some (mins.0, next.0, none)
          | some later ↦
              if within_year original_t later
              then search_valid n lib original_t later mins.0 next.0
              else some (mins.0, next.0, none)
        ])
  ]

unfoldable pub get_next_valid_time : ℕ → Library → ℕ → Period → Option (Period × Option ℕ)
get_next_valid_time n lib t (period ds exclude cache invalid) =
    let searched = search_valid n lib t t ds exclude in
    elim (find_from_cache t cache) [
      | some cached ↦ some (period ds exclude cache invalid, some cached)
      | none ↦ (searched >>= λ r. some (period r.0 r.1 (put_in_cache t r.2 cache) invalid, r.2))
    ]
