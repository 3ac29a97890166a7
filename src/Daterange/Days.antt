-- ===== src/Daterange/Days.antt =====
-- The methods of `AbstractDaterange` (alignak/daterange.py).
--
-- A method may change the range that it is called on (see Bounds); none is an exception.
use alignak.Prelude.{
  ℕ, suc, ◌+◌, min, Bool, false, not, ◌&&◌, ◌||◌, Option, none, some, List, [], ◌∷◌, ltb, leb, ◌==◌,
  if◌then◌else◌,
}
use alignak.Daterange.Calendar.{Library, get_sec_from_morning, get_day}
use alignak.Daterange.Ranges.{
  Timerange, range_start, range_end, get_first_sec_out_from_morning, is_in_timerange, Daterange,
}
use alignak.Daterange.Bounds.{Bounds, get_start_and_end_time}

abbrev pub Method {ℓ} : Type ℓ → Type ℓ
Method A = Daterange → Option (Daterange × A)

infixl 20 ◌>>=◌
abbrev pub ◌>>=◌ {ℓ κ} : {A : Type ℓ} {B : Type κ} → Method A → (A → Method B) → Method B
(m >>= f) d = elim (m d) [ none ↦ none | some r ↦ f r.1 r.0 ]

abbrev pub give {ℓ} : {A : Type ℓ} → A → Method A
give a d = some (d, a)

-- `min(mins)`, which is none for no minutes.
abbrev pub least : List ℕ → Option ℕ
least [] = none
least (m ∷ ms) = let rest = least ms in elim rest [ none ↦ some m | some n ↦ some (min m n) ]

abbrev pub or_raise {ℓ} : {A : Type ℓ} → Option A → Method A
or_raise none d = none
or_raise (some a) d = some (d, a)

abbrev pub is_in_some : Library → ℕ → List Timerange → Bool
is_in_some lib timestamp [] = false
is_in_some lib timestamp (r ∷ rs) = is_in_timerange lib timestamp r || is_in_some lib timestamp rs

abbrev pub starts_of : List Timerange → List ℕ
starts_of [] = []
starts_of (r ∷ rs) = range_start r ∷ starts_of rs

abbrev pub outs_of : List Timerange → List ℕ
outs_of [] = []
outs_of (r ∷ rs) = get_first_sec_out_from_morning r ∷ outs_of rs

-- The starts from a second of the day on.
abbrev pub starts_from : ℕ → List Timerange → List ℕ
starts_from sec [] = []
starts_from sec (r ∷ rs) =
    let rest = starts_from sec rs in if leb sec (range_start r) then range_start r ∷ rest else rest

-- The ends from a second of the day on, without the last second of a full day.
abbrev pub ends_from : ℕ → List Timerange → List ℕ
ends_from sec [] = []
ends_from sec (r ∷ rs) =
    let rest = ends_from sec rs in
    if leb sec (range_end r)
    then (if range_end r == 86400 then 86399 else range_end r) ∷ rest
    else rest

module _ (lib : Library) where
  unfoldable pub is_time_day_valid : ℕ → Method Bool
  is_time_day_valid timestamp = do
    bounds ← get_start_and_end_time lib timestamp
    give (leb bounds.0 timestamp && leb timestamp bounds.1)

  unfoldable pub is_time_valid : ℕ → Method Bool
  is_time_valid timestamp = do
    day_valid ← is_time_day_valid timestamp
    λ d. some (d, day_valid && is_in_some lib timestamp d.timeranges)

  unfoldable pub get_min_sec_from_morning : Method ℕ
  get_min_sec_from_morning d = or_raise (least (starts_of d.timeranges)) d

  unfoldable pub get_min_sec_out_from_morning : Method ℕ
  get_min_sec_out_from_morning d = or_raise (least (outs_of d.timeranges)) d

  unfoldable pub get_min_from_t : ℕ → Method ℕ
  get_min_from_t timestamp = do
    valid ← is_time_valid timestamp
    if valid
        then give timestamp
        else (get_min_sec_from_morning >>= λ tr_mins. give (get_day lib timestamp + tr_mins))

  unfoldable pub get_next_future_timerange_valid : ℕ → Daterange → Option ℕ
  get_next_future_timerange_valid timestamp d =
      least (starts_from (get_sec_from_morning lib timestamp) d.timeranges)

  unfoldable pub get_next_future_timerange_invalid : ℕ → Daterange → Option ℕ
  get_next_future_timerange_invalid timestamp d =
      least (ends_from (get_sec_from_morning lib timestamp) d.timeranges)

  -- The time from whose day on the next valid day is looked for.
  abbrev pub valid_day_ref : ℕ → Option ℕ → ℕ
  valid_day_ref timestamp none = get_day lib timestamp + 86400
  valid_day_ref timestamp (some sec) = timestamp

  unfoldable pub get_next_valid_day : ℕ → Method (Option ℕ)
  get_next_valid_day timestamp d =
      (get_start_and_end_time lib
            (valid_day_ref timestamp (get_next_future_timerange_valid timestamp d))
          >>= λ bounds.
              if leb timestamp bounds.0
              then give (some (get_day lib bounds.0))
              else (is_time_day_valid timestamp >>= λ valid.
                  give (if valid then some (get_day lib timestamp) else none)))
        d

  -- The second of the day, if both the day and the second are there.
  abbrev pub on_day : Option ℕ → Option ℕ → Option ℕ
  on_day (some day) (some sec) = some (day + sec)
  on_day _ _ = none

  -- The search from the day after. A day that is not there is asked for by the time now, but what
  -- comes of it is not looked at.
  unfoldable pub next_day_valid : ℕ → Method (Option ℕ)
  next_day_valid timestamp = do
    t_day2 ← get_next_valid_day (get_day lib timestamp + 86400)
    λ d. some (
      d,
      elim t_day2 [
        | none ↦ none
        | some day ↦ on_day (some day) (get_next_future_timerange_valid day d)
      ],
    )

  unfoldable pub valid_from_day : ℕ → Option ℕ → Method (Option ℕ)
  valid_from_day timestamp none d = some (d, none)
  valid_from_day timestamp (some t_day) d =
      let from = if ltb timestamp t_day then t_day else timestamp in
      let later = next_day_valid timestamp d in
      elim (get_next_future_timerange_valid from d) [
        | none ↦ later
        | some sec ↦ some (d, some (t_day + sec))
      ]

  unfoldable pub get_next_valid_time_from_t : ℕ → Method (Option ℕ)
  get_next_valid_time_from_t timestamp = do
    valid ← is_time_valid timestamp
    if valid
        then give (some timestamp)
        else (get_next_valid_day timestamp >>= λ t_day. valid_from_day timestamp t_day)

  abbrev pub invalid_day : ℕ → Option ℕ → Bounds → Option ℕ
  invalid_day timestamp none (start_time, end_time) = some (get_day lib (suc end_time))
  invalid_day timestamp (some sec) (start_time, end_time) =
      if leb start_time timestamp && leb timestamp end_time
      then some (get_day lib timestamp)
      else (if leb timestamp start_time then some (get_day lib start_time) else none)

  abbrev pub invalid_day_ref : ℕ → Option ℕ → ℕ
  invalid_day_ref timestamp none = get_day lib timestamp
  invalid_day_ref timestamp (some sec) = timestamp

  unfoldable pub get_next_invalid_day : ℕ → Method (Option ℕ)
  get_next_invalid_day timestamp = do
    valid ← is_time_day_valid timestamp
    if not valid then give (some timestamp) else λ d.
        (let next_invalid = get_next_future_timerange_invalid timestamp d in
          (get_start_and_end_time lib (invalid_day_ref timestamp next_invalid) >>= λ bounds.
          give (invalid_day timestamp next_invalid bounds))
            d)

  -- The comparison with a day that is not there raises.
  unfoldable pub get_next_invalid_time_from_t : ℕ → Method (Option ℕ)
  get_next_invalid_time_from_t timestamp = do
    valid ← is_time_valid timestamp
    if not valid
        then give (some timestamp)
        else (get_next_invalid_day timestamp >>= λ found. or_raise found >>= λ t_day. λ d.
            (let from = if ltb timestamp t_day then t_day else timestamp in
              some (
                d,
                elim (get_next_future_timerange_invalid from d) [
                  | none ↦ some t_day
                  | some sec ↦ some (t_day + sec + 1)
                ],
              )))
