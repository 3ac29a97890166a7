-- ===== src/Daterange/Fixed.antt =====
-- A date range with fixed bounds in a zone whose days all have 86400 seconds
-- (alignak/daterange.py): what its methods come to.
use alignak.Prelude.{
  ◌%◌, ◌/◌, ◌*◌, suc, zero, ℕ, ◌+◌, ◌-◌, ◌≤◌, ◌<◌, ◌≡◌, refl, ap, subst, ◌∙◌, Bool, true, false,
  ◌&&◌, Option, none, some, ltb, leb, if◌then◌else◌, arith, Bool-cases, inl, inr,
}
use alignak.Daterange.Calendar.{Library, get_sec_from_morning, get_day}
use alignak.Daterange.Ranges.{Daterange}
use alignak.Daterange.Bounds.{Bounds, get_start_and_end_time}
use alignak.Daterange.Days.{
  Method, ◌>>=◌, give, least, is_in_some, starts_from, is_time_day_valid, is_time_valid,
  get_next_future_timerange_valid, get_next_valid_day, valid_day_ref, on_day, next_day_valid,
  valid_from_day, get_next_valid_time_from_t,
}

-- A step that returns goes on with what it returned.
pub some_step {ℓ κ} :
    {A : Type ℓ} {B : Type κ} (m : Method A) (f : A → Method B) (d d' : Daterange) (a : A)
    → m d ≡ some (d', a)
    → (m >>= f) d ≡ f a d'
some_step m f d d' a e = ap (λ o. elim o [ none ↦ none | some r ↦ f r.1 r.0 ]) e

-- Days of 86400 seconds, as far as they start at time 0 or later.
pub record IsUniform (lib : Library) : Type 0 where
  pub within : (t : ℕ) → get_sec_from_morning lib t < 86400
  pub along :
      (t sec : ℕ)
      → get_sec_from_morning lib t ≤ t
      → sec < 86400
      → get_sec_from_morning lib (get_day lib t + sec) ≡ sec
  pub next :
      (t : ℕ)
      → get_sec_from_morning lib t ≤ t
      → get_sec_from_morning lib (get_day lib t + 86400) ≡ 0

-- The range has these bounds, from the first second of a day to the last of one.
pub record IsFixed (lib : Library) (d : Daterange) (bounds : Bounds) : Type 0 where
  pub fixed : (ref : ℕ) → get_start_and_end_time lib ref d ≡ some (d, bounds)
  pub in_order : bounds.0 ≤ bounds.1
  pub first_second : get_sec_from_morning lib bounds.0 ≡ 0
  pub last_second : get_sec_from_morning lib bounds.1 ≡ 86399

-- Whether a time is valid in the range.
abbrev pub valid_at : Library → Daterange → Bounds → ℕ → Bool
valid_at lib d bounds t = leb bounds.0 t && leb t bounds.1 && is_in_some lib t d.timeranges

module _ (lib : Library) (u : IsUniform lib) where
  -- The same day.
  pub same_day :
      (t x : ℕ)
      → get_sec_from_morning lib t ≤ t
      → get_day lib t ≤ x
      → x < get_day lib t + 86400
      → x ≡ get_day lib t + get_sec_from_morning lib x
  same_day t x late l h =
      let k = u.along t (x - get_day lib t) late (omega arith) in
      let same : get_day lib t + (x - get_day lib t) ≡ x = omega arith in
      let k' : get_sec_from_morning lib x ≡ x - get_day lib t =
        subst (λ y. get_sec_from_morning lib y ≡ x - get_day lib t) same k in
      omega arith

  pub day_of :
      (t : ℕ) → get_sec_from_morning lib t ≤ t → t ≡ get_day lib t + get_sec_from_morning lib t
  day_of t late = omega arith

  -- A second that ends its day is not before another time within that day.
  pub end_after :
      (t e : ℕ)
      → get_sec_from_morning lib t ≤ t
      → get_sec_from_morning lib e ≡ 86399
      → t ≤ e
      → get_day lib t + 86399 ≤ e
  end_after t e late z l = elim (Bool-cases (ltb e (get_day lib t + 86400))) [
    | inl s ↦ let k = same_day t e late (omega (arith, day_of t late)) (ground arith) in omega arith
    | inr n ↦ ground arith
  ]

  -- From a midnight on, every day starts at time 0 or later.
  midnights :
      (t n : ℕ) → get_sec_from_morning lib t ≡ 0 → get_sec_from_morning lib (t + n * 86400) ≡ 0
  midnights t zero z = subst (λ x. get_sec_from_morning lib x ≡ 0) (omega arith) z
  midnights t (suc n) z =
      let k = midnights t n z in
      subst (λ x. get_sec_from_morning lib x ≡ 0) (omega (arith, k))
        (u.next (t + n * 86400) (omega (arith, k)))

  pub late_after :
      (midnight t : ℕ)
      → get_sec_from_morning lib midnight ≡ 0
      → midnight ≤ t
      → get_sec_from_morning lib t ≤ t
  late_after midnight t z l =
      let days = (t - midnight) / 86400 in
      let sec = (t - midnight) % 86400 in
      let day = midnight + days * 86400 in
      let k = midnights midnight days z in
      let same : get_day lib day + sec ≡ t = omega (arith, k) in
      let found : get_sec_from_morning lib t ≡ sec =
        subst (λ x. get_sec_from_morning lib x ≡ sec) same
          (u.along day sec (omega (arith, k)) (omega arith)) in
      omega (arith, found)

module _ (lib : Library) (d : Daterange) (bounds : Bounds) (f : IsFixed lib d bounds) where
  day_valid : (t : ℕ) → is_time_day_valid lib t d ≡ some (d, leb bounds.0 t && leb t bounds.1)
  unfolding is_time_day_valid
  day_valid t =
      some_step (get_start_and_end_time lib t) (λ b. give (leb b.0 t && leb t b.1)) d d bounds
        (f.fixed t)

  pub time_valid : (t : ℕ) → is_time_valid lib t d ≡ some (d, valid_at lib d bounds t)
  unfolding is_time_valid
  time_valid t =
      some_step (is_time_day_valid lib t) (λ v e. some (e, v && is_in_some lib t e.timeranges)) d d
        (leb bounds.0 t && leb t bounds.1) (day_valid t)

  abbrev pub next_day_of : ℕ → Option ℕ
  next_day_of t =
      if leb t bounds.0
      then some (get_day lib bounds.0)
      else (if leb bounds.0 t && leb t bounds.1 then some (get_day lib t) else none)

  next_valid_day : (t : ℕ) → get_next_valid_day lib t d ≡ some (d, next_day_of t)
  unfolding get_next_valid_day
  next_valid_day t =
      some_step
        (get_start_and_end_time lib (valid_day_ref lib t (get_next_future_timerange_valid lib t d)))
        (λ b.
          if leb t b.0
          then give (some (get_day lib b.0))
          else (is_time_day_valid lib t >>= λ valid.
              give (if valid then some (get_day lib t) else none)))
        d d bounds (f.fixed (valid_day_ref lib t (get_next_future_timerange_valid lib t d)))
      ∙ by_start (leb t bounds.0)
    where
      by_start :
          (b : Bool)
          → (if b
                then give (some (get_day lib bounds.0))
                else (is_time_day_valid lib t >>= λ valid.
                    give (if valid then some (get_day lib t) else none)))
              d
            ≡ some (
              d,
              if b
                  then some (get_day lib bounds.0)
                  else (if leb bounds.0 t && leb t bounds.1 then some (get_day lib t) else none),
            )
      by_start true = refl
      by_start false =
          some_step (is_time_day_valid lib t)
            (λ valid. give (if valid then some (get_day lib t) else none)) d d
            (leb bounds.0 t && leb t bounds.1) (day_valid t)

  abbrev pub first_on : ℕ → Option ℕ
  first_on t = least (starts_from (get_sec_from_morning lib t) d.timeranges)

  abbrev pub next_day_time : ℕ → Option ℕ
  next_day_time t = elim (next_day_of (get_day lib t + 86400)) [
    | none ↦ none
    | some day ↦ on_day lib (some day) (first_on day)
  ]

  abbrev pub time_from_day : ℕ → Option ℕ → Option ℕ
  time_from_day t none = none
  time_from_day t (some t_day) = elim (first_on (if ltb t t_day then t_day else t)) [
    | none ↦ next_day_time t
    | some sec ↦ some (t_day + sec)
  ]

  next_day : (t : ℕ) → next_day_valid lib t d ≡ some (d, next_day_time t)
  unfolding next_day_valid get_next_future_timerange_valid
  next_day t =
      some_step (get_next_valid_day lib (get_day lib t + 86400))
        (λ o e. some (
          e,
          elim o [
            | none ↦ none
            | some day ↦ on_day lib (some day) (get_next_future_timerange_valid lib day e)
          ],
        ))
        d d (next_day_of (get_day lib t + 86400)) (next_valid_day (get_day lib t + 86400))

  from_day : (t : ℕ) (o : Option ℕ) → valid_from_day lib t o d ≡ some (d, time_from_day t o)
  unfolding valid_from_day get_next_future_timerange_valid
  from_day t none = refl
  from_day t (some t_day) = elim_first (first_on (if ltb t t_day then t_day else t))
    where
      elim_first :
          (o : Option ℕ)
          → elim o [ none ↦ next_day_valid lib t d | some sec ↦ some (d, some (t_day + sec)) ]
            ≡ some (d, elim o [ none ↦ next_day_time t | some sec ↦ some (t_day + sec) ])
      elim_first none = next_day t
      elim_first (some sec) = refl

  -- What `get_next_valid_time_from_t` comes to.
  abbrev pub next_time : ℕ → Option ℕ
  next_time t = if valid_at lib d bounds t then some t else time_from_day t (next_day_of t)

  pub get_next_valid_time_from_t-next_time :
      (t : ℕ) → get_next_valid_time_from_t lib t d ≡ some (d, next_time t)
  unfolding get_next_valid_time_from_t
  get_next_valid_time_from_t-next_time t =
      some_step (is_time_valid lib t)
        (λ valid.
          if valid
          then give (some t)
          else (get_next_valid_day lib t >>= λ t_day. valid_from_day lib t t_day))
        d d (valid_at lib d bounds t) (time_valid t)
      ∙ by_valid (valid_at lib d bounds t)
    where
      by_valid :
          (b : Bool)
          → (if b
                then give (some t)
                else (get_next_valid_day lib t >>= λ t_day. valid_from_day lib t t_day))
              d
            ≡ some (d, if b then some t else time_from_day t (next_day_of t))
      by_valid true = refl
      by_valid false =
          some_step (get_next_valid_day lib t) (λ t_day. valid_from_day lib t t_day) d d
            (next_day_of t) (next_valid_day t)
          ∙ from_day t (next_day_of t)
