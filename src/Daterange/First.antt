-- ===== src/Daterange/First.antt =====
-- `get_next_valid_time_from_t` of a date range with fixed bounds (alignak/daterange.py) finds the
-- first valid time.
use alignak.Prelude.{
  ℕ, le_leb, leb_le, not_leb, lt_leb, ◌+◌, ◌≤◌, ◌<◌, ◌≡◌, ◌⊎◌, refl, sym, ap, subst, ◌∙◌, Bool,
  true, false, ◌&&◌, Option, none, some, some_inj, List, ◌∷◌, ltb, leb, if◌then◌else◌, arith,
  Bool-cases, Option-cases, inl, inr,
}
use alignak.Daterange.Calendar.{Library, get_sec_from_morning, get_day}
use alignak.Daterange.Ranges.{Timerange, Daterange}
use alignak.Daterange.Bounds.{Bounds}
use alignak.Daterange.Days.{least, is_in_some, starts_from, on_day}
use alignak.Daterange.Starts.{
  some_holds, is_in_some-some_holds, AreOrdered, least-StartsAt, start_before, first_start,
}
use alignak.Daterange.Fixed.{
  IsUniform, IsFixed, valid_at, same_day, day_of, end_after, late_after, next_day_of, first_on,
  next_day_time, time_from_day, next_time,
}

-- The first valid time from `t` on; none if there is none.
abbrev pub FirstValid : (ℕ → Bool) → ℕ → Option ℕ → Type 0
FirstValid valid t none = (x : ℕ) → t ≤ x → valid x ≡ false
FirstValid valid t (some r) =
    (t ≤ r) × (valid r ≡ true) × ((x : ℕ) → t ≤ x → x < r → valid x ≡ false)

FirstValid-later :
    (valid : ℕ → Bool) (t n : ℕ) (o : Option ℕ)
    → t ≤ n
    → ((x : ℕ) → t ≤ x → x < n → valid x ≡ false)
    → FirstValid valid n o
    → FirstValid valid t o
FirstValid-later valid t n none l h k =
    λ x a. elim (Bool-cases (ltb x n)) [ inl s ↦ h x a (ground arith) | inr m ↦ k x (ground arith) ]
FirstValid-later valid t n (some r) l h (a, b, c) = (
  omega arith,
  b,
  λ x i j. elim (Bool-cases (ltb x n)) [
    | inl s ↦ h x i (ground arith)
    | inr m ↦ c x (ground arith) j
  ],
)

pick : (t n s : ℕ) → n ≡ s → t ≤ s → (if ltb t n then n else t) ≡ s
pick t n s e l = ground arith

stay : (t n : ℕ) → n ≤ t → (if ltb t n then n else t) ≡ t
stay t n l = ground arith

not_last : (a b c : Bool) → (a && b && c) ≡ false → a ≡ true → b ≡ true → c ≡ false
not_last a b c p q r = ground arith

absent : (m : ℕ) → ¬ (none ≡ some m)
absent m e = cc

all_three : (a b c : Bool) → a ≡ true → b ≡ true → c ≡ true → (a && b && c) ≡ true
all_three a b c p q r = ground arith

last_of_three : (a b c : Bool) → (a && b && c) ≡ true → c ≡ true
last_of_three a b c p = ground arith

module _ (lib : Library) (u : IsUniform lib) (d : Daterange) (bounds : Bounds)
    (f : IsFixed lib d bounds) (o : AreOrdered d.timeranges) (r : Timerange) (rs : List Timerange)
    (g : d.timeranges ≡ r ∷ rs) where
  abbrev valid : ℕ → Bool
  valid = valid_at lib d bounds

  abbrev sec : ℕ → ℕ
  sec = get_sec_from_morning lib

  abbrev Free : ℕ → Type 0
  Free t = (some_holds (sec t) d.timeranges ≡ false) ⊎ (sec t ≡ 0)

  abbrev first : ℕ → Option ℕ
  first = first_on lib d bounds f

  held : (x : ℕ) → valid x ≡ true → some_holds (sec x) d.timeranges ≡ true
  held x e =
      sym (is_in_some-some_holds lib x d.timeranges)
      ∙ last_of_three (leb bounds.0 x) (leb x bounds.1) (is_in_some lib x d.timeranges) e

  midnight_first : (x : ℕ) → sec x ≡ 0 → (m : ℕ) × (first x ≡ some m)
  midnight_first x z =
      let (m, e) = first_start r rs in
      (m, ap (λ n. least (starts_from n d.timeranges)) z ∙ ap (λ l. least (starts_from 0 l)) g ∙ e)

  -- No time of the day is valid that comes before the first start.
  not_before :
      (t x : ℕ)
      → sec t ≤ t
      → Free t
      → t ≤ x
      → x < get_day lib t + 86400
      → ((m : ℕ) → first t ≡ some m → x < get_day lib t + m)
      → valid x ≡ false
  not_before t x late free l h early = elim (Bool-cases (valid x)) [
    | inr n ↦ n
    | inl s ↦
        let same = same_day lib u t x late (omega (arith, day_of lib u t late)) h in
        let (m, e, k) =
          start_before (sec t) (sec x) d.timeranges (omega (arith, day_of lib u t late)) free
            (held x s) in
        absurd (omega (arith, early m e, same))
  ]

  from_time :
      (t m : ℕ)
      → sec t ≤ t
      → bounds.0 ≤ t
      → t ≤ bounds.1
      → Free t
      → first t ≡ some m
      → FirstValid valid t (some (get_day lib t + m))
  from_time t m late a b free e =
      let (c, h, k) = least-StartsAt (sec t) m d.timeranges o e in
      let at = u.along t m late h in
      let in_time : t ≤ get_day lib t + m = omega (arith, day_of lib u t late) in
      (
        in_time,
        all_three (leb bounds.0 (get_day lib t + m)) (leb (get_day lib t + m) bounds.1)
            (is_in_some lib (get_day lib t + m) d.timeranges)
            (le_leb bounds.0 (get_day lib t + m) (omega (arith, a, in_time)))
            (le_leb (get_day lib t + m) bounds.1
              (omega (arith, h, end_after lib u t bounds.1 late f.last_second b)))
            (is_in_some-some_holds lib (get_day lib t + m) d.timeranges
              ∙ ap (λ n. some_holds n d.timeranges) at
              ∙ k),
        λ x i j.
            not_before t x late free i (omega arith)
              (λ n q. let same = some_inj m n (sym e ∙ q) in omega arith),
      )

  -- The day of a midnight.
  midnight_day : (x : ℕ) → sec x ≡ 0 → get_day lib x ≡ x
  midnight_day x z = omega (arith, z)

  outside : (x : ℕ) → ((x < bounds.0) ⊎ (bounds.1 < x)) → valid x ≡ false
  outside x (inl l) = ground arith
  outside x (inr l) = ground arith

  day_time :
      (t t_day from m : ℕ)
      → (if ltb t t_day then t_day else t) ≡ from
      → first from ≡ some m
      → time_from_day lib d bounds f t (some t_day) ≡ some (t_day + m)
  day_time t t_day from m e h =
      ap (λ x. elim (first x) [ none ↦ next_day_time lib d bounds f t | some n ↦ some (t_day + n) ])
        e
      ∙ ap (λ q. elim q [ none ↦ next_day_time lib d bounds f t | some n ↦ some (t_day + n) ]) h

  no_day_time :
      (t t_day from : ℕ)
      → (if ltb t t_day then t_day else t) ≡ from
      → first from ≡ none
      → time_from_day lib d bounds f t (some t_day) ≡ next_day_time lib d bounds f t
  no_day_time t t_day from e h =
      ap (λ x. elim (first x) [ none ↦ next_day_time lib d bounds f t | some n ↦ some (t_day + n) ])
        e
      ∙ ap (λ q. elim q [ none ↦ next_day_time lib d bounds f t | some n ↦ some (t_day + n) ]) h

  -- A time that is not after the start.
  before_start :
      (t : ℕ)
      → t ≤ bounds.0
      → FirstValid valid t (time_from_day lib d bounds f t (next_day_of lib d bounds f t))
  before_start t l =
      let at = midnight_day bounds.0 f.first_second in
      let (m, e) = midnight_first bounds.0 f.first_second in
      let found =
        from_time bounds.0 m (omega (arith, f.first_second)) (omega arith) f.in_order
          (inr f.first_second) e in
      let day_is : next_day_of lib d bounds f t ≡ some (get_day lib bounds.0) =
        ap
          (λ b.
            if b
            then some (get_day lib bounds.0)
            else (if leb bounds.0 t && leb t bounds.1 then some (get_day lib t) else none))
          (le_leb t bounds.0 l) in
      let result =
        ap (time_from_day lib d bounds f t) day_is
        ∙ day_time t (get_day lib bounds.0) bounds.0 m (pick t (get_day lib bounds.0) bounds.0 at l)
            e in
      subst (FirstValid valid t) (sym result) (
        FirstValid-later valid t bounds.0 (some (get_day lib bounds.0 + m)) l
          (λ x i j. outside x (inl j)) found)

  day_if :
      (x : ℕ)
      → bounds.0 < x
      → next_day_of lib d bounds f x ≡ (if leb x bounds.1 then some (get_day lib x) else none)
  day_if x l = rw (lt_leb bounds.0 x l, le_leb bounds.0 x (omega (arith, l))) refl

  abbrev time_on : Option ℕ → Option ℕ
  time_on q = elim q [ none ↦ none | some day ↦ on_day lib (some day) (first day) ]

  time_on_day :
      (n m : ℕ)
      → get_day lib n ≡ n
      → first n ≡ some m
      → time_on (some (get_day lib n)) ≡ some (get_day lib n + m)
  time_on_day n m at e = ap (on_day lib (some (get_day lib n))) (ap first at ∙ e)

  -- The search from the day after, with nothing left today.
  day_after :
      (t : ℕ)
      → sec t ≤ t
      → bounds.0 ≤ t
      → ((x : ℕ) → t ≤ x → x < get_day lib t + 86400 → valid x ≡ false)
      → FirstValid valid t (next_day_time lib d bounds f t)
  day_after t late l gone =
      let midnight = get_day lib t + 86400 in
      let past : t < midnight = omega (arith, day_of lib u t late, u.within t) in
      let at = midnight_day midnight (u.next t late) in
      FirstValid-later valid t midnight (next_day_time lib d bounds f t) (omega arith) gone
        (elim (Bool-cases (leb midnight bounds.1)) [
          | inl s ↦
              let (m, e) = midnight_first midnight (u.next t late) in
              let result =
                ap time_on (
                  day_if midnight (omega (arith, past, l))
                  ∙ ap (λ b. if b then some (get_day lib midnight) else none) s)
                ∙ time_on_day midnight m at e in
              subst (FirstValid valid midnight) (sym result) (
                from_time midnight m (omega (arith, u.next t late)) (omega (arith, past, l))
                  (leb_le midnight bounds.1 s) (inr (u.next t late)) e)
          | inr n ↦
              let result = ap time_on (
                day_if midnight (omega (arith, past, l))
                ∙ ap (λ b. if b then some (get_day lib midnight) else none) n) in
              subst (FirstValid valid midnight) (sym result)
                (λ x i. outside x (inr (omega (arith, i, not_leb midnight bounds.1 n))))
        ])

  -- A time after the start that is not valid.
  after_start :
      (t : ℕ)
      → bounds.0 < t
      → valid t ≡ false
      → FirstValid valid t (time_from_day lib d bounds f t (next_day_of lib d bounds f t))
  after_start t l n =
      let late = late_after lib u bounds.0 t f.first_second (omega (arith, l)) in
      elim (Bool-cases (leb t bounds.1)) [
        | inr over ↦
            let result =
              ap (time_from_day lib d bounds f t)
                (day_if t l ∙ ap (λ b. if b then some (get_day lib t) else none) over) in
            subst (FirstValid valid t) (sym result)
              (λ x i. outside x (inr (omega (arith, i, not_leb t bounds.1 over))))
        | inl s ↦
            let day_is =
              ap (time_from_day lib d bounds f t)
                (day_if t l ∙ ap (λ b. if b then some (get_day lib t) else none) s) in
            let from = stay t (get_day lib t) (omega (arith, day_of lib u t late)) in
            let unheld : some_holds (sec t) d.timeranges ≡ false =
              sym (is_in_some-some_holds lib t d.timeranges)
              ∙ not_last (leb bounds.0 t) (leb t bounds.1) (is_in_some lib t d.timeranges) n
                  (le_leb bounds.0 t (omega (arith, l))) s in
            let free : Free t = inl unheld in
            elim (Option-cases (first t)) [
              | inl none_left ↦
                  subst (FirstValid valid t)
                    (sym (day_is ∙ no_day_time t (get_day lib t) t from none_left))
                    (day_after t late (omega (arith, l)) (λ x i j.
                      not_before t x late free i j (λ m e. absurd (absent m (sym none_left ∙ e)))))
              | inr (m, e) ↦
                  subst (FirstValid valid t) (sym (day_is ∙ day_time t (get_day lib t) t m from e))
                    (from_time t m late (omega (arith, l)) (leb_le t bounds.1 s) free e)
            ]
      ]

  pub next_time-FirstValid : (t : ℕ) → FirstValid valid t (next_time lib d bounds f t)
  next_time-FirstValid t = elim (Bool-cases (valid t)) [
    | inl s ↦
        subst (FirstValid valid t)
          (sym (
            ap
              (λ b.
                if b then some t else time_from_day lib d bounds f t (next_day_of lib d bounds f t))
              s))
          (omega arith, s, λ x i j. absurd (omega (arith, i, j)))
    | inr n ↦
        subst (FirstValid valid t)
          (sym (
            ap
              (λ b.
                if b then some t else time_from_day lib d bounds f t (next_day_of lib d bounds f t))
              n))
          (elim (Bool-cases (leb t bounds.0)) [
            | inl s ↦ before_start t (leb_le t bounds.0 s)
            | inr m ↦ after_start t (not_leb t bounds.0 m) n
          ])
  ]
