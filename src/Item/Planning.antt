-- ===== src/Item/Planning.antt =====
-- What `schedule` of alignak/objects/schedulingitem.py promises.
use alignak.Prelude.{
  ℕ, ◌+◌, ◌*◌, ◌≤◌, ◌≡◌, refl, ◌∙◌, max, min, true, false, Option, none, some, arith, leb, ltb,
  if◌then◌else◌,
}
use alignak.Item.Types.{Timeperiod}
use alignak.Item.Schedule.{
  Planned, is_zero, launch_check_at, type_error, interval, spread_interval, time_add, last_planned,
  first_try, second_try, with_next, plan, schedule,
}

-- The item may be checked, and has an interval.
pub record IsChecked (p : Planned) : Type 0 where
  pub is_free : p.in_checking ≡ false
  pub is_active : p.active_checks_enabled ≡ true
  pub is_executed : p.execute_checks ≡ true
  pub has_interval : is_zero p.check_interval ≡ false

min_le : (a b : ℕ) → min a b ≤ a
min_le a b = omega arith

spread_interval_le : (p : Planned) → spread_interval p ≤ interval p
spread_interval_le p = min_le (interval p) (p.max_check_spread * p.interval_length)

time_add_le :
    (uniform : ℕ → ℕ) (p : Planned) → ((n : ℕ) → uniform n ≤ n) → time_add uniform p ≤ interval p
time_add_le uniform p h =
    let u = h (spread_interval p) in let s = spread_interval_le p in ground arith

-- The time that comes out without a check period.
abbrev first_time : (ℕ → ℕ) → ℕ → Planned → ℕ
first_time uniform now p =
    let last = last_planned now p.next_chk in
    if leb last now then last + time_add uniform p else last

abbrev second_time : (ℕ → ℕ) → ℕ → Planned → ℕ → ℕ
second_time uniform now p t = if ltb t now then now + uniform (spread_interval p) else t

second_time_bounds :
    (u u' : ℕ → ℕ) (now : ℕ) (p : Planned)
    → ((n : ℕ) → u n ≤ n)
    → ((n : ℕ) → u' n ≤ n)
    → let t = second_time u' now p (first_time u now p) in
      (now ≤ t) × (t ≤ max now (last_planned now p.next_chk) + interval p)
second_time_bounds u u' now p h h' =
    let a = time_add_le u p h in
    let b = h' (spread_interval p) in
    let c = spread_interval_le p in
    bounds (last_planned now p.next_chk) (time_add u p) (interval p) (spread_interval p)
      (u' (spread_interval p)) a b c
  where
    bounds :
        (last add i s v : ℕ)
        → add ≤ i
        → v ≤ s
        → s ≤ i
        → let f = if leb last now then last + add else last in
          let t = if ltb f now then now + v else f in (now ≤ t) × (t ≤ max now last + i)
    bounds last add i s v a b c = ground arith

schedule-plan :
    (period : Option Timeperiod) (u u' : ℕ → ℕ) (now : ℕ) (p : Planned)
    → IsChecked p
    → schedule period u u' now false none p ≡ plan period u u' now none p
unfolding schedule
schedule-plan period u u' now p h =
    let a = h.is_free in
    let b = h.is_active in let c = h.is_executed in let d = h.has_interval in ground arith

plan_time :
    (u u' : ℕ → ℕ) (now : ℕ) (p : Planned)
    → let t = second_time u' now p (first_time u now p) in
      plan none u u' now none p ≡ (launch_check_at t, record p { next_chk = some t })
plan_time u u' now p = ground arith

-- An item that may be checked, with an interval and without a check period, is planned for a time
-- that is not past, and at most its interval after now or after the time that was planned before.
pub schedule_bounds :
    (u u' : ℕ → ℕ) (now : ℕ) (p : Planned)
    → ((n : ℕ) → u n ≤ n)
    → ((n : ℕ) → u' n ≤ n)
    → IsChecked p
    → (t : ℕ) × (schedule none u u' now false none p
        ≡ (launch_check_at t, record p { next_chk = some t }))
      × (now ≤ t)
      × (t ≤ max now (last_planned now p.next_chk) + interval p)
schedule_bounds u u' now p h h' c =
    let b = second_time_bounds u u' now p h h' in
    (
      second_time u' now p (first_time u now p),
      schedule-plan none u u' now p c ∙ plan_time u u' now p,
      b.0,
      b.1,
    )

-- An item that may be checked, with an interval, whose time has come and whose check period has no
-- valid time any more, ends in a TypeError, and its next time is lost.
schedule-type_error :
    (period : Timeperiod) (u u' : ℕ → ℕ) (now : ℕ) (p : Planned)
    → IsChecked p
    → last_planned now p.next_chk ≤ now
    → ((t : ℕ) → period.get_next_valid_time_from_t t ≡ none)
    → schedule (some period) u u' now false none p ≡ (type_error, record p { next_chk = none })
schedule-type_error period u u' now p c d n =
    schedule-plan (some period) u u' now p c
    ∙ expired (first_try (some period) u now p)
        (let e = n (last_planned now p.next_chk + time_add u p) in ground arith)
  where
    expired :
        (o : Option ℕ)
        → o ≡ none
        → with_next p (second_try (some period) u' now p o)
          ≡ (type_error, record p { next_chk = none })
    expired o e = rw e refl
