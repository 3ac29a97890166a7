-- ===== src/Item/Plans.antt =====
-- Items that are scheduled (alignak/objects/schedulingitem.py), and what the theorems say of them.
use alignak.Prelude.{ℕ, ◌≤◌, ◌≡◌, refl, true, false, none, some, arith}
use alignak.Item.Kinds.{host, hard}
use alignak.Item.Schedule.{Planned, units, schedule, launch_check_at}
use alignak.Item.Planning.{IsChecked, schedule_bounds}

-- A host that is checked every five minutes, next at 990.
abbrev every_five_minutes : Planned
every_five_minutes = record {
  my_type = host;
  state_type = hard;
  in_checking = false;
  active_checks_enabled = true;
  execute_checks = true;
  check_interval = units 5;
  retry_interval = 1;
  interval_length = 60;
  max_check_spread = 30;
  next_chk = some 990;
}

every_five_minutes-IsChecked : IsChecked every_five_minutes
every_five_minutes-IsChecked = record {
  is_free = refl;
  is_active = refl;
  is_executed = refl;
  has_interval = refl;
}

schedule_bounds_example :
    (t : ℕ) × (schedule none (λ n. n) (λ n. 0) 1000 false none every_five_minutes
      ≡ (launch_check_at t, record every_five_minutes { next_chk = some t }))
    × (1000 ≤ t)
    × (t ≤ 1300)
schedule_bounds_example =
    schedule_bounds (λ n. n) (λ n. 0) 1000 every_five_minutes (λ n. omega arith) (λ n. omega arith)
      every_five_minutes-IsChecked
