-- ===== src/Escalation/Examples.antt =====
-- Escalations of a notification (alignak/objects/escalation.py), and what the theorems say of them.
use alignak.Prelude.{
  ◌≤◌, ◌≡◌, ◌≢◌, ◌⊎◌, inl, refl, sym, subst, true, false, none, [], ◌∷◌, map, elem, arith,
}
use mathlib.Core.List.{Memᴰ}
use mathlib.Core.List.Memᴰ
use alignak.Item.Kinds.{critical, unknown, unreachable}
use alignak.Escalation.Rules.{
  Escalation, Master, Notified, new_escalation, is_eligible, is_escalable, get_escalable_contacts,
  get_next_notification_time, standard_time, shortest_interval, earliest, earlier,
  get_next_notif_time,
}
use alignak.Escalation.Times.{IsOrdered, IsByAll, get_next_notification_time-is_eligible}
use alignak.Escalation.Letters.{unknown_not_escalated}

-- After two hours, to contact 7, for the states w, u and c.
abbrev second_line : Escalation
second_line = record {
  name = 1;
  time_based = true;
  first_notification = 0;
  last_notification = 0;
  first_notification_time = 120;
  last_notification_time = 0;
  notification_interval = none;
  escalation_options = b'w' ∷ b'u' ∷ b'c' ∷ [];
  escalation_period = none;
  contacts = 7 ∷ [];
}

abbrev first_notice : Master
first_notice = record {
  t_to_go = 1000;
  notif_nb = 1;
  creation_time = 1000;
  already_start_escalations = [];
}

abbrev critical_disk : Notified
critical_disk = record {
  state = critical;
  notification_interval = 1440;
  interval_length = 60;
  escalations = second_line ∷ [];
}

-- The escalation asks for 8200, before the standard time 87400.
critical_disk_next : get_next_notification_time 2000 first_notice critical_disk ≡ 8200
unfolding get_next_notification_time standard_time shortest_interval earliest earlier
    get_next_notif_time is_eligible
critical_disk_next = refl

critical-ne-unreachable : critical ≢ unreachable
critical-ne-unreachable = ground arith

second_line-IsOrdered : (e : Escalation) → Memᴰ e (second_line ∷ []) → IsOrdered e
second_line-IsOrdered e m = subst IsOrdered (sym (Memᴰ.eq_of_singleton m)) (inl refl)

get_next_notification_time-is_eligible_example :
    let std_time = standard_time 2000 first_notice critical_disk in
    let res = get_next_notification_time 2000 first_notice critical_disk in
    2000 ≤ res
    × res ≤ std_time
    × IsByAll 2000 std_time first_notice critical_disk (second_line ∷ []) res
    × ((res ≡ std_time)
        ⊎ ((e : Escalation) × Memᴰ e (second_line ∷ [])
            × (elem e.name [] ≡ false)
            × (is_eligible e res critical 1 res 1000 60 ≡ true)))
get_next_notification_time-is_eligible_example =
    get_next_notification_time-is_eligible 2000 first_notice critical_disk critical-ne-unreachable
      second_line-IsOrdered

abbrev unknown_disk : Notified
unknown_disk = record critical_disk { state = unknown }

unknown_not_escalated_example :
    let j = record unknown_disk { escalations = map new_escalation (second_line ∷ []) } in
    (is_escalable 9000 first_notice j ≡ false)
    × (get_escalable_contacts 9000 first_notice j ≡ (first_notice, []))
    × (get_next_notification_time 9000 first_notice j
        ≡ get_next_notification_time 9000 first_notice (record unknown_disk { escalations = [] }))
unknown_not_escalated_example =
    unknown_not_escalated 9000 first_notice unknown_disk (second_line ∷ []) refl
