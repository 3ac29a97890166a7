-- ===== src/Item/Downtimes.antt =====
-- Scheduled downtimes: `enter`, `exit` and `cancel` of alignak/downtime.py on the item that they
-- refer to, and `check_for_flexible_downtime` of alignak/objects/schedulingitem.py. The downtimes
-- that one triggers are calls on other items: `cancel` makes them on the entries of `activate_me`,
-- which are identifiers where an external command added them, and such a call raises. Each method
-- returns its broks to the caller.
use alignak.Prelude.{
  ℕ, ◌+◌, Bool, true, false, not, ◌&&◌, ◌||◌, Option, none, some, List, [], ◌∷◌, ◌++◌, map, leb,
  ◌==◌, if◌then◌else◌, increment, decrement, is_exactly,
}
use alignak.Item.Kinds.{host, service, downtime_start, downtime_end}
use alignak.Item.Checks.{Env}
use alignak.Item.Types.{
  Item, Downtime, Brok, Call, enter_downtime, cancel_downtime, update_status, downtime_raise,
  downtime_expire,
}
use alignak.Item.Logs.{
  add_brok, raise_enter_downtime_log_entry, raise_exit_downtime_log_entry,
  raise_cancel_downtime_log_entry,
}
use alignak.Item.Notifications.{create_notifications}
use alignak.Item.Acknowledging.{acknowledge_problem, del_comment}

-- The item after a change of one of its downtimes.
abbrev pub replace : Downtime → List Downtime → List Downtime
replace d [] = []
replace d (e ∷ es) = (if e.uuid == d.uuid then d else e) ∷ replace d es

unfoldable pub put_downtime : Downtime → Item → Item
put_downtime d i = record i {
  in_downtime = record i.in_downtime { downtimes = replace d i.downtimes };
}

unfoldable pub add_calls : List Call → Item → Item
add_calls cs i = record i { out = record i.out { calls = i.calls ++ cs } }

-- The first downtime of an item: log, notification, brok, and for a host an acknowledgement.
unfoldable pub announce_enter : Env → Item → Item × List Brok
unfolding raise_enter_downtime_log_entry
announce_enter env i =
    let notified = create_notifications env downtime_start (raise_enter_downtime_log_entry i) in
    elim i.my_type [
      | host ↦ (acknowledge_problem env 2 true 0 notified, downtime_raise ∷ [])
      | service ↦ (notified, downtime_raise ∷ [])
    ]

-- The item with the downtime in effect and one level deeper. A flexible downtime lasts from now.
unfoldable pub place : Env → Downtime → Item → Item
unfolding put_downtime
place env d i =
    let d' = record d {
      is_in_effect = true;
      real_end_time = if d.fixed then d.real_end_time else env.now + d.duration;
    } in
    let placed = put_downtime d' i in
    record placed {
      in_downtime = record placed.in_downtime {
        scheduled_downtime_depth = increment i.scheduled_downtime_depth;
        in_scheduled_downtime = true;
      };
    }

unfoldable pub enter : Env → Downtime → Item → Item × List Brok
unfolding add_calls
enter env d i =
    let entered = place env d i in
    let (announced, broks) =
      if is_exactly (increment i.scheduled_downtime_depth) 1
      then announce_enter env entered
      else (entered, []) in
    (add_calls (map enter_downtime d.activate_me) announced, broks)

-- The last downtime in effect ends.
unfoldable pub announce_exit : Env → Item → Item × List Brok
unfolding raise_exit_downtime_log_entry
announce_exit env i =
    let notified = create_notifications env downtime_end (raise_exit_downtime_log_entry i) in
    (
      record notified {
        in_downtime = record notified.in_downtime { in_scheduled_downtime = false };
      },
      downtime_expire ∷ [],
    )

-- The flag that both `exit` and `cancel` leave for the next check.
unfoldable pub mark_last_check : Item → Item
mark_last_check i = record i {
  in_downtime = record i.in_downtime { in_scheduled_downtime_during_last_check = true };
}

unfoldable pub exit : Env → Downtime → Item → Item × List Brok
unfolding put_downtime del_comment mark_last_check
exit env d i =
    let depth = decrement i.scheduled_downtime_depth in
    let left = record i {
      in_downtime = record i.in_downtime { scheduled_downtime_depth = depth };
    } in
    let (announced, broks) =
      if d.is_in_effect
      then (if is_exactly depth 0 then announce_exit env left else (left, []))
      else (i, []) in
    let d' = record d { is_in_effect = false; can_be_deleted = true } in
    (mark_last_check (put_downtime d' (del_comment d.comment_id announced)), broks)

unfoldable pub announce_cancel : Item → Item × List Brok
unfolding raise_cancel_downtime_log_entry
announce_cancel i =
    let logged = raise_cancel_downtime_log_entry i in
    (
      record logged { in_downtime = record logged.in_downtime { in_scheduled_downtime = false } },
      downtime_expire ∷ [],
    )

unfoldable pub cancel : Downtime → Item → Item × List Brok
unfolding put_downtime del_comment mark_last_check add_calls
cancel d i =
    let depth = decrement i.scheduled_downtime_depth in
    let left = record i {
      in_downtime = record i.in_downtime { scheduled_downtime_depth = depth };
    } in
    let (announced, broks) = if is_exactly depth 0 then announce_cancel left else (left, []) in
    let d' = record d { is_in_effect = false; can_be_deleted = true; comment_id = 0 } in
    (
      add_calls (map cancel_downtime d.activate_me)
          (mark_last_check (put_downtime d' (del_comment d.comment_id announced))),
      broks,
    )

-- `trigger_id in ['', '0']`
abbrev pub is_untriggered : Option ℕ → Bool
is_untriggered none = true
is_untriggered (some t) = false

abbrev pub may_start : Downtime → Item → Bool
may_start d i =
    not (d.fixed || d.is_in_effect)
    && leb d.start_time i.last_chk
    && leb i.last_chk d.end_time
    && not (i.state_id == 0)
    && is_untriggered d.trigger_id

unfoldable pub add_broks : List Brok → Item → Item
add_broks bs i = record i { out = record i.out { broks = i.broks ++ bs } }

-- The loop over the downtimes; the flag is `status_updated`.
unfoldable pub start_flexible : Env → List Downtime → Item × Bool → Item × Bool
unfolding add_broks
start_flexible env [] s = s
start_flexible env (d ∷ ds) (i, updated) =
    let (entered, broks) = enter env d i in
    start_flexible env ds (if may_start d i then (add_broks broks entered, true) else (i, updated))

unfoldable pub check_for_flexible_downtime : Env → Item → Item
unfolding add_brok
check_for_flexible_downtime env i =
    let (started, updated) = start_flexible env i.downtimes (i, false) in
    if updated then add_brok update_status started else started
