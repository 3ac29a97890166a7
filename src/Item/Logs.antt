-- ===== src/Item/Logs.antt =====
-- The queues of an item: `self.broks.append`, `self.actions.append` and the log entries of
-- alignak/objects/host.py and service.py (`raise_..._log_entry`), which are broks.
use alignak.Prelude.{Bool, [], ◌∷◌, ◌++◌, if◌then◌else◌}
use alignak.Item.Types.{
  Item, Brok, Action, Call, Log, monitoring_log, active_check, alert, flapping_started,
  flapping_stopped, event_handled, acknowledged, unacknowledged, downtime_entered, downtime_exited,
  downtime_cancelled,
}

unfoldable pub add_brok : Brok → Item → Item
add_brok b i = record i { out = record i.out { broks = i.broks ++ b ∷ [] } }

unfoldable pub add_action : Action → Item → Item
add_action a i = record i { out = record i.out { actions = i.actions ++ a ∷ [] } }

unfoldable pub add_call : Call → Item → Item
add_call c i = record i { out = record i.out { calls = i.calls ++ c ∷ [] } }

-- A log entry, if the class logs entries of that kind.
unfoldable pub add_log : Bool → Log → Item → Item
unfolding add_brok
add_log enabled l i = if enabled then add_brok (monitoring_log l) i else i

unfoldable pub raise_check_result : Item → Item
unfolding add_log
raise_check_result i = add_log i.log_active_checks (active_check i.state i.attempt) i

unfoldable pub raise_alert_log_entry : Item → Item
unfolding add_log
raise_alert_log_entry i = add_log i.log_alerts (alert i.state i.state_type i.attempt) i

unfoldable pub raise_flapping_start_log_entry : Item → Item
unfolding add_log
raise_flapping_start_log_entry i = add_log i.log_flappings flapping_started i

unfoldable pub raise_flapping_stop_log_entry : Item → Item
unfolding add_log
raise_flapping_stop_log_entry i = add_log i.log_flappings flapping_stopped i

unfoldable pub raise_event_handler_log_entry : Item → Item
unfolding add_log
raise_event_handler_log_entry i = add_log i.log_event_handlers event_handled i

unfoldable pub raise_acknowledge_log_entry : Item → Item
unfolding add_log
raise_acknowledge_log_entry i = add_log i.log_acknowledgements acknowledged i

unfoldable pub raise_unacknowledge_log_entry : Item → Item
unfolding add_log
raise_unacknowledge_log_entry i = add_log i.log_acknowledgements unacknowledged i

unfoldable pub raise_enter_downtime_log_entry : Item → Item
unfolding add_log
raise_enter_downtime_log_entry i = add_log i.log_downtimes downtime_entered i

unfoldable pub raise_exit_downtime_log_entry : Item → Item
unfolding add_log
raise_exit_downtime_log_entry i = add_log i.log_downtimes downtime_exited i

unfoldable pub raise_cancel_downtime_log_entry : Item → Item
unfolding add_log
raise_cancel_downtime_log_entry i = add_log i.log_downtimes downtime_cancelled i
