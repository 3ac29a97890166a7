-- ===== src/Item/Blocking.antt =====
-- When a PROBLEM notification is let through by `is_blocking_notifications`, and what
-- `create_notifications` queues.
use alignak.Prelude.{ℕ, ◌≡◌, Bool, true, false, not, ◌&&◌, ◌||◌, arith, elem, exceeds}
use alignak.Item.Kinds.{MyType, host, service, up, same, problem}
use alignak.Item.Checks.{Env}
use alignak.Item.Types.{Item}
use alignak.Item.Notifications.{
  is_blocking_notifications, host_is_blocking_notifications, service_is_blocking_notifications,
  is_blocked_by_configuration, is_blocked_by_rule, host_state_is_filtered,
  service_state_is_filtered, out_of_period, is_soft,
}

-- The configuration and the period allow notifications of the item's state.
abbrev pub is_configured : Env → ℕ → Item → Bool
is_configured env t_wished i =
    i.enable_notifications
    && i.notifications_enabled
    && not (elem b'n' i.notification_options)
    && not (out_of_period env.notification_period t_wished)
    && not (elim i.my_type [
      | host ↦ host_state_is_filtered i.state i.notification_options
      | service ↦ service_state_is_filtered i.state i.notification_options
    ])

-- The item is in a hard state, neither acknowledged nor flapping nor in a downtime.
abbrev pub is_raised : Item → Bool
is_raised i =
    not (is_soft i.state_type)
    && not i.problem_has_been_acknowledged
    && not i.is_flapping
    && not (exceeds i.scheduled_downtime_depth 0)

-- A service is quiet with its host: DOWN, UNREACHABLE or in a downtime.
abbrev pub has_quiet_host : Env → MyType → Bool
has_quiet_host env host = false
has_quiet_host env service = not (same env.host_state up) || exceeds env.host_downtime_depth 0

-- All problems of the business rule are acknowledged, and the rule is to be smart about it.
abbrev pub is_rule_quiet : Env → Item → Bool
is_rule_quiet env i =
    i.got_business_rule && (i.business_rule_smart_notifications && env.rule_is_blocked)

deeper :
    (i : Item)
    → exceeds i.scheduled_downtime_depth 1 ≡ true
    → exceeds i.scheduled_downtime_depth 0 ≡ true
deeper i h = ground arith

-- A PROBLEM notification is let through exactly if the configuration and the period allow it, the
-- item is hard, not acknowledged, not flapping and in no downtime, its host does not keep it quiet,
-- and its business rule does not.
pub problem_let_through :
    (env : Env) (t_wished : ℕ) (i : Item)
    → is_blocking_notifications env problem t_wished i
      ≡ not (
          is_configured env t_wished i
          && is_raised i
          && not (has_quiet_host env i.my_type)
          && not (is_rule_quiet env i))
unfolding is_blocking_notifications host_is_blocking_notifications service_is_blocking_notifications
    is_blocked_by_configuration is_blocked_by_rule
problem_let_through env t_wished i = ground (arith, deeper i)
