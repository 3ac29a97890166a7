-- ===== src/Contact/Ways.antt =====
-- The classes `NotificationWay` of alignak/objects/notificationway.py and `Contact` of
-- alignak/objects/contact.py: which notifications they want.
--
-- A way holds its two time periods by the times that are valid, a contact its ways themselves and
-- its downtimes by whether each is in effect. An option is the code of its letter, a command a
-- number. The answers are what the methods return; that they write down on the contact its
-- commands and whether it is in a downtime is left out.
use alignak.Prelude.{
  ℕ, Bool, true, false, not, ◌&&◌, ◌||◌, Option, none, some, List, [], ◌∷◌, ◌++◌, ltb,
  if◌then◌else◌, elem,
}
use alignak.Item.Kinds.{
  MyType, host, service, State, down, unreachable, warning, critical, unknown, NotificationType,
  problem, recovery, acknowledgement, flapping_start, flapping_stop, flapping_disabled,
  downtime_start, downtime_end, downtime_cancelled, custom,
}

pub record NotificationWay : Type 0 where
  pub host_notifications_enabled : Bool
  pub service_notifications_enabled : Bool
  pub host_notification_period : ℕ → Bool
  pub service_notification_period : ℕ → Bool
  pub host_notification_options : List ℕ
  pub service_notification_options : List ℕ
  pub host_notification_commands : List ℕ
  pub service_notification_commands : List ℕ
  pub min_business_impact : ℕ

pub record Contact : Type 0 where
  pub host_notifications_enabled : Bool
  pub service_notifications_enabled : Bool
  pub downtimes : List Bool
  pub notificationways : List NotificationWay

-- What is asked: the time and state of the item, the type of the notification, the impact of the
-- item and the command.
pub record Question : Type 0 where
  pub timestamp : ℕ
  pub state : State
  pub n_type : NotificationType
  pub business_impact : ℕ
  pub cmd : ℕ

abbrev pub service_state_letter : State → Option ℕ
service_state_letter warning = some b'w'
service_state_letter unknown = some b'u'
service_state_letter critical = some b'c'
service_state_letter unreachable = some b'x'
service_state_letter _ = none

abbrev pub host_state_letter : State → Option ℕ
host_state_letter down = some b'd'
host_state_letter unreachable = some b'u'
host_state_letter _ = none

-- The option that the type of a notification needs.
abbrev pub is_wanted : Option ℕ → NotificationType → List ℕ → List ℕ → Bool
is_wanted none problem options downtime_options = false
is_wanted (some letter) problem options downtime_options = elem letter options
is_wanted _ recovery options downtime_options = elem b'r' options
is_wanted _ acknowledgement options downtime_options = true
is_wanted _ flapping_start options downtime_options = elem b'f' options
is_wanted _ flapping_stop options downtime_options = elem b'f' options
is_wanted _ flapping_disabled options downtime_options = elem b'f' options
is_wanted _ downtime_start options downtime_options = elem b's' downtime_options
is_wanted _ downtime_end options downtime_options = elem b's' downtime_options
is_wanted _ downtime_cancelled options downtime_options = elem b's' downtime_options
is_wanted _ custom options downtime_options = false

-- A service asks the options of hosts for downtimes.
unfoldable pub way_wants_service : NotificationWay → Question → Bool
way_wants_service w q =
    w.service_notifications_enabled
    && elem q.cmd w.service_notification_commands
    && not (ltb q.business_impact w.min_business_impact)
    && w.service_notification_period q.timestamp
    && is_wanted (service_state_letter q.state) q.n_type w.service_notification_options
        w.host_notification_options

unfoldable pub way_wants_host : NotificationWay → Question → Bool
way_wants_host w q =
    w.host_notifications_enabled
    && not (ltb q.business_impact w.min_business_impact)
    && elem q.cmd w.host_notification_commands
    && w.host_notification_period q.timestamp
    && is_wanted (host_state_letter q.state) q.n_type w.host_notification_options
        w.host_notification_options

abbrev pub is_one_in_effect : List Bool → Bool
is_one_in_effect [] = false
is_one_in_effect (d ∷ ds) = d || is_one_in_effect ds

abbrev pub wanted_by_one : (NotificationWay → Bool) → List NotificationWay → Bool
wanted_by_one wants [] = false
wanted_by_one wants (w ∷ ws) = wants w || wanted_by_one wants ws

unfoldable pub want_service_notification : Contact → Question → Bool
want_service_notification c q =
    c.service_notifications_enabled
    && not (is_one_in_effect c.downtimes)
    && wanted_by_one (λ w. way_wants_service w q) c.notificationways

-- None for the AttributeError of a contact with a downtime: the loop goes through the identifiers.
unfoldable pub want_host_notification : Contact → Question → Option Bool
want_host_notification c q =
    if not c.host_notifications_enabled then some false else elim c.downtimes [
      | [] ↦ some (wanted_by_one (λ w. way_wants_host w q) c.notificationways)
      | _ ∷ _ ↦ none
    ]

abbrev pub way_commands : MyType → NotificationWay → List ℕ
way_commands host w = w.host_notification_commands
way_commands service w = w.service_notification_commands

abbrev pub get_notification_commands : MyType → List NotificationWay → List ℕ
get_notification_commands o_type [] = []
get_notification_commands o_type (w ∷ ws) =
    way_commands o_type w ++ get_notification_commands o_type ws

-- `notification_is_blocked_by_contact`, of hosts and of services.
unfoldable pub notification_is_blocked_by_contact : MyType → Contact → Question → Option Bool
notification_is_blocked_by_contact host c q = elim (want_host_notification c q) [
  | none ↦ none
  | some wants ↦ some (not wants)
]
notification_is_blocked_by_contact service c q = some (not (want_service_notification c q))
