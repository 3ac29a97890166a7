-- ===== src/Contact/Examples.antt =====
-- A problem that is scattered twice (alignak/objects/schedulingitem.py), and what the theorem says.
use alignak.Prelude.{ℕ, ◌≡◌, refl, true, false, Option, none, some, List, [], ◌∷◌, elem}
use alignak.Item.Kinds.{service, critical, hard, problem, same}
use alignak.Escalation.Rules.{Master, is_escalable}
use alignak.Contact.Ways.{
  NotificationWay, Contact, want_service_notification, way_wants_service,
  notification_is_blocked_by_contact,
}
use alignak.Contact.Scatter.{
  Child, Situation, Sending, is_once, notification_contacts, send_commands, send_all,
  scatter_master, scatter_notification,
}
use alignak.Contact.Sent.{contacts_of}
use alignak.Contact.Once.{AreAnswering, scatter_notification_once}

abbrev mail : NotificationWay
mail = record {
  host_notifications_enabled = true;
  service_notifications_enabled = true;
  host_notification_period = λ t. true;
  service_notification_period = λ t. true;
  host_notification_options = b'd' ∷ [];
  service_notification_options = b'w' ∷ b'c' ∷ [];
  host_notification_commands = 50 ∷ [];
  service_notification_commands = 51 ∷ [];
  min_business_impact = 0;
}

abbrev anyone : ℕ → Option Contact
anyone c = some (record {
  host_notifications_enabled = true;
  service_notifications_enabled = true;
  downtimes = [];
  notificationways = mail ∷ [];
})

-- A disk that is CRITICAL, with the contacts 7 and 8.
abbrev full_disk : Situation
full_disk = record {
  now = 5000;
  my_type = service;
  item = record {
    state = critical;
    notification_interval = 0;
    interval_length = 60;
    escalations = [];
  };
  last_state = critical;
  state_type = hard;
  last_state_type = hard;
  first_notification_delay = 0;
  business_impact = 2;
  last_chk = 4990;
  contacts = 7 ∷ 8 ∷ [];
}

abbrev notice : Master
notice = record {
  t_to_go = 5000;
  notif_nb = 1;
  creation_time = 5000;
  already_start_escalations = [];
}

abbrev nobody_yet : Sending
nobody_yet = record { notified_contacts_ids = []; notifications_in_progress = [] }

abbrev child_of : ℕ → Child
child_of c = record {
  contact = c;
  command_call = 51;
  t_to_go = 5000;
  notif_nb = 1;
  escalated = false;
}

full_disk_scattered :
    scatter_notification anyone full_disk none notice problem nobody_yet
    ≡ some (
      record {
        notified_contacts_ids = 7 ∷ 8 ∷ [];
        notifications_in_progress = child_of 7 ∷ child_of 8 ∷ [];
      },
      notice,
      child_of 7 ∷ child_of 8 ∷ [],
    )
unfolding scatter_notification scatter_master notification_contacts is_escalable send_all
    send_commands notification_is_blocked_by_contact want_service_notification way_wants_service
    same
full_disk_scattered = refl

anyone-AreAnswering : AreAnswering anyone full_disk
unfolding notification_is_blocked_by_contact
anyone-AreAnswering c = (_, refl, λ q. (_, refl))

full_disk_once : is_once full_disk ≡ true
unfolding same
full_disk_once = refl

scatter_notification_once_example :
    (t : Sending) × (m : Master) × (ks : List Child) × (u : Sending) × (m' : Master) × (ls : List
      Child)
    × (scatter_notification anyone full_disk none notice problem nobody_yet ≡ some (t, m, ks))
    × (scatter_notification anyone full_disk none notice problem t ≡ some (u, m', ls))
    × ((c : ℕ) → elem c (contacts_of ks) ≡ true → elem c (contacts_of ls) ≡ false)
scatter_notification_once_example =
    scatter_notification_once anyone anyone full_disk full_disk notice notice nobody_yet
      anyone-AreAnswering anyone-AreAnswering full_disk_once
