-- ===== src/Contact/Scatter.antt =====
-- `scatter_notification` of alignak/objects/schedulingitem.py: the notifications that go out to
-- contacts for a master notification.
--
-- An exception (a contact that is not known, or the one of `want_host_notification`) is none. The
-- text of a child, its log entry and its macros are left out, and so are the names of the contacts
-- that were notified, which go with their identifiers.
use alignak.Prelude.{
  ℕ, Bool, true, false, not, ◌&&◌, Option, none, some, List, [], ◌∷◌, ◌++◌, ◌>>=◌, ◌==◌,
  if◌then◌else◌, elem, keep,
}
use alignak.Item.Kinds.{
  MyType, State, same, StateType, soft, hard, NotificationType, problem, recovery,
}
use alignak.Escalation.Rules.{Master, Notified, is_escalable, get_escalable_contacts}
use alignak.Contact.Ways.{
  Contact, Question, get_notification_commands, notification_is_blocked_by_contact,
}

pub record Child : Type 0 where
  pub contact : ℕ
  pub command_call : ℕ
  pub t_to_go : ℕ
  pub notif_nb : ℕ
  pub escalated : Bool

-- What the method reads of the item, its class and the time.
pub record Situation : Type 0 where
  pub now : ℕ
  pub my_type : MyType
  pub item : Notified
  pub last_state : State
  pub state_type : StateType
  pub last_state_type : StateType
  pub first_notification_delay : ℕ
  pub business_impact : ℕ
  pub last_chk : ℕ
  pub contacts : List ℕ

-- What it changes of the item.
pub record Sending : Type 0 where
  pub notified_contacts_ids : List ℕ
  pub notifications_in_progress : List Child

abbrev pub is_problem : NotificationType → Bool
is_problem problem = true
is_problem _ = false

abbrev pub same_type : StateType → StateType → Bool
same_type soft soft = true
same_type hard hard = true
same_type _ _ = false

abbrev pub is_hard_type : StateType → Bool
is_hard_type soft = false
is_hard_type hard = true

-- A problem that does not change and is notified once.
abbrev pub is_once : Situation → Bool
is_once x =
    x.item.notification_interval == 0
    && is_hard_type x.state_type
    && same_type x.last_state_type x.state_type
    && same x.item.state x.last_state

abbrev pub is_recipient : Situation → NotificationType → List ℕ → ℕ → Bool
is_recipient x n_type notified c = not (is_problem n_type && is_once x && elem c notified)

-- The contacts, whether they are escalated, and the master notification after that.
unfoldable pub notification_contacts :
    Situation → Master → NotificationType → List ℕ → Master × Bool × List ℕ
notification_contacts x n recovery notified =
    (n, false, if not (x.first_notification_delay == 0) && is_empty notified then [] else notified)
  where
    is_empty : List ℕ → Bool
    is_empty [] = true
    is_empty (c ∷ cs) = false
notification_contacts x n n_type notified =
    if is_escalable x.now n x.item
    then (let (m, cs) = get_escalable_contacts x.now n x.item in (m, true, cs))
    else (n, false, x.contacts)

abbrev pub remember : NotificationType → ℕ → List ℕ → List ℕ
remember n_type c ids = if is_problem n_type && not (elem c ids) then ids ++ (c ∷ []) else ids

abbrev pub question : Situation → NotificationType → ℕ → Question
question x n_type cmd = record {
  timestamp = x.last_chk;
  state = x.item.state;
  n_type = n_type;
  business_impact = x.business_impact;
  cmd = cmd;
}

-- The loop over the commands of a contact: the contacts that were notified, and the children.
unfoldable pub send_commands :
    Situation
    → Master
    → NotificationType
    → Bool
    → ℕ
    → Contact
    → List ℕ
    → List ℕ
    → Option (List ℕ × List Child)
send_commands x n n_type escalated c contact [] ids = some (ids, [])
send_commands x n n_type escalated c contact (cmd ∷ cmds) ids = do
  is_blocked ← notification_is_blocked_by_contact x.my_type contact (question x n_type cmd)
  rest ←
      send_commands x n n_type escalated c contact cmds
        (if is_blocked then ids else remember n_type c ids)
  some (
    rest.0,
    if is_blocked
        then rest.1
        else record {
          contact = c;
          command_call = cmd;
          t_to_go = n.t_to_go;
          notif_nb = n.notif_nb;
          escalated = escalated;
        }
          ∷ rest.1,
  )

-- The loop over the recipients.
unfoldable pub send_all :
    (ℕ → Option Contact)
    → Situation
    → Master
    → NotificationType
    → Bool
    → List ℕ
    → List ℕ
    → Option (List ℕ × List Child)
send_all contacts x n n_type escalated [] ids = some (ids, [])
send_all contacts x n n_type escalated (c ∷ cs) ids = do
  contact ← contacts c
  first ←
      send_commands x n n_type escalated c contact
        (get_notification_commands x.my_type contact.notificationways) ids
  rest ← send_all contacts x n n_type escalated cs first.0
  some (rest.0, first.1 ++ rest.1)

abbrev pub forget : NotificationType → List ℕ → List ℕ
forget recovery ids = []
forget n_type ids = ids

-- The scattering of a master notification.
unfoldable pub scatter_master :
    (ℕ → Option Contact)
    → Situation
    → Master
    → NotificationType
    → Sending
    → Option (Sending × Master × List Child)
scatter_master contacts x n n_type s = do
  let (m, escalated, candidates) = notification_contacts x n n_type s.notified_contacts_ids in
      let ids = forget n_type s.notified_contacts_ids in
      send_all contacts x n n_type escalated (keep (is_recipient x n_type ids) candidates) ids
      >>= λ sent. some (
        record {
          notified_contacts_ids = sent.0;
          notifications_in_progress = s.notifications_in_progress ++ sent.1;
        },
        m,
        sent.1,
      )

-- A notification that already has its contact is not scattered.
unfoldable pub scatter_notification :
    (ℕ → Option Contact)
    → Situation
    → Option ℕ
    → Master
    → NotificationType
    → Sending
    → Option (Sending × Master × List Child)
scatter_notification contacts x (some c) n n_type s = some (s, n, [])
scatter_notification contacts x none n n_type s = scatter_master contacts x n n_type s
