-- ===== src/Item/Acknowledging.antt =====
-- Acknowledgements: `acknowledge_problem`, `check_for_expire_acknowledge`, `unacknowledge_problem`
-- and `unacknowledge_problem_if_not_sticky` of alignak/objects/schedulingitem.py, and `del_comment`
-- of alignak/objects/item.py. An acknowledged problem with no acknowledgement, on which the source
-- raises an AttributeError, is outside the invariant `IsConsistent`.
use alignak.Prelude.{
  ℕ, Bool, true, false, not, ◌&&◌, Option, none, some, [], ◌∷◌, ◌++◌, ltb, ◌==◌, if◌then◌else◌,
  keep,
}
use alignak.Item.Kinds.{host, service, same, acknowledgement}
use alignak.Item.Checks.{Env}
use alignak.Item.Types.{
  Item, Acknowledge, acknowledge_services, update_status, acknowledge_raise, acknowledge_expire,
}
use alignak.Item.Logs.{
  add_brok, add_call, raise_acknowledge_log_entry, raise_unacknowledge_log_entry,
}
use alignak.Item.Notifications.{ok_up, create_notifications}

unfoldable pub del_comment : ℕ → Item → Item
del_comment c i = record i { comments = keep (λ d. not (d == c)) i.comments }

unfoldable pub del_comment_of : Option Acknowledge → Item → Item
unfolding del_comment
del_comment_of none i = i
del_comment_of (some a) i = del_comment a.comment_id i

-- The part under `if self.state != self.ok_up`.
unfoldable pub acknowledge_own_problem : Env → ℕ → Bool → ℕ → Item → Item
unfolding add_brok raise_acknowledge_log_entry
acknowledge_own_problem env sticky notify end_time i =
    let cleaned =
      if i.problem_has_been_acknowledged then del_comment_of i.acknowledgement i else i in
    let notified = if notify then create_notifications env acknowledgement cleaned else cleaned in
    let ack : Acknowledge = record {
      sticky = sticky == 2;
      notify = notify;
      end_time = end_time;
      comment_id = env.new_comment_id;
    } in
    let kept = record notified {
      acknowledging = record { problem_has_been_acknowledged = true; acknowledgement = some ack };
    } in
    let commented = record (add_brok acknowledge_raise kept) {
      comments = kept.comments ++ env.new_comment_id ∷ [];
    } in
    raise_acknowledge_log_entry (add_brok update_status commented)

-- `sticky` is 2 for a sticky acknowledgement; what an acknowledged host hands to its services is
-- the truth value of that test, which is the number 1 or 0.
unfoldable pub acknowledge_problem : Env → ℕ → Bool → ℕ → Item → Item
unfolding add_call
acknowledge_problem env sticky notify end_time i =
    let fine = same i.state (ok_up i.my_type) in
    let own = if fine then i else acknowledge_own_problem env sticky notify end_time i in
    let handed = if fine then sticky else (if sticky == 2 then 1 else 0) in
    elim i.my_type [
      | host ↦ add_call (acknowledge_services handed notify end_time) own
      | service ↦ own
    ]

unfoldable pub unacknowledge_problem : Item → Item
unfolding add_brok raise_unacknowledge_log_entry
unacknowledge_problem i =
    let cleaned = del_comment_of i.acknowledgement (add_brok acknowledge_expire i) in
    let cleared = record cleaned {
      acknowledging = record { problem_has_been_acknowledged = false; acknowledgement = none };
    } in
    if i.problem_has_been_acknowledged
    then raise_unacknowledge_log_entry (add_brok update_status cleared)
    else i

unfoldable pub check_for_expire_acknowledge : ℕ → Item → Item
check_for_expire_acknowledge now i = elim i.acknowledgement [
  | none ↦ i
  | some a ↦ if not (a.end_time == 0) && ltb a.end_time now then unacknowledge_problem i else i
]

unfoldable pub unacknowledge_problem_if_not_sticky : Item → Item
unacknowledge_problem_if_not_sticky i = elim i.acknowledgement [
  | none ↦ i
  | some a ↦ if a.sticky then i else unacknowledge_problem i
]
