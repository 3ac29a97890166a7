-- ===== src/Escalation/Letters.antt =====
-- The letters of the states in alignak/objects/escalation.py.
use alignak.Prelude.{
  ℕ, ◌≡◌, refl, Bool, true, false, none, List, [], ◌∷◌, map, if◌then◌else◌, elem, arith,
}
use alignak.Item.Kinds.{unknown}
use alignak.Escalation.Rules.{
  Escalation, Master, Notified, replace_u, new_escalation, is_eligible, get_next_notif_time,
  is_escalable, is_one_eligible, shortest_interval, standard_time, earlier, earliest,
  get_next_notification_time, collect_contacts, get_escalable_contacts, matches,
}

-- No option is "u" once the escalation is made.
no_u : (options : List ℕ) → elem b'u' (map replace_u options) ≡ false
no_u [] = refl
no_u (p ∷ ps) = ground (arith, no_u ps)

refused-is_eligible :
    (e : Escalation) (t nb now c k : ℕ)
    → is_eligible (new_escalation e) t unknown nb now c k ≡ false
unfolding is_eligible new_escalation
refused-is_eligible e t nb now c k = rw (no_u e.escalation_options) (twice _)
  where
    twice : (b : Bool) → (if b then false else false) ≡ false
    twice true = refl
    twice false = refl

refused-get_next_notif_time :
    (e : Escalation) (wished c k : ℕ)
    → get_next_notif_time (new_escalation e) wished unknown c k ≡ none
unfolding get_next_notif_time new_escalation
refused-get_next_notif_time e wished c k = rw (no_u e.escalation_options) (ground arith)

no_match :
    (now : ℕ) (n : Master) (i : Notified) (e : Escalation)
    → i.state ≡ unknown
    → matches now n i (new_escalation e) ≡ false
no_match now n i e u =
    rw u (refused-is_eligible e n.t_to_go n.notif_nb now n.creation_time i.interval_length)

no_one :
    (now : ℕ) (n : Master) (i : Notified) (es : List Escalation)
    → i.state ≡ unknown
    → is_one_eligible now n i (map new_escalation es) ≡ false
no_one now n i [] u = refl
no_one now n i (e ∷ es) u = rw (no_match now n i e u) (no_one now n i es u)

nobody :
    (now : ℕ) (n : Master) (i : Notified) (es : List Escalation) (cs : List ℕ)
    → i.state ≡ unknown
    → collect_contacts now i (map new_escalation es) n cs ≡ (n, cs)
unfolding collect_contacts
nobody now n i [] cs u = refl
nobody now n i (e ∷ es) cs u = rw (no_match now n i e u, collect_contacts) (nobody now n i es cs u)

same_interval :
    (now : ℕ) (n : Master) (i : Notified) (es : List Escalation) (interval : ℕ)
    → i.state ≡ unknown
    → shortest_interval now n i (map new_escalation es) interval ≡ interval
unfolding shortest_interval
same_interval now n i [] interval u = refl
same_interval now n i (e ∷ es) interval u =
    rw (no_match now n i e u, shortest_interval) (same_interval now n i es interval u)

not_earlier :
    (now std_time : ℕ) (n : Master) (i : Notified) (e : Escalation) (res : ℕ)
    → i.state ≡ unknown
    → earlier now std_time n i (new_escalation e) res ≡ res
unfolding earlier
not_earlier now std_time n i e res u =
    rw (u, refused-get_next_notif_time e std_time n.creation_time i.interval_length) (ground arith)

same_time :
    (now std_time : ℕ) (n : Master) (i : Notified) (es : List Escalation) (res : ℕ)
    → i.state ≡ unknown
    → earliest now std_time n i (map new_escalation es) res ≡ res
unfolding earliest
same_time now std_time n i [] res u = refl
same_time now std_time n i (e ∷ es) res u =
    rw (not_earlier now std_time n i e res u, earliest) (same_time now std_time n i es res u)

-- Escalations whose options are given, whatever they are, do not count for an item that is UNKNOWN:
-- its notification is not escalated, to nobody, and the next one is due as without escalations.
pub unknown_not_escalated :
    (now : ℕ) (n : Master) (i : Notified) (es : List Escalation)
    → i.state ≡ unknown
    → let j = record i { escalations = map new_escalation es } in
      (is_escalable now n j ≡ false)
      × (get_escalable_contacts now n j ≡ (n, []))
      × (get_next_notification_time now n j
          ≡ get_next_notification_time now n (record i { escalations = [] }))
unfolding is_escalable get_escalable_contacts get_next_notification_time standard_time
    shortest_interval earliest
unknown_not_escalated now n i es u =
    let j = record i { escalations = map new_escalation es } in
    (
      no_one now n j es u,
      nobody now n j es [] u,
      rw (same_interval now n j es i.notification_interval u) (
          same_time now (standard_time now n (record i { escalations = [] })) n j es
            (standard_time now n (record i { escalations = [] })) u),
    )
