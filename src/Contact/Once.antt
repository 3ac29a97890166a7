-- ===== src/Contact/Once.antt =====
-- Whom `scatter_notification` of alignak/objects/schedulingitem.py notifies twice.
use alignak.Prelude.{
  ℕ, ◌≡◌, inl, inr, refl, Bool, true, false, not, ◌&&◌, Option, none, some, List, [], ◌∷◌,
  if◌then◌else◌, elem, keep, arith, some-bind, Bool-cases,
}
use alignak.Item.Kinds.{NotificationType, problem}
use alignak.Escalation.Rules.{Master}
use alignak.Contact.Ways.{
  Contact, Question, get_notification_commands, notification_is_blocked_by_contact,
}
use alignak.Contact.Scatter.{
  Child, Situation, Sending, is_once, is_recipient, notification_contacts, remember, question,
  send_commands, send_all, scatter_master, scatter_notification,
}
use alignak.Contact.Sent.{contacts_of, elem-keep, scatter-Notifies}

not_both : (a b : Bool) → a ≡ true → b ≡ true → not (a && b) ≡ true → ⊥
not_both a b e f g = ground arith

never_twice :
    (contacts contacts' : ℕ → Option Contact) (x x' : Situation) (n n' m m' : Master)
    (s t u : Sending) (ks ls : List Child)
    → is_once x' ≡ true
    → scatter_notification contacts x none n problem s ≡ some (t, m, ks)
    → scatter_notification contacts' x' none n' problem t ≡ some (u, m', ls)
    → (c : ℕ) → elem c (contacts_of ks) ≡ true
    → elem c (contacts_of ls) ≡ false
never_twice contacts contacts' x x' n n' m m' s t u ks ls o e f c k =
    let (_, first) = scatter-Notifies contacts x n m s t ks e in
    let (cs, second) = scatter-Notifies contacts' x' n' m' t u ls f in
    elim (Bool-cases (elem c (contacts_of ls))) as (λ b. elem c (contacts_of ls) ≡ false) [
      | inr q ↦ q
      | inl q ↦
          let r =
            elem-keep (is_recipient x' problem t.notified_contacts_ids) c cs (second.1 c q).0 in
          absurd (not_both (is_once x') (elem c t.notified_contacts_ids) o (first.1 c k).1 r)
    ]

-- All contacts are known and answer, which those of a service do.
abbrev pub AreAnswering : (ℕ → Option Contact) → Situation → Type 0
AreAnswering contacts x =
    (c : ℕ)
    → (k : Contact) × (contacts c ≡ some k)
      × ((q : Question) → (b : Bool) × (notification_is_blocked_by_contact x.my_type k q ≡ some b))

send_commands-some :
    (x : Situation) (n : Master) (t : NotificationType) (esc : Bool) (c : ℕ) (k : Contact)
    (cmds ids : List ℕ)
    → ((q : Question) → (b : Bool) × (notification_is_blocked_by_contact x.my_type k q ≡ some b))
    → (r : List ℕ × List Child) × (send_commands x n t esc c k cmds ids ≡ some r)
unfolding send_commands
send_commands-some x n t esc c k [] ids a = (_, refl)
send_commands-some x n t esc c k (cmd ∷ cmds) ids a =
    let (b, e) = a (question x t cmd) in
    let (r, f) = send_commands-some x n t esc c k cmds (if b then ids else remember t c ids) a in
    some-bind _ _ b e (some-bind _ _ r f (_, refl))

send_all-some :
    (contacts : ℕ → Option Contact) (x : Situation) (n : Master) (t : NotificationType) (esc : Bool)
    (cs ids : List ℕ)
    → AreAnswering contacts x
    → (r : List ℕ × List Child) × (send_all contacts x n t esc cs ids ≡ some r)
unfolding send_all
send_all-some contacts x n t esc [] ids a = (_, refl)
send_all-some contacts x n t esc (c ∷ cs) ids a =
    let (k, e, b) = a c in
    let (r, f) =
      send_commands-some x n t esc c k (get_notification_commands x.my_type k.notificationways) ids
        b in
    let (r', g) = send_all-some contacts x n t esc cs r.0 a in
    some-bind _ _ k e (some-bind _ _ r f (some-bind _ _ r' g (_, refl)))

scatter-some :
    (contacts : ℕ → Option Contact) (x : Situation) (n : Master) (s : Sending)
    → AreAnswering contacts x
    → (r : Sending × Master × List Child) × (scatter_notification contacts x none n problem s
        ≡ some r)
unfolding scatter_notification scatter_master
scatter-some contacts x n s a =
    let ids = s.notified_contacts_ids in
    let (m, esc, cs) = notification_contacts x n problem ids in
    let (r, e) =
      send_all-some contacts x n problem esc (keep (is_recipient x problem ids) cs) ids a in
    some-bind _ _ r e (_, refl)

-- With contacts that are known and answer, a problem and a later one are both scattered; and no
-- contact that got the first gets the second, if that one has notification_interval 0, is hard and
-- does not change.
pub scatter_notification_once :
    (contacts contacts' : ℕ → Option Contact) (x x' : Situation) (n n' : Master) (s : Sending)
    → AreAnswering contacts x
    → AreAnswering contacts' x'
    → is_once x' ≡ true
    → (t : Sending) × (m : Master) × (ks : List Child) × (u : Sending) × (m' : Master) × (ls : List
        Child)
      × (scatter_notification contacts x none n problem s ≡ some (t, m, ks))
      × (scatter_notification contacts' x' none n' problem t ≡ some (u, m', ls))
      × ((c : ℕ) → elem c (contacts_of ks) ≡ true → elem c (contacts_of ls) ≡ false)
scatter_notification_once contacts contacts' x x' n n' s a a' o =
    let (r, e) = scatter-some contacts x n s a in
    let (r', f) = scatter-some contacts' x' n' r.0 a' in
    (
      r.0,
      r.1,
      r.2,
      r'.0,
      r'.1,
      r'.2,
      e,
      f,
      never_twice contacts contacts' x x' n n' r.1 r'.1 s r.0 r'.0 r.2 r'.2 o e f,
    )
