-- ===== src/Contact/Sent.antt =====
-- Who is sent a problem by `scatter_notification` of alignak/objects/schedulingitem.py.
use alignak.Prelude.{
  ℕ, ◌≡◌, ◌⊎◌, inl, inr, refl, sym, subst, ◌∙◌, Bool, true, false, ◌||◌, Option, none, some, List,
  [], ◌∷◌, ◌++◌, ◌==◌, if◌then◌else◌, elem, keep, arith, bind-some, some_inj, ==_iff,
}
use alignak.Item.Kinds.{problem}
use alignak.Escalation.Rules.{Master}
use alignak.Contact.Ways.{Contact, get_notification_commands, notification_is_blocked_by_contact}
use alignak.Contact.Scatter.{
  Child, Situation, Sending, is_recipient, notification_contacts, remember, question, send_commands,
  send_all, scatter_master, scatter_notification,
}

abbrev pub contacts_of : List Child → List ℕ
contacts_of [] = []
contacts_of (k ∷ ks) = k.contact ∷ contacts_of ks

elem-append : (y : ℕ) (xs ys : List ℕ) → elem y (xs ++ ys) ≡ (elem y xs || elem y ys)
elem-append y [] ys = refl
elem-append y (x ∷ xs) ys = rw (elem-append y xs ys) (ground arith)

elem-contacts_of :
    (y : ℕ) (ks ls : List Child)
    → elem y (contacts_of (ks ++ ls)) ≡ (elem y (contacts_of ks) || elem y (contacts_of ls))
elem-contacts_of y [] ls = refl
elem-contacts_of y (k ∷ ks) ls = rw (elem-contacts_of y ks ls) (ground arith)

or_cases : (a b : Bool) → (a || b) ≡ true → (a ≡ true) ⊎ (b ≡ true)
or_cases true b e = inl refl
or_cases false b e = inr e

keep_step :
    (p : ℕ → Bool) (b : Bool) (x y : ℕ) (rest : List ℕ)
    → p x ≡ b
    → (elem y rest ≡ true → p y ≡ true)
    → elem y (if b then x ∷ rest else rest) ≡ true
    → p y ≡ true
keep_step p true x y rest q f e = elim (or_cases (y == x) (elem y rest) e) [
  | inl s ↦ subst (λ z. p z ≡ true) (sym ((==_iff y x).0 s)) q
  | inr t ↦ f t
]
keep_step p false x y rest q f e = f e

pub elem-keep : (p : ℕ → Bool) (y : ℕ) (xs : List ℕ) → elem y (keep p xs) ≡ true → p y ≡ true
elem-keep p y [] e = ground arith
elem-keep p y (x ∷ xs) e = keep_step p (p x) x y (keep p xs) refl (elem-keep p y xs) e

remember_stays :
    (c y : ℕ) (ids : List ℕ) → elem y ids ≡ true → elem y (remember problem c ids) ≡ true
remember_stays c y ids e = ground (arith, elem-append y ids (c ∷ []))

remember_self : (c : ℕ) (ids : List ℕ) → elem c (remember problem c ids) ≡ true
remember_self c ids = ground (arith, elem-append c ids (c ∷ []))

-- Who was notified before still is, and who gets a child is one of these contacts and is notified.
abbrev pub Notifies : List ℕ → (ℕ → Bool) → List ℕ × List Child → Type 0
Notifies ids is_one r =
    ((y : ℕ) → elem y ids ≡ true → elem y r.0 ≡ true)
    × ((y : ℕ) → elem y (contacts_of r.1) ≡ true → (is_one y ≡ true) × (elem y r.0 ≡ true))

send_one :
    (b : Bool) (c : ℕ) (k : Child) (ids : List ℕ) (r : List ℕ × List Child)
    → k.contact ≡ c
    → Notifies (if b then ids else remember problem c ids) (λ y. c == y) r
    → Notifies ids (λ y. c == y) (r.0, if b then r.1 else k ∷ r.1)
send_one true c k ids r q h = h
send_one false c k ids r q h = (
  λ y e. h.0 y (remember_stays c y ids e),
  λ y e. elim (or_cases (y == k.contact) (elem y (contacts_of r.1)) e) [
    | inl t ↦
        let same : y ≡ c = (==_iff y k.contact).0 t ∙ q in
        (
          (==_iff c y).1 (sym same),
          h.0 y (
              subst (λ z. elem z (remember problem c ids) ≡ true) (sym same) (remember_self c ids)),
        )
    | inr t ↦ h.1 y t
  ],
)

send_commands-Notifies :
    (x : Situation) (n : Master) (esc : Bool) (c : ℕ) (contact : Contact) (cmds ids : List ℕ)
    (r : List ℕ × List Child)
    → send_commands x n problem esc c contact cmds ids ≡ some r
    → Notifies ids (λ y. c == y) r
unfolding send_commands
send_commands-Notifies x n esc c contact [] ids r e =
    subst (Notifies ids (λ y. c == y)) (some_inj _ _ e) (λ y q. q, λ y q. ground arith)
send_commands-Notifies x n esc c contact (cmd ∷ cmds) ids r e =
    let (b, _, f) =
      bind-some (notification_is_blocked_by_contact x.my_type contact (question x problem cmd)) _ r
        e in
    let (rest, g, h) =
      bind-some
        (send_commands x n problem esc c contact cmds (if b then ids else remember problem c ids)) _
        r f in
    subst (Notifies ids (λ y. c == y)) (some_inj _ _ h) (
      send_one b c _ ids rest refl (
        send_commands-Notifies x n esc c contact cmds (if b then ids else remember problem c ids)
          rest g))

Notifies-append :
    (c : ℕ) (cs ids : List ℕ) (first rest : List ℕ × List Child)
    → Notifies ids (λ y. c == y) first
    → Notifies first.0 (λ y. elem y cs) rest
    → Notifies ids (λ y. elem y (c ∷ cs)) (rest.0, first.1 ++ rest.1)
Notifies-append c cs ids first rest f g = (
  λ y e. g.0 y (f.0 y e),
  λ y e.
      elim (or_cases (elem y (contacts_of first.1)) (elem y (contacts_of rest.1))
        (sym (elem-contacts_of y first.1 rest.1) ∙ e)) [
          | inl t ↦ (ground (arith, f.1 y t), g.0 y (f.1 y t).1)
          | inr t ↦ (ground (arith, g.1 y t), (g.1 y t).1)
        ],
)

send_all-Notifies :
    (contacts : ℕ → Option Contact) (x : Situation) (n : Master) (esc : Bool) (cs ids : List ℕ)
    (r : List ℕ × List Child)
    → send_all contacts x n problem esc cs ids ≡ some r
    → Notifies ids (λ y. elem y cs) r
unfolding send_all
send_all-Notifies contacts x n esc [] ids r e =
    subst (Notifies ids (λ y. false)) (some_inj _ _ e) (λ y q. q, λ y q. ground arith)
send_all-Notifies contacts x n esc (c ∷ cs) ids r e =
    let (contact, _, f) = bind-some (contacts c) _ r e in
    let (first, g, h) =
      bind-some
        (send_commands x n problem esc c contact
          (get_notification_commands x.my_type contact.notificationways) ids)
        _ r f in
    let (rest, k, l) = bind-some (send_all contacts x n problem esc cs first.0) _ r h in
    subst (Notifies ids (λ y. elem y (c ∷ cs))) (some_inj _ _ l) (
      Notifies-append c cs ids first rest (send_commands-Notifies x n esc c contact _ ids first g)
        (send_all-Notifies contacts x n esc cs first.0 rest k))

-- What a scattering sends goes to recipients, who are notified from then on.
pub scatter-Notifies :
    (contacts : ℕ → Option Contact) (x : Situation) (n m : Master) (s t : Sending) (ks : List Child)
    → scatter_notification contacts x none n problem s ≡ some (t, m, ks)
    → (cs : List ℕ) × Notifies s.notified_contacts_ids
        (λ y. elem y (keep (is_recipient x problem s.notified_contacts_ids) cs))
        (t.notified_contacts_ids, ks)
unfolding scatter_notification scatter_master
scatter-Notifies contacts x n m s t ks e =
    let ids = s.notified_contacts_ids in
    let (m', esc, cs) = notification_contacts x n problem ids in
    let (sent, f, g) =
      bind-some (send_all contacts x n problem esc (keep (is_recipient x problem ids) cs) ids) _
        (t, m, ks) e in
    let q = some_inj _ _ g in
    (
      cs,
      subst
          (λ r.
            Notifies ids (λ y. elem y (keep (is_recipient x problem ids) cs))
              (r.0.notified_contacts_ids, r.2))
          q (send_all-Notifies contacts x n esc (keep (is_recipient x problem ids) cs) ids sent f),
    )
