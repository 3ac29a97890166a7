-- ===== src/Escalation/Times.antt =====
-- What `get_next_notification_time` of alignak/objects/schedulingitem.py answers.
use alignak.Prelude.{
  ℕ, ◌+◌, ◌*◌, ◌≤◌, ◌<◌, ◌≡◌, ◌≢◌, ◌⊎◌, inl, inr, refl, sym, subst, ap, ◌∙◌, Bool, true, false, not,
  ◌&&◌, Option, none, some, List, [], ◌∷◌, ltb, if◌then◌else◌, elem, arith,
}
use native.Mathlib.Nat.{mul-le-mul_right}
use mathlib.Core.List.{Memᴰ}
use alignak.Item.Kinds.{State, up, down, unreachable, ok, warning, critical, unknown, pending}
use alignak.Escalation.Rules.{
  Escalation, Master, Notified, eligible_letter, next_letter, is_refused, is_out_of_period,
  is_out_of_times, is_eligible, get_next_notif_time, standard_time, earlier, earliest,
  get_next_notification_time,
}

-- A time-based escalation that ends does not end before it starts.
abbrev pub IsOrdered : Escalation → Type 0
IsOrdered e =
    (e.last_notification_time ≡ 0) ⊎ (e.first_notification_time ≤ e.last_notification_time)

-- The time at which an escalation that has not started asks to be notified, if it is to come.
abbrev pub wish : ℕ → ℕ → Master → Notified → Escalation → Option ℕ
wish now std_time n i e =
    if elem e.name n.already_start_escalations
    then none
    else elim (get_next_notif_time e std_time i.state n.creation_time i.interval_length) [
      | none ↦ none
      | some t ↦ if ltb now t then some t else none
    ]

abbrev pub IsBy : ℕ → Option ℕ → Type 0
IsBy res none = Unit
IsBy res (some t) = res ≤ t

-- Not later than the wish of any escalation.
abbrev pub IsByAll : ℕ → ℕ → Master → Notified → List Escalation → ℕ → Type 0
IsByAll now std_time n i [] res = Unit
IsByAll now std_time n i (e ∷ es) res =
    IsBy res (wish now std_time n i e) × IsByAll now std_time n i es res

step :
    (a b : Bool) (t res : ℕ)
    → (b ≡ true → t ≤ res)
    → (b ≡ false → res ≤ t)
    → let w = if a && b then t else res in
      let v = if a then some t else none in (w ≤ res) × IsBy w v × ((w ≡ res) ⊎ (v ≡ some w))
step true true t res f g = (f refl, omega arith, inr refl)
step true false t res f g = (omega arith, g refl, inl refl)
step false b t res f g = (omega arith, tt, inl refl)

-- One turn of the loop.
earlier-wish :
    (now std_time : ℕ) (n : Master) (i : Notified) (e : Escalation) (res : ℕ)
    → let w = earlier now std_time n i e res in
      (w ≤ res)
      × IsBy w (wish now std_time n i e)
      × ((w ≡ res) ⊎ (wish now std_time n i e ≡ some w))
unfolding earlier
earlier-wish now std_time n i e res =
    turn (elem e.name n.already_start_escalations)
      (get_next_notif_time e std_time i.state n.creation_time i.interval_length)
  where
    turn :
        (b : Bool) (o : Option ℕ)
        → let w =
            if b
            then res
            else elim o [ none ↦ res | some t ↦ if ltb now t && ltb t res then t else res ] in
          let v =
            if b
            then none
            else elim o [ none ↦ none | some t ↦ if ltb now t then some t else none ] in
          (w ≤ res) × IsBy w v × ((w ≡ res) ⊎ (v ≡ some w))
    turn true o = (omega arith, tt, inl refl)
    turn false none = (omega arith, tt, inl refl)
    turn false (some t) = step (ltb now t) (ltb t res) t res (λ e. ground arith) (λ e. ground arith)

IsBy-mono : (o : Option ℕ) (v w : ℕ) → v ≤ w → IsBy w o → IsBy v o
IsBy-mono none v w h b = tt
IsBy-mono (some t) v w h b = omega arith

-- The result of the loop is the least of the wishes and of what it begins with.
earliest-IsByAll :
    (now std_time : ℕ) (n : Master) (i : Notified) (es : List Escalation) (res : ℕ)
    → let w = earliest now std_time n i es res in
      (w ≤ res)
      × IsByAll now std_time n i es w
      × ((w ≡ res) ⊎ ((e : Escalation) × Memᴰ e es × (wish now std_time n i e ≡ some w)))
unfolding earliest
earliest-IsByAll now std_time n i [] res = (omega arith, tt, inl refl)
earliest-IsByAll now std_time n i (e ∷ es) res =
    let v = earlier now std_time n i e res in
    let w = earliest now std_time n i es v in
    let (l, b, c) = earlier-wish now std_time n i e res in
    let (m, d, f) = earliest-IsByAll now std_time n i es v in
    (
      omega arith,
      (IsBy-mono (wish now std_time n i e) w v m b, d),
      elim f [
        | inl q ↦ elim c [
          | inl r ↦ inl (q ∙ r)
          | inr r ↦ inr (e, Memᴰ.head refl, r ∙ ap some (sym q))
        ]
        | inr (e', k, r) ↦ inr (e', Memᴰ.tail k, r)
      ],
    )

-- The standard time is not past.
standard_time-le : (now : ℕ) (n : Master) (i : Notified) → now ≤ standard_time now n i
unfolding standard_time
standard_time-le now n i = ground arith

wish_some :
    (now : ℕ) (b : Bool) (o : Option ℕ) (w : ℕ)
    → (if b then none else elim o [ none ↦ none | some t ↦ if ltb now t then some t else none ])
      ≡ some w
    → (b ≡ false) × (o ≡ some w) × (now < w)
wish_some now b o w h = ground arith

picked :
    (a b c d : Bool) (x t : ℕ)
    → (if not a then none else if b then none else if c then none else if d then none else some x)
      ≡ some t
    → (a ≡ true) × (b ≡ false) × (c ≡ false) × (d ≡ false) × (x ≡ t)
picked a b c d x t h = ground arith

same_letter : (s : State) → s ≢ unreachable → next_letter s ≡ eligible_letter s
same_letter up n = refl
same_letter down n = refl
same_letter unreachable n = absurd (n refl)
same_letter ok n = refl
same_letter warning n = refl
same_letter critical n = refl
same_letter unknown n = refl
same_letter pending n = refl

-- At its start an escalation has begun, and it is not over.
in_times :
    (e : Escalation) (c k : ℕ)
    → IsOrdered e
    → is_out_of_times e (e.first_notification_time * k + c) c k ≡ false
in_times e c k (inl z) = ground arith
in_times e c k (inr h) = ground (arith, mul-le-mul_right k h)

next-is_eligible :
    (e : Escalation) (wished : ℕ) (s : State) (nb c k w : ℕ)
    → IsOrdered e
    → s ≢ unreachable
    → get_next_notif_time e wished s c k ≡ some w
    → is_eligible e w s nb w c k ≡ true
unfolding get_next_notif_time is_eligible
next-is_eligible e wished s nb c k w o u h =
    let start = e.first_notification_time * k + c in
    let (based, refused, _, out, q) =
      picked e.time_based (is_refused (next_letter s) e.escalation_options) (ltb wished start)
        (is_out_of_period e.escalation_period start) start w h in
    let refused' : is_refused (eligible_letter s) e.escalation_options ≡ false =
      subst (λ l. is_refused l e.escalation_options ≡ false) (same_letter s u) refused in
    subst (λ t. is_eligible e t s nb t c k ≡ true) q
      (rw (based, in_times e c k o, refused', out) refl)

-- The wish of an escalation is its start, when it is eligible.
wish-is_eligible :
    (now : ℕ) (n : Master) (i : Notified) (e : Escalation) (w : ℕ)
    → IsOrdered e
    → i.state ≢ unreachable
    → wish now (standard_time now n i) n i e ≡ some w
    → (now ≤ w)
      × (elem e.name n.already_start_escalations ≡ false)
      × (is_eligible e w i.state n.notif_nb w n.creation_time i.interval_length ≡ true)
wish-is_eligible now n i e w o u h =
    let (started, asked, later) =
      wish_some now (elem e.name n.already_start_escalations)
        (get_next_notif_time e (standard_time now n i) i.state n.creation_time i.interval_length) w
        h in
    (
      omega arith,
      started,
      next-is_eligible e (standard_time now n i) i.state n.notif_nb n.creation_time
          i.interval_length w o u asked,
    )

-- The next notification of an item that is not UNREACHABLE, with escalations that do not end before
-- they start, is due at a time that is not past, neither after the standard time nor after what an
-- escalation that has not started asks for in the future; and it is due at the standard time, or
-- when an escalation that has not started is eligible.
pub get_next_notification_time-is_eligible :
    (now : ℕ) (n : Master) (i : Notified)
    → i.state ≢ unreachable
    → ((e : Escalation) → Memᴰ e i.escalations → IsOrdered e)
    → let std_time = standard_time now n i in
      let res = get_next_notification_time now n i in
      now ≤ res
      × res ≤ std_time
      × IsByAll now std_time n i i.escalations res
      × ((res ≡ std_time)
          ⊎ ((e : Escalation) × Memᴰ e i.escalations
              × (elem e.name n.already_start_escalations ≡ false)
              × (is_eligible e res i.state n.notif_nb res n.creation_time i.interval_length
                  ≡ true)))
unfolding get_next_notification_time
get_next_notification_time-is_eligible now n i u o =
    let std_time = standard_time now n i in
    let (m, b, f) = earliest-IsByAll now std_time n i i.escalations std_time in
    elim f [
      | inl q ↦ (rw q (standard_time-le now n i), m, b, inl q)
      | inr (e, k, r) ↦
          let (l, started, eligible) =
            wish-is_eligible now n i e (earliest now std_time n i i.escalations std_time) (o e k) u
              r in
          (l, m, b, inr (e, k, started, eligible))
    ]
