-- ===== src/Timeperiod/Activation.antt =====
-- The log of activation changes of a time period (alignak/objects/timeperiod.py).
use alignak.Prelude.{
  ℕ, ◌≡◌, refl, Bool, true, false, Option, none, some, List, [], ◌∷◌, ◌>>=◌, if◌then◌else◌, ℤ, pos,
  negsuc, zero,
}
use alignak.Daterange.Calendar.{Library}
use alignak.Timeperiod.Periods.{Period, is_period_valid}

pub record Activation : Type 0 where
  pub is_active : Bool
  pub activated_once : Bool

-- The two numbers of a log entry TIMEPERIOD TRANSITION.
abbrev pub Transition : Type 0
Transition = ℤ × ℤ

abbrev pub never_active : Activation
never_active = record { is_active = false; activated_once = false }

abbrev pub number_of : Bool → ℤ
number_of true = pos 1
number_of false = pos 0

-- The change from what was active, if there is one.
abbrev pub transition : Bool → Bool → Bool → Option Transition
transition once true true = none
transition once false false = none
transition once true false = some (pos 1, pos 0)
transition true false true = some (pos 0, pos 1)
transition false false true = some (negsuc zero, pos 1)

unfoldable pub log_change : Bool → Activation → Activation × Option Transition
log_change valid a =
    let logged = transition a.activated_once a.is_active valid in
    (
      record {
        is_active = valid;
        activated_once = elim logged [ none ↦ a.activated_once | some _ ↦ true ];
      },
      logged,
    )

unfoldable pub check_and_log_activation_change :
    Library → ℕ → Period → Activation → Option (Period × Activation × Option Transition)
check_and_log_activation_change lib now p a = do
  valid ← is_period_valid lib now p
  let (next, logged) = log_change valid.1 a in some (valid.0, next, logged)

-- What is logged while the period is asked again and again, by whether it is valid.
unfoldable pub logged_of : List Bool → Activation → List Transition
logged_of [] a = []
logged_of (valid ∷ valids) a =
    let next = log_change valid a in
    let rest = logged_of valids next.0 in elim next.1 [ none ↦ rest | some entry ↦ entry ∷ rest ]

-- Entries each of which starts where the one before ended, at 1 or not, and ends at the other one.
pub data IsChain : ℤ → List Transition → Type 0 where
  no_entry : {from : ℤ} → IsChain from []
  starts :
      {es : List Transition}
      → IsChain (pos 1) es
      → IsChain (negsuc zero) ((negsuc zero, pos 1) ∷ es)
  rises : {es : List Transition} → IsChain (pos 1) es → IsChain (pos 0) ((pos 0, pos 1) ∷ es)
  falls : {es : List Transition} → IsChain (pos 0) es → IsChain (pos 1) ((pos 1, pos 0) ∷ es)

-- Where the next entry starts.
abbrev next_from : Activation → ℤ
next_from a = if a.activated_once then number_of a.is_active else negsuc zero

continued :
    (valids : List Bool) (once active : Bool)
    → (once ≡ false → active ≡ false)
    → IsChain
        (next_from (record { is_active = active; activated_once = once }))
        (logged_of valids (record { is_active = active; activated_once = once }))
unfolding logged_of log_change
continued [] once active h = no_entry
continued (true ∷ vs) true true h = continued vs true true h
continued (false ∷ vs) true true h = falls (continued vs true false (λ e. absurd (cc)))
continued (true ∷ vs) true false h = rises (continued vs true true (λ e. absurd (cc)))
continued (false ∷ vs) true false h = continued vs true false h
continued (true ∷ vs) false false h = starts (continued vs true true (λ e. absurd (cc)))
continued (false ∷ vs) false false h = continued vs false false h
continued (v ∷ vs) false true h = absurd (let e = h refl in cc)

-- However often a period that was never active is asked whether it is valid, the entries of its log
-- form a chain: the first one goes from -1 to 1, and each goes from where the one before ended to
-- the other of 0 and 1.
pub logged_of-IsChain : (valids : List Bool) → IsChain (negsuc zero) (logged_of valids never_active)
logged_of-IsChain valids = continued valids false false (λ e. refl)
