-- ===== src/Item/FlapRate.antt =====
-- Flapping detection: the samples kept, the rate, the hysteresis between the two thresholds, and the
-- results of a host that are never sampled.
use alignak.Prelude.{
  ℕ, ◌≤◌, ◌≡◌, Bool, true, false, arith, List, [], ◌∷◌, length, length-append, leb, if◌then◌else◌,
  elem,
}
use alignak.Item.Doubles.{float}
use alignak.Item.Kinds.{NotificationType, host}
use alignak.Item.Checks.{Env}
use alignak.Item.Types.{Item}
use alignak.Item.Logs.{raise_flapping_start_log_entry, raise_flapping_stop_log_entry}
use alignak.Item.Notifications.{create_notifications, remove_in_progress_notifications}
use alignak.Item.Flap.{
  push_sample, pop_first, state_change_rate, update_flapping, stop_flapping, start_flapping,
  threshold,
}
use alignak.Item.States.{set_state_from_exit_status, sample_flapping, move_state, state_of_exit}

length-pop_first : (xs : List Bool) → length (pop_first xs) ≤ length xs
length-pop_first [] = omega arith
length-pop_first (x ∷ xs) = omega arith

-- A sample more leaves the samples within the history.
pub length-push_sample :
    (n : ℕ) (b : Bool) (xs : List Bool) → length xs ≤ n → length (push_sample n b xs) ≤ n
unfolding push_sample
length-push_sample n b [] h = ground arith
length-push_sample n b (x ∷ xs) h = ground (arith, length-append xs (b ∷ []))

float_mono : (m n : ℕ) → m ≤ n → float m ≤ float n
unfolding float
float_mono m n l = grind arith

flag-create :
    (env : Env) (t : NotificationType) (i : Item)
    → (create_notifications env t i).flapping ≡ i.flapping
unfolding create_notifications
flag-create env t i = ground arith

flag-stop :
    (env : Env) (i : Item)
    → (stop_flapping env i).flapping ≡ record i.flapping { is_flapping = false }
unfolding stop_flapping raise_flapping_stop_log_entry remove_in_progress_notifications
flag-stop env i =
    let unset = record i { flapping = record i.flapping { is_flapping = false } } in
    ground (
      arith,
      flag-create env NotificationType.flapping_stop
          (remove_in_progress_notifications true (raise_flapping_stop_log_entry unset)),
    )

flag-start :
    (env : Env) (i : Item)
    → (start_flapping env i).flapping ≡ record i.flapping { is_flapping = true }
unfolding start_flapping raise_flapping_start_log_entry remove_in_progress_notifications
flag-start env i =
    let set = record i { flapping = record i.flapping { is_flapping = true } } in
    ground (
      arith,
      flag-create env NotificationType.flapping_start
          (remove_in_progress_notifications true (raise_flapping_start_log_entry set)),
    )

abbrev low_of : Item → ℕ
low_of i = threshold i.low_flap_threshold i.global_low_flap_threshold

abbrev high_of : Item → ℕ
high_of i = threshold i.high_flap_threshold i.global_high_flap_threshold

-- The reference: below the history nothing changes, then a rate under the low threshold ends the
-- flapping, one that reaches the high threshold begins it, and one between keeps it.
abbrev pub hysteresis : Bool → ℕ → ℕ → ℕ → Bool → Bool
hysteresis is_full rate low high was =
    if is_full then (if was then leb low rate else leb high rate) else was

-- With the low threshold at most the high one, the flapping flag follows the hysteresis, so that it
-- never ends and begins in one update; the rate of the samples, a float with its roundings, is
-- recorded, and they stay.
pub update_flapping-hysteresis :
    (env : Env) (i : Item)
    → low_of i ≤ high_of i
    → let n = i.flap_history in
      let rate = state_change_rate n i.flapping_changes in
      (update_flapping env i).flapping ≡ record {
        is_flapping =
            hysteresis
              (leb n (length i.flapping_changes))
              rate
              (float (low_of i))
              (float (high_of i))
              i.is_flapping;
        flapping_changes = i.flapping_changes;
        percent_state_change = rate;
      }
unfolding update_flapping
update_flapping-hysteresis env i h =
    let ordered = float_mono (low_of i) (high_of i) h in
    let rate = state_change_rate i.flap_history i.flapping_changes in
    let rated = record i { flapping = record i.flapping { percent_state_change = rate } } in
    ground
      (arith, flag-stop env rated, flag-start env rated, flag-start env (stop_flapping env rated))

-- A host that comes UP is sampled under the letter 'u' only: without that letter among its options
-- a result 0 leaves the flapping detection as it was, even where the letter 'o' is there.
host_up_unsampled :
    (env : Env) (i : Item)
    → i.my_type ≡ host
    → elem b'u' i.flap_detection_options ≡ false
    → (set_state_from_exit_status env 0 i).flapping ≡ i.flapping
unfolding set_state_from_exit_status sample_flapping move_state state_of_exit
host_up_unsampled env i t h = ground arith
