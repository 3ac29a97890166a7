-- ===== src/Item/Flap.antt =====
-- Flapping detection: `add_flapping_change` and `update_flapping` of
-- alignak/objects/schedulingitem.py. The rate is a float, with the roundings of each operation. A
-- history of 0 samples, which divides by 0, is not modelled.
use alignak.Prelude.{
  ℕ, suc, Bool, true, false, not, ◌&&◌, ◌||◌, Option, none, some, List, [], ◌∷◌, ◌++◌, length, ltb,
  leb, if◌then◌else◌,
}
use alignak.Item.Checks.{Env}
use alignak.Item.Doubles.{Double, float, tenths, float_add, float_sub, float_mul, float_div}
use alignak.Item.Kinds.{flapping_start, flapping_stop}
use alignak.Item.Types.{Item, update_status}
use alignak.Item.Logs.{add_brok, raise_flapping_start_log_entry, raise_flapping_stop_log_entry}
use alignak.Item.Notifications.{create_notifications, remove_in_progress_notifications}

-- `l.pop(0)`
abbrev pub pop_first : List Bool → List Bool
pop_first [] = []
pop_first (x ∷ xs) = xs

unfoldable pub push_sample : ℕ → Bool → List Bool → List Bool
push_sample flap_history sample changes =
    let longer = changes ++ sample ∷ [] in
    if ltb flap_history (length longer) then pop_first longer else longer

unfoldable pub add_flapping_change : Bool → Item → Item
unfolding push_sample
add_flapping_change sample i =
    if not i.flap_detection_enabled || not i.enable_flap_detection then i else record i {
      flapping = record i.flapping {
        flapping_changes = push_sample i.flap_history sample i.flapping_changes;
      };
    }

-- `i * (1.2 - 0.8) / flap_history + 0.8`
unfoldable pub change_weight : ℕ → ℕ → Double
unfolding float_add float_sub float_mul float_div tenths
change_weight n i =
    float_add (float_div (float_mul (float_sub (tenths 12) (tenths 8)) i) n) (tenths 8)

-- The loop over the samples from position i + 1 on.
unfoldable pub rate_from : ℕ → ℕ → Double → List Bool → Double
unfolding change_weight float_add
rate_from n i res [] = res
rate_from n i res (changed ∷ rest) =
    rate_from n (suc i) (if changed then float_add res (change_weight n (suc i)) else res) rest

-- In percent.
unfoldable pub state_change_rate : ℕ → List Bool → Double
unfolding rate_from float_div float_mul
state_change_rate n changes = float_mul (float_div (rate_from n 0 0 changes) n) 100

abbrev pub threshold : Option ℕ → ℕ → ℕ
threshold none global = global
threshold (some t) global = t

unfoldable pub stop_flapping : Env → Item → Item
unfolding add_brok raise_flapping_stop_log_entry
stop_flapping env i = add_brok update_status (
    create_notifications env flapping_stop (
      remove_in_progress_notifications true (
        raise_flapping_stop_log_entry
          (record i { flapping = record i.flapping { is_flapping = false } }))))

unfoldable pub start_flapping : Env → Item → Item
unfolding add_brok raise_flapping_start_log_entry
start_flapping env i = add_brok update_status (
    create_notifications env flapping_start (
      remove_in_progress_notifications true (
        raise_flapping_start_log_entry
          (record i { flapping = record i.flapping { is_flapping = true } }))))

unfoldable pub update_flapping : Env → Item → Item
update_flapping env i =
    let n = i.flap_history in
    let res = state_change_rate n i.flapping_changes in
    let rated = record i { flapping = record i.flapping { percent_state_change = res } } in
    let is_full = leb n (length i.flapping_changes) in
    let low = float (threshold i.low_flap_threshold i.global_low_flap_threshold) in
    let high = float (threshold i.high_flap_threshold i.global_high_flap_threshold) in
    let stopped =
      if rated.is_flapping && ltb res low && is_full then stop_flapping env rated else rated in
    if not stopped.is_flapping && leb high res && is_full
    then start_flapping env stopped
    else stopped
