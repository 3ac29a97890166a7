-- ===== src/Item/DowntimeDepth.antt =====
-- The depth of an item's downtimes (alignak/downtime.py): how it goes with the downtimes in effect
-- under `enter`, `exit` and `cancel`.
use alignak.Prelude.{
  ℕ, ◌+◌, ◌≡◌, ◌≢◌, refl, Bool, true, false, not, arith, Option, none, some, List, [], ◌∷◌, ◌==◌,
  if◌then◌else◌, pos, decrement,
}
use alignak.Item.Kinds.{NotificationType, downtime_start, downtime_end}
use alignak.Item.Checks.{Env}
use alignak.Item.Types.{Item, Downtime, Acknowledge}
use alignak.Item.Logs.{raise_enter_downtime_log_entry, raise_exit_downtime_log_entry}
use alignak.Item.Notifications.{create_notifications}
use alignak.Item.Acknowledging.{acknowledge_problem, acknowledge_own_problem, del_comment_of}
use alignak.Item.Downtimes.{
  replace, place, enter, announce_enter, exit, announce_exit, cancel, announce_cancel,
}

-- The downtime kept under a uuid.
unfoldable pub find : ℕ → List Downtime → Option Downtime
find k [] = none
find k (d ∷ ds) = if d.uuid == k then some d else find k ds

abbrev weight : Bool → ℕ
weight true = 1
weight false = 0

-- How many of the downtimes are in effect.
unfoldable pub in_effect : List Downtime → ℕ
in_effect [] = 0
in_effect (d ∷ ds) = weight d.is_in_effect + in_effect ds

abbrev pub IsAbsent : ℕ → List Downtime → Type 0
IsAbsent k [] = Unit {0}
IsAbsent k (d ∷ ds) = (d.uuid ≢ k) × IsAbsent k ds

abbrev pub AreDistinct : List Downtime → Type 0
AreDistinct [] = Unit {0}
AreDistinct (d ∷ ds) = IsAbsent d.uuid ds × AreDistinct ds

replace_absent : (e : Downtime) (ds : List Downtime) → IsAbsent e.uuid ds → replace e ds ≡ ds
replace_absent e [] h = refl
replace_absent e (d ∷ ds) h = ground (arith, replace_absent e ds h.1)

in_effect-replace :
    (d e : Downtime) (ds : List Downtime)
    → AreDistinct ds
    → find d.uuid ds ≡ some d
    → e.uuid ≡ d.uuid
    → in_effect (replace e ds) + weight d.is_in_effect ≡ in_effect ds + weight e.is_in_effect
unfolding in_effect find
in_effect-replace d e [] u f h = cc
in_effect-replace d e (x ∷ ds) u f h =
    ground (arith, replace_absent e ds, in_effect-replace d e ds u.1)

-- The depth counts the downtimes in effect, and the flag says whether there is one.
pub record IsCounted (i : Item) : Type 0 where
  pub depth : i.scheduled_downtime_depth ≡ pos (in_effect i.downtimes)
  pub flag : i.in_scheduled_downtime ≡ not (in_effect i.downtimes == 0)

-- Announcements change no downtime.
same-create :
    (env : Env) (t : NotificationType) (i : Item)
    → (create_notifications env t i).in_downtime ≡ i.in_downtime
unfolding create_notifications
same-create env t i = ground arith

same-comment :
    (a : Option Acknowledge) (i : Item) → (del_comment_of a i).in_downtime ≡ i.in_downtime
unfolding del_comment_of
same-comment none i = refl
same-comment (some a) i = refl

same-acknowledge :
    (env : Env) (s : ℕ) (n : Bool) (e : ℕ) (i : Item)
    → (acknowledge_problem env s n e i).in_downtime ≡ i.in_downtime
unfolding acknowledge_problem acknowledge_own_problem
same-acknowledge env s n e i = ground (
  arith,
  same-comment i.acknowledgement i,
  same-create env NotificationType.acknowledgement i,
  same-create env NotificationType.acknowledgement (del_comment_of i.acknowledgement i),
)

same-announce_enter : (env : Env) (i : Item) → (announce_enter env i).0.in_downtime ≡ i.in_downtime
unfolding announce_enter
same-announce_enter env i =
    let logged = raise_enter_downtime_log_entry i in
    let notified = create_notifications env downtime_start logged in
    ground (arith, same-create env downtime_start logged, same-acknowledge env 2 true 0 notified)

in_downtime-enter :
    (env : Env) (d : Downtime) (i : Item)
    → (enter env d i).0.in_downtime ≡ (place env d i).in_downtime
unfolding enter
in_downtime-enter env d i = ground (arith, same-announce_enter env (place env d i))

-- A downtime that was not in effect enters: the depth still counts those in effect.
pub enter-IsCounted :
    (env : Env) (d : Downtime) (i : Item)
    → AreDistinct i.downtimes
    → find d.uuid i.downtimes ≡ some d
    → d.is_in_effect ≡ false
    → IsCounted i
    → IsCounted (enter env d i).0
unfolding place
enter-IsCounted env d i u f e h =
    let d' = record d {
      is_in_effect = true;
      real_end_time = if d.fixed then d.real_end_time else env.now + d.duration;
    } in
    ground (arith, in_downtime-enter env d i, in_effect-replace d d' i.downtimes u f refl)

in_downtime-announce_exit :
    (env : Env) (i : Item)
    → (announce_exit env i).0.in_downtime ≡ record i.in_downtime { in_scheduled_downtime = false }
unfolding announce_exit
in_downtime-announce_exit env i =
    ground (arith, same-create env downtime_end (raise_exit_downtime_log_entry i))

-- A downtime exits, in effect or not: the depth still counts those in effect.
pub exit-IsCounted :
    (env : Env) (d : Downtime) (i : Item)
    → AreDistinct i.downtimes
    → find d.uuid i.downtimes ≡ some d
    → IsCounted i
    → IsCounted (exit env d i).0
unfolding exit
exit-IsCounted env d i u f h =
    let d' = record d { is_in_effect = false; can_be_deleted = true } in
    let left = record i {
      in_downtime = record i.in_downtime {
        scheduled_downtime_depth = decrement i.scheduled_downtime_depth;
      };
    } in
    ground (arith, in_downtime-announce_exit env left, in_effect-replace d d' i.downtimes u f refl)

-- A cancelled downtime that was in effect: the depth still counts those in effect.
pub cancel-IsCounted :
    (d : Downtime) (i : Item)
    → AreDistinct i.downtimes
    → find d.uuid i.downtimes ≡ some d
    → d.is_in_effect ≡ true
    → IsCounted i
    → IsCounted (cancel d i).0
unfolding cancel announce_cancel
cancel-IsCounted d i u f e h =
    let d' = record d { is_in_effect = false; can_be_deleted = true; comment_id = 0 } in
    ground (arith, in_effect-replace d d' i.downtimes u f refl)

-- A cancelled downtime that was not in effect: the depth no longer counts those in effect.
pub cancel_pending :
    (d : Downtime) (i : Item)
    → AreDistinct i.downtimes
    → find d.uuid i.downtimes ≡ some d
    → d.is_in_effect ≡ false
    → IsCounted i
    → ¬ IsCounted (cancel d i).0
unfolding cancel announce_cancel
cancel_pending d i u f e h k =
    let d' = record d { is_in_effect = false; can_be_deleted = true; comment_id = 0 } in
    ground (arith, in_effect-replace d d' i.downtimes u f refl, k.depth)
