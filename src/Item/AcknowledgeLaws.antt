-- ===== src/Item/AcknowledgeLaws.antt =====
-- What an acknowledgement of a host hands to its services, and what a host's downtime leaves behind.
use alignak.Prelude.{
  ℕ, ◌≡◌, refl, ◌∙◌, Bool, true, false, arith, Option, none, some, [], ◌∷◌, ◌++◌, ◌==◌, pos,
  decrement,
}
use alignak.Item.Kinds.{NotificationType, host, service, up, ok, same, downtime_start, downtime_end}
use alignak.Item.Checks.{Env}
use alignak.Item.Types.{Item, Acknowledge, acknowledge_services, Downtime}
use alignak.Item.Logs.{raise_enter_downtime_log_entry, raise_exit_downtime_log_entry}
use alignak.Item.Notifications.{create_notifications}
use alignak.Item.Acknowledging.{acknowledge_problem, acknowledge_own_problem, del_comment_of}
use alignak.Item.Frames.{core-create}
use alignak.Item.Downtimes.{enter, place, announce_enter, exit, announce_exit}

-- The acknowledgement of a problem.
abbrev acknowledge_of : Env → ℕ → Bool → ℕ → Acknowledge
acknowledge_of env sticky notify end_time = record {
  sticky = sticky == 2;
  notify = notify;
  end_time = end_time;
  comment_id = env.new_comment_id;
}

acknowledgement-own :
    (env : Env) (s : ℕ) (n : Bool) (e : ℕ) (i : Item)
    → (acknowledge_own_problem env s n e i).acknowledging ≡ record {
      problem_has_been_acknowledged = true;
      acknowledgement = some (acknowledge_of env s n e);
    }
unfolding acknowledge_own_problem
acknowledgement-own env s n e i = ground arith

calls-create :
    (env : Env) (t : NotificationType) (i : Item) → (create_notifications env t i).calls ≡ i.calls
unfolding create_notifications
calls-create env t i = ground arith

calls-comment : (a : Option Acknowledge) (i : Item) → (del_comment_of a i).calls ≡ i.calls
unfolding del_comment_of
calls-comment none i = refl
calls-comment (some a) i = refl

calls-own :
    (env : Env) (s : ℕ) (n : Bool) (e : ℕ) (i : Item)
    → (acknowledge_own_problem env s n e i).calls ≡ i.calls
unfolding acknowledge_own_problem
calls-own env s n e i = ground (
  arith,
  calls-comment i.acknowledgement i,
  calls-create env NotificationType.acknowledgement i,
  calls-create env NotificationType.acknowledgement (del_comment_of i.acknowledgement i),
)

-- A sticky acknowledgement (2) of a host that is not UP is sticky on the host, but what it hands to
-- its services is 1, by which the acknowledgement of a service that is not OK is not sticky.
sticky_lost :
    (env env' : Env) (notify : Bool) (end_time : ℕ) (h s : Item)
    → h.my_type ≡ host
    → same h.state up ≡ false
    → s.my_type ≡ service
    → same s.state ok ≡ false
    → ((acknowledge_problem env 2 notify end_time h).acknowledgement
        ≡ some (record {
          sticky = true;
          notify = notify;
          end_time = end_time;
          comment_id = env.new_comment_id;
        }))
      × ((acknowledge_problem env 2 notify end_time h).calls
          ≡ h.calls ++ acknowledge_services 1 notify end_time ∷ [])
      × ((acknowledge_problem env' 1 notify end_time s).acknowledgement
          ≡ some (record {
            sticky = false;
            notify = notify;
            end_time = end_time;
            comment_id = env'.new_comment_id;
          }))
unfolding acknowledge_problem
sticky_lost env env' notify end_time h s ht hs st ss = ground (
  arith,
  acknowledgement-own env 2 notify end_time h,
  calls-own env 2 notify end_time h,
  acknowledgement-own env' 1 notify end_time s,
)

kept-create :
    (env : Env) (t : NotificationType) (i : Item)
    → (create_notifications env t i).acknowledging ≡ i.acknowledging
unfolding create_notifications
kept-create env t i = ground arith

kept-exit : (env : Env) (d : Downtime) (i : Item) → (exit env d i).0.acknowledging ≡ i.acknowledging
unfolding exit announce_exit
kept-exit env d i =
    let left = record i {
      in_downtime = record i.in_downtime {
        scheduled_downtime_depth = decrement i.scheduled_downtime_depth;
      };
    } in
    ground (arith, kept-create env downtime_end (raise_exit_downtime_log_entry left))

acknowledging-enter :
    (env : Env) (d : Downtime) (i : Item)
    → i.my_type ≡ host
    → same i.state up ≡ false
    → i.scheduled_downtime_depth ≡ pos 0
    → (enter env d i).0.acknowledging ≡ record {
      problem_has_been_acknowledged = true;
      acknowledgement = some (acknowledge_of env 2 true 0);
    }
unfolding enter place announce_enter acknowledge_problem
acknowledging-enter env d i t s z =
    let logged = raise_enter_downtime_log_entry (place env d i) in
    let notified = create_notifications env downtime_start logged in
    ground (arith, core-create env downtime_start logged, acknowledgement-own env 2 true 0 notified)

-- A host that is not UP and enters its first downtime is acknowledged with a sticky acknowledgement
-- that never expires, and it is still so after the downtime's exit.
acknowledgement_outlives :
    (env env' : Env) (d d' : Downtime) (i : Item)
    → i.my_type ≡ host
    → same i.state up ≡ false
    → i.scheduled_downtime_depth ≡ pos 0
    → (exit env' d' (enter env d i).0).0.acknowledging ≡ record {
      problem_has_been_acknowledged = true;
      acknowledgement =
          some (record {
            sticky = true;
            notify = true;
            end_time = 0;
            comment_id = env.new_comment_id;
          });
    }
acknowledgement_outlives env env' d d' i t s z =
    kept-exit env' d' (enter env d i).0 ∙ acknowledging-enter env d i t s z
