-- ===== src/Item/Kinds.antt =====
-- The kinds of items, states and messages: alignak/objects/schedulingitem.py, host.py, service.py.
use alignak.Prelude.{ℕ, ◌≡◌, ◌↔◌, refl, Bool, true, arith, ◌==◌}

pub data MyType : Type 0 where
  host service : MyType

pub data State : Type 0 where
  up down unreachable ok warning critical unknown pending : State

pub data StateType : Type 0 where
  soft hard : StateType

pub data ActStatus : Type 0 where
  scheduled launched in_poller queued wait_dependent wait_me timeout done zombie wait_consume :
      ActStatus

pub data NotificationType : Type 0 where
  problem recovery acknowledgement flapping_start flapping_stop flapping_disabled downtime_start
        downtime_end downtime_cancelled custom :
      NotificationType

rank : State → ℕ
rank up = 0
rank down = 1
rank unreachable = 2
rank ok = 3
rank warning = 4
rank critical = 5
rank unknown = 6
rank pending = 7

-- `==` on the state's name.
unfoldable pub same : State → State → Bool
unfolding rank
same s t = rank s == rank t

same-true : (s t : State) → same s t ≡ true → s ≡ t
unfolding same
same-true s t h = ground arith

same_refl : (s : State) → same s s ≡ true
unfolding same
same_refl up = refl
same_refl _ = refl

pub same_iff : (s t : State) → (same s t ≡ true) ↔ (s ≡ t)
same_iff s t = (same-true s t, λ e. ground (arith, same_refl s))
