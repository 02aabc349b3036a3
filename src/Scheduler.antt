-- ===== src/Scheduler.antt =====
-- pkg/scheduler/scheduler.go
pub mod Runs
pub mod Simulation
use gokube_workshop_day.Prelude.{
  ℤ, pos, negsuc, zero, suc, Bool, true, false, Option, none, some, List, [], ◌∷◌, if◌then◌else◌,
}
use gokube_workshop_day.Go.{Result, ok, err, Go, pure, ◌>>=◌, ◌>>◌, on_result}
use gokube_workshop_day.Api.Types.{Node}
use gokube_workshop_day.Storage.Interface.{Storage}
use gokube_workshop_day.Registry.Node as Nodes
use gokube_workshop_day.Registry.Pod as Pods

-- What a `select` of the ticking loop finds next.
pub data Event : Type 0 where
  tick done : Event

-- `time.NewTicker` panics unless its duration, in nanoseconds, is positive.
abbrev pub is_positive : ℤ → Bool
is_positive (pos zero) = false
is_positive (pos (suc n)) = true
is_positive (negsuc n) = false

module _ {S : Type 0} (st : Storage S) where
  -- The test `len(nodes) == 0`; the choice of nodes that should follow is not implemented.
  abbrev with_nodes : List Node → Result (Unit {0})
  with_nodes [] = err []
  with_nodes (node ∷ nodes) = ok tt

  -- `schedulePendingPods`
  unfoldable pub schedule_pending_pods : Go S (Result (Unit {0}))
  schedule_pending_pods = do
    pending ← Pods.list_pending_pods st
    on_result pending
        (λ pods. do
          listed ← Nodes.list_nodes st
          on_result listed (λ nodes. pure (with_nodes nodes)) (λ _. pure (err [])))
        (λ _. pure (err []))

  -- `Start`, over the events that its `select` finds; an error is only printed.
  unfoldable pub start : List Event → Go S (Unit {0})
  start [] = pure tt
  start (done ∷ events) = pure tt
  start (tick ∷ events) = do schedule_pending_pods; start events

  -- `Start` of a scheduler with that scheduling rate; `none` is the panic.
  unfoldable pub start_every : ℤ → List Event → Go S (Option (Unit {0}))
  start_every scheduling_rate events =
      if is_positive scheduling_rate then (do start events; pure (some tt)) else pure none
