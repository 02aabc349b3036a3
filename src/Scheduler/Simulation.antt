-- ===== src/Scheduler/Simulation.antt =====
-- The scheduler does the same over two storages of which one stands for the other.
use gokube_workshop_day.Prelude.{List, [], ◌∷◌}
use gokube_workshop_day.Go.Simulation.{Simulates, Simulates-bind, simulation}
use gokube_workshop_day.Storage.Interface.{Storage, Refines}
use gokube_workshop_day.Registry.Simulation.{list_pending_pods-Simulates, list_nodes-Simulates}
use gokube_workshop_day.Scheduler.{schedule_pending_pods, start, tick, done, Event}

module _ {S T : Type 0} {R : S → T → Type 0} {st : Storage S} {st' : Storage T}
    (r : Refines R st st') where
  schedule-Simulates : Simulates R (schedule_pending_pods st) (schedule_pending_pods st')
  unfolding schedule_pending_pods
  schedule-Simulates = search (simulation, list_pending_pods-Simulates r, list_nodes-Simulates r)

  pub scheduler_start-Simulates :
      (events : List Event) → Simulates R (start st events) (start st' events)
  unfolding start
  scheduler_start-Simulates [] = search simulation
  scheduler_start-Simulates (done ∷ events) = search simulation
  scheduler_start-Simulates (tick ∷ events) =
      Simulates-bind _ _ schedule-Simulates (λ result. scheduler_start-Simulates events)
