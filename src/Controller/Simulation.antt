-- ===== src/Controller/Simulation.antt =====
-- The controller does the same over two storages of which one stands for the other.
use gokube_workshop_day.Prelude.{List, [], ◌∷◌}
use gokube_workshop_day.Go.Simulation.{
  Simulates, Simulates-pure, Simulates-bind, Simulates-on_result, simulation,
}
use gokube_workshop_day.Go.{Go, ok, err}
use gokube_workshop_day.Api.Types.{ReplicaSet}
use gokube_workshop_day.Storage.Interface.{Storage, Refines}
use gokube_workshop_day.Registry.Simulation.{list_pods-Simulates, get-Simulates, list-Simulates}
use gokube_workshop_day.Controller.{
  get_pods_for_replica_set, reconcile, reconcile_all, run, on_outcome, start, Outcome, returned,
  fatal, tick, done, Event,
}

module _ {S T : Type 0} {R : S → T → Type 0} {st : Storage S} {st' : Storage T}
    (r : Refines R st st') where
  reconcile-Simulates : (rs : ReplicaSet) → Simulates R (reconcile st rs) (reconcile st' rs)
  unfolding reconcile get_pods_for_replica_set
  reconcile-Simulates rs = Simulates-bind _ _ (get-Simulates r rs.name) (λ got.
      Simulates-on_result got
        (λ current_rs. Simulates-bind _ _ (list_pods-Simulates r) (λ listed.
          Simulates-on_result listed (λ pods. Simulates-pure (ok tt))
            (λ e. Simulates-pure (err e))))
        (λ e. Simulates-pure (err e)))

  reconcile_all-Simulates :
      (rss : List ReplicaSet) → Simulates R (reconcile_all st rss) (reconcile_all st' rss)
  unfolding reconcile_all
  reconcile_all-Simulates [] = search simulation
  reconcile_all-Simulates (rs ∷ rest) = Simulates-bind _ _ (reconcile-Simulates rs) (λ result.
      Simulates-on_result result (λ u. reconcile_all-Simulates rest) (λ e. Simulates-pure fatal))

  run-Simulates : Simulates R (run st) (run st')
  unfolding run
  run-Simulates =
      Simulates-bind _ _ (list-Simulates r)
        (λ listed. Simulates-on_result listed reconcile_all-Simulates (λ e. Simulates-pure fatal))

  on_outcome-Simulates :
      (outcome : Outcome) {m : Go S Outcome} {n : Go T Outcome}
      → Simulates R m n
      → Simulates R (on_outcome st outcome m) (on_outcome st' outcome n)
  on_outcome-Simulates returned h = h
  on_outcome-Simulates fatal h = Simulates-pure fatal

  pub start-Simulates : (events : List Event) → Simulates R (start st events) (start st' events)
  unfolding start
  start-Simulates [] = search simulation
  start-Simulates (done ∷ events) = search simulation
  start-Simulates (tick ∷ events) =
      Simulates-bind _ _ run-Simulates
        (λ outcome. on_outcome-Simulates outcome (start-Simulates events))
