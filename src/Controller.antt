-- ===== src/Controller.antt =====
-- pkg/controller/replica_set_controller.go
pub mod Ownership
pub mod Runs
pub mod Simulation
use gokube_workshop_day.Prelude.{ℕ, Bool, Option, List, [], ◌∷◌, Text, keep, length}
use gokube_workshop_day.Go.{Error, Result, ok, err, Go, pure, ◌>>=◌, ◌>>◌, on_result}
use gokube_workshop_day.Api.Types.{Pod, ObjectMeta, ReplicaSet}
use gokube_workshop_day.Api.Pod.{is_owned_by, is_pod_active_and_owned_by}
use gokube_workshop_day.Storage.Interface.{Storage}
use gokube_workshop_day.Registry.Pod as Pods
use gokube_workshop_day.Registry.ReplicaSet as ReplicaSets
use gokube_workshop_day.Names.{generate_name}

-- `getPodsForReplicaSet`
unfoldable pub get_pods_for_replica_set :
    ReplicaSet → List Pod → (Pod → ObjectMeta → Bool) → Result (List Pod)
unfolding keep
get_pods_for_replica_set rs all_pods condition =
    ok (keep (λ pod. condition pod rs.object_meta) all_pods)

-- `getPodsOwnedBy`
unfoldable pub get_pods_owned_by : ReplicaSet → List Pod → Result (List Pod)
unfolding get_pods_for_replica_set
get_pods_owned_by rs pods = get_pods_for_replica_set rs pods is_owned_by

-- `generatePodNameFromReplicaSet`
unfoldable pub generate_pod_name_from_replica_set : (ℕ → ℕ) → ℕ → Text → Option Text
generate_pod_name_from_replica_set rng fuel replica_set_name =
    generate_name rng fuel replica_set_name

-- `log.Fatalf` ends the process.
pub data Outcome : Type 0 where
  returned fatal : Outcome

-- What a `select` of a ticking loop finds next.
pub data Event : Type 0 where
  tick done : Event

module _ {S : Type 0} (st : Storage S) where
  -- `Reconcile`: the pods are counted, and what follows from the count is not implemented.
  unfoldable pub reconcile : ReplicaSet → Go S (Result (Unit {0}))
  reconcile rs = do
    got ← ReplicaSets.get st rs.name
    on_result got
        (λ current_rs. do
          listed ← Pods.list_pods st
          on_result listed
              (λ all_pods.
                on_result (get_pods_for_replica_set current_rs all_pods is_pod_active_and_owned_by)
                  (λ active_pods.
                    let current_pod_count = length active_pods in
                    let desired_pod_count = current_rs.spec.replicas in pure (ok tt))
                  (λ e. pure (err e)))
              (λ e. pure (err e)))
        (λ e. pure (err e))

  -- The loop of `Run`.
  unfoldable pub reconcile_all : List ReplicaSet → Go S Outcome
  reconcile_all [] = pure returned
  reconcile_all (rs ∷ rest) = do
    result ← reconcile rs
    on_result result (λ _. reconcile_all rest) (λ _. pure fatal)

  -- `Run`
  unfoldable pub run : Go S Outcome
  run = do
    rsc_list ← ReplicaSets.list st
    on_result rsc_list (λ list. reconcile_all list) (λ _. pure fatal)

  abbrev pub on_outcome : Outcome → Go S Outcome → Go S Outcome
  on_outcome returned m = m
  on_outcome fatal m = pure fatal

  -- `Start`, over the events that its `select` finds; at the end of the list it is waiting.
  unfoldable pub start : List Event → Go S Outcome
  start [] = pure returned
  start (done ∷ events) = pure returned
  start (tick ∷ events) = do outcome ← run; on_outcome outcome (start events)
