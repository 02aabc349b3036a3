-- ===== src/Scheduler/Runs.antt =====
-- What runs of the scheduler do over the ordered map.
use gokube_workshop_day.Prelude.{◌≡◌, ◌≢◌, ◌↔◌, refl, arith, inl, inr, List, [], ◌∷◌}
use gokube_workshop_day.Go.{ok, Result-cases}
use gokube_workshop_day.Api.Types.{Node, Pod, pod_kind, node_kind}
use gokube_workshop_day.Storage.Interface.{Codec}
use gokube_workshop_day.Storage.Rows.{Rows, map_storage, decode_rows, under}
use gokube_workshop_day.Registry.Node as Nodes
use gokube_workshop_day.Registry.Pod as Pods
use gokube_workshop_day.Scheduler.{schedule_pending_pods, start, tick, done, Event}

module _ (c : Codec) (rows : Rows) where
  schedule_rows : (schedule_pending_pods (map_storage c) rows).1 ≡ rows
  unfolding schedule_pending_pods Pods.list_pending_pods Nodes.list_nodes
  schedule_rows = ground arith

  -- However often the scheduler's ticker fires, every row stays as it was: no pod is given a node.
  pub scheduler_start_rows : (events : List Event) → (start (map_storage c) events rows).1 ≡ rows
  unfolding start
  scheduler_start_rows [] = refl
  scheduler_start_rows (done ∷ events) = refl
  scheduler_start_rows (tick ∷ events) = ground (arith, schedule_rows, scheduler_start_rows events)

  -- A scheduling round succeeds exactly if the pods can be read, and the nodes too, and there is a
  -- node.
  pub schedule_pending_pods_iff : ((schedule_pending_pods (map_storage c) rows).0 ≡ ok tt) ↔ (
      ((pods : List Pod) × ((Pods.list_pods (map_storage c) rows).0 ≡ ok pods))
      × ((nodes : List Node) × ((Nodes.list_nodes (map_storage c) rows).0 ≡ ok nodes)
          × (nodes ≢ [])))
  unfolding schedule_pending_pods Pods.list_pending_pods Nodes.list_nodes
  schedule_pending_pods_iff =
      elim (Result-cases (decode_rows c pod_kind (under Pods.pod_prefix rows))) [
        | inl (pods, e) ↦
            elim (Result-cases (decode_rows c node_kind (under Nodes.node_prefix rows))) [
              | inl (nodes, f) ↦ (
                λ h. ((pods, ground arith), (nodes, ground arith, ground arith)),
                λ h. ground arith,
              )
              | inr (x, f) ↦ (λ h. absurd (ground arith), λ h. absurd (ground arith))
            ]
        | inr (x, e) ↦ (λ h. absurd (ground arith), λ h. absurd (ground arith))
      ]
