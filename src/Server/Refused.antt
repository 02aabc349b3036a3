-- ===== src/Server/Refused.antt =====
-- What an answer with an error status says of the rows in etcd, whichever calls of etcd fail.
use gokube_workshop_day.Prelude.{◌≡◌, ◌≤◌, ◌<◌, ◌⊎◌, true, refl, sym, ◌∙◌, arith, inl, inr}
use gokube_workshop_day.Go.{Result-cases}
use gokube_workshop_day.Api.Types.{node_kind, replica_set_kind}
use gokube_workshop_day.Api.Validation.{Validator}
use gokube_workshop_day.Storage.Interface.{Codec}
use gokube_workshop_day.Storage.Etcd as Etcd
use gokube_workshop_day.Storage.Etcd.{EtcdClient, EtcdLaws, etcd_storage}
use gokube_workshop_day.Storage.Faults.{EtcdFaults}
use gokube_workshop_day.Registry.Node as Nodes
use gokube_workshop_day.Registry.Pod as Pods
use gokube_workshop_day.Registry.ReplicaSet as ReplicaSets
use gokube_workshop_day.Handlers.Http.{Request}
use gokube_workshop_day.Handlers.Node as NodeHandler
use gokube_workshop_day.Handlers.Pod as PodHandler
use gokube_workshop_day.Handlers.ReplicaSet as ReplicasetHandler
use gokube_workshop_day.Server.{
  Route, get_healthz, post_pods, post_nodes, post_replicasets, put_replicaset, serve,
}
use gokube_workshop_day.Server.Simulation.{serve-Simulates}
use gokube_workshop_day.Server.Errors.{error_keeps_rows}
use gokube_workshop_day.Storage.Refinement.{etcd_storage-Refines}

module _ {S : Type 0} {client : EtcdClient S} (etcd : EtcdFaults client) (c : Codec)
    (v : Validator) where
  post_nodes_route :
      (req : Request) (s : S)
      → 400 ≤ (serve (etcd_storage client c) v post_nodes req s).0.status
      → (serve (etcd_storage client c) v post_nodes req s).0.status < 500
      → etcd.rows (serve (etcd_storage client c) v post_nodes req s).1 ≡ etcd.rows s
  unfolding serve Etcd.get Etcd.create Nodes.create_node NodeHandler.create_node
  post_nodes_route req s h h' = elim (Result-cases (req.read_entity node_kind)) [
    | inr (e', e) ↦ ground arith
    | inl (node, e) ↦
        ground (arith, etcd.get_law (Nodes.generate_key Nodes.node_prefix node.name) s)
  ]

  post_replicasets_route :
      (req : Request) (s : S)
      → 400 ≤ (serve (etcd_storage client c) v post_replicasets req s).0.status
      → (serve (etcd_storage client c) v post_replicasets req s).0.status < 500
      → etcd.rows (serve (etcd_storage client c) v post_replicasets req s).1 ≡ etcd.rows s
  unfolding serve Etcd.get Etcd.create ReplicaSets.create ReplicasetHandler.create_replicaset
  post_replicasets_route req s h h' = elim (Result-cases (req.read_entity replica_set_kind)) [
    | inr (e', e) ↦ ground arith
    | inl (rs, e) ↦ ground (arith, etcd.get_law (ReplicaSets.generate_key rs.name) s)
  ]

  put_replicaset_route :
      (req : Request) (s : S)
      → 400 ≤ (serve (etcd_storage client c) v put_replicaset req s).0.status
      → (serve (etcd_storage client c) v put_replicaset req s).0.status < 500
      → etcd.rows (serve (etcd_storage client c) v put_replicaset req s).1 ≡ etcd.rows s
  unfolding serve Etcd.get Etcd.update ReplicaSets.get ReplicaSets.update
      ReplicasetHandler.load_replicaset_into_request ReplicasetHandler.update_replicaset
  put_replicaset_route req s h h' =
      let key = ReplicaSets.generate_key req.name in
      elim (Result-cases (req.read_entity replica_set_kind)) [
        | inr (e', e) ↦ ground (arith, etcd.get_law key s)
        | inl (rs, e) ↦ ground (
          arith,
          etcd.get_law key s,
          etcd.get_law (ReplicaSets.generate_key rs.name) (client.get key s).1,
        )
      ]

  -- Whichever calls of etcd fail, a response that refuses the request leaves every row as it was.
  refused_changes_nothing :
      (route : Route) (req : Request) (s : S)
      → 400 ≤ (serve (etcd_storage client c) v route req s).0.status
      → (serve (etcd_storage client c) v route req s).0.status < 500
      → etcd.rows (serve (etcd_storage client c) v route req s).1 ≡ etcd.rows s
  unfolding serve Etcd.get Etcd.update Etcd.delete Etcd.list Nodes.get_node Nodes.update_node
      Nodes.delete_node Nodes.list_nodes NodeHandler.load_node_into_request NodeHandler.get_node
      NodeHandler.update_node NodeHandler.delete_node NodeHandler.list_nodes Pods.get_pod
      Pods.update_pod Pods.delete_pod Pods.list_pods Pods.list_unassigned_pods
      PodHandler.load_pod_into_request PodHandler.create_pod PodHandler.list_pods PodHandler.get_pod
      PodHandler.update_pod PodHandler.delete_pod PodHandler.list_unassigned_pods ReplicaSets.get
      ReplicaSets.delete ReplicaSets.list ReplicasetHandler.load_replicaset_into_request
      ReplicasetHandler.get_replicaset ReplicasetHandler.delete_replicaset
      ReplicasetHandler.list_replicasets
  refused_changes_nothing post_nodes req s h h' = post_nodes_route req s h h'
  refused_changes_nothing post_replicasets req s h h' = post_replicasets_route req s h h'
  refused_changes_nothing put_replicaset req s h h' = put_replicaset_route req s h h'
  refused_changes_nothing get_healthz req s h h' = ground arith
  refused_changes_nothing post_pods req s h h' = ground arith
  refused_changes_nothing _ req s h h' = ground (
    arith,
    etcd.get_law (Nodes.generate_key Nodes.node_prefix req.name) s,
    etcd.get_law (Pods.generate_key req.name) s,
    etcd.get_law (ReplicaSets.generate_key req.name) s,
    etcd.get_with_prefix_law Nodes.node_prefix s,
    etcd.get_with_prefix_law Pods.pod_prefix s,
    etcd.get_with_prefix_law ReplicaSets.replica_set_prefix s,
  )

module _ {S : Type 0} {client : EtcdClient S} (etcd : EtcdLaws client) (faults : EtcdFaults client)
    (same_rows : (s : S) → faults.rows s ≡ etcd.rows s) (c : Codec) (v : Validator) where
  -- Whatever the route and the request, a response with a status from 400 to 499 leaves every row in etcd
  -- as it was, whichever of the calls of etcd fail, before or after they have done their work. So does any
  -- response with a status of 400 or more to a request that comes while etcd is up.
  pub error_changes_nothing :
      (route : Route) (req : Request) (s : S)
      → 400 ≤ (serve (etcd_storage client c) v route req s).0.status
      → ((serve (etcd_storage client c) v route req s).0.status < 500) ⊎ (etcd.up s ≡ true)
      → etcd.rows (serve (etcd_storage client c) v route req s).1 ≡ etcd.rows s
  error_changes_nothing route req s h (inl h') =
      sym (same_rows _) ∙ refused_changes_nothing faults c v route req s h h' ∙ same_rows s
  error_changes_nothing route req s h (inr up) =
      let (answer, held) =
        (serve-Simulates (etcd_storage-Refines etcd c) v route req).at s (etcd.rows s) (up, refl) in
      held.1 ∙ error_keeps_rows c v (etcd.rows s) route req (rw answer at h)
