-- ===== src/Server/Errors.antt =====
-- Over the ordered map: what a response says of the rows that its request leaves.
use gokube_workshop_day.Prelude.{◌≡◌, ◌⊎◌, ◌≤◌, Bool, true, false, arith}
use gokube_workshop_day.Api.Validation.{Validator}
use gokube_workshop_day.Storage.Interface.{Codec}
use gokube_workshop_day.Storage.Rows.{Rows, map_storage, put_row}
use gokube_workshop_day.Registry.Node as Nodes
use gokube_workshop_day.Registry.Pod as Pods
use gokube_workshop_day.Registry.ReplicaSet as ReplicaSets
use gokube_workshop_day.Handlers.Http.{Request}
use gokube_workshop_day.Handlers.Node as NodeHandler
use gokube_workshop_day.Handlers.Pod as PodHandler
use gokube_workshop_day.Handlers.ReplicaSet as ReplicasetHandler
use gokube_workshop_day.Server.{
  Route, get_healthz, post_pods, get_pods, get_pod, get_pods_unassigned, get_nodes, get_node,
  get_replicasets, get_replicaset, serve,
}

-- The routes registered with `ws.GET`.
abbrev pub is_get : Route → Bool
is_get get_healthz = true
is_get get_pods = true
is_get get_pod = true
is_get get_pods_unassigned = true
is_get get_nodes = true
is_get get_node = true
is_get get_replicasets = true
is_get get_replicaset = true
is_get _ = false

module _ (c : Codec) (v : Validator) (rows : Rows) where
  -- Where no call of the storage fails but by the codec, a response with an error status leaves every row
  -- as it was.
  pub error_keeps_rows :
      (route : Route) (req : Request)
      → 400 ≤ (serve (map_storage c) v route req rows).0.status
      → (serve (map_storage c) v route req rows).1 ≡ rows
  unfolding serve put_row Nodes.create_node Nodes.get_node Nodes.update_node Nodes.delete_node
      Nodes.list_nodes NodeHandler.create_node NodeHandler.load_node_into_request
      NodeHandler.get_node NodeHandler.update_node NodeHandler.delete_node NodeHandler.list_nodes
      Pods.get_pod Pods.update_pod Pods.delete_pod Pods.list_pods Pods.list_unassigned_pods
      PodHandler.load_pod_into_request PodHandler.create_pod PodHandler.list_pods PodHandler.get_pod
      PodHandler.update_pod PodHandler.delete_pod PodHandler.list_unassigned_pods ReplicaSets.create
      ReplicaSets.get ReplicaSets.update ReplicaSets.delete ReplicaSets.list
      ReplicasetHandler.load_replicaset_into_request ReplicasetHandler.create_replicaset
      ReplicasetHandler.get_replicaset ReplicasetHandler.update_replicaset
      ReplicasetHandler.delete_replicaset ReplicasetHandler.list_replicasets
  error_keeps_rows get_healthz req h = ground arith
  error_keeps_rows _ req h = ground arith

  -- A request on a GET route leaves every row as it was, and so does a POST of a pod, whatever it
  -- answers.
  pub read_changes_nothing :
      (route : Route) (req : Request)
      → (is_get route ≡ true) ⊎ (route ≡ post_pods)
      → (serve (map_storage c) v route req rows).1 ≡ rows
  unfolding serve Nodes.get_node Nodes.list_nodes NodeHandler.load_node_into_request
      NodeHandler.get_node NodeHandler.list_nodes Pods.get_pod Pods.list_pods
      Pods.list_unassigned_pods PodHandler.load_pod_into_request PodHandler.create_pod
      PodHandler.list_pods PodHandler.get_pod PodHandler.list_unassigned_pods ReplicaSets.get
      ReplicaSets.list ReplicasetHandler.load_replicaset_into_request
      ReplicasetHandler.get_replicaset ReplicasetHandler.list_replicasets
  read_changes_nothing get_healthz req h = ground arith
  read_changes_nothing _ req h = ground arith
