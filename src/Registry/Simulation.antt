-- ===== src/Registry/Simulation.antt =====
-- Each registry does the same over two storages of which one stands for the other.
use gokube_workshop_day.Prelude.{Text}
use gokube_workshop_day.Go.Simulation.{Simulates, simulation}
use gokube_workshop_day.Api.Types.{Node, Pod, PodStatus, ReplicaSet}
use gokube_workshop_day.Api.Validation.{Validator}
use gokube_workshop_day.Storage.Interface.{Storage, Refines}
use gokube_workshop_day.Registry.Node.{create_node, get_node, update_node, delete_node, list_nodes}
use gokube_workshop_day.Registry.Pod.{
  create_pod, get_pod, update_pod, delete_pod, list_pods, list_pods_by_status, list_unassigned_pods,
  list_pending_pods,
}
use gokube_workshop_day.Registry.ReplicaSet as ReplicaSets

module _ {S T : Type 0} {R : S → T → Type 0} {st : Storage S} {st' : Storage T}
    (r : Refines R st st') where
  pub create_node-Simulates :
      (v : Validator) (node : Node) → Simulates R (create_node st v node) (create_node st' v node)
  unfolding create_node
  create_node-Simulates v node = search (simulation, r.get, r.create)

  pub get_node-Simulates : (name : Text) → Simulates R (get_node st name) (get_node st' name)
  unfolding get_node
  get_node-Simulates name = search (simulation, r.get)

  pub update_node-Simulates :
      (v : Validator) (node : Node) → Simulates R (update_node st v node) (update_node st' v node)
  unfolding update_node
  update_node-Simulates v node = search (simulation, r.update)

  pub delete_node-Simulates :
      (name : Text) → Simulates R (delete_node st name) (delete_node st' name)
  unfolding delete_node
  delete_node-Simulates name = r.delete _

  pub list_nodes-Simulates : Simulates R (list_nodes st) (list_nodes st')
  unfolding list_nodes
  list_nodes-Simulates = search (simulation, r.list)

  pub create_pod-Simulates : (pod : Pod) → Simulates R (create_pod st pod) (create_pod st' pod)
  unfolding create_pod
  create_pod-Simulates pod = search simulation

  pub get_pod-Simulates : (name : Text) → Simulates R (get_pod st name) (get_pod st' name)
  unfolding get_pod
  get_pod-Simulates name = search (simulation, r.get)

  pub update_pod-Simulates :
      (v : Validator) (pod : Pod) → Simulates R (update_pod st v pod) (update_pod st' v pod)
  unfolding update_pod
  update_pod-Simulates v pod = search (simulation, r.update)

  pub delete_pod-Simulates : (name : Text) → Simulates R (delete_pod st name) (delete_pod st' name)
  unfolding delete_pod
  delete_pod-Simulates name = r.delete _

  pub list_pods-Simulates : Simulates R (list_pods st) (list_pods st')
  unfolding list_pods
  list_pods-Simulates = search (simulation, r.list)

  list_pods_by_status-Simulates :
      (status : PodStatus)
      → Simulates R (list_pods_by_status st status) (list_pods_by_status st' status)
  unfolding list_pods_by_status
  list_pods_by_status-Simulates status = search (simulation, r.list)

  pub list_unassigned_pods-Simulates :
      Simulates R (list_unassigned_pods st) (list_unassigned_pods st')
  unfolding list_unassigned_pods
  list_unassigned_pods-Simulates = search (simulation, r.list)

  pub list_pending_pods-Simulates : Simulates R (list_pending_pods st) (list_pending_pods st')
  unfolding list_pending_pods
  list_pending_pods-Simulates = search (simulation, r.list)

  pub create-Simulates :
      (rs : ReplicaSet) → Simulates R (ReplicaSets.create st rs) (ReplicaSets.create st' rs)
  unfolding ReplicaSets.create
  create-Simulates rs = search (simulation, r.get, r.create)

  pub get-Simulates :
      (name : Text) → Simulates R (ReplicaSets.get st name) (ReplicaSets.get st' name)
  unfolding ReplicaSets.get
  get-Simulates name = search (simulation, r.get)

  pub update-Simulates :
      (rs : ReplicaSet) → Simulates R (ReplicaSets.update st rs) (ReplicaSets.update st' rs)
  unfolding ReplicaSets.update
  update-Simulates rs = search (simulation, r.get, r.update)

  pub delete-Simulates :
      (name : Text) → Simulates R (ReplicaSets.delete st name) (ReplicaSets.delete st' name)
  unfolding ReplicaSets.delete
  delete-Simulates name = r.delete _

  pub list-Simulates : Simulates R (ReplicaSets.list st) (ReplicaSets.list st')
  unfolding ReplicaSets.list
  list-Simulates = search (simulation, r.list)
