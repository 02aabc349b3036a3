-- ===== src/Server/Keeps.antt =====
-- What each route keeps of the rows, over a storage whose calls may fail.
use gokube_workshop_day.Prelude.{Option, none, some, List, [], ◌∷◌}
use gokube_workshop_day.Go.{Go}
use gokube_workshop_day.Go.Keeps.{Keeps, Keeps-pure, Keeps-bind, keeps}
use gokube_workshop_day.Api.Validation.{Validator, ValidatorLaws}
use gokube_workshop_day.Storage.Interface.{Storage, Codec}
use gokube_workshop_day.Registry.Keeps.{
  StorageKeeps, create_node-Keeps, get_node-Keeps, update_node-Keeps, delete_node-Keeps,
  list_nodes-Keeps, get_pod-Keeps, update_pod-Keeps, delete_pod-Keeps, list_pods-Keeps,
  list_unassigned_pods-Keeps, create-Keeps, get-Keeps, update-Keeps, delete-Keeps, list-Keeps,
}
use gokube_workshop_day.Handlers.Http.{Request, Response, on_attribute}
use gokube_workshop_day.Handlers.Node as NodeHandler
use gokube_workshop_day.Handlers.Pod as PodHandler
use gokube_workshop_day.Handlers.ReplicaSet as ReplicasetHandler
use gokube_workshop_day.Server.{
  Route, get_healthz, post_pods, get_pods, get_pod, put_pod, delete_pod, get_pods_unassigned,
  post_nodes, get_nodes, get_node, put_node, delete_node, post_replicasets, get_replicasets,
  get_replicaset, put_replicaset, delete_replicaset, serve, serve_all,
}

module _ {S A : Type 0} {I : S → Type 0} where
  pub Keeps-on_attribute :
      (o : Option A) {f : A → Go S Response}
      → ((a : A) → Keeps I (f a))
      → Keeps I (on_attribute o f)
  Keeps-on_attribute (some a) h = h a
  Keeps-on_attribute none h = Keeps-pure _

pub ruleset node_rules = (
  keeps, Keeps-on_attribute, create_node-Keeps, get_node-Keeps, update_node-Keeps,
  delete_node-Keeps, list_nodes-Keeps,
)

pub ruleset pod_rules = (
  keeps, Keeps-on_attribute, get_pod-Keeps, update_pod-Keeps, delete_pod-Keeps, list_pods-Keeps,
  list_unassigned_pods-Keeps,
)

pub ruleset replicaset_rules =
    (keeps, Keeps-on_attribute, create-Keeps, get-Keeps, update-Keeps, delete-Keeps, list-Keeps)

module _ {S : Type 0} {I : S → Type 0} {c : Codec} {st : Storage S} (k : StorageKeeps I c st)
    {v : Validator} (laws : ValidatorLaws v) where
  post_nodes_route-Keeps : (req : Request) → Keeps I (NodeHandler.create_node st v req)
  unfolding NodeHandler.create_node
  post_nodes_route-Keeps req = search (node_rules, k, laws) depth 8

  get_nodes_route-Keeps : (req : Request) → Keeps I (NodeHandler.list_nodes st req)
  unfolding NodeHandler.list_nodes
  get_nodes_route-Keeps req = search (node_rules, k) depth 8

  get_node_route-Keeps :
      (req : Request)
      → Keeps I (NodeHandler.load_node_into_request st (NodeHandler.get_node st) req)
  unfolding NodeHandler.load_node_into_request NodeHandler.get_node
  get_node_route-Keeps req = search (node_rules, k) depth 8

  put_node_route-Keeps :
      (req : Request)
      → Keeps I (NodeHandler.load_node_into_request st (NodeHandler.update_node st v) req)
  unfolding NodeHandler.load_node_into_request NodeHandler.update_node
  put_node_route-Keeps req = search (node_rules, k, laws) depth 8

  delete_node_route-Keeps :
      (req : Request)
      → Keeps I (NodeHandler.load_node_into_request st (NodeHandler.delete_node st) req)
  unfolding NodeHandler.load_node_into_request NodeHandler.delete_node
  delete_node_route-Keeps req = search (node_rules, k) depth 8

  post_pods_route-Keeps : (req : Request) → Keeps I (PodHandler.create_pod st req)
  unfolding PodHandler.create_pod
  post_pods_route-Keeps req = search pod_rules depth 8

  get_pods_route-Keeps : (req : Request) → Keeps I (PodHandler.list_pods st req)
  unfolding PodHandler.list_pods
  get_pods_route-Keeps req = search (pod_rules, k) depth 8

  get_pods_unassigned_route-Keeps :
      (req : Request) → Keeps I (PodHandler.list_unassigned_pods st req)
  unfolding PodHandler.list_unassigned_pods
  get_pods_unassigned_route-Keeps req = search (pod_rules, k) depth 8

  get_pod_route-Keeps :
      (req : Request) → Keeps I (PodHandler.load_pod_into_request st (PodHandler.get_pod st) req)
  unfolding PodHandler.load_pod_into_request PodHandler.get_pod
  get_pod_route-Keeps req = search (pod_rules, k) depth 8

  put_pod_route-Keeps :
      (req : Request)
      → Keeps I (PodHandler.load_pod_into_request st (PodHandler.update_pod st v) req)
  unfolding PodHandler.load_pod_into_request PodHandler.update_pod
  put_pod_route-Keeps req = search (pod_rules, k, laws) depth 8

  delete_pod_route-Keeps :
      (req : Request) → Keeps I (PodHandler.load_pod_into_request st (PodHandler.delete_pod st) req)
  unfolding PodHandler.load_pod_into_request PodHandler.delete_pod
  delete_pod_route-Keeps req = search (pod_rules, k) depth 8

  post_replicasets_route-Keeps :
      (req : Request) → Keeps I (ReplicasetHandler.create_replicaset st req)
  unfolding ReplicasetHandler.create_replicaset
  post_replicasets_route-Keeps req = search (replicaset_rules, k) depth 8

  get_replicasets_route-Keeps :
      (req : Request) → Keeps I (ReplicasetHandler.list_replicasets st req)
  unfolding ReplicasetHandler.list_replicasets
  get_replicasets_route-Keeps req = search (replicaset_rules, k) depth 8

  get_replicaset_route-Keeps :
      (req : Request)
      → Keeps I (
          ReplicasetHandler.load_replicaset_into_request st
            (ReplicasetHandler.get_replicaset st)
            req)
  unfolding ReplicasetHandler.load_replicaset_into_request ReplicasetHandler.get_replicaset
  get_replicaset_route-Keeps req = search (replicaset_rules, k) depth 8

  put_replicaset_route-Keeps :
      (req : Request)
      → Keeps I (
          ReplicasetHandler.load_replicaset_into_request st
            (ReplicasetHandler.update_replicaset st)
            req)
  unfolding ReplicasetHandler.load_replicaset_into_request ReplicasetHandler.update_replicaset
  put_replicaset_route-Keeps req = search (replicaset_rules, k) depth 8

  delete_replicaset_route-Keeps :
      (req : Request)
      → Keeps I (
          ReplicasetHandler.load_replicaset_into_request st
            (ReplicasetHandler.delete_replicaset st)
            req)
  unfolding ReplicasetHandler.load_replicaset_into_request ReplicasetHandler.delete_replicaset
  delete_replicaset_route-Keeps req = search (replicaset_rules, k) depth 8

  pub serve-Keeps : (route : Route) (req : Request) → Keeps I (serve st v route req)
  unfolding serve
  serve-Keeps get_healthz req = search keeps
  serve-Keeps post_nodes req = post_nodes_route-Keeps req
  serve-Keeps get_nodes req = get_nodes_route-Keeps req
  serve-Keeps get_node req = get_node_route-Keeps req
  serve-Keeps put_node req = put_node_route-Keeps req
  serve-Keeps delete_node req = delete_node_route-Keeps req
  serve-Keeps post_pods req = post_pods_route-Keeps req
  serve-Keeps get_pods req = get_pods_route-Keeps req
  serve-Keeps get_pods_unassigned req = get_pods_unassigned_route-Keeps req
  serve-Keeps get_pod req = get_pod_route-Keeps req
  serve-Keeps put_pod req = put_pod_route-Keeps req
  serve-Keeps delete_pod req = delete_pod_route-Keeps req
  serve-Keeps post_replicasets req = post_replicasets_route-Keeps req
  serve-Keeps get_replicasets req = get_replicasets_route-Keeps req
  serve-Keeps get_replicaset req = get_replicaset_route-Keeps req
  serve-Keeps put_replicaset req = put_replicaset_route-Keeps req
  serve-Keeps delete_replicaset req = delete_replicaset_route-Keeps req

  pub serve_all-Keeps : (requests : List (Route × Request)) → Keeps I (serve_all st v requests)
  unfolding serve_all
  serve_all-Keeps [] = search keeps
  serve_all-Keeps ((route, req) ∷ rest) = Keeps-bind _ (serve-Keeps route req) (λ response.
      Keeps-bind _ (serve_all-Keeps rest) (λ responses. Keeps-pure (response ∷ responses)))
