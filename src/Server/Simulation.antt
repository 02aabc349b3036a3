-- ===== src/Server/Simulation.antt =====
-- The server does the same over two storages of which one stands for the other; over EtcdStorage
-- it does what it does over the ordered map.
use gokube_workshop_day.Prelude.{true, ◌≡◌, refl, none, some, Option, List, [], ◌∷◌}
use gokube_workshop_day.Go.{Go}
use gokube_workshop_day.Go.Simulation.{Simulates, Simulates-pure, Simulates-bind, simulation}
use gokube_workshop_day.Api.Validation.{Validator}
use gokube_workshop_day.Storage.Interface.{Storage, Codec, Refines}
use gokube_workshop_day.Storage.Rows.{map_storage}
use gokube_workshop_day.Storage.Etcd.{EtcdClient, EtcdLaws, etcd_storage}
use gokube_workshop_day.Storage.Refinement.{etcd_storage-Refines}
use gokube_workshop_day.Registry.Simulation.{
  create_node-Simulates, get_node-Simulates, update_node-Simulates, delete_node-Simulates,
  list_nodes-Simulates, get_pod-Simulates, update_pod-Simulates, delete_pod-Simulates,
  list_pods-Simulates, list_unassigned_pods-Simulates, create-Simulates, get-Simulates,
  update-Simulates, delete-Simulates, list-Simulates,
}
use gokube_workshop_day.Handlers.Http.{Request, Response, on_attribute}
use gokube_workshop_day.Handlers.Node as NodeHandler
use gokube_workshop_day.Handlers.Pod as PodHandler
use gokube_workshop_day.Handlers.ReplicaSet as ReplicasetHandler
use gokube_workshop_day.Server.{
  Route, get_healthz, post_pods, get_pods, get_pod, put_pod, delete_pod, get_pods_unassigned,
  post_nodes, get_nodes, get_node, put_node, delete_node, post_replicasets, get_replicasets,
  get_replicaset, put_replicaset, delete_replicaset, serve, serve_all,
}

module _ {S T A : Type 0} {R : S → T → Type 0} where
  Simulates-on_attribute :
      (o : Option A) {f : A → Go S Response} {f' : A → Go T Response}
      → ((a : A) → Simulates R (f a) (f' a))
      → Simulates R (on_attribute o f) (on_attribute o f')
  Simulates-on_attribute (some a) h = h a
  Simulates-on_attribute none h = Simulates-pure _

ruleset node_rules = (
  simulation, Simulates-on_attribute, create_node-Simulates, get_node-Simulates,
  update_node-Simulates, delete_node-Simulates, list_nodes-Simulates,
)

ruleset pod_rules = (
  simulation, Simulates-on_attribute, get_pod-Simulates, update_pod-Simulates, delete_pod-Simulates,
  list_pods-Simulates, list_unassigned_pods-Simulates,
)

ruleset replicaset_rules = (
  simulation, Simulates-on_attribute, create-Simulates, get-Simulates, update-Simulates,
  delete-Simulates, list-Simulates,
)

module _ {S T : Type 0} {R : S → T → Type 0} {st : Storage S} {st' : Storage T}
    (r : Refines R st st') (v : Validator) where
  post_nodes_route-Simulates :
      (req : Request)
      → Simulates R (NodeHandler.create_node st v req) (NodeHandler.create_node st' v req)
  unfolding NodeHandler.create_node
  post_nodes_route-Simulates req = search (node_rules, r) depth 8

  get_nodes_route-Simulates :
      (req : Request) → Simulates R (NodeHandler.list_nodes st req) (NodeHandler.list_nodes st' req)
  unfolding NodeHandler.list_nodes
  get_nodes_route-Simulates req = search (node_rules, r) depth 8

  get_node_route-Simulates :
      (req : Request)
      → Simulates R
          (NodeHandler.load_node_into_request st (NodeHandler.get_node st) req)
          (NodeHandler.load_node_into_request st' (NodeHandler.get_node st') req)
  unfolding NodeHandler.load_node_into_request NodeHandler.get_node
  get_node_route-Simulates req = search (node_rules, r) depth 8

  put_node_route-Simulates :
      (req : Request)
      → Simulates R
          (NodeHandler.load_node_into_request st (NodeHandler.update_node st v) req)
          (NodeHandler.load_node_into_request st' (NodeHandler.update_node st' v) req)
  unfolding NodeHandler.load_node_into_request NodeHandler.update_node
  put_node_route-Simulates req = search (node_rules, r) depth 8

  delete_node_route-Simulates :
      (req : Request)
      → Simulates R
          (NodeHandler.load_node_into_request st (NodeHandler.delete_node st) req)
          (NodeHandler.load_node_into_request st' (NodeHandler.delete_node st') req)
  unfolding NodeHandler.load_node_into_request NodeHandler.delete_node
  delete_node_route-Simulates req = search (node_rules, r) depth 8

  post_pods_route-Simulates :
      (req : Request) → Simulates R (PodHandler.create_pod st req) (PodHandler.create_pod st' req)
  unfolding PodHandler.create_pod
  post_pods_route-Simulates req = search pod_rules depth 8

  get_pods_route-Simulates :
      (req : Request) → Simulates R (PodHandler.list_pods st req) (PodHandler.list_pods st' req)
  unfolding PodHandler.list_pods
  get_pods_route-Simulates req = search (pod_rules, r) depth 8

  get_pods_unassigned_route-Simulates :
      (req : Request)
      → Simulates R
          (PodHandler.list_unassigned_pods st req)
          (PodHandler.list_unassigned_pods st' req)
  unfolding PodHandler.list_unassigned_pods
  get_pods_unassigned_route-Simulates req = search (pod_rules, r) depth 8

  get_pod_route-Simulates :
      (req : Request)
      → Simulates R
          (PodHandler.load_pod_into_request st (PodHandler.get_pod st) req)
          (PodHandler.load_pod_into_request st' (PodHandler.get_pod st') req)
  unfolding PodHandler.load_pod_into_request PodHandler.get_pod
  get_pod_route-Simulates req = search (pod_rules, r) depth 8

  put_pod_route-Simulates :
      (req : Request)
      → Simulates R
          (PodHandler.load_pod_into_request st (PodHandler.update_pod st v) req)
          (PodHandler.load_pod_into_request st' (PodHandler.update_pod st' v) req)
  unfolding PodHandler.load_pod_into_request PodHandler.update_pod
  put_pod_route-Simulates req = search (pod_rules, r) depth 8

  delete_pod_route-Simulates :
      (req : Request)
      → Simulates R
          (PodHandler.load_pod_into_request st (PodHandler.delete_pod st) req)
          (PodHandler.load_pod_into_request st' (PodHandler.delete_pod st') req)
  unfolding PodHandler.load_pod_into_request PodHandler.delete_pod
  delete_pod_route-Simulates req = search (pod_rules, r) depth 8

  post_replicasets_route-Simulates :
      (req : Request)
      → Simulates R
          (ReplicasetHandler.create_replicaset st req)
          (ReplicasetHandler.create_replicaset st' req)
  unfolding ReplicasetHandler.create_replicaset
  post_replicasets_route-Simulates req = search (replicaset_rules, r) depth 8

  get_replicasets_route-Simulates :
      (req : Request)
      → Simulates R
          (ReplicasetHandler.list_replicasets st req)
          (ReplicasetHandler.list_replicasets st' req)
  unfolding ReplicasetHandler.list_replicasets
  get_replicasets_route-Simulates req = search (replicaset_rules, r) depth 8

  get_replicaset_route-Simulates :
      (req : Request)
      → Simulates R
          (ReplicasetHandler.load_replicaset_into_request st
            (ReplicasetHandler.get_replicaset st)
            req)
          (ReplicasetHandler.load_replicaset_into_request st'
            (ReplicasetHandler.get_replicaset st')
            req)
  unfolding ReplicasetHandler.load_replicaset_into_request ReplicasetHandler.get_replicaset
  get_replicaset_route-Simulates req = search (replicaset_rules, r) depth 8

  put_replicaset_route-Simulates :
      (req : Request)
      → Simulates R
          (ReplicasetHandler.load_replicaset_into_request st
            (ReplicasetHandler.update_replicaset st)
            req)
          (ReplicasetHandler.load_replicaset_into_request st'
            (ReplicasetHandler.update_replicaset st')
            req)
  unfolding ReplicasetHandler.load_replicaset_into_request ReplicasetHandler.update_replicaset
  put_replicaset_route-Simulates req = search (replicaset_rules, r) depth 8

  delete_replicaset_route-Simulates :
      (req : Request)
      → Simulates R
          (ReplicasetHandler.load_replicaset_into_request st
            (ReplicasetHandler.delete_replicaset st)
            req)
          (ReplicasetHandler.load_replicaset_into_request st'
            (ReplicasetHandler.delete_replicaset st')
            req)
  unfolding ReplicasetHandler.load_replicaset_into_request ReplicasetHandler.delete_replicaset
  delete_replicaset_route-Simulates req = search (replicaset_rules, r) depth 8

  pub serve-Simulates :
      (route : Route) (req : Request) → Simulates R (serve st v route req) (serve st' v route req)
  unfolding serve
  serve-Simulates get_healthz req = search simulation
  serve-Simulates post_nodes req = post_nodes_route-Simulates req
  serve-Simulates get_nodes req = get_nodes_route-Simulates req
  serve-Simulates get_node req = get_node_route-Simulates req
  serve-Simulates put_node req = put_node_route-Simulates req
  serve-Simulates delete_node req = delete_node_route-Simulates req
  serve-Simulates post_pods req = post_pods_route-Simulates req
  serve-Simulates get_pods req = get_pods_route-Simulates req
  serve-Simulates get_pods_unassigned req = get_pods_unassigned_route-Simulates req
  serve-Simulates get_pod req = get_pod_route-Simulates req
  serve-Simulates put_pod req = put_pod_route-Simulates req
  serve-Simulates delete_pod req = delete_pod_route-Simulates req
  serve-Simulates post_replicasets req = post_replicasets_route-Simulates req
  serve-Simulates get_replicasets req = get_replicasets_route-Simulates req
  serve-Simulates get_replicaset req = get_replicaset_route-Simulates req
  serve-Simulates put_replicaset req = put_replicaset_route-Simulates req
  serve-Simulates delete_replicaset req = delete_replicaset_route-Simulates req

  pub serve_all-Simulates :
      (requests : List (Route × Request))
      → Simulates R (serve_all st v requests) (serve_all st' v requests)
  unfolding serve_all
  serve_all-Simulates [] = search simulation
  serve_all-Simulates ((route, req) ∷ rest) =
      Simulates-bind _ _ (serve-Simulates route req) (λ response.
        Simulates-bind _ _ (serve_all-Simulates rest)
          (λ responses. Simulates-pure (response ∷ responses)))

module _ {S : Type 0} {client : EtcdClient S} (laws : EtcdLaws client) (c : Codec) where
  -- Served over etcd while it is up, any sequence of requests has the responses that it has over
  -- the ordered map of encoded objects, and leaves etcd up and holding what the map then holds.
  pub serve_all-etcd :
      (v : Validator) (requests : List (Route × Request)) (s : S)
      → laws.up s ≡ true
      → ((serve_all (etcd_storage client c) v requests s).0
          ≡ (serve_all (map_storage c) v requests (laws.rows s)).0)
        × (laws.up (serve_all (etcd_storage client c) v requests s).1 ≡ true)
        × (laws.rows (serve_all (etcd_storage client c) v requests s).1
            ≡ (serve_all (map_storage c) v requests (laws.rows s)).1)
  serve_all-etcd v requests s h =
      let (same, held) =
        (serve_all-Simulates (etcd_storage-Refines laws c) v requests).at s (laws.rows s)
          (h, refl) in
      (same, held.0, held.1)
