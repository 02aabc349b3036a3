-- ===== src/Server.antt =====
-- pkg/api/server/server.go with the route tables of pkg/api/handlers. `serve` is given the route of a
-- request and its path parameter; Router has their choice by go-restful.
pub mod Simulation
pub mod Errors
pub mod Lifecycle
pub mod Steps
pub mod Keeps
pub mod Router
pub mod Dispatch
pub mod Interleaved
pub mod Concurrent
pub mod Restored
pub mod Refused
pub mod Cluster
use gokube_workshop_day.Prelude.{ℕ, zero, suc, Option, none, some, List, [], ◌∷◌, ◌++◌, Text, codes}
use gokube_workshop_day.Go.{Go, pure, ◌>>=◌}
use gokube_workshop_day.Api.Validation.{Validator}
use gokube_workshop_day.Storage.Interface.{Storage}
use gokube_workshop_day.Handlers.Http.{Request, Response, Handler, write_response, status_ok}
use gokube_workshop_day.Handlers.Node as NodeHandler
use gokube_workshop_day.Handlers.Pod as PodHandler
use gokube_workshop_day.Handlers.ReplicaSet as ReplicasetHandler

-- The routes that the three `Register…Routes` and `registerRoutes` add.
pub data Route : Type 0 where
  get_healthz : Route
  post_pods get_pods get_pod put_pod delete_pod get_pods_unassigned : Route
  post_nodes get_nodes get_node put_node delete_node : Route
  post_replicasets get_replicasets get_replicaset put_replicaset delete_replicaset : Route

module _ {S : Type 0} (st : Storage S) (v : Validator) where
  -- `APIServer.healthz`
  unfoldable pub healthz : Handler S
  healthz req = pure (write_response status_ok none)

  -- The handler of each route, behind its filter.
  unfoldable pub serve : Route → Handler S
  unfolding healthz
  serve get_healthz = healthz
  serve post_pods = PodHandler.create_pod st
  serve get_pods = PodHandler.list_pods st
  serve get_pod = PodHandler.load_pod_into_request st (PodHandler.get_pod st)
  serve put_pod = PodHandler.load_pod_into_request st (PodHandler.update_pod st v)
  serve delete_pod = PodHandler.load_pod_into_request st (PodHandler.delete_pod st)
  serve get_pods_unassigned = PodHandler.list_unassigned_pods st
  serve post_nodes = NodeHandler.create_node st v
  serve get_nodes = NodeHandler.list_nodes st
  serve get_node = NodeHandler.load_node_into_request st (NodeHandler.get_node st)
  serve put_node = NodeHandler.load_node_into_request st (NodeHandler.update_node st v)
  serve delete_node = NodeHandler.load_node_into_request st (NodeHandler.delete_node st)
  serve post_replicasets = ReplicasetHandler.create_replicaset st
  serve get_replicasets = ReplicasetHandler.list_replicasets st
  serve get_replicaset =
      ReplicasetHandler.load_replicaset_into_request st (ReplicasetHandler.get_replicaset st)
  serve put_replicaset =
      ReplicasetHandler.load_replicaset_into_request st (ReplicasetHandler.update_replicaset st)
  serve delete_replicaset =
      ReplicasetHandler.load_replicaset_into_request st (ReplicasetHandler.delete_replicaset st)

  -- Requests served one after another.
  unfoldable pub serve_all : List (Route × Request) → Go S (List Response)
  serve_all [] = pure []
  serve_all ((route, req) ∷ rest) = do
    response ← serve route req
    responses ← serve_all rest
    pure (response ∷ responses)

-- `RegisterPodRoutes`: the paths under /api/v1 with their methods, in the order of registration.
abbrev pub pod_routes : List (Text × Text × Route)
pod_routes =
    (codes "POST", codes "/pods", post_pods)
    ∷ (codes "GET", codes "/pods", get_pods)
    ∷ (codes "GET", codes "/pods/{name}", get_pod)
    ∷ (codes "PUT", codes "/pods/{name}", put_pod)
    ∷ (codes "DELETE", codes "/pods/{name}", delete_pod)
    ∷ (codes "GET", codes "/pods/unassigned", get_pods_unassigned)
    ∷ []

-- `RegisterNodeRoutes`
abbrev pub node_routes : List (Text × Text × Route)
node_routes =
    (codes "POST", codes "/nodes", post_nodes)
    ∷ (codes "GET", codes "/nodes", get_nodes)
    ∷ (codes "GET", codes "/nodes/{name}", get_node)
    ∷ (codes "PUT", codes "/nodes/{name}", put_node)
    ∷ (codes "DELETE", codes "/nodes/{name}", delete_node)
    ∷ []

-- `RegisterReplicasetRoutes`
abbrev pub replicaset_routes : List (Text × Text × Route)
replicaset_routes =
    (codes "POST", codes "/replicasets", post_replicasets)
    ∷ (codes "GET", codes "/replicasets", get_replicasets)
    ∷ (codes "GET", codes "/replicasets/{name}", get_replicaset)
    ∷ (codes "PUT", codes "/replicasets/{name}", put_replicaset)
    ∷ (codes "DELETE", codes "/replicasets/{name}", delete_replicaset)
    ∷ []

-- `registerRoutes`
abbrev pub registered_routes : List (Text × Text × Route)
registered_routes =
    (codes "GET", codes "/healthz", get_healthz) ∷ pod_routes ++ node_routes ++ replicaset_routes
