-- ===== src/Server/Cluster.antt =====
-- What the API server (pkg/api/server, pkg/api/handlers) is to its clients: a cluster holds at most one
-- object of each kind under a name, and an operation reads or writes one of them. Neither keys nor
-- encodings nor etcd are seen. Represents ties rows to a cluster, Refinement and Lists the server.
pub mod Keys
pub mod Represents
pub mod Changes
pub mod Nodes
pub mod Pods
pub mod ReplicaSets
pub mod Refinement
pub mod Listing
pub mod Lists
use gokube_workshop_day.Prelude.{
  ◌≡◌, Bool, true, Option, none, some, List, [], ◌∷◌, Text, same, not, if◌then◌else◌,
}
use gokube_workshop_day.Go.{
  Error, Result, ok, err, err_node_not_found, err_pod_not_found, err_replica_set_not_found,
  err_node_already_exists, err_replica_set_exists, err_node_invalid, err_pod_invalid,
}
use gokube_workshop_day.Api.Types.{
  Node, Pod, ReplicaSet, Kind, Obj, node_kind, pod_kind, replica_set_kind,
}
use gokube_workshop_day.Api.Validation.{Validator}
use gokube_workshop_day.Handlers.Http.{
  Request, Response, Entity, node_entity, pod_entity, replica_set_entity, write_response,
  write_error, status_ok, status_created, status_no_content, status_bad_request, status_not_found,
  status_conflict,
}
use gokube_workshop_day.Server.{
  Route, post_pods, get_pod, put_pod, delete_pod, post_nodes, get_node, put_node, delete_node,
  post_replicasets, get_replicaset, put_replicaset, delete_replicaset,
}

abbrev pub Cluster : Type 0
Cluster = (k : Kind) → Text → Option (Obj k)

abbrev pub name_of : (k : Kind) → Obj k → Text
name_of node_kind node = node.name
name_of pod_kind pod = pod.name
name_of replica_set_kind rs = rs.name

-- The cluster with that object under its name.
abbrev pub put : (k : Kind) → Obj k → Cluster → Cluster
put node_kind node cl node_kind name = if same node.name name then some node else cl node_kind name
put pod_kind pod cl pod_kind name = if same pod.name name then some pod else cl pod_kind name
put replica_set_kind rs cl replica_set_kind name =
    if same rs.name name then some rs else cl replica_set_kind name
put _ obj cl j name = cl j name

-- The cluster with no object of that kind under that name.
abbrev pub drop : Kind → Text → Cluster → Cluster
drop node_kind gone cl node_kind name = if same gone name then none else cl node_kind name
drop pod_kind gone cl pod_kind name = if same gone name then none else cl pod_kind name
drop replica_set_kind gone cl replica_set_kind name =
    if same gone name then none else cl replica_set_kind name
drop _ gone cl j name = cl j name

abbrev pub entity : (k : Kind) → Obj k → Entity
entity node_kind node = node_entity node
entity pod_kind pod = pod_entity pod
entity replica_set_kind rs = replica_set_entity rs

abbrev pub not_found : Kind → Error
not_found node_kind = err_node_not_found ∷ []
not_found pod_kind = err_pod_not_found ∷ []
not_found replica_set_kind = err_replica_set_not_found ∷ []

abbrev pub is_valid : Validator → (k : Kind) → Obj k → Bool
is_valid v node_kind node = v.struct_node node
is_valid v pod_kind pod = v.struct_pod pod
is_valid v replica_set_kind rs = true

abbrev pub invalid : Kind → Error
invalid node_kind = err_node_invalid ∷ []
invalid pod_kind = err_pod_invalid ∷ []
invalid replica_set_kind = []

abbrev pub exists_already : Kind → Error
exists_already node_kind = err_node_already_exists ∷ []
exists_already pod_kind = []
exists_already replica_set_kind = err_replica_set_exists ∷ []

pub data Operation : Type 0 where
  create read replace destroy : Kind → Operation

abbrev pub route_of : Operation → Route
route_of (create node_kind) = post_nodes
route_of (create pod_kind) = post_pods
route_of (create replica_set_kind) = post_replicasets
route_of (read node_kind) = get_node
route_of (read pod_kind) = get_pod
route_of (read replica_set_kind) = get_replicaset
route_of (replace node_kind) = put_node
route_of (replace pod_kind) = put_pod
route_of (replace replica_set_kind) = put_replicaset
route_of (destroy node_kind) = delete_node
route_of (destroy pod_kind) = delete_pod
route_of (destroy replica_set_kind) = delete_replicaset

abbrev pub answer : (k : Kind) → Obj k → Option Entity
answer k obj = some (entity k obj)

-- A new object is refused if there is one of its name, or if it is not valid. A pod is not stored.
abbrev pub created : Validator → (k : Kind) → Obj k → Cluster → Response × Cluster
created v pod_kind pod cl = (write_response status_created (answer pod_kind pod), cl)
created v k obj cl = elim (cl k (name_of k obj)) [
  | some old ↦ (write_error status_conflict (exists_already k), cl)
  | none ↦
      if is_valid v k obj
      then (write_response status_created (answer k obj), put k obj cl)
      else (write_error status_bad_request (invalid k), cl)
]

-- An object is replaced by one of its own name that is valid.
abbrev pub replaced : Validator → (k : Kind) → Text → Obj k → Cluster → Response × Cluster
replaced v k name obj cl =
    if not (same name (name_of k obj))
    then (write_error status_bad_request [], cl)
    else if is_valid v k obj
    then (write_response status_ok (answer k obj), put k obj cl)
    else (write_error status_bad_request (invalid k), cl)

abbrev pub on_body :
    (k : Kind) → Result (Obj k) → (Obj k → Response × Cluster) → Cluster → Response × Cluster
on_body k (ok obj) f cl = f obj
on_body k (err e) f cl = (write_error status_bad_request e, cl)

abbrev pub on_held :
    (k : Kind) → Option (Obj k) → (Obj k → Response × Cluster) → Cluster → Response × Cluster
on_held k (some obj) f cl = f obj
on_held k none f cl = (write_error status_not_found (not_found k), cl)

unfoldable pub perform : Validator → Operation → Request → Cluster → Response × Cluster
perform v (create k) req cl = on_body k (req.read_entity k) (λ obj. created v k obj cl) cl
perform v (read k) req cl =
    on_held k (cl k req.name) (λ obj. (write_response status_ok (answer k obj), cl)) cl
perform v (replace k) req cl =
    on_held k (cl k req.name)
      (λ old. on_body k (req.read_entity k) (λ obj. replaced v k req.name obj cl) cl) cl
perform v (destroy k) req cl =
    on_held k (cl k req.name) (λ old. (write_response status_no_content none, drop k req.name cl))
      cl

unfoldable pub perform_all :
    Validator → List (Operation × Request) → Cluster → List Response × Cluster
perform_all v [] cl = ([], cl)
perform_all v ((op, req) ∷ rest) cl =
    let (response, cl') = perform v op req cl in
    let (responses, cl'') = perform_all v rest cl' in (response ∷ responses, cl'')
