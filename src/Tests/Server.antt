-- ===== src/Tests/Server.antt =====
-- The server's theorems at the fixtures.
use gokube_workshop_day.Prelude.{
  ℕ, ◌≡◌, refl, arith, inl, true, same, List, [], ◌∷◌, Text, codes, none, some,
}
use gokube_workshop_day.Go.{Result, ok, err, err_node_not_found}
use gokube_workshop_day.Api.Types.{Node, Kind, Obj, node_kind, pod_kind, replica_set_kind}
use gokube_workshop_day.Api.Validation.{tag_validator, tag_validator-Laws}
use gokube_workshop_day.Storage.Rows.{lookup}
use gokube_workshop_day.Storage.Etcd.{etcd_storage}
use gokube_workshop_day.Registry.Path.{join}
use gokube_workshop_day.Registry.Node as Nodes
use gokube_workshop_day.Registry.Steps.{WellFormed}
use gokube_workshop_day.Handlers.Http.{
  Request, node_entity, write_response, write_error, status_created, status_ok, status_no_content,
  status_not_found,
}
use gokube_workshop_day.Handlers.Node as NodeHandler
use gokube_workshop_day.Server.{
  Route, post_nodes, get_node, delete_node, get_nodes, serve, serve_all,
}
use gokube_workshop_day.Server.Simulation.{serve_all-etcd}
use gokube_workshop_day.Server.Interleaved.{serve_calls}
use gokube_workshop_day.Server.Concurrent.{interleaved-WellFormed}
use gokube_workshop_day.Go.Calls.{alone}
use gokube_workshop_day.Go.Interleaving.{interleaved}
use gokube_workshop_day.Server.Lifecycle.{serve_all-lifecycle}
use gokube_workshop_day.Server.Errors.{read_changes_nothing}
use gokube_workshop_day.Server.Refused.{error_changes_nothing}
use gokube_workshop_day.Storage.Etcd as Etcd
use gokube_workshop_day.Tests.Fixtures.{
  codec, store, worker_rows, Memory, memory, memory-Faults, memory-Laws, empty_memory, worker,
  worker-RoundTrips,
}

abbrev node_body : Node → (k : Kind) → Result (Obj k)
node_body node node_kind = ok node
node_body node pod_kind = err []
node_body node replica_set_kind = err []

-- A request with that path parameter and that node as its body.
abbrev request : Text → Request
request name = record {
  name = name;
  node_name = [];
  read_entity = node_body worker;
  attributes = [];
}

abbrev session : List (Route × Request)
session =
    (post_nodes, request [])
    ∷ (get_node, request (codes "worker"))
    ∷ (delete_node, request (codes "worker"))
    ∷ (get_nodes, request [])
    ∷ []

serve_all-etcd_example :
    ((serve_all (etcd_storage memory codec) tag_validator session empty_memory).0
      ≡ (serve_all store tag_validator session []).0)
    × (memory-Laws.up (serve_all (etcd_storage memory codec) tag_validator session empty_memory).1
        ≡ true)
    × ((serve_all (etcd_storage memory codec) tag_validator session empty_memory).1.table
        ≡ (serve_all store tag_validator session []).1)
serve_all-etcd_example = serve_all-etcd memory-Laws codec tag_validator session empty_memory refl

-- The node is in etcd, so that a POST of it is refused.
abbrev holding : Memory
holding = record { table = worker_rows; faults = 0 }

abbrev refusal : ℕ
refusal = (serve (etcd_storage memory codec) tag_validator post_nodes (request []) holding).0.status

conflict : refusal ≡ 409
unfolding serve NodeHandler.create_node Nodes.create_node Nodes.generate_key Etcd.get lookup same
    join
conflict = refl

error_changes_nothing_example :
    (serve (etcd_storage memory codec) tag_validator post_nodes (request []) holding).1.table
    ≡ worker_rows
error_changes_nothing_example =
    error_changes_nothing memory-Laws memory-Faults (λ m. refl) codec tag_validator post_nodes
      (request []) holding (omega (arith, conflict)) (inl (omega (arith, conflict)))

read_changes_nothing_example :
    (serve store tag_validator get_node (request (codes "worker")) worker_rows).1 ≡ worker_rows
read_changes_nothing_example =
    read_changes_nothing codec tag_validator worker_rows get_node (request (codes "worker"))
      (inl refl)

empty-WellFormed : WellFormed codec []
unfolding lookup
empty-WellFormed key encoded h = absurd (ground arith)

-- An etcd that fails its next two calls.
abbrev failing_memory : Memory
failing_memory = record { table = []; faults = 2 }

-- Two clients post the node at the same time, and both calls read before either stores.
abbrev posts : ℕ → Route × Request
posts i = (post_nodes, request [])

interleaved-WellFormed_example :
    WellFormed codec
      (interleaved
        (0 ∷ 1 ∷ 0 ∷ 1 ∷ [])
        (λ i. serve_calls (etcd_storage memory codec) tag_validator (posts i).0 (posts i).1)
        failing_memory).1.table
    × ((i : ℕ) (t : Memory)
        → alone (serve_calls (etcd_storage memory codec) tag_validator (posts i).0 (posts i).1) t
          ≡ serve (etcd_storage memory codec) tag_validator (posts i).0 (posts i).1 t)
interleaved-WellFormed_example =
    interleaved-WellFormed codec tag_validator-Laws memory-Faults posts (0 ∷ 1 ∷ 0 ∷ 1 ∷ [])
      failing_memory empty-WellFormed

serve_all-lifecycle_example :
    (serve_all
      (etcd_storage memory codec)
      tag_validator
      ((post_nodes, request (codes "worker"))
        ∷ (get_node, request (codes "worker"))
        ∷ (delete_node, request (codes "worker"))
        ∷ (get_node, request (codes "worker"))
        ∷ [])
      empty_memory).0
    ≡ write_response status_created (some (node_entity worker))
      ∷ write_response status_ok (some (node_entity worker))
      ∷ write_response status_no_content none
      ∷ write_error status_not_found (err_node_not_found ∷ [])
      ∷ []
unfolding lookup
serve_all-lifecycle_example =
    serve_all-lifecycle memory-Laws codec tag_validator worker worker-RoundTrips
      (request (codes "worker")) empty_memory refl refl refl refl refl
