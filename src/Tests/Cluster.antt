-- ===== src/Tests/Cluster.antt =====
-- The server's operations on single objects at the fixtures.
use gokube_workshop_day.Prelude.{
  ◌≡◌, refl, arith, true, none, some, List, [], ◌∷◌, Text, codes, All,
}
use gokube_workshop_day.Go.{Result, ok}
use gokube_workshop_day.Api.Types.{Pod, Kind, Obj, node_kind, pod_kind, replica_set_kind}
use gokube_workshop_day.Api.Validation.{tag_validator}
use gokube_workshop_day.Storage.Rows.{Rows, lookup, insert, decode_row}
use gokube_workshop_day.Storage.Etcd.{etcd_storage}
use gokube_workshop_day.Handlers.Http.{Request, write_response, status_ok}
use gokube_workshop_day.Server.{serve, serve_all}
use gokube_workshop_day.Server.Cluster.{
  Cluster, Operation, create, read, replace, destroy, perform_all, put,
}
use gokube_workshop_day.Server.Cluster.Represents.{Represents, BodyRoundTrips}
use gokube_workshop_day.Server.Cluster.Refinement.{Fits, routed, serve_all-perform_all}
use gokube_workshop_day.Server.Cluster.Keys.{key_of}
use gokube_workshop_day.Server.Cluster.Changes.{Represents-put}
use gokube_workshop_day.Server.Cluster.Lists.{
  unassigned, list_route, list_entity, asked, Lists, serve_list,
}
use gokube_workshop_day.Tests.Fixtures.{
  Memory, codec, memory, memory-Laws, empty_memory, worker, web_pod, web, worker-RoundTrips,
  web_pod-RoundTrips, web-RoundTrips,
}

abbrev body : (k : Kind) → Result (Obj k)
body node_kind = ok worker
body pod_kind = ok web_pod
body replica_set_kind = ok web

abbrev of : Text → Request
of name = record { name = name; node_name = []; read_entity = body; attributes = [] }

abbrev operations : List (Operation × Request)
operations =
    (create node_kind, of [])
    ∷ (create node_kind, of [])
    ∷ (create pod_kind, of [])
    ∷ (read pod_kind, of (codes "web-1"))
    ∷ (create replica_set_kind, of [])
    ∷ (replace replica_set_kind, of (codes "web"))
    ∷ (destroy node_kind, of (codes "worker"))
    ∷ (read node_kind, of (codes "worker"))
    ∷ []

abbrev empty_cluster : Cluster
empty_cluster k name = none

empty-Represents : Represents codec [] empty_cluster
unfolding lookup decode_row
empty-Represents = record {
  held = λ k name h. refl;
  own = λ k name obj h q. absurd (ground arith);
  ordered = tt;
  only = λ row m. elim m [ ];
}

node_body : BodyRoundTrips codec (of []) node_kind
node_body node e =
    let same_node : worker ≡ node = cc in rw (← same_node) (ground arith, worker-RoundTrips)

pod_body : BodyRoundTrips codec (of []) pod_kind
pod_body pod e =
    let same_pod : web_pod ≡ pod = cc in rw (← same_pod) (ground arith, web_pod-RoundTrips)

replica_set_body : (name : Text) → BodyRoundTrips codec (of name) replica_set_kind
replica_set_body name rs e =
    let same_rs : web ≡ rs = cc in rw (← same_rs) (ground arith, web-RoundTrips)

operations-Fit : All (Fits codec) operations
operations-Fit = (
  node_body,
  (
    node_body,
    (
      pod_body,
      (
        ground arith,
        (
          replica_set_body [],
          ((ground arith, replica_set_body (codes "web")), (ground arith, (ground arith, tt))),
        ),
      ),
    ),
  ),
)

serve_all-perform_all_example :
    ((serve_all (etcd_storage memory codec) tag_validator (routed operations) empty_memory).0
      ≡ (perform_all tag_validator operations empty_cluster).0)
    × (memory-Laws.up
          (serve_all (etcd_storage memory codec) tag_validator (routed operations) empty_memory).1
        ≡ true)
    × Represents codec
        (serve_all
          (etcd_storage memory codec)
          tag_validator
          (routed operations)
          empty_memory).1.table
        (perform_all tag_validator operations empty_cluster).1
serve_all-perform_all_example =
    serve_all-perform_all memory-Laws codec tag_validator empty_cluster operations empty_memory refl
      empty-Represents operations-Fit

abbrev small_rows : Rows
small_rows =
    insert (key_of pod_kind (codes "web-1")) web_pod-RoundTrips.encoded
      (insert (key_of node_kind (codes "worker")) worker-RoundTrips.encoded [])

abbrev small_memory : Memory
small_memory = record { table = small_rows; faults = 0 }

abbrev small_cluster : Cluster
small_cluster = put pod_kind web_pod (put node_kind worker empty_cluster)

small-Represents : Represents codec small_rows small_cluster
small-Represents =
    Represents-put codec
      (Represents-put codec empty-Represents node_kind worker (ground arith) worker-RoundTrips)
      pod_kind web_pod (ground arith) web_pod-RoundTrips

serve_list_example :
    (objs : List Pod) × ((serve
        (etcd_storage memory codec)
        tag_validator
        (list_route unassigned)
        (of [])
        small_memory).0
      ≡ write_response status_ok (some (list_entity pod_kind objs)))
    × Lists small_cluster pod_kind (asked unassigned (of [])) objs
    × ((serve
          (etcd_storage memory codec)
          tag_validator
          (list_route unassigned)
          (of [])
          small_memory).1.table
        ≡ small_rows)
serve_list_example =
    serve_list memory-Laws codec tag_validator small_cluster unassigned (of []) small_memory refl
      small-Represents
