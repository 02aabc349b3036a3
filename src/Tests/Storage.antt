-- ===== src/Tests/Storage.antt =====
-- The theorems about keys, lists and failures at the fixtures.
use mathlib.Core.List.{Memᴰ}
use gokube_workshop_day.Prelude.{
  ◌≡◌, ◌↔◌, refl, arith, false, some, [], ◌∷◌, codes, has_prefix, same,
}
use gokube_workshop_day.Go.{ok, err, err_node_not_found, err_replica_set_not_found}
use gokube_workshop_day.Api.Types.{Node, node_kind, pod_kind, node_ready, pod_pending}
use gokube_workshop_day.Api.Node as ApiNode
use gokube_workshop_day.Api.Validation.{tag_validator}
use gokube_workshop_day.Storage.Interface.{Refines}
use gokube_workshop_day.Storage.Rows.{lookup, insert, under, decode_row, decode_rows, put_row}
use gokube_workshop_day.Storage.Etcd.{etcd_storage, get as etcd_get}
use gokube_workshop_day.Storage.Refinement.{Holds, etcd_storage-Refines}
use gokube_workshop_day.Registry.Path.{IsPlain, join}
use gokube_workshop_day.Registry.Node as Nodes
use gokube_workshop_day.Registry.Pod as Pods
use gokube_workshop_day.Registry.ReplicaSet as ReplicaSets
use gokube_workshop_day.Registry.Rules.{RoundTrips}
use gokube_workshop_day.Registry.Listing.{StoredUnder, list_pending_pods_iff}
use gokube_workshop_day.Registry.Unlisted.{create_node_unlisted}
use gokube_workshop_day.Registry.Collisions.{KeysApart, keys_apart, create_node-pod_key}
use gokube_workshop_day.Registry.Failures.{create_node_overwrites}
use gokube_workshop_day.Tests.Fixtures.{
  codec, store, worker_rows, web_rows, memory, memory-Laws, Memory, node_of, worker, web_pod,
  worker-RoundTrips,
}

etcd_storage-Refines_example : Refines (Holds memory-Laws) (etcd_storage memory codec) store
etcd_storage-Refines_example = etcd_storage-Refines memory-Laws codec

pending_web : (Pods.list_pending_pods store web_rows).0 ≡ ok (web_pod ∷ [])
unfolding Pods.list_pending_pods decode_rows under has_prefix same
pending_web = refl

list_pending_pods_iff_example :
    Memᴰ web_pod (web_pod ∷ [])
    ↔ (StoredUnder codec pod_kind Pods.pod_prefix web_rows web_pod × (web_pod.status ≡ pod_pending))
list_pending_pods_iff_example =
    list_pending_pods_iff codec web_rows (web_pod ∷ []) web_pod pending_web

abbrev dot : Node
dot = node_of (codes ".") node_ready

dot_unprefixed :
    has_prefix (Nodes.generate_key Nodes.node_prefix (codes ".")) Nodes.node_prefix ≡ false
unfolding Nodes.generate_key join has_prefix
dot_unprefixed = refl

dot-RoundTrips : RoundTrips codec node_kind dot
dot-RoundTrips = record { encoded = _; encodes = refl; decodes = refl }

dot_absent : (Nodes.get_node store (codes ".") []).0 ≡ err (err_node_not_found ∷ [])
unfolding Nodes.get_node decode_row lookup
dot_absent = refl

create_node_unlisted_example :
    ((Nodes.create_node store tag_validator dot []).0 ≡ ok tt)
    × ((Nodes.get_node store (codes ".") (Nodes.create_node store tag_validator dot []).1).0
        ≡ ok dot)
    × ((Nodes.list_nodes store (Nodes.create_node store tag_validator dot []).1).0
        ≡ (Nodes.list_nodes store []).0)
create_node_unlisted_example =
    create_node_unlisted codec tag_validator [] dot (err_node_not_found ∷ []) dot-RoundTrips refl
      dot_absent dot_unprefixed

IsPlain-web : IsPlain (codes "web-1")
IsPlain-web = ground arith

IsPlain-worker : IsPlain (codes "worker")
IsPlain-worker = ground arith

keys_apart_example : KeysApart (codes "worker") (codes "web-1") (codes "a/b") []
keys_apart_example =
    keys_apart (codes "worker") (codes "web-1") (codes "a/b") [] IsPlain-worker IsPlain-web

abbrev climber : Node
climber = node_of (codes "../../pods/web-1") node_ready

climber-RoundTrips : RoundTrips codec node_kind climber
climber-RoundTrips = record { encoded = _; encodes = refl; decodes = refl }

created_climber : (Nodes.create_node store tag_validator climber []).0 ≡ ok tt
unfolding Nodes.create_node ApiNode.validate put_row decode_row lookup
created_climber = refl

create_node-pod_key_example :
    lookup (Pods.generate_key (codes "web-1")) (Nodes.create_node store tag_validator climber []).1
    ≡ some climber-RoundTrips.encoded
create_node-pod_key_example =
    create_node-pod_key codec tag_validator [] climber (codes "web-1") IsPlain-web refl
      climber-RoundTrips created_climber

abbrev faulty : Memory
faulty = record { table = worker_rows; faults = 1 }

lost_web :
    (ReplicaSets.get (etcd_storage memory codec) (codes "web") faulty).0
    ≡ err (err_replica_set_not_found ∷ [])
unfolding ReplicaSets.get etcd_get
lost_web = refl

create_node_overwrites_example :
    ((Nodes.create_node (etcd_storage memory codec) tag_validator worker faulty).0 ≡ ok tt)
    × ((Nodes.create_node (etcd_storage memory codec) tag_validator worker faulty).1.table
        ≡ insert
            (Nodes.generate_key Nodes.node_prefix (codes "worker"))
            worker-RoundTrips.encoded
            worker_rows)
create_node_overwrites_example =
    create_node_overwrites memory-Laws codec tag_validator worker worker-RoundTrips faulty refl refl
      refl
