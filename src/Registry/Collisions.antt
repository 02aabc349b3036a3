-- ===== src/Registry/Collisions.antt =====
-- Which keys the registries use, and when two of them use one key.
use gokube_workshop_day.Prelude.{◌≡◌, ◌≢◌, ◌↔◌, ap, sym, ◌∙◌, arith, some, ◌++◌, Text, codes}
use mathlib.Core.List.{append_cancel_left}
use gokube_workshop_day.Go.{ok}
use gokube_workshop_day.Api.Types.{Node, node_kind}
use gokube_workshop_day.Api.Validation.{Validator}
use gokube_workshop_day.Storage.Interface.{Codec}
use gokube_workshop_day.Storage.Rows.{Rows, lookup, put_row, map_storage}
use gokube_workshop_day.Registry.Path.{IsPlain, join-nodes, join-climb}
use gokube_workshop_day.Registry.Rules.{RoundTrips, insert-lookup}
use gokube_workshop_day.Registry.Node as Nodes
use gokube_workshop_day.Registry.Pod as Pods
use gokube_workshop_day.Registry.ReplicaSet as ReplicaSets

abbrev pub node_key : Text → Text
node_key name = Nodes.generate_key Nodes.node_prefix name

pub node_key-IsPlain : (s : Text) → IsPlain s → node_key s ≡ Nodes.node_prefix ++ s
unfolding Nodes.generate_key
node_key-IsPlain s h = join-nodes s h

-- Two nodes with plain names have one key only if they have one name.
node_key_injective : (s t : Text) → IsPlain s → IsPlain t → node_key s ≡ node_key t → s ≡ t
node_key_injective s t hs ht e =
    append_cancel_left Nodes.node_prefix s t
      (sym (node_key-IsPlain s hs) ∙ e ∙ node_key-IsPlain t ht)

-- The keys of the nodes `m` and `n` and those of the pods and ReplicaSets `s` and `t`.
pub record KeysApart (m n s t : Text) : Type 0 where
  pub node_pod : node_key m ≢ Pods.generate_key s
  pub node_replica_set : node_key m ≢ ReplicaSets.generate_key s
  pub pod_replica_set : Pods.generate_key s ≢ ReplicaSets.generate_key t
  pub nodes : (node_key m ≡ node_key n) ↔ (m ≡ n)
  pub pods : (Pods.generate_key s ≡ Pods.generate_key t) ↔ (s ≡ t)
  pub replica_sets : (ReplicaSets.generate_key s ≡ ReplicaSets.generate_key t) ↔ (s ≡ t)

-- For plain node names and any other names, keys of different registries are different, and within
-- each registry two names have one key only if they are equal.
pub keys_apart : (m n s t : Text) → IsPlain m → IsPlain n → KeysApart m n s t
unfolding Pods.generate_key ReplicaSets.generate_key
keys_apart m n s t hm hn = record {
  node_pod = λ e. ground (arith, node_key-IsPlain m hm);
  node_replica_set = λ e. ground (arith, node_key-IsPlain m hm);
  pod_replica_set = λ e. ground arith;
  nodes = (node_key_injective m n hm hn, ap node_key);
  pods = (append_cancel_left Pods.pod_prefix s t, ap Pods.generate_key);
  replica_sets = (append_cancel_left (codes "/replicasets/") s t, ap ReplicaSets.generate_key);
}

create_node-lookup :
    (c : Codec) (v : Validator) (rows : Rows) (node : Node) (t : RoundTrips c node_kind node)
    → (Nodes.create_node (map_storage c) v node rows).0 ≡ ok tt
    → lookup (node_key node.name) (Nodes.create_node (map_storage c) v node rows).1 ≡ some t.encoded
unfolding Nodes.create_node put_row
create_node-lookup c v rows node t h =
    ground (arith, t.encodes, insert-lookup (node_key node.name) t.encoded rows)

climbing_key :
    (name pod_name : Text)
    → IsPlain pod_name
    → name ≡ codes "../../pods/" ++ pod_name
    → node_key name ≡ Pods.generate_key pod_name
unfolding Nodes.generate_key Pods.generate_key
climbing_key name pod_name plain climbs = rw climbs (join-climb pod_name plain)

-- A node whose name is "../../pods/" before a plain pod name is stored, when it is created, under
-- the key of the pod of that name.
pub create_node-pod_key :
    (c : Codec) (v : Validator) (rows : Rows) (node : Node) (pod_name : Text)
    → IsPlain pod_name
    → node.name ≡ codes "../../pods/" ++ pod_name
    → (t : RoundTrips c node_kind node) → (Nodes.create_node (map_storage c) v node rows).0 ≡ ok tt
    → lookup (Pods.generate_key pod_name) (Nodes.create_node (map_storage c) v node rows).1
      ≡ some t.encoded
create_node-pod_key c v rows node pod_name plain climbs t h =
    rw (← climbing_key node.name pod_name plain climbs) (create_node-lookup c v rows node t h)
