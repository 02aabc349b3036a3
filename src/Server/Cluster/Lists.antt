-- ===== src/Server/Cluster/Lists.antt =====
-- The list routes of the API server (pkg/api/handlers), over etcd, for the cluster that it represents.
use mathlib.Core.List.{Memᴰ}
use gokube_workshop_day.Prelude.{
  ◌≡◌, ◌↔◌, ◌∙◌, refl, ap, arith, Bool, true, some, List, [], ◌∷◌, Text, same, keep, mem-keep, inl,
  inr, Bool-cases,
}
use gokube_workshop_day.Go.{ok}
use gokube_workshop_day.Api.Types.{
  Kind, Obj, Pod, node_kind, pod_kind, replica_set_kind, pod_pending,
}
use gokube_workshop_day.Api.Validation.{Validator}
use gokube_workshop_day.Storage.Interface.{Codec}
use gokube_workshop_day.Storage.Rows.{Rows, under, decode_rows, map_storage}
use gokube_workshop_day.Storage.Etcd.{EtcdClient, EtcdLaws, etcd_storage}
use gokube_workshop_day.Storage.Refinement.{etcd_storage-Refines}
use gokube_workshop_day.Registry.Path.{IsPlain}
use gokube_workshop_day.Registry.Node as Nodes
use gokube_workshop_day.Registry.Pod as Pods
use gokube_workshop_day.Registry.ReplicaSet as ReplicaSets
use gokube_workshop_day.Handlers.Http.{
  Request, Response, Entity, node_list, pod_list, replica_set_list, write_response, status_ok,
}
use gokube_workshop_day.Handlers.Node as NodeHandler
use gokube_workshop_day.Handlers.Pod as PodHandler
use gokube_workshop_day.Handlers.ReplicaSet as ReplicasetHandler
use gokube_workshop_day.Server.{
  Route, serve, get_nodes, get_pods, get_replicasets, get_pods_unassigned,
}
use gokube_workshop_day.Server.Simulation.{serve-Simulates}
use gokube_workshop_day.Server.Cluster.{Cluster, name_of}
use gokube_workshop_day.Server.Cluster.Represents.{Represents}
use gokube_workshop_day.Server.Cluster.Listing.{Distinct, prefix_of, list_of_kind}

-- What the four list routes ask for.
pub data View : Type 0 where
  every : Kind → View
  unassigned : View

abbrev pub kind_in : View → Kind
kind_in (every k) = k
kind_in unassigned = pod_kind

abbrev pub list_route : View → Route
list_route (every node_kind) = get_nodes
list_route (every pod_kind) = get_pods
list_route (every replica_set_kind) = get_replicasets
list_route unassigned = get_pods_unassigned

abbrev pub on_node : Text → Pod → Bool
on_node [] pod = true
on_node (a ∷ name) pod = same pod.node_name (a ∷ name)

-- The objects that a request asks for: pods are those of the node it names, if it names one.
abbrev pub asked : (view : View) → Request → Obj (kind_in view) → Bool
asked (every node_kind) req node = true
asked (every pod_kind) req pod = on_node req.node_name pod
asked (every replica_set_kind) req rs = true
asked unassigned req pod = same pod.status pod_pending

abbrev pub list_entity : (k : Kind) → List (Obj k) → Entity
list_entity node_kind nodes = node_list nodes
list_entity pod_kind pods = pod_list pods
list_entity replica_set_kind replica_sets = replica_set_list replica_sets

-- The list has the objects of the cluster that are asked for, each once, and no others.
abbrev pub Lists : Cluster → (k : Kind) → (Obj k → Bool) → List (Obj k) → Type 0
Lists cl k wanted objs =
    Distinct k objs
    × ((obj : Obj k)
        → Memᴰ obj objs
          ↔ (IsPlain (name_of k obj) × (cl k (name_of k obj) ≡ some obj) × (wanted obj ≡ true)))

Distinct-keep :
    (k : Kind) (wanted : Obj k → Bool) (objs : List (Obj k))
    → Distinct k objs
    → Distinct k (keep wanted objs)
unfolding keep
Distinct-keep k wanted [] h = tt
Distinct-keep k wanted (obj ∷ objs) (h, hs) =
    let rest = Distinct-keep k wanted objs hs in
    elim (Bool-cases (wanted obj)) [
      | inl e ↦ rw e ((λ other m. h other ((mem-keep wanted objs other).0 m).0), rest)
      | inr e ↦ rw e rest
    ]

Lists-keep :
    (cl : Cluster) (k : Kind) (wanted : Obj k → Bool) (objs : List (Obj k))
    → Lists cl k (λ _. true) objs
    → Lists cl k wanted (keep wanted objs)
Lists-keep cl k wanted objs (once, held) = (
  Distinct-keep k wanted objs once,
  λ obj. (
    λ m.
        let (there, fits) = (mem-keep wanted objs obj).0 m in
        let (plain, at, _) = (held obj).0 there in (plain, at, fits),
    λ (plain, at, fits). (mem-keep wanted objs obj).1 ((held obj).1 (plain, at, refl), fits),
  ),
)

pods_on_node-Lists :
    (cl : Cluster) (name : Text) (pods : List Pod)
    → Lists cl pod_kind (λ _. true) pods
    → Lists cl pod_kind (on_node name) (PodHandler.pods_on_node name pods)
unfolding PodHandler.pods_on_node
pods_on_node-Lists cl [] pods h = h
pods_on_node-Lists cl (a ∷ name) pods h = Lists-keep cl pod_kind (on_node (a ∷ name)) pods h

module _ (c : Codec) (v : Validator) {rows : Rows} {cl : Cluster} (r : Represents c rows cl) where
  all_of_kind :
      (k : Kind)
      → (objs : List (Obj k)) × (decode_rows c k (under (prefix_of k) rows) ≡ ok objs)
        × Lists cl k (λ _. true) objs
  all_of_kind k =
      let (objs, e, once, held) = list_of_kind c r k in
      (
        objs,
        e,
        (
          once,
          λ obj. (
            λ m.
                let (name, plain, there) = (held obj).0 m in
                let named = r.own k name obj plain there in rw named (plain, there, refl),
            λ (plain, there, _). (held obj).1 (name_of k obj, plain, there),
          ),
        ),
      )

  list-rows :
      (view : View) (req : Request)
      → (objs : List (Obj (kind_in view))) × (serve (map_storage c) v (list_route view) req rows
          ≡ (write_response status_ok (some (list_entity (kind_in view) objs)), rows))
        × Lists cl (kind_in view) (asked view req) objs
  unfolding serve NodeHandler.list_nodes Nodes.list_nodes PodHandler.list_pods Pods.list_pods
      ReplicasetHandler.list_replicasets ReplicaSets.list PodHandler.list_unassigned_pods
      Pods.list_unassigned_pods Pods.list_pods_by_status
  list-rows (every node_kind) req =
      let (nodes, e, h) = all_of_kind node_kind in (nodes, ground (arith, e), h)
  list-rows (every replica_set_kind) req =
      let (replica_sets, e, h) = all_of_kind replica_set_kind in
      (replica_sets, ground (arith, e), h)
  list-rows (every pod_kind) req =
      let (pods, e, h) = all_of_kind pod_kind in
      (
        PodHandler.pods_on_node req.node_name pods,
        ground (arith, e),
        pods_on_node-Lists cl req.node_name pods h,
      )
  list-rows unassigned req =
      let (pods, e, h) = all_of_kind pod_kind in
      (
        Pods.filtered_pods pod_pending pods,
        ground (arith, e),
        unfold Pods.filtered_pods in Lists-keep cl pod_kind (asked unassigned req) pods h,
      )

module _ {S : Type 0} {client : EtcdClient S} (etcd : EtcdLaws client) (c : Codec)
    (v : Validator) where
  -- While etcd is up and represents a cluster, each list route answers 200 with a list that has exactly
  -- the objects of the cluster that are asked for, no two of one name: the nodes, the ReplicaSets, the
  -- pods of the node that the request names (or all pods, where it names none), and the pods that are
  -- pending. What etcd holds stays as it was.
  pub serve_list :
      (cl : Cluster) (view : View) (req : Request) (s : S)
      → etcd.up s ≡ true
      → Represents c (etcd.rows s) cl
      → (objs : List (Obj (kind_in view))) × ((serve
            (etcd_storage client c)
            v
            (list_route view)
            req
            s).0
          ≡ write_response status_ok (some (list_entity (kind_in view) objs)))
        × Lists cl (kind_in view) (asked view req) objs
        × (etcd.rows (serve (etcd_storage client c) v (list_route view) req s).1 ≡ etcd.rows s)
  serve_list cl view req s up r =
      let (objs, e, h) = list-rows c v r view req in
      let (answer, held) =
        (serve-Simulates (etcd_storage-Refines etcd c) v (list_route view) req).at s (etcd.rows s)
          (up, refl) in
      (
        objs,
        answer ∙ ap (λ (x : Response × Rows). x.0) e,
        h,
        held.1 ∙ ap (λ (x : Response × Rows). x.1) e,
      )
