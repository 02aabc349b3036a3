-- ===== src/Server/Concurrent.antt =====
-- What requests that are handled at the same time keep of the rows, whichever calls of etcd fail.
use gokube_workshop_day.Prelude.{ℕ, ◌≡◌, refl, arith, List, [], ◌∷◌, same_refl}
use gokube_workshop_day.Go.{Result, ok, err, err_replica_set_exists, err_replica_set_not_found}
use gokube_workshop_day.Go.Calls.{Calls, alone, answering}
use gokube_workshop_day.Go.Interleaving.{interleaved}
use gokube_workshop_day.Go.CallsKeep.{
  CallsKeep, CallsKeep-returns, CallsKeep-call, CallsKeep-once, CallsKeep-either_way, calls_keep,
  interleaved-keeps,
}
use gokube_workshop_day.Api.Types.{Node, ReplicaSet}
use gokube_workshop_day.Api.Node as ApiNode
use gokube_workshop_day.Api.Validation.{Validator, ValidatorLaws}
use gokube_workshop_day.Storage.Interface.{Codec, Storage}
use gokube_workshop_day.Storage.Etcd.{EtcdClient, etcd_storage}
use gokube_workshop_day.Storage.Faults.{EtcdFaults}
use gokube_workshop_day.Registry.Node as Nodes
use gokube_workshop_day.Registry.ReplicaSet as ReplicaSets
use gokube_workshop_day.Registry.Race.{create_node_calls, validated, unless_found}
use gokube_workshop_day.Registry.Steps.{WellFormed, stored_node, stored_replica_set}
use gokube_workshop_day.Registry.Keeps.{StorageKeeps, etcd_storage-Keeps, get-Keeps, valid_node}
use gokube_workshop_day.Server.Keeps.{serve-Keeps, node_rules, pod_rules, replicaset_rules}
use gokube_workshop_day.Handlers.Http.{Request, attribute}
use gokube_workshop_day.Handlers.Node as NodeHandler
use gokube_workshop_day.Handlers.Pod as PodHandler
use gokube_workshop_day.Handlers.ReplicaSet as ReplicasetHandler
use gokube_workshop_day.Server.{
  Route, get_healthz, post_pods, get_pods, get_pod, put_pod, delete_pod, get_pods_unassigned,
  post_nodes, get_nodes, get_node, put_node, delete_node, post_replicasets, get_replicasets,
  get_replicaset, put_replicaset, delete_replicaset, serve,
}
use gokube_workshop_day.Server.Interleaved.{create_calls, update_calls, serve_calls}

module _ {S : Type 0} (st : Storage S) (v : Validator) where
  alone-serve_calls :
      (route : Route) (req : Request) (s : S)
      → alone (serve_calls st v route req) s ≡ serve st v route req s
  unfolding alone answering serve_calls serve create_node_calls Nodes.create_node ApiNode.validate
      NodeHandler.create_node NodeHandler.load_node_into_request PodHandler.load_pod_into_request
      ReplicasetHandler.load_replicaset_into_request ReplicasetHandler.create_replicaset
      ReplicasetHandler.update_replicaset ReplicaSets.create ReplicaSets.update attribute
  alone-serve_calls post_nodes req s = ground arith
  alone-serve_calls get_node req s = ground arith
  alone-serve_calls put_node req s = ground arith
  alone-serve_calls delete_node req s = ground arith
  alone-serve_calls get_pod req s = ground arith
  alone-serve_calls put_pod req s = ground arith
  alone-serve_calls delete_pod req s = ground arith
  alone-serve_calls post_replicasets req s = ground arith
  alone-serve_calls get_replicaset req s = ground arith
  alone-serve_calls put_replicaset req s =
      ground (arith, same_refl ReplicasetHandler.replicaset_attribute_key)
  alone-serve_calls delete_replicaset req s = ground arith
  alone-serve_calls get_healthz req s = refl
  alone-serve_calls post_pods req s = refl
  alone-serve_calls get_pods req s = refl
  alone-serve_calls get_pods_unassigned req s = refl
  alone-serve_calls get_nodes req s = refl
  alone-serve_calls get_replicasets req s = refl

module _ {S : Type 0} {I : S → Type 0} {c : Codec} {st : Storage S} (k : StorageKeeps I c st)
    {v : Validator} (laws : ValidatorLaws v) where
  create_calls-CallsKeep : (rs : ReplicaSet) → CallsKeep I (create_calls st v rs)
  create_calls-CallsKeep rs = CallsKeep-call (k.get _ _) (λ existing_rs.
      CallsKeep-either_way existing_rs (CallsKeep-returns (err (err_replica_set_exists ∷ [])))
        (CallsKeep-once (k.create _ _ rs (λ d e. stored_replica_set rs refl e))))

  update_calls-CallsKeep : (rs : ReplicaSet) → CallsKeep I (update_calls st v rs)
  update_calls-CallsKeep rs = CallsKeep-call (k.get _ _) (λ existing_rs.
      CallsKeep-either_way existing_rs
        (CallsKeep-once (k.update _ _ rs (λ d e. stored_replica_set rs refl e)))
        (CallsKeep-returns (err (err_replica_set_not_found ∷ []))))

  unless_found-CallsKeep :
      (existing_node : Result Node) {absent : Calls S (Result (Unit {0}))}
      → CallsKeep I absent
      → CallsKeep I (unless_found st v existing_node absent)
  unless_found-CallsKeep (ok n) h = CallsKeep-returns _
  unless_found-CallsKeep (err e) h = h

  validated-CallsKeep :
      (r : Result (Unit {0})) {store : Calls S (Result (Unit {0}))}
      → (r ≡ ok tt → CallsKeep I store)
      → CallsKeep I (validated st v r store)
  validated-CallsKeep (ok u) h = h refl
  validated-CallsKeep (err e) h = CallsKeep-returns _

  create_node_calls-CallsKeep : (node : Node) → CallsKeep I (create_node_calls st v node)
  unfolding create_node_calls
  create_node_calls-CallsKeep node = CallsKeep-call (k.get _ _) (λ existing_node.
      unless_found-CallsKeep existing_node (
        validated-CallsKeep (ApiNode.validate v node) (λ valid.
          CallsKeep-once
            (k.create _ _ node (λ d e. stored_node node (valid_node k laws node valid) refl e)))))

  serve_calls-CallsKeep : (route : Route) (req : Request) → CallsKeep I (serve_calls st v route req)
  unfolding serve_calls NodeHandler.get_node NodeHandler.update_node NodeHandler.delete_node
      PodHandler.get_pod PodHandler.update_pod PodHandler.delete_pod
      ReplicasetHandler.get_replicaset ReplicasetHandler.delete_replicaset
  serve_calls-CallsKeep post_nodes req = search (calls_keep, create_node_calls-CallsKeep) depth 8
  serve_calls-CallsKeep get_node req = search (calls_keep, node_rules, k) depth 8
  serve_calls-CallsKeep put_node req = search (calls_keep, node_rules, k, laws) depth 12
  serve_calls-CallsKeep delete_node req = search (calls_keep, node_rules, k) depth 8
  serve_calls-CallsKeep get_pod req = search (calls_keep, pod_rules, k) depth 8
  serve_calls-CallsKeep put_pod req = search (calls_keep, pod_rules, k, laws) depth 12
  serve_calls-CallsKeep delete_pod req = search (calls_keep, pod_rules, k) depth 8
  serve_calls-CallsKeep post_replicasets req = search (calls_keep, create_calls-CallsKeep) depth 8
  serve_calls-CallsKeep get_replicaset req = search (calls_keep, replicaset_rules, k) depth 8
  serve_calls-CallsKeep put_replicaset req =
      search (calls_keep, update_calls-CallsKeep, get-Keeps, k) depth 8
  serve_calls-CallsKeep delete_replicaset req = search (calls_keep, replicaset_rules, k) depth 8
  serve_calls-CallsKeep get_healthz req = CallsKeep-once (serve-Keeps k laws get_healthz req)
  serve_calls-CallsKeep post_pods req = CallsKeep-once (serve-Keeps k laws post_pods req)
  serve_calls-CallsKeep get_pods req = CallsKeep-once (serve-Keeps k laws get_pods req)
  serve_calls-CallsKeep get_pods_unassigned req =
      CallsKeep-once (serve-Keeps k laws get_pods_unassigned req)
  serve_calls-CallsKeep get_nodes req = CallsKeep-once (serve-Keeps k laws get_nodes req)
  serve_calls-CallsKeep get_replicasets req =
      CallsKeep-once (serve-Keeps k laws get_replicasets req)

module _ {S : Type 0} {client : EtcdClient S} (c : Codec) {v : Validator}
    (laws : ValidatorLaws v) where
  -- Whichever requests are handled at the same time, in whatever order their goroutines make their calls
  -- of the storage, and whichever of the calls of etcd fail: if every row in etcd is, under its own key,
  -- an encoded node with a name, pod that fits the tags of its struct, or ReplicaSet, then so it is after
  -- any number of the calls. A request whose calls have nothing between them is served as the handler of
  -- its route does.
  pub interleaved-WellFormed :
      (etcd : EtcdFaults client) (requests : ℕ → Route × Request) (turns : List ℕ) (s : S)
      → WellFormed c (etcd.rows s)
      → WellFormed c (
          etcd.rows
            (interleaved turns
              (λ i. serve_calls (etcd_storage client c) v (requests i).0 (requests i).1)
              s).1)
        × ((i : ℕ) (t : S)
            → alone (serve_calls (etcd_storage client c) v (requests i).0 (requests i).1) t
              ≡ serve (etcd_storage client c) v (requests i).0 (requests i).1 t)
  interleaved-WellFormed etcd requests turns s wf = (
    interleaved-keeps turns _ s
        (λ i. serve_calls-CallsKeep (etcd_storage-Keeps etcd c) laws (requests i).0 (requests i).1)
        wf,
    λ i t. alone-serve_calls (etcd_storage client c) v (requests i).0 (requests i).1 t,
  )
