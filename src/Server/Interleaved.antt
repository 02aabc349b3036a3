-- ===== src/Server/Interleaved.antt =====
-- Requests that the API server handles at the same time (pkg/api/server, pkg/api/handlers): net/http
-- serves each in a goroutine, and goroutines alternate between calls of the storage. The mutexes of the
-- registries admit some of these interleavings.
use gokube_workshop_day.Prelude.{some, [], ◌∷◌, same, not, if◌then◌else◌}
use gokube_workshop_day.Go.{Result, ok, err, err_replica_set_exists, err_replica_set_not_found}
use gokube_workshop_day.Go.Calls.{Calls, returns, call, once, answering, after, either_way}
use gokube_workshop_day.Api.Types.{ReplicaSet, node_kind, replica_set_kind}
use gokube_workshop_day.Api.Validation.{Validator}
use gokube_workshop_day.Storage.Interface.{Storage}
use gokube_workshop_day.Registry.Node as Nodes
use gokube_workshop_day.Registry.Pod as Pods
use gokube_workshop_day.Registry.ReplicaSet as ReplicaSets
use gokube_workshop_day.Registry.Race.{create_node_calls}
use gokube_workshop_day.Handlers.Http.{
  Request, Response, Handler, set_attribute, node_attribute, pod_attribute, replica_set_attribute,
  node_entity, replica_set_entity, write_response, write_error, status_ok, status_created,
  status_bad_request, status_internal_server_error,
}
use gokube_workshop_day.Handlers.Node as NodeHandler
use gokube_workshop_day.Handlers.Pod as PodHandler
use gokube_workshop_day.Handlers.ReplicaSet as ReplicasetHandler
use gokube_workshop_day.Server.{
  Route, get_healthz, post_pods, get_pods, get_pod, put_pod, delete_pod, get_pods_unassigned,
  post_nodes, get_nodes, get_node, put_node, delete_node, post_replicasets, get_replicasets,
  get_replicaset, put_replicaset, delete_replicaset, serve,
}

abbrev pub node_created : Result (Unit {0}) → Response → Response
node_created (ok u) answer = answer
node_created (err e) answer = write_error (NodeHandler.create_status e) e

abbrev pub replica_set_created : Result (Unit {0}) → Response → Response
replica_set_created (ok u) answer = answer
replica_set_created (err e) answer = write_error (ReplicasetHandler.create_status e) e

abbrev pub replica_set_updated : Result (Unit {0}) → Response → Response
replica_set_updated (ok u) answer = answer
replica_set_updated (err e) answer = write_error status_internal_server_error e

module _ {S : Type 0} (st : Storage S) (v : Validator) where
  -- `ReplicaSetRegistry.Create` and `Update`, call by call
  abbrev pub create_calls : ReplicaSet → Calls S (Result (Unit {0}))
  create_calls rs =
      call (st.get replica_set_kind (ReplicaSets.generate_key rs.name)) (λ existing_rs.
        either_way existing_rs (returns (err (err_replica_set_exists ∷ [])))
          (once (st.create replica_set_kind (ReplicaSets.generate_key rs.name) rs)))

  abbrev pub update_calls : ReplicaSet → Calls S (Result (Unit {0}))
  update_calls rs =
      call (st.get replica_set_kind (ReplicaSets.generate_key rs.name)) (λ existing_rs.
        either_way existing_rs
          (once (st.update replica_set_kind (ReplicaSets.generate_key rs.name) rs))
          (returns (err (err_replica_set_not_found ∷ []))))

  -- The filters, before a handler that calls the storage once at most.
  abbrev pub load_node_calls : Handler S → Request → Calls S Response
  load_node_calls chain req = call (Nodes.get_node st req.name) (λ node.
      after node
        (λ n. once (chain (set_attribute NodeHandler.node_attribute_key (node_attribute n) req)))
        (λ e. write_error (NodeHandler.load_status e) e))

  abbrev pub load_pod_calls : Handler S → Request → Calls S Response
  load_pod_calls chain req = call (Pods.get_pod st req.name) (λ pod.
      after pod
        (λ p. once (chain (set_attribute PodHandler.pod_attribute_key (pod_attribute p) req)))
        (λ e. write_error (PodHandler.load_status e) e))

  abbrev pub load_replicaset_calls :
      (ReplicaSet → Request → Calls S Response) → Request → Calls S Response
  load_replicaset_calls chain req = call (ReplicaSets.get st req.name) (λ replicaset.
      after replicaset (λ rs. chain rs req) (λ e. write_error (ReplicasetHandler.load_status e) e))

  abbrev pub create_node_route_calls : Request → Calls S Response
  create_node_route_calls req =
      after (req.read_entity node_kind)
        (λ node.
          answering
            (λ created.
              node_created created (write_response status_created (some (node_entity node))))
            (create_node_calls st v node))
        (λ e. write_error status_bad_request e)

  abbrev pub create_replicaset_calls : Request → Calls S Response
  create_replicaset_calls req =
      after (req.read_entity replica_set_kind)
        (λ rs.
          answering
            (λ created.
              replica_set_created created
                (write_response status_created (some (replica_set_entity rs))))
            (create_calls rs))
        (λ e. write_error status_bad_request e)

  abbrev pub update_replicaset_calls : ReplicaSet → Request → Calls S Response
  update_replicaset_calls existing_replicaset req =
      after (req.read_entity replica_set_kind)
        (λ rs.
          if not (same existing_replicaset.name rs.name)
          then returns (write_error status_bad_request [])
          else answering
              (λ updated.
                replica_set_updated updated
                  (write_response status_ok (some (replica_set_entity rs))))
              (update_calls rs))
        (λ e. write_error status_bad_request e)

  abbrev pub with_replicaset : Handler S → ReplicaSet → Request → Calls S Response
  with_replicaset chain rs req = once (
      chain
        (set_attribute ReplicasetHandler.replicaset_attribute_key (replica_set_attribute rs) req))

  -- The calls of the storage that the handler of a route makes, behind its filter.
  unfoldable pub serve_calls : Route → Request → Calls S Response
  serve_calls post_nodes req = create_node_route_calls req
  serve_calls get_node req = load_node_calls (NodeHandler.get_node st) req
  serve_calls put_node req = load_node_calls (NodeHandler.update_node st v) req
  serve_calls delete_node req = load_node_calls (NodeHandler.delete_node st) req
  serve_calls get_pod req = load_pod_calls (PodHandler.get_pod st) req
  serve_calls put_pod req = load_pod_calls (PodHandler.update_pod st v) req
  serve_calls delete_pod req = load_pod_calls (PodHandler.delete_pod st) req
  serve_calls post_replicasets req = create_replicaset_calls req
  serve_calls get_replicaset req =
      load_replicaset_calls (with_replicaset (ReplicasetHandler.get_replicaset st)) req
  serve_calls put_replicaset req = load_replicaset_calls update_replicaset_calls req
  serve_calls delete_replicaset req =
      load_replicaset_calls (with_replicaset (ReplicasetHandler.delete_replicaset st)) req
  serve_calls get_healthz req = once (serve st v get_healthz req)
  serve_calls post_pods req = once (serve st v post_pods req)
  serve_calls get_pods req = once (serve st v get_pods req)
  serve_calls get_pods_unassigned req = once (serve st v get_pods_unassigned req)
  serve_calls get_nodes req = once (serve st v get_nodes req)
  serve_calls get_replicasets req = once (serve st v get_replicasets req)
