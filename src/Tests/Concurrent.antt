-- ===== src/Tests/Concurrent.antt =====
-- The theorems about goroutines at two that create the same object.
use gokube_workshop_day.Prelude.{some, none, same, arith, ℕ, ◌≡◌, refl, true, false, [], ◌∷◌, codes}
use gokube_workshop_day.Go.{Result, ok, err}
use gokube_workshop_day.Go.Calls.{returns, act, alone}
use gokube_workshop_day.Go.Interleaving.{together}
use gokube_workshop_day.Go.Mutex.{
  Goroutine, System, Reach, start, later, lock, call, unlock, waiting, inside, finished, update,
}
use gokube_workshop_day.Go.Linearizable.{Linearized}
use gokube_workshop_day.Api.Types.{Node, Pod, Kind, Obj, node_kind, pod_kind, node_not_ready}
use gokube_workshop_day.Api.Validation.{tag_validator}
use gokube_workshop_day.Storage.Rows.{Rows, insert, remove, lookup, decode_row}
use gokube_workshop_day.Registry.Node as Nodes
use gokube_workshop_day.Registry.Pod as Pods
use gokube_workshop_day.Handlers.Http.{
  Request, write_response, status_ok, status_no_content, pod_entity,
}
use gokube_workshop_day.Server.{put_pod, delete_pod, serve_all}
use gokube_workshop_day.Server.Interleaved.{serve_calls}
use gokube_workshop_day.Server.Restored.{put_pod-delete_pod}
use gokube_workshop_day.Registry.Rules.{RoundTrips}
use gokube_workshop_day.Registry.Race.{create_node_calls, create_node_race}
use gokube_workshop_day.Registry.Locked.{
  ReplicaSetRequest, create, replica_set_methods, replica_set_calls, replica_set_method,
  replica_set_methods-Linearized,
}
use gokube_workshop_day.Tests.Fixtures.{
  codec, store, worker, node_of, web, web_pod, web_rows, worker-RoundTrips,
}

abbrev tired : Node
tired = node_of (codes "worker") node_not_ready

abbrev tired-RoundTrips : RoundTrips codec node_kind tired
tired-RoundTrips = record { encoded = _; encodes = refl; decodes = refl }

create_node_race_example :
    together
      (true ∷ false ∷ true ∷ false ∷ [])
      (create_node_calls store tag_validator worker)
      (create_node_calls store tag_validator tired)
      []
    ≡ (
      returns (ok tt),
      returns (ok tt),
      insert (Nodes.generate_key Nodes.node_prefix (codes "worker")) tired-RoundTrips.encoded (
          insert
            (Nodes.generate_key Nodes.node_prefix (codes "worker"))
            worker-RoundTrips.encoded
            []),
    )
unfolding lookup
create_node_race_example =
    create_node_race codec tag_validator [] worker tired worker-RoundTrips tired-RoundTrips refl
      refl refl refl

-- Every goroutine creates the same ReplicaSet.
abbrev requests : ℕ → ReplicaSetRequest
requests i = create web

abbrev locked : System (replica_set_methods store)
locked = record {
  shared = [];
  at =
      update (replica_set_methods store) (λ i. waiting (requests i)) 0
        (inside (create web) (replica_set_calls store (create web)));
}

one_locks : Reach (replica_set_methods store) [] requests locked
one_locks = later start (lock 0 (create web) refl refl (λ i r p h. ground arith) refl)

abbrev stood :
    System (replica_set_methods store)
    → Goroutine (replica_set_methods store)
    → System (replica_set_methods store)
stood t (waiting r) = t
stood t (inside r (returns a)) = record {
  shared = t.shared;
  at = update (replica_set_methods store) t.at 0 (finished r a);
}
stood t (inside r (act f k)) = record {
  shared = f t.shared;
  at = update (replica_set_methods store) t.at 0 (inside r (k t.shared));
}
stood t (finished r a) = t

-- The next step of the first goroutine.
abbrev turn : System (replica_set_methods store) → System (replica_set_methods store)
turn t = stood t (t.at 0)

one_returns : Reach (replica_set_methods store) [] requests (turn (turn (turn locked)))
unfolding lookup decode_row
one_returns =
    later
      (later (later one_locks (call 0 (create web) _ _ refl refl))
        (call 0 (create web) _ _ refl refl))
      (unlock 0 (create web) _ refl refl)

-- The second goroutine has locked after the first one has returned.
abbrev second_locked : System (replica_set_methods store)
second_locked = record {
  shared = (turn (turn (turn locked))).shared;
  at =
      update (replica_set_methods store) (turn (turn (turn locked))).at 1
        (inside (create web) (replica_set_calls store (create web)));
}

two_lock : Reach (replica_set_methods store) [] requests second_locked
unfolding lookup decode_row
two_lock = later one_returns (lock 1 (create web) refl refl (λ i r p h. ground arith) refl)

replica_set_methods-Linearized_example :
    Linearized (replica_set_methods store) [] second_locked
    × ((r : ReplicaSetRequest) (s : Rows)
        → alone (replica_set_calls store r) s ≡ replica_set_method store r s)
replica_set_methods-Linearized_example =
    replica_set_methods-Linearized codec [] requests second_locked two_lock

abbrev no_body : (k : Kind) → Result (Obj k)
no_body k = err []

-- The pod, set to a node.
abbrev bound : Pod
bound = record web_pod { node_name = codes "worker" }

abbrev bound_body : (k : Kind) → Result (Obj k)
bound_body pod_kind = ok bound
bound_body k = err []

abbrev put_bound : Request
put_bound = record {
  name = codes "web-1";
  node_name = [];
  read_entity = bound_body;
  attributes = [];
}

abbrev delete_web : Request
delete_web = record put_bound { read_entity = no_body }

bound-RoundTrips : RoundTrips codec pod_kind bound
bound-RoundTrips = record { encoded = _; encodes = refl; decodes = refl }

stored_web :
    decode_row codec pod_kind (lookup (Pods.generate_key (codes "web-1")) web_rows) ≡ ok web_pod
unfolding decode_row lookup Pods.generate_key same
stored_web = refl

put_pod-delete_pod_example :
    (together
        (true ∷ false ∷ false ∷ true ∷ [])
        (serve_calls store tag_validator put_pod put_bound)
        (serve_calls store tag_validator delete_pod delete_web)
        web_rows
      ≡ (
        returns (write_response status_ok (some (pod_entity bound))),
        returns (write_response status_no_content none),
        insert
            (Pods.generate_key (codes "web-1"))
            bound-RoundTrips.encoded
            (remove (Pods.generate_key (codes "web-1")) web_rows),
      ))
    × (lookup
          (Pods.generate_key (codes "web-1"))
          (serve_all store tag_validator
            ((put_pod, put_bound) ∷ (delete_pod, delete_web) ∷ [])
            web_rows).1
        ≡ none)
    × (lookup
          (Pods.generate_key (codes "web-1"))
          (serve_all store tag_validator
            ((delete_pod, delete_web) ∷ (put_pod, put_bound) ∷ [])
            web_rows).1
        ≡ none)
put_pod-delete_pod_example =
    put_pod-delete_pod codec tag_validator web_rows web_pod bound bound-RoundTrips put_bound
      delete_web stored_web refl refl refl refl refl
