-- ===== src/Server/Cluster/Refinement.antt =====
-- The API server over etcd does what the cluster's operations say.
use mathlib.Core.Path.{ap₂}
use gokube_workshop_day.Prelude.{◌≡◌, refl, ◌∙◌, true, List, [], ◌∷◌, All}
use gokube_workshop_day.Api.Types.{node_kind, pod_kind, replica_set_kind}
use gokube_workshop_day.Api.Validation.{Validator}
use gokube_workshop_day.Storage.Interface.{Codec}
use gokube_workshop_day.Storage.Rows.{Rows, map_storage}
use gokube_workshop_day.Storage.Etcd.{EtcdClient, EtcdLaws, etcd_storage}
use gokube_workshop_day.Registry.Path.{IsPlain}
use gokube_workshop_day.Handlers.Http.{Request, Response}
use gokube_workshop_day.Server.{Route, serve, serve_all}
use gokube_workshop_day.Server.Simulation.{serve_all-etcd}
use gokube_workshop_day.Server.Cluster.{
  Cluster, Operation, create, read, replace, destroy, route_of, perform, perform_all,
}
use gokube_workshop_day.Server.Cluster.Represents.{Represents, Agrees, BodyRoundTrips}
use gokube_workshop_day.Server.Cluster.Nodes.{
  get_node-Agrees, delete_node-Agrees, post_nodes-Agrees, put_node-Agrees,
}
use gokube_workshop_day.Server.Cluster.Pods.{
  get_pod-Agrees, delete_pod-Agrees, post_pods-Agrees, put_pod-Agrees,
}
use gokube_workshop_day.Server.Cluster.ReplicaSets.{
  get_replicaset-Agrees, delete_replicaset-Agrees, post_replicasets-Agrees, put_replicaset-Agrees,
}

-- The names in the path and in the body are plain, and the codec takes the body there and back.
abbrev pub Fits : Codec → Operation × Request → Type 0
Fits c (create k, req) = BodyRoundTrips c req k
Fits c (read k, req) = IsPlain req.name
Fits c (replace k, req) = IsPlain req.name × BodyRoundTrips c req k
Fits c (destroy k, req) = IsPlain req.name

abbrev pub routed : List (Operation × Request) → List (Route × Request)
routed [] = []
routed ((op, req) ∷ rest) = (route_of op, req) ∷ routed rest

module _ (c : Codec) (v : Validator) where
  perform-Agrees :
      {rows : Rows} {cl : Cluster} (r : Represents c rows cl) (op : Operation) (req : Request)
      → Fits c (op, req)
      → Agrees c (serve (map_storage c) v (route_of op) req rows) (perform v op req cl)
  perform-Agrees r (create node_kind) req h = post_nodes-Agrees c v r req h
  perform-Agrees r (create pod_kind) req h = post_pods-Agrees c v r req
  perform-Agrees r (create replica_set_kind) req h = post_replicasets-Agrees c v r req h
  perform-Agrees r (read node_kind) req h = get_node-Agrees c v r req h
  perform-Agrees r (read pod_kind) req h = get_pod-Agrees c v r req h
  perform-Agrees r (read replica_set_kind) req h = get_replicaset-Agrees c v r req h
  perform-Agrees r (replace node_kind) req h = put_node-Agrees c v r req h.0 h.1
  perform-Agrees r (replace pod_kind) req h = put_pod-Agrees c v r req h.0 h.1
  perform-Agrees r (replace replica_set_kind) req h = put_replicaset-Agrees c v r req h.0 h.1
  perform-Agrees r (destroy node_kind) req h = delete_node-Agrees c v r req h
  perform-Agrees r (destroy pod_kind) req h = delete_pod-Agrees c v r req h
  perform-Agrees r (destroy replica_set_kind) req h = delete_replicaset-Agrees c v r req h

  perform_all-rows :
      (ops : List (Operation × Request)) (rows : Rows) (cl : Cluster)
      → Represents c rows cl
      → All (Fits c) ops
      → ((serve_all (map_storage c) v (routed ops) rows).0 ≡ (perform_all v ops cl).0)
        × Represents c (serve_all (map_storage c) v (routed ops) rows).1 (perform_all v ops cl).1
  unfolding serve_all perform_all
  perform_all-rows [] rows cl r h = (refl, r)
  perform_all-rows ((op, req) ∷ rest) rows cl r (h, hs) =
      let (e, r') = perform-Agrees r op req h in
      let (es, r'') =
        perform_all-rows rest (serve (map_storage c) v (route_of op) req rows).1
          (perform v op req cl).1 r' hs in
      (ap₂ (λ (x : Response) (xs : List Response). x ∷ xs) e es, r'')

module _ {S : Type 0} {client : EtcdClient S} (etcd : EtcdLaws client) (c : Codec)
    (v : Validator) where
  -- While etcd is up, any sequence of operations on single objects with plain names is answered as the
  -- cluster answers it that etcd represents, and leaves etcd up and representing the cluster that the
  -- operations then leave, if the codec takes each body there and back.
  pub serve_all-perform_all :
      (cl : Cluster) (ops : List (Operation × Request)) (s : S)
      → etcd.up s ≡ true
      → Represents c (etcd.rows s) cl
      → All (Fits c) ops
      → ((serve_all (etcd_storage client c) v (routed ops) s).0 ≡ (perform_all v ops cl).0)
        × (etcd.up (serve_all (etcd_storage client c) v (routed ops) s).1 ≡ true)
        × Represents c
            (etcd.rows (serve_all (etcd_storage client c) v (routed ops) s).1)
            (perform_all v ops cl).1
  serve_all-perform_all cl ops s up r fits =
      let (answers, up', held) = serve_all-etcd etcd c v (routed ops) s up in
      let (answers', r') = perform_all-rows c v ops (etcd.rows s) cl r fits in
      (answers ∙ answers', up', rw held r')
