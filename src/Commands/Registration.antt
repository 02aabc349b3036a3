-- ===== src/Commands/Registration.antt =====
-- The kubelet's program (cmd/kubelet) against the API server (pkg/api/server): a kubelet registers its
-- node by a request that the server's container answers.
use gokube_workshop_day.Prelude.{
  ◌≡◌, ◌≢◌, ◌↔◌, refl, ap, ◌∙◌, arith, true, none, some, [], ◌∷◌, ◌++◌, Text, codes, ◌==◌,
  if◌then◌else◌, inl, inr, Bool-cases, ℕ, Option,
}
use gokube_workshop_day.Go.{Error, Go, Result, Result-cases, ok, err, err_node_already_exists}
use gokube_workshop_day.Api.Types.{Node, node_kind}
use gokube_workshop_day.Api.Validation.{Validator}
use gokube_workshop_day.Storage.Interface.{Codec}
use gokube_workshop_day.Storage.Rows.{Rows, map_storage, decode_row, lookup}
use gokube_workshop_day.Storage.Etcd.{EtcdClient, EtcdLaws, etcd_storage}
use gokube_workshop_day.Storage.Refinement.{etcd_storage-Refines}
use gokube_workshop_day.Registry.Node as Nodes
use gokube_workshop_day.Registry.Rules.{RoundTrips}
use gokube_workshop_day.Registry.Outcomes.{create_node_iff}
use gokube_workshop_day.Registry.RoundTrip.{create_node-get_node}
use gokube_workshop_day.Handlers.Http.{Request, Response, status_created}
use gokube_workshop_day.Handlers.Node as NodeHandler
use gokube_workshop_day.Server.{post_nodes, get_pod, serve}
use gokube_workshop_day.Server.Router.{Router, RouterLaws, Container, dispatch, elements_of}
use gokube_workshop_day.Server.Dispatch.{addressed, dispatch-serve}
use gokube_workshop_day.Server.Simulation.{serve-Simulates}
use gokube_workshop_day.Kubelet.Pods.{registration, new_kubelet, register_node, start}
use gokube_workshop_day.Commands.{exited, blocked, main_kubelet, run_kubelet}

-- The node that a kubelet of that name registers.
abbrev pub own_node : Text → Node
own_node name = registration (record { node_name = name; api_server_url = []; pods = [] })

-- The requests of `post` for a node arrive at the container that is served at the address: it is asked
-- with the path of the URL and the node as its body, and the status of its answer comes back.
pub record Delivers {S : Type 0} (post : Text → Node → Go S (Option ℕ)) (container : Container S)
    (address : Text) (node : Node) : Type 0 where
  pub request : Request
  pub body : request.read_entity node_kind ≡ ok node
  pub posted :
      (path : Text) (s : S) (response : Response)
      → (container (codes "POST") (elements_of path) request s).0 ≡ some response
      → post (codes "http://" ++ address ++ path) node s
        ≡ (some response.status, (container (codes "POST") (elements_of path) request s).1)

module _ (c : Codec) (v : Validator) where
  -- POST /nodes answers 201 exactly if the registry creates the node, and does nothing else.
  posted_rows :
      (node : Node) (req : Request) (rows : Rows)
      → req.read_entity node_kind ≡ ok node
      → (((serve (map_storage c) v post_nodes req rows).0.status ≡ status_created)
          ↔ ((Nodes.create_node (map_storage c) v node rows).0 ≡ ok tt))
        × ((serve (map_storage c) v post_nodes req rows).1
            ≡ (Nodes.create_node (map_storage c) v node rows).1)
  unfolding serve NodeHandler.create_node
  posted_rows node req rows body =
      elim (Result-cases (Nodes.create_node (map_storage c) v node rows).0) [
        | inl (u, e) ↦ ((λ h. ground arith, λ h. ground arith), ground arith)
        | inr (e', e) ↦ ((λ h. absurd (ground arith), λ h. absurd (ground arith)), ground arith)
      ]

  existing_refused :
      (node n : Node) (rows : Rows)
      → (Nodes.get_node (map_storage c) node.name rows).0 ≡ ok n
      → Nodes.create_node (map_storage c) v node rows ≡ (err (err_node_already_exists ∷ []), rows)
  unfolding Nodes.create_node Nodes.get_node
  existing_refused node n rows h =
      elim (Result-cases
        (decode_row c node_kind (lookup (Nodes.generate_key Nodes.node_prefix node.name) rows))) [
          | inl (n', e) ↦ ground arith
          | inr (e', e) ↦ absurd (ground arith)
        ]

module _ {S : Type 0} {client : EtcdClient S} (etcd : EtcdLaws client) (c : Codec) (v : Validator)
    {router : Router} (routes : RouterLaws router) (post : Text → Node → Go S (Option ℕ))
    (address name : Text)
    (net : Delivers post (dispatch router (etcd_storage client c) v) address (own_node name)) where
  abbrev asked : Request
  asked = addressed post_nodes [] net.request

  answered :
      (s : S)
      → post (codes "http://" ++ address ++ codes "/api/v1/nodes") (own_node name) s ≡ (
        some (serve (etcd_storage client c) v post_nodes asked s).0.status,
        (serve (etcd_storage client c) v post_nodes asked s).1,
      )
  unfolding elements_of
  answered s =
      let e =
        dispatch-serve router routes (etcd_storage client c) v post_nodes [] net.request s
          (λ (q : post_nodes ≡ get_pod). absurd (ground arith)) in
      net.posted (codes "/api/v1/nodes") s (serve (etcd_storage client c) v post_nodes asked s).0
        (ap (λ (a : Option Response × S). a.0) e)
      ∙ ap
          (λ (a : Option Response × S).
            (some (serve (etcd_storage client c) v post_nodes asked s).0.status, a.1))
          e

  started_by :
      (s : S)
      → main_kubelet true post (some (name, address)) s ≡ (
        if (serve (etcd_storage client c) v post_nodes asked s).0.status == status_created
            then blocked
            else exited 1,
        (serve (etcd_storage client c) v post_nodes asked s).1,
      )
  unfolding main_kubelet run_kubelet new_kubelet start register_node
  started_by s = ground (arith, answered s)

  not_blocked :
      (s : S)
      → (main_kubelet true post (some (name, address)) s).0 ≢ blocked
      → (main_kubelet true post (some (name, address)) s).0 ≡ exited 1
  not_blocked s h =
      let code = (serve (etcd_storage client c) v post_nodes asked s).0.status in
      elim (Bool-cases (code == status_created)) [
        | inl e ↦ absurd (h (rw (started_by s) (ground arith)))
        | inr e ↦ rw (started_by s) (ground arith)
      ]

  -- One run of the kubelet, seen in the ordered map.
  run_seen :
      (s : S)
      → etcd.up s ≡ true
      → (((main_kubelet true post (some (name, address)) s).0 ≡ blocked)
          ↔ ((Nodes.create_node (map_storage c) v (own_node name) (etcd.rows s)).0 ≡ ok tt))
        × (etcd.rows (main_kubelet true post (some (name, address)) s).1
            ≡ (Nodes.create_node (map_storage c) v (own_node name) (etcd.rows s)).1)
        × (etcd.up (main_kubelet true post (some (name, address)) s).1 ≡ true)
  run_seen s up =
      let (same, held) =
        (serve-Simulates (etcd_storage-Refines etcd c) v post_nodes asked).at s (etcd.rows s)
          (up, refl) in
      let (created, rows) = posted_rows c v (own_node name) asked (etcd.rows s) net.body in
      rw (started_by s) (
        (λ h. created.0 (ground arith), λ h. let code = created.1 h in ground arith),
        held.1 ∙ rows,
        held.0,
      )

  -- While etcd is up, a kubelet with a Docker client whose registration reaches the API server runs on
  -- exactly if no node can be read under its name, the validator accepts its node and the node can be
  -- encoded; else it ends.
  pub main_kubelet_iff :
      (s : S)
      → etcd.up s ≡ true
      → ((main_kubelet true post (some (name, address)) s).0 ≡ blocked) ↔ (
          ((e : Error) × ((Nodes.get_node (map_storage c) name (etcd.rows s)).0 ≡ err e))
          × (v.struct_node (own_node name) ≡ true)
          × (c.encode node_kind (own_node name) ≢ none))
  main_kubelet_iff s up =
      let (there, back) = (run_seen s up).0 in
      let (there', back') = create_node_iff c v (etcd.rows s) (own_node name) in
      (λ h. there' (there h), λ h. back (back' h))

  -- A kubelet that runs on after its start, while etcd is up, has stored its node, if the codec takes the
  -- node there and back. Started under its name in any state, then or later, in which etcd is up and some
  -- node can be read under that name, a kubelet ends with status 1 and changes no row.
  pub main_kubelet_restarted :
      (s later : S) (node : Node)
      → RoundTrips c node_kind (own_node name)
      → etcd.up s ≡ true
      → (main_kubelet true post (some (name, address)) s).0 ≡ blocked
      → etcd.up later ≡ true
      → (Nodes.get_node (map_storage c) name (etcd.rows later)).0 ≡ ok node
      → ((Nodes.get_node
            (map_storage c)
            name
            (etcd.rows (main_kubelet true post (some (name, address)) s).1)).0
          ≡ ok (own_node name))
        × (etcd.up (main_kubelet true post (some (name, address)) s).1 ≡ true)
        × ((main_kubelet true post (some (name, address)) later).0 ≡ exited 1)
        × (etcd.rows (main_kubelet true post (some (name, address)) later).1 ≡ etcd.rows later)
  main_kubelet_restarted s later node t up runs up' found =
      let (iff, rows, up1) = run_seen s up in
      let (iff', rows', up2) = run_seen later up' in
      let refused = existing_refused c v (own_node name) node (etcd.rows later) found in
      (
        rw rows ((create_node-get_node c v (etcd.rows s) (own_node name) t (iff.0 runs)).0),
        up1,
        not_blocked later (λ q. absurd (ground (arith, refused, iff'.0 q))),
        rows' ∙ ap (λ (r : Result (Unit {0}) × Rows). r.1) refused,
      )
