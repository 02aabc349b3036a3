-- ===== src/Server/Cluster/Nodes.antt =====
-- The operations on nodes over the ordered map of encoded objects.
use gokube_workshop_day.Prelude.{
  ◌≡◌, arith, none, some, [], ◌∷◌, Text, ◌&&◌, same, same_refl, inl, inr, Option-cases, Bool-cases,
}
use gokube_workshop_day.Go.{Result-cases, ok, err, err_not_found}
use gokube_workshop_day.Api.Types.{Node, node_kind}
use gokube_workshop_day.Api.Node as ApiNode
use gokube_workshop_day.Api.Validation.{Validator}
use gokube_workshop_day.Storage.Interface.{Codec}
use gokube_workshop_day.Storage.Rows.{
  Rows, lookup, insert, remove, decode_row, put_row, map_storage,
}
use gokube_workshop_day.Registry.Path.{IsPlain}
use gokube_workshop_day.Registry.Collisions.{node_key}
use gokube_workshop_day.Registry.Node as Nodes
use gokube_workshop_day.Handlers.Http.{Request, attribute}
use gokube_workshop_day.Handlers.Node as NodeHandler
use gokube_workshop_day.Server.{serve, post_nodes, get_node, put_node, delete_node}
use gokube_workshop_day.Server.Cluster.{Cluster, put, drop, perform, create, read, replace, destroy}
use gokube_workshop_day.Server.Cluster.Represents.{Represents, Agrees, agrees, BodyRoundTrips}
use gokube_workshop_day.Server.Cluster.Changes.{Represents-put, Represents-drop}

module _ (c : Codec) (v : Validator) {rows : Rows} {cl : Cluster} (r : Represents c rows cl)
    (req : Request) where
  node_missing :
      (name : Text)
      → IsPlain name
      → cl node_kind name ≡ none
      → decode_row c node_kind (lookup (node_key name) rows) ≡ err (err_not_found ∷ [])
  node_missing name plain e = rw e at (r.held node_kind name plain)

  node_found :
      (name : Text) (node : Node)
      → IsPlain name
      → cl node_kind name ≡ some node
      → decode_row c node_kind (lookup (node_key name) rows) ≡ ok node
  node_found name node plain e = rw e at (r.held node_kind name plain)

  pub get_node-Agrees :
      IsPlain req.name
      → Agrees c (serve (map_storage c) v get_node req rows) (perform v (read node_kind) req cl)
  unfolding serve NodeHandler.load_node_into_request NodeHandler.get_node Nodes.get_node attribute
      perform
  get_node-Agrees plain = elim (Option-cases (cl node_kind req.name)) [
    | inl e ↦ agrees c _ _ rows cl (ground (arith, node_missing req.name plain e)) (ground arith) r
    | inr (node, e) ↦
        agrees c _ _ rows cl
          (ground
            (arith, node_found req.name node plain e, same_refl NodeHandler.node_attribute_key))
          (ground arith) r
  ]

  pub delete_node-Agrees :
      IsPlain req.name
      → Agrees c
          (serve (map_storage c) v delete_node req rows)
          (perform v (destroy node_kind) req cl)
  unfolding serve NodeHandler.load_node_into_request NodeHandler.delete_node Nodes.get_node
      Nodes.delete_node attribute perform
  delete_node-Agrees plain = elim (Option-cases (cl node_kind req.name)) [
    | inl e ↦ agrees c _ _ rows cl (ground (arith, node_missing req.name plain e)) (ground arith) r
    | inr (node, e) ↦
        agrees c _ _ (remove (node_key req.name) rows) (drop node_kind req.name cl)
          (ground (
            arith,
            node_found req.name node plain e,
            r.own node_kind req.name node plain e,
            same_refl NodeHandler.node_attribute_key,
          ))
          (ground arith) (Represents-drop c r node_kind req.name plain)
  ]

  pub post_nodes-Agrees :
      BodyRoundTrips c req node_kind
      → Agrees c (serve (map_storage c) v post_nodes req rows) (perform v (create node_kind) req cl)
  unfolding serve NodeHandler.create_node Nodes.create_node ApiNode.validate put_row perform
  post_nodes-Agrees body = elim (Result-cases (req.read_entity node_kind)) [
    | inr (e', e) ↦ agrees c _ _ rows cl (ground arith) (ground arith) r
    | inl (node, e) ↦
        let (plain, t) = body node e in
        elim (Option-cases (cl node_kind node.name)) [
          | inr (old, q) ↦
              agrees c _ _ rows cl (ground (arith, node_found node.name old plain q)) (ground arith)
                r
          | inl q ↦ elim (Bool-cases (v.struct_node node)) [
            | inl valid ↦
                agrees c _ _ (insert (node_key node.name) t.encoded rows) (put node_kind node cl)
                  (ground (arith, node_missing node.name plain q, t.encodes)) (ground arith)
                  (Represents-put c r node_kind node plain t)
            | inr refused ↦
                agrees c _ _ rows cl (ground (arith, node_missing node.name plain q)) (ground arith)
                  r
          ]
        ]
  ]

  pub put_node-Agrees :
      IsPlain req.name
      → BodyRoundTrips c req node_kind
      → Agrees c (serve (map_storage c) v put_node req rows) (perform v (replace node_kind) req cl)
  unfolding serve NodeHandler.load_node_into_request NodeHandler.update_node Nodes.get_node
      Nodes.update_node ApiNode.validate put_row attribute perform
  put_node-Agrees plain body = elim (Option-cases (cl node_kind req.name)) [
    | inl q ↦ agrees c _ _ rows cl (ground (arith, node_missing req.name plain q)) (ground arith) r
    | inr (old, q) ↦
        let stored = node_found req.name old plain q in
        let named = r.own node_kind req.name old plain q in
        let key = same_refl NodeHandler.node_attribute_key in
        elim (Result-cases (req.read_entity node_kind)) [
          | inr (e', e) ↦ agrees c _ _ rows cl (ground (arith, stored, key)) (ground arith) r
          | inl (node, e) ↦
              let (plain', t) = body node e in
              elim (Bool-cases (same req.name node.name && v.struct_node node)) [
                | inl fits ↦
                    agrees c _ _ (insert (node_key node.name) t.encoded rows)
                      (put node_kind node cl) (ground (arith, stored, named, key, t.encodes))
                      (ground arith) (Represents-put c r node_kind node plain' t)
                | inr refused ↦
                    agrees c _ _ rows cl (ground (arith, stored, named, key)) (ground arith) r
              ]
        ]
  ]
