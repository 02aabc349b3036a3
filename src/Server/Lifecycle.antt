-- ===== src/Server/Lifecycle.antt =====
-- A node from its creation to its deletion, as a client of the server sees it.
use gokube_workshop_day.Prelude.{◌≡◌, ◌∙◌, arith, true, none, some, [], ◌∷◌, same_refl, refl, Text}
use gokube_workshop_day.Go.{ok, err_node_not_found}
use gokube_workshop_day.Api.Types.{Node, node_kind}
use gokube_workshop_day.Api.Validation.{Validator}
use gokube_workshop_day.Api.Node as ApiNode
use gokube_workshop_day.Storage.Interface.{Codec}
use gokube_workshop_day.Storage.Rows.{
  Rows, lookup, insert, remove, decode_row, put_row, map_storage,
}
use gokube_workshop_day.Storage.Etcd.{EtcdClient, EtcdLaws, etcd_storage}
use gokube_workshop_day.Registry.Node as Nodes
use gokube_workshop_day.Registry.Rules.{RoundTrips, insert-lookup, remove-lookup}
use gokube_workshop_day.Handlers.Http.{
  Request, attribute, node_entity, write_response, write_error, status_created, status_ok,
  status_no_content, status_not_found,
}
use gokube_workshop_day.Handlers.Node as NodeHandler
use gokube_workshop_day.Server.{post_nodes, get_node, delete_node, serve, serve_all}
use gokube_workshop_day.Server.Simulation.{serve_all-etcd}

module _ (c : Codec) (v : Validator) (node : Node) (t : RoundTrips c node_kind node)
    (req : Request) where
  abbrev node_key : Text
  node_key = Nodes.generate_key Nodes.node_prefix node.name

  post_absent :
      (rows : Rows)
      → req.read_entity node_kind ≡ ok node
      → v.struct_node node ≡ true
      → lookup node_key rows ≡ none
      → serve (map_storage c) v post_nodes req rows
        ≡ (write_response status_created (some (node_entity node)), insert node_key t.encoded rows)
  unfolding serve NodeHandler.create_node Nodes.create_node ApiNode.validate decode_row put_row
  post_absent rows body valid absent = ground (arith, t.encodes)

  get_present :
      (rows : Rows)
      → req.name ≡ node.name
      → lookup node_key rows ≡ some t.encoded
      → serve (map_storage c) v get_node req rows
        ≡ (write_response status_ok (some (node_entity node)), rows)
  unfolding serve NodeHandler.load_node_into_request NodeHandler.get_node Nodes.get_node decode_row
      attribute
  get_present rows named present =
      ground (arith, t.decodes, same_refl NodeHandler.node_attribute_key)

  delete_present :
      (rows : Rows)
      → req.name ≡ node.name
      → lookup node_key rows ≡ some t.encoded
      → serve (map_storage c) v delete_node req rows
        ≡ (write_response status_no_content none, remove node_key rows)
  unfolding serve NodeHandler.load_node_into_request NodeHandler.delete_node Nodes.get_node
      Nodes.delete_node decode_row attribute
  delete_present rows named present =
      ground (arith, t.decodes, same_refl NodeHandler.node_attribute_key)

  get_absent :
      (rows : Rows)
      → req.name ≡ node.name
      → lookup node_key rows ≡ none
      → serve (map_storage c) v get_node req rows
        ≡ (write_error status_not_found (err_node_not_found ∷ []), rows)
  unfolding serve NodeHandler.load_node_into_request Nodes.get_node decode_row
  get_absent rows named absent = ground arith

  rows_lifecycle :
      (rows : Rows)
      → req.read_entity node_kind ≡ ok node
      → req.name ≡ node.name
      → v.struct_node node ≡ true
      → lookup node_key rows ≡ none
      → (serve_all
          (map_storage c)
          v
          ((post_nodes, req) ∷ (get_node, req) ∷ (delete_node, req) ∷ (get_node, req) ∷ [])
          rows).0
        ≡ write_response status_created (some (node_entity node))
          ∷ write_response status_ok (some (node_entity node))
          ∷ write_response status_no_content none
          ∷ write_error status_not_found (err_node_not_found ∷ [])
          ∷ []
  unfolding serve_all
  rows_lifecycle rows body named valid absent =
      let stored = insert node_key t.encoded rows in
      let found = insert-lookup node_key t.encoded rows in
      rw
        (
          post_absent rows body valid absent,
          get_present stored named found,
          delete_present stored named found,
          get_absent (remove node_key stored) named (remove-lookup node_key stored),
        )
        refl

module _ {S : Type 0} {client : EtcdClient S} (etcd : EtcdLaws client) (c : Codec)
    (v : Validator) where
  -- While etcd is up and has no row at a valid node's key, a POST of the node answers 201 and the
  -- node, then a GET of its name 200 and the node, then a DELETE 204, and then a GET 404, if the codec
  -- takes the node there and back.
  pub serve_all-lifecycle :
      (node : Node)
      → RoundTrips c node_kind node
      → (req : Request) (s : S) → req.read_entity node_kind ≡ ok node
      → req.name ≡ node.name
      → v.struct_node node ≡ true
      → etcd.up s ≡ true
      → lookup (Nodes.generate_key Nodes.node_prefix node.name) (etcd.rows s) ≡ none
      → (serve_all
          (etcd_storage client c)
          v
          ((post_nodes, req) ∷ (get_node, req) ∷ (delete_node, req) ∷ (get_node, req) ∷ [])
          s).0
        ≡ write_response status_created (some (node_entity node))
          ∷ write_response status_ok (some (node_entity node))
          ∷ write_response status_no_content none
          ∷ write_error status_not_found (err_node_not_found ∷ [])
          ∷ []
  serve_all-lifecycle node t req s body named valid up absent =
      (serve_all-etcd etcd c v _ s up).0
      ∙ rows_lifecycle c v node t req (etcd.rows s) body named valid absent
