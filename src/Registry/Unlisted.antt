-- ===== src/Registry/Unlisted.antt =====
-- Over the ordered map: nodes that are created and are in no list (pkg/registry/node_registry.go).
use gokube_workshop_day.Prelude.{◌≡◌, true, false, has_prefix}
use gokube_workshop_day.Go.{Error, ok, err}
use gokube_workshop_day.Api.Types.{Node, node_kind}
use gokube_workshop_day.Api.Validation.{Validator}
use gokube_workshop_day.Storage.Interface.{Codec}
use gokube_workshop_day.Storage.Rows.{Rows, map_storage}
use gokube_workshop_day.Registry.Rules.{RoundTrips}
use gokube_workshop_day.Registry.Outcomes.{create_node_iff}
use gokube_workshop_day.Registry.RoundTrip.{create_node-get_node}
use gokube_workshop_day.Registry.Listing.{create_node-list_nodes}
use gokube_workshop_day.Registry.Node as Nodes

-- A valid node of which none can be read by its name, and whose key does not begin with
-- "/registry/nodes/", is created and can then be read by its name, but a list of the nodes is what it was
-- before, if the codec takes the node there and back.
pub create_node_unlisted :
    (c : Codec) (v : Validator) (rows : Rows) (node : Node) (e : Error)
    → RoundTrips c node_kind node
    → v.struct_node node ≡ true
    → (Nodes.get_node (map_storage c) node.name rows).0 ≡ err e
    → has_prefix (Nodes.generate_key Nodes.node_prefix node.name) Nodes.node_prefix ≡ false
    → ((Nodes.create_node (map_storage c) v node rows).0 ≡ ok tt)
      × ((Nodes.get_node
            (map_storage c)
            node.name
            (Nodes.create_node (map_storage c) v node rows).1).0
          ≡ ok node)
      × ((Nodes.list_nodes (map_storage c) (Nodes.create_node (map_storage c) v node rows).1).0
          ≡ (Nodes.list_nodes (map_storage c) rows).0)
create_node_unlisted c v rows node e t valid absent outside =
    let created =
      (create_node_iff c v rows node).1 ((e, absent), valid, λ q. absurd (cc (t.encodes, q))) in
    (
      created,
      (create_node-get_node c v rows node t created).0,
      create_node-list_nodes c v rows node outside,
    )
