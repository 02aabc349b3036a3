-- ===== src/Registry/Race.antt =====
-- The node registry has no mutex: two calls of CreateNode may interleave.
use gokube_workshop_day.Prelude.{◌≡◌, true, false, none, [], ◌∷◌, arith}
use gokube_workshop_day.Go.{Result, ok, err, err_node_already_exists, err_node_invalid}
use gokube_workshop_day.Go.Calls.{Calls, returns, call, alone}
use gokube_workshop_day.Go.Interleaving.{together}
use gokube_workshop_day.Api.Types.{Node, node_kind}
use gokube_workshop_day.Api.Validation.{Validator}
use gokube_workshop_day.Api.Node as ApiNode
use gokube_workshop_day.Storage.Interface.{Codec, Storage}
use gokube_workshop_day.Storage.Rows.{Rows, lookup, insert, decode_row, put_row, map_storage}
use gokube_workshop_day.Registry.Node as Nodes
use gokube_workshop_day.Registry.Rules.{RoundTrips}

module _ {S : Type 0} (st : Storage S) (v : Validator) where
  abbrev pub validated :
      Result (Unit {0}) → Calls S (Result (Unit {0})) → Calls S (Result (Unit {0}))
  validated (ok u) store = store
  validated (err e) store = returns (err (err_node_invalid ∷ []))

  abbrev pub unless_found : Result Node → Calls S (Result (Unit {0})) → Calls S (Result (Unit {0}))
  unless_found (ok n) absent = returns (err (err_node_already_exists ∷ []))
  unless_found (err e) absent = absent

  -- The calls of the storage that `CreateNode` makes.
  unfoldable pub create_node_calls : Node → Calls S (Result (Unit {0}))
  create_node_calls node =
      call (st.get node_kind (Nodes.generate_key Nodes.node_prefix node.name)) (λ existing_node.
        unless_found existing_node (
          validated (ApiNode.validate v node) (
            call (st.create node_kind (Nodes.generate_key Nodes.node_prefix node.name) node)
              (λ r. returns r))))

  pub alone-create_node_calls :
      (node : Node) (s : S) → alone (create_node_calls node) s ≡ Nodes.create_node st v node s
  unfolding alone create_node_calls Nodes.create_node ApiNode.validate
  alone-create_node_calls node s = ground arith

module _ (c : Codec) (v : Validator) (rows : Rows) where
  -- Two valid nodes of one name are both created, if no row has their key and the two calls both get
  -- before either stores; what is left is the node that was stored last.
  pub create_node_race :
      (a b : Node) (t : RoundTrips c node_kind a) (u : RoundTrips c node_kind b)
      → a.name ≡ b.name
      → v.struct_node a ≡ true
      → v.struct_node b ≡ true
      → lookup (Nodes.generate_key Nodes.node_prefix a.name) rows ≡ none
      → together
          (true ∷ false ∷ true ∷ false ∷ [])
          (create_node_calls (map_storage c) v a)
          (create_node_calls (map_storage c) v b)
          rows
        ≡ (
          returns (ok tt),
          returns (ok tt),
          insert
              (Nodes.generate_key Nodes.node_prefix a.name)
              u.encoded
              (insert (Nodes.generate_key Nodes.node_prefix a.name) t.encoded rows),
        )
  unfolding together create_node_calls decode_row put_row ApiNode.validate
  create_node_race a b t u same_name va vb absent = ground (arith, t.encodes, u.encodes)
