-- ===== src/Registry/Node.antt =====
-- pkg/registry/node_registry.go
use gokube_workshop_day.Prelude.{List, [], ◌∷◌, Text, codes, if◌then◌else◌}
use gokube_workshop_day.Go.{
  Error, Result, ok, err, errors_is, Go, pure, ◌>>=◌, on_result, err_not_found, err_internal,
  err_node_not_found, err_node_already_exists, err_list_nodes_failed, err_node_invalid,
}
use gokube_workshop_day.Api.Types.{Node, node_kind}
use gokube_workshop_day.Api.Validation.{Validator}
use gokube_workshop_day.Api.Node as ApiNode
use gokube_workshop_day.Storage.Interface.{Storage}
use gokube_workshop_day.Registry.Path.{join}

abbrev pub node_prefix : Text
node_prefix = codes "/registry/nodes/"

-- `generateKey`
unfoldable pub generate_key : Text → Text → Text
generate_key prefix name = join prefix name

-- The two wrappings of a failed get.
abbrev pub node_read_error : Error → Error
node_read_error e = if errors_is e err_not_found then err_node_not_found ∷ [] else err_internal ∷ []

module _ {S : Type 0} (st : Storage S) where
  -- `NodeRegistry.CreateNode`
  unfoldable pub create_node : Validator → Node → Go S (Result (Unit {0}))
  create_node v node = do
    let key = generate_key node_prefix node.name
    existing_node ← st.get node_kind key
    on_result existing_node (λ _. pure (err (err_node_already_exists ∷ [])))
        (λ _.
          on_result (ApiNode.validate v node) (λ _. st.create node_kind key node)
            (λ _. pure (err (err_node_invalid ∷ []))))

  -- `NodeRegistry.GetNode`
  unfoldable pub get_node : Text → Go S (Result Node)
  get_node name = do
    node ← st.get node_kind (generate_key node_prefix name)
    on_result node (λ n. pure (ok n)) (λ e. pure (err (node_read_error e)))

  -- `NodeRegistry.UpdateNode`
  unfoldable pub update_node : Validator → Node → Go S (Result (Unit {0}))
  update_node v node =
      on_result (ApiNode.validate v node)
        (λ _. st.update node_kind (generate_key node_prefix node.name) node)
        (λ _. pure (err (err_node_invalid ∷ [])))

  -- `NodeRegistry.DeleteNode`
  unfoldable pub delete_node : Text → Go S (Result (Unit {0}))
  delete_node name = st.delete (generate_key node_prefix name)

  -- `NodeRegistry.ListNodes`
  unfoldable pub list_nodes : Go S (Result (List Node))
  list_nodes = do
    nodes ← st.list node_kind node_prefix
    on_result nodes (λ ns. pure (ok ns)) (λ _. pure (err (err_list_nodes_failed ∷ [])))
