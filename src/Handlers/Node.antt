-- ===== src/Handlers/Node.antt =====
-- pkg/api/handlers/node.go
use gokube_workshop_day.Prelude.{ℕ, none, some, [], Text, codes, same, not, if◌then◌else◌}
use gokube_workshop_day.Go.{
  Error, errors_is, pure, ◌>>=◌, on_result, err_node_not_found, err_node_already_exists,
  err_node_invalid,
}
use gokube_workshop_day.Api.Types.{node_kind}
use gokube_workshop_day.Api.Validation.{Validator}
use gokube_workshop_day.Storage.Interface.{Storage}
use gokube_workshop_day.Registry.Node as Nodes
use gokube_workshop_day.Handlers.Http.{
  Handler, attribute, set_attribute, node_attribute, as_node, on_attribute, node_entity, node_list,
  write_response, write_error, status_ok, status_created, status_no_content, status_bad_request,
  status_not_found, status_conflict, status_internal_server_error,
}

abbrev pub node_attribute_key : Text
node_attribute_key = codes "node"

abbrev pub load_status : Error → ℕ
load_status e =
    if errors_is e err_node_not_found then status_not_found else status_internal_server_error

abbrev pub create_status : Error → ℕ
create_status e =
    if errors_is e err_node_already_exists
    then status_conflict
    else if errors_is e err_node_invalid
    then status_bad_request
    else status_internal_server_error

abbrev update_status : Error → ℕ
update_status e =
    if errors_is e err_node_invalid then status_bad_request else status_internal_server_error

module _ {S : Type 0} (st : Storage S) where
  -- `LoadNodeIntoRequest`; `chain` is the rest of the filter chain
  unfoldable pub load_node_into_request : Handler S → Handler S
  load_node_into_request chain req = do
    node ← Nodes.get_node st req.name
    on_result node (λ n. chain (set_attribute node_attribute_key (node_attribute n) req))
        (λ e. pure (write_error (load_status e) e))

  -- `CreateNode`
  unfoldable pub create_node : Validator → Handler S
  create_node v req =
      on_result (req.read_entity node_kind)
        (λ node. do
          created ← Nodes.create_node st v node
          on_result created (λ _. pure (write_response status_created (some (node_entity node))))
              (λ e. pure (write_error (create_status e) e)))
        (λ e. pure (write_error status_bad_request e))

  -- `GetNode`
  unfoldable pub get_node : Handler S
  get_node req =
      on_attribute (as_node (attribute node_attribute_key req.attributes))
        (λ node. pure (write_response status_ok (some (node_entity node))))

  -- `UpdateNode`
  unfoldable pub update_node : Validator → Handler S
  update_node v req =
      on_attribute (as_node (attribute node_attribute_key req.attributes)) (λ existing_node.
        on_result (req.read_entity node_kind)
          (λ node.
            if not (same existing_node.name node.name)
            then pure (write_error status_bad_request [])
            else (do
              updated ← Nodes.update_node st v node
              on_result updated (λ _. pure (write_response status_ok (some (node_entity node))))
                  (λ e. pure (write_error (update_status e) e))))
          (λ e. pure (write_error status_bad_request e)))

  -- `DeleteNode`
  unfoldable pub delete_node : Handler S
  delete_node req = on_attribute (as_node (attribute node_attribute_key req.attributes)) (λ node. do
    deleted ← Nodes.delete_node st node.name
    on_result deleted (λ _. pure (write_response status_no_content none))
        (λ e. pure (write_error status_internal_server_error e)))

  -- `ListNodes`, which reads the attribute `nodeName` and does nothing with it
  unfoldable pub list_nodes : Handler S
  list_nodes req = do
    nodes ← Nodes.list_nodes st
    on_result nodes (λ ns. pure (write_response status_ok (some (node_list ns))))
        (λ e. pure (write_error status_internal_server_error e))
