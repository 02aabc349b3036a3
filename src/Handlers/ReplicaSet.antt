-- ===== src/Handlers/ReplicaSet.antt =====
-- pkg/api/handlers/replicaset.go
use gokube_workshop_day.Prelude.{ℕ, none, some, [], Text, codes, same, not, if◌then◌else◌}
use gokube_workshop_day.Go.{
  Error, errors_is, pure, ◌>>=◌, on_result, err_replica_set_exists, err_replica_set_not_found,
}
use gokube_workshop_day.Api.Types.{replica_set_kind}
use gokube_workshop_day.Storage.Interface.{Storage}
use gokube_workshop_day.Registry.ReplicaSet as ReplicaSets
use gokube_workshop_day.Handlers.Http.{
  Handler, attribute, set_attribute, replica_set_attribute, as_replica_set, on_attribute,
  replica_set_entity, replica_set_list, write_response, write_error, status_ok, status_created,
  status_no_content, status_bad_request, status_not_found, status_conflict,
  status_internal_server_error,
}

abbrev pub replicaset_attribute_key : Text
replicaset_attribute_key = codes "replicaset"

abbrev pub load_status : Error → ℕ
load_status e =
    if errors_is e err_replica_set_not_found then status_not_found else status_internal_server_error

abbrev pub create_status : Error → ℕ
create_status e =
    if errors_is e err_replica_set_exists then status_conflict else status_internal_server_error

module _ {S : Type 0} (st : Storage S) where
  -- `LoadReplicasetIntoRequest`
  unfoldable pub load_replicaset_into_request : Handler S → Handler S
  load_replicaset_into_request chain req = do
    replicaset ← ReplicaSets.get st req.name
    on_result replicaset
        (λ rs. chain (set_attribute replicaset_attribute_key (replica_set_attribute rs) req))
        (λ e. pure (write_error (load_status e) e))

  -- `CreateReplicaset`
  unfoldable pub create_replicaset : Handler S
  create_replicaset req =
      on_result (req.read_entity replica_set_kind)
        (λ replicaset. do
          created ← ReplicaSets.create st replicaset
          on_result created
              (λ _. pure (write_response status_created (some (replica_set_entity replicaset))))
              (λ e. pure (write_error (create_status e) e)))
        (λ e. pure (write_error status_bad_request e))

  -- `GetReplicaset`
  unfoldable pub get_replicaset : Handler S
  get_replicaset req =
      on_attribute (as_replica_set (attribute replicaset_attribute_key req.attributes))
        (λ replicaset. pure (write_response status_ok (some (replica_set_entity replicaset))))

  -- `UpdateReplicaset`
  unfoldable pub update_replicaset : Handler S
  update_replicaset req =
      on_attribute (as_replica_set (attribute replicaset_attribute_key req.attributes))
        (λ existing_replicaset.
          on_result (req.read_entity replica_set_kind)
            (λ replicaset.
              if not (same existing_replicaset.name replicaset.name)
              then pure (write_error status_bad_request [])
              else (do
                updated ← ReplicaSets.update st replicaset
                on_result updated
                    (λ _. pure (write_response status_ok (some (replica_set_entity replicaset))))
                    (λ e. pure (write_error status_internal_server_error e))))
            (λ e. pure (write_error status_bad_request e)))

  -- `DeleteReplicaset`
  unfoldable pub delete_replicaset : Handler S
  delete_replicaset req =
      on_attribute (as_replica_set (attribute replicaset_attribute_key req.attributes))
        (λ replicaset. do
          deleted ← ReplicaSets.delete st replicaset.name
          on_result deleted (λ _. pure (write_response status_no_content none))
              (λ e. pure (write_error status_internal_server_error e)))

  -- `ListReplicasets`
  unfoldable pub list_replicasets : Handler S
  list_replicasets req = do
    replicasets ← ReplicaSets.list st
    on_result replicasets (λ rs. pure (write_response status_ok (some (replica_set_list rs))))
        (λ e. pure (write_error status_internal_server_error e))
