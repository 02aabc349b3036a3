-- ===== src/Handlers/Pod.antt =====
-- pkg/api/handlers/pod.go
use gokube_workshop_day.Prelude.{
  ℕ, none, some, List, [], ◌∷◌, Text, codes, same, not, keep, if◌then◌else◌,
}
use gokube_workshop_day.Go.{
  Error, errors_is, pure, ◌>>=◌, on_result, err_pod_not_found, err_pod_invalid,
}
use gokube_workshop_day.Api.Types.{Pod, pod_kind}
use gokube_workshop_day.Api.Validation.{Validator}
use gokube_workshop_day.Storage.Interface.{Storage}
use gokube_workshop_day.Registry.Pod as Pods
use gokube_workshop_day.Handlers.Http.{
  Handler, attribute, set_attribute, pod_attribute, as_pod, on_attribute, pod_entity, pod_list,
  write_response, write_error, status_ok, status_created, status_no_content, status_bad_request,
  status_not_found, status_internal_server_error,
}

abbrev pub pod_attribute_key : Text
pod_attribute_key = codes "pod"

abbrev pub load_status : Error → ℕ
load_status e =
    if errors_is e err_pod_not_found then status_not_found else status_internal_server_error

abbrev update_status : Error → ℕ
update_status e =
    if errors_is e err_pod_invalid then status_bad_request else status_internal_server_error

-- The loop of `ListPods`, run where the query names a node.
unfoldable pub pods_on_node : Text → List Pod → List Pod
unfolding keep
pods_on_node [] pods = pods
pods_on_node (c ∷ name) pods = keep (λ pod. same pod.node_name (c ∷ name)) pods

module _ {S : Type 0} (st : Storage S) where
  -- `LoadPodIntoRequest`
  unfoldable pub load_pod_into_request : Handler S → Handler S
  load_pod_into_request chain req = do
    pod ← Pods.get_pod st req.name
    on_result pod (λ p. chain (set_attribute pod_attribute_key (pod_attribute p) req))
        (λ e. pure (write_error (load_status e) e))

  -- `CreatePod`, whose call of the registry is not implemented
  unfoldable pub create_pod : Handler S
  create_pod req =
      on_result (req.read_entity pod_kind)
        (λ pod. pure (write_response status_created (some (pod_entity pod))))
        (λ e. pure (write_error status_bad_request e))

  -- `ListPods`
  unfoldable pub list_pods : Handler S
  list_pods req = do
    pods ← Pods.list_pods st
    on_result pods
        (λ ps. pure (write_response status_ok (some (pod_list (pods_on_node req.node_name ps)))))
        (λ e. pure (write_error status_internal_server_error e))

  -- `GetPod`
  unfoldable pub get_pod : Handler S
  get_pod req =
      on_attribute (as_pod (attribute pod_attribute_key req.attributes))
        (λ pod. pure (write_response status_ok (some (pod_entity pod))))

  -- `UpdatePod`
  unfoldable pub update_pod : Validator → Handler S
  update_pod v req =
      on_attribute (as_pod (attribute pod_attribute_key req.attributes)) (λ existing_pod.
        on_result (req.read_entity pod_kind)
          (λ updated_pod.
            if not (same existing_pod.name updated_pod.name)
            then pure (write_error status_bad_request [])
            else (do
              updated ← Pods.update_pod st v updated_pod
              on_result updated
                  (λ _. pure (write_response status_ok (some (pod_entity updated_pod))))
                  (λ e. pure (write_error (update_status e) e))))
          (λ e. pure (write_error status_bad_request e)))

  -- `DeletePod`
  unfoldable pub delete_pod : Handler S
  delete_pod req = on_attribute (as_pod (attribute pod_attribute_key req.attributes)) (λ pod. do
    deleted ← Pods.delete_pod st pod.name
    on_result deleted (λ _. pure (write_response status_no_content none))
        (λ e. pure (write_error status_internal_server_error e)))

  -- `ListUnassignedPods`
  unfoldable pub list_unassigned_pods : Handler S
  list_unassigned_pods req = do
    pods ← Pods.list_unassigned_pods st
    on_result pods (λ ps. pure (write_response status_ok (some (pod_list ps))))
        (λ e. pure (write_error status_internal_server_error e))
