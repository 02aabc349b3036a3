-- ===== src/Registry/Pod.antt =====
-- pkg/registry/pod_registry.go
use gokube_workshop_day.Prelude.{List, [], ◌∷◌, ◌++◌, Text, codes, same, keep, if◌then◌else◌}
use gokube_workshop_day.Go.{
  Error, Result, ok, err, errors_is, Go, pure, ◌>>=◌, on_result, err_not_found, err_internal,
  err_pod_not_found, err_list_pods_failed, err_pod_invalid,
}
use gokube_workshop_day.Api.Types.{Pod, PodStatus, pod_kind, pod_pending}
use gokube_workshop_day.Api.Validation.{Validator}
use gokube_workshop_day.Api.Pod as ApiPod
use gokube_workshop_day.Storage.Interface.{Storage}

abbrev pub pod_prefix : Text
pod_prefix = codes "/pods/"

-- `PodRegistry.generateKey`
unfoldable pub generate_key : Text → Text
generate_key pod_name = pod_prefix ++ pod_name

abbrev pub pod_read_error : Error → Error
pod_read_error e = if errors_is e err_not_found then err_pod_not_found ∷ [] else err_internal ∷ []

-- The loop of `listPodsByStatus`.
unfoldable pub filtered_pods : PodStatus → List Pod → List Pod
unfolding keep
filtered_pods status pods = keep (λ pod. same pod.status status) pods

module _ {S : Type 0} (st : Storage S) where
  -- `PodRegistry.CreatePod`, which is not implemented
  unfoldable pub create_pod : Pod → Go S (Result (Unit {0}))
  create_pod pod = pure (ok tt)

  -- `PodRegistry.GetPod`
  unfoldable pub get_pod : Text → Go S (Result Pod)
  get_pod name = do
    pod ← st.get pod_kind (generate_key name)
    on_result pod (λ p. pure (ok p)) (λ e. pure (err (pod_read_error e)))

  -- `PodRegistry.UpdatePod`
  unfoldable pub update_pod : Validator → Pod → Go S (Result (Unit {0}))
  update_pod v pod =
      on_result (ApiPod.validate v pod) (λ _. st.update pod_kind (generate_key pod.name) pod)
        (λ _. pure (err (err_pod_invalid ∷ [])))

  -- `PodRegistry.DeletePod`
  unfoldable pub delete_pod : Text → Go S (Result (Unit {0}))
  delete_pod name = st.delete (generate_key name)

  -- `PodRegistry.ListPods`
  unfoldable pub list_pods : Go S (Result (List Pod))
  list_pods = do
    pods ← st.list pod_kind pod_prefix
    on_result pods (λ ps. pure (ok ps)) (λ _. pure (err (err_list_pods_failed ∷ [])))

  -- `PodRegistry.listPodsByStatus`
  unfoldable pub list_pods_by_status : PodStatus → Go S (Result (List Pod))
  unfolding list_pods filtered_pods
  list_pods_by_status status = do
    pods ← list_pods
    on_result pods (λ ps. pure (ok (filtered_pods status ps)))
        (λ _. pure (err (err_list_pods_failed ∷ [])))

  -- `PodRegistry.ListUnassignedPods`
  unfoldable pub list_unassigned_pods : Go S (Result (List Pod))
  unfolding list_pods_by_status
  list_unassigned_pods = list_pods_by_status pod_pending

  -- `PodRegistry.ListPendingPods`
  unfoldable pub list_pending_pods : Go S (Result (List Pod))
  unfolding list_pods_by_status
  list_pending_pods = list_pods_by_status pod_pending
