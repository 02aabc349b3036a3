-- ===== src/Kubelet/Containers.antt =====
-- The containers of the pods that a kubelet knows (pkg/kubelet/kubelet.go).
use gokube_workshop_day.Prelude.{
  pos, Bool, true, false, List, [], ◌∷◌, ◌++◌, Option, none, some, Text, codes, same, if◌then◌else◌,
}
use gokube_workshop_day.Go.{Result, ok, err, Go, pure, ◌>>=◌, ◌>>◌, on_result}
use gokube_workshop_day.Api.Types.{Container, Pod, PodStatus, elements}
use gokube_workshop_day.Kubelet.Status.{ContainerState, determine_pod_status}
use gokube_workshop_day.Kubelet.Docker.{
  Docker, Summary, Inspection, inspected, missing, failed, refused, broken, pulled,
}
use gokube_workshop_day.Kubelet.Pods.{Kubelet, pod_named}

abbrev pub pod_name_label : Text
pod_name_label = codes "gokube.pod.name"

abbrev pub container_name_label : Text
container_name_label = codes "gokube.container.name"

-- `labels[key]`
unfoldable pub label : Text → List (Text × Text) → Option Text
label key [] = none
label key ((k, v) ∷ labels) = if same k key then some v else label key labels

pub record ContainerStatus : Type 0 where
  pub pod_name : Text
  pub container_name : Text
  pub container_id : Text
  pub status : Text

-- The value of a missing label is the empty string.
abbrev pub label_or_empty : Option Text → Text
label_or_empty none = []
label_or_empty (some v) = v

-- The inner loop of `ListContainers`, up to its `break`.
unfoldable pub first_status : Text → Summary → List Container → List ContainerStatus
unfolding label
first_status pod_name c [] = []
first_status pod_name c (container_spec ∷ specs) =
    let rest = first_status pod_name c specs in
    if same container_spec.name (label_or_empty (label container_name_label c.labels))
    then record {
      pod_name = pod_name;
      container_name = container_spec.name;
      container_id = c.id;
      status = c.state;
    }
      ∷ []
    else rest

-- The pod of a container, if the container carries the label of a known pod of this node.
unfoldable pub managed_pod : Kubelet → Summary → Option (Text × Pod)
managed_pod k c = elim (label pod_name_label c.labels) [
  | none ↦ none
  | some pod_name ↦ elim (pod_named pod_name k.pods) [
    | none ↦ none
    | some pod ↦ if same pod.node_name k.node_name then some (pod_name, pod) else none
  ]
]

-- The outer loop of `ListContainers`.
unfoldable pub container_statuses : Kubelet → List Summary → List ContainerStatus
container_statuses k [] = []
container_statuses k (c ∷ containers) =
    let rest = container_statuses k containers in
    elim (managed_pod k c) [
      | none ↦ rest
      | some (pod_name, pod) ↦ first_status pod_name c (elements pod.spec.containers) ++ rest
    ]

-- The `labels` of `StartContainer`.
abbrev pub container_labels : Pod → Text → List (Text × Text)
container_labels pod container_name =
    (pod_name_label, pod.name)
    ∷ (codes "gokube.pod.namespace", pod.namespace)
    ∷ (container_name_label, container_name)
    ∷ []

abbrev pub inspected_state : Inspection → Result ContainerState
inspected_state (inspected running exit_code) =
    ok (record { exists = true; running = running; exit_code = exit_code })
inspected_state missing = ok (record { exists = false; running = false; exit_code = pos 0 })
inspected_state failed = err []

module _ {S : Type 0} (docker : Docker S) where
  -- `ListContainers`
  unfoldable pub list_containers : Kubelet → Go S (Result (List ContainerStatus))
  list_containers k = do
    listed ← docker.container_list false
    elim listed [
      | none ↦ pure (err [])
      | some containers ↦ pure (ok (container_statuses k containers))
    ]

  -- The loop of `CleanupContainers`; a removal that fails is only logged.
  unfoldable pub remove_managed : Kubelet → List Summary → Go S (Unit {0})
  remove_managed k [] = pure tt
  remove_managed k (c ∷ containers) = elim (managed_pod k c) [
    | none ↦ remove_managed k containers
    | some pod ↦ (do docker.container_remove c.id; remove_managed k containers)
  ]

  -- `CleanupContainers`
  unfoldable pub cleanup_containers : Kubelet → Go S (Result (Unit {0}))
  cleanup_containers k = do
    listed ← docker.container_list true
    elim listed [
      | none ↦ pure (err [])
      | some containers ↦ (do remove_managed k containers; pure (ok tt))
    ]

  -- `getContainerState`
  unfoldable pub get_container_state : Text → Go S (Result ContainerState)
  get_container_state container_name = do
    info ← docker.container_inspect container_name
    pure (inspected_state info)

  abbrev cons_state : ContainerState → Result (List ContainerState) → Result (List ContainerState)
  cons_state state (ok states) = ok (state ∷ states)
  cons_state state (err e) = err e

  -- The loop of `getPodStatus`.
  unfoldable pub container_states : List Container → Go S (Result (List ContainerState))
  unfolding get_container_state
  container_states [] = pure (ok [])
  container_states (container ∷ containers) = do
    got ← get_container_state container.name
    on_result got (λ state. do rest ← container_states containers; pure (cons_state state rest))
        (λ e. pure (err e))

  -- `getPodStatus`; the status that is returned beside an error is not used.
  unfoldable pub get_pod_status : Pod → Go S (Result PodStatus)
  unfolding container_states
  get_pod_status pod = do
    got ← container_states (elements pod.spec.containers)
    on_result got (λ states. pure (ok (determine_pod_status states))) (λ e. pure (err e))

  -- `updatePodStatus`, which is not implemented
  unfoldable pub update_pod_status : Pod → Go S (Result (Unit {0}))
  update_pod_status pod = pure (ok tt)

  -- `if pod.Status != status { … }`; an error of the report is only logged.
  abbrev pub with_status : PodStatus → Pod → Go S Pod
  with_status status pod = if same pod.status status then pure pod else (do
    update_pod_status (record pod { status = status })
    pure (record pod { status = status }))

  -- The loop over the pods of `updatePodStatuses`, for one tick. The map's order is that of the list.
  unfoldable pub update_pods : List (Text × Pod) → Go S (List (Text × Pod))
  update_pods [] = pure []
  update_pods ((name, pod) ∷ pods) = do
    got ← get_pod_status pod
    updated ← on_result got (λ status. with_status status pod) (λ e. pure pod)
    rest ← update_pods pods
    pure ((name, updated) ∷ rest)

  abbrev started_result : Bool → Result (Unit {0})
  started_result true = ok tt
  started_result false = err []

  -- `StartContainer`, where `generate_name` is the call of the name generator; `none` is the panic of
  -- a pull that is refused.
  unfoldable pub start_container :
      (Text → Text) → Pod → Text → Text → Go S (Option (Result (Unit {0})))
  start_container generate_name pod container_name image_name = do
    pull ← docker.image_pull image_name
    elim pull [
      | refused ↦ pure none
      | broken ↦ pure (some (err []))
      | pulled ↦ (do
        created ←
            docker.container_create image_name (container_labels pod container_name)
              (generate_name (pod.name ++ b'-' ∷ container_name))
        elim created [
          | none ↦ pure (some (err []))
          | some id ↦ (do started ← docker.container_start id; pure (some (started_result started)))
        ])
    ]

  -- The loop of `runPod`; an error of one container is only logged. `false` is a panic.
  unfoldable pub run_containers : (Text → Text) → Pod → List Container → Go S Bool
  run_containers generate_name pod [] = pure true
  run_containers generate_name pod (container ∷ containers) = do
    result ← start_container generate_name pod container.name container.image
    elim result [ none ↦ pure false | some r ↦ run_containers generate_name pod containers ]

  -- `runPod`
  unfoldable pub run_pod : (Text → Text) → Pod → Go S Bool
  unfolding run_containers start_container
  run_pod generate_name pod = run_containers generate_name pod (elements pod.spec.containers)
