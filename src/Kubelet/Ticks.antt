-- ===== src/Kubelet/Ticks.antt =====
-- What the ticks of `updatePodStatuses` do to the pods that the kubelet knows (pkg/kubelet/kubelet.go).
use gokube_workshop_day.Prelude.{
  ◌≡◌, refl, sym, ap, ◌∙◌, true, false, pos, Option, none, some, List, [], ◌∷◌, Text, map, same,
  same_iff, inl, inr, Bool-cases, Option-cases, ◌⊎◌,
}
use gokube_workshop_day.Go.{Result, ok, err}
use gokube_workshop_day.Api.Types.{Container, Pod, PodStatus, elements}
use gokube_workshop_day.Kubelet.Status.{ContainerState, determine_pod_status}
use gokube_workshop_day.Kubelet.Docker.{Docker, Inspection, inspected, missing, failed}
use gokube_workshop_day.Kubelet.Containers.{
  container_states, get_container_state, get_pod_status, update_pods, update_pod_status,
  inspected_state, with_status,
}

-- What an inspection says of a container, if it says anything.
abbrev pub seen_state : Inspection → Option ContainerState
seen_state (inspected running exit_code) =
    some (record { exists = true; running = running; exit_code = exit_code })
seen_state missing = some (record { exists = false; running = false; exit_code = pos 0 })
seen_state failed = none

abbrev pub joined :
    Option ContainerState → Option (List ContainerState) → Option (List ContainerState)
joined (some state) (some states) = some (state ∷ states)
joined _ _ = none

-- The states of all containers, if each can be seen.
abbrev pub seen_states : (Text → Inspection) → List Container → Option (List ContainerState)
seen_states look [] = some []
seen_states look (c ∷ cs) = joined (seen_state (look c.name)) (seen_states look cs)

abbrev pub given_states : Pod → Option (List ContainerState) → Pod
given_states pod none = pod
given_states pod (some states) = record pod { status = determine_pod_status states }

-- The pod with the status of its containers, if all of them can be seen.
abbrev pub refreshed : (Text → Inspection) → Pod → Pod
refreshed look pod = given_states pod (seen_states look (elements pod.spec.containers))

abbrev pub refreshed_all : (Text → Inspection) → List (Text × Pod) → List (Text × Pod)
refreshed_all look pods = map (λ (entry : Text × Pod). (entry.0, refreshed look entry.1)) pods

given_states-spec :
    (pod : Pod) (states : Option (List ContainerState)) → (given_states pod states).spec ≡ pod.spec
given_states-spec pod none = refl
given_states-spec pod (some states) = refl

given_states_again :
    (pod : Pod) (states : Option (List ContainerState))
    → given_states (given_states pod states) states ≡ given_states pod states
given_states_again pod none = refl
given_states_again pod (some states) = refl

refreshed_again :
    (look : Text → Inspection) (pod : Pod)
    → refreshed look (refreshed look pod) ≡ refreshed look pod
refreshed_again look pod =
    rw (given_states-spec pod (seen_states look (elements pod.spec.containers)))
      (given_states_again pod (seen_states look (elements pod.spec.containers)))

refreshed_all_again :
    (look : Text → Inspection) (pods : List (Text × Pod))
    → refreshed_all look (refreshed_all look pods) ≡ refreshed_all look pods
refreshed_all_again look [] = refl
refreshed_all_again look ((name, pod) ∷ pods) =
    rw (refreshed_again look pod, refreshed_all_again look pods) refl

abbrev status_of : Option (List ContainerState) → Option PodStatus
status_of none = none
status_of (some states) = some (determine_pod_status states)

abbrev result_of {ℓ} : {A : Type ℓ} → Option A → Result A
result_of none = err []
result_of (some a) = ok a

Inspection-cases :
    (i : Inspection)
    → ((state : ContainerState) × (seen_state i ≡ some state) × (inspected_state i ≡ ok state))
      ⊎ ((seen_state i ≡ none) × (inspected_state i ≡ err []))
Inspection-cases (inspected running exit_code) = inl (_, refl, refl)
Inspection-cases missing = inl (_, refl, refl)
Inspection-cases failed = inr (refl, refl)

status_given :
    (pod : Pod) (status : PodStatus) → pod.status ≡ status → pod ≡ record pod { status = status }
status_given pod status e = rw (← e) refl

module _ {S : Type 0} (docker : Docker S) (look : Text → Inspection) (still : S → Type 0)
    (inspect_law : (name : Text) (s : S)
      → still s
      → ((docker.container_inspect name s).0 ≡ look name)
        × still (docker.container_inspect name s).1) where
  container_states_seen :
      (cs : List Container) (s : S)
      → still s
      → ((container_states docker cs s).0 ≡ result_of (seen_states look cs))
        × still (container_states docker cs s).1
  unfolding container_states get_container_state
  container_states_seen [] s h = (refl, h)
  container_states_seen (c ∷ cs) s h =
      let (e, h') = inspect_law c.name s h in
      let (e', h'') = container_states_seen cs (docker.container_inspect c.name s).1 h' in
      elim (Inspection-cases (look c.name)) [
        | inr (unseen, answer) ↦ rw (e, unseen, answer) (refl, h')
        | inl (state, seen, answer) ↦ elim (Option-cases (seen_states look cs)) [
          | inl q ↦ rw (e, seen, answer, e', q) (refl, h'')
          | inr (states, q) ↦ rw (e, seen, answer, e', q) (refl, h'')
        ]
      ]

  get_pod_status_seen :
      (pod : Pod) (s : S)
      → still s
      → ((get_pod_status docker pod s).0
          ≡ result_of (status_of (seen_states look (elements pod.spec.containers))))
        × still (get_pod_status docker pod s).1
  unfolding get_pod_status
  get_pod_status_seen pod s h =
      let (e, h') = container_states_seen (elements pod.spec.containers) s h in
      elim (Option-cases (seen_states look (elements pod.spec.containers))) [
        | inl q ↦ rw (e, q) (refl, h')
        | inr (states, q) ↦ rw (e, q) (refl, h')
      ]

  with_status-status :
      (status : PodStatus) (pod : Pod) (s : S)
      → with_status docker status pod s ≡ (record pod { status = status }, s)
  unfolding update_pod_status
  with_status-status status pod s = elim (Bool-cases (same pod.status status)) [
    | inl e ↦ rw e (rw (← status_given pod status ((same_iff pod.status status).0 e)) refl)
    | inr e ↦ rw e refl
  ]

  -- What a tick makes of the pods.
  update_pods_refreshed :
      (pods : List (Text × Pod)) (s : S)
      → still s
      → ((update_pods docker pods s).0 ≡ refreshed_all look pods)
        × still (update_pods docker pods s).1
  unfolding update_pods
  update_pods_refreshed [] s h = (refl, h)
  update_pods_refreshed ((name, pod) ∷ pods) s h =
      let (e, h') = get_pod_status_seen pod s h in
      let (e', h'') = update_pods_refreshed pods (get_pod_status docker pod s).1 h' in
      elim (Option-cases (seen_states look (elements pod.spec.containers))) [
        | inl q ↦ rw (e, q, e') (refl, h'')
        | inr (states, q) ↦
            rw (e, q, with_status-status (determine_pod_status states) pod _, e') (refl, h'')
      ]

  -- While the containers stay as they are, a tick of `updatePodStatuses` gives each pod whose containers
  -- can all be inspected the status that `determinePodStatus` has for their states, and leaves the other
  -- pods and all other fields as they were; the next tick changes nothing.
  pub update_pods_settles :
      (pods : List (Text × Pod)) (s : S)
      → still s
      → ((update_pods docker pods s).0 ≡ refreshed_all look pods)
        × ((update_pods docker (update_pods docker pods s).0 (update_pods docker pods s).1).0
            ≡ (update_pods docker pods s).0)
  update_pods_settles pods s h =
      let (e, h') = update_pods_refreshed pods s h in
      let (e', _) =
        update_pods_refreshed (update_pods docker pods s).0 (update_pods docker pods s).1 h' in
      (e, e' ∙ ap (refreshed_all look) e ∙ refreshed_all_again look pods ∙ sym e)
