-- ===== src/Kubelet/Started.antt =====
-- What `ListContainers` reports after `StartContainer` (pkg/kubelet/kubelet.go).
use mathlib.Core.List.{Memᴰ}
use gokube_workshop_day.Prelude.{
  ◌≡◌, refl, sym, ap, ◌∙◌, ◌⊎◌, true, false, arith, some, List, [], ◌∷◌, ◌++◌, map, Text, same,
  same_iff, same_refl, inl, inr, Option-cases, Bool-cases, keep, All,
}
use gokube_workshop_day.Go.{ok}
use gokube_workshop_day.Api.Types.{Container, Pod, elements}
use gokube_workshop_day.Kubelet.Docker.{
  Docker, DockerLaws, Pull, Summary, new_container, created, running, started, pulled, broken,
  refused,
}
use gokube_workshop_day.Kubelet.Pods.{Kubelet, pod_named}
use gokube_workshop_day.Kubelet.Containers.{
  ContainerStatus, label, first_status, managed_pod, container_statuses, list_containers,
  start_container, pod_name_label, container_name_label, container_labels,
}

started_others :
    (id : Text) (cs : List Summary) → All (λ c. same c.id id ≡ false) cs → map (started id) cs ≡ cs
started_others id [] h = refl
started_others id (c ∷ cs) (e, h) = ground (arith, started_others id cs h)

started_own :
    (id : Text) (c : Summary) → c.id ≡ id → started id c ≡ new_container c.id c.labels running
started_own id c e = ground (arith, same_iff c.id id)

abbrev pub status_of : Text → Summary → Container → ContainerStatus
status_of pod_name c spec = record {
  pod_name = pod_name;
  container_name = spec.name;
  container_id = c.id;
  status = c.state;
}

status_of_name :
    (pod_name : Text) (c : Summary) (s t : Container)
    → s.name ≡ t.name
    → status_of pod_name c s ≡ status_of pod_name c t
status_of_name pod_name c s t e = ground arith

-- The first container of the spec that bears the label is found, whichever of that name it is.
first_status-own :
    (pod_name : Text) (c : Summary) (spec : Container) (specs : List Container)
    → label container_name_label c.labels ≡ some spec.name
    → Memᴰ spec specs
    → first_status pod_name c specs ≡ status_of pod_name c spec ∷ []
unfolding first_status
first_status-own pod_name c spec [] l m = elim m [ ]
first_status-own pod_name c spec (s ∷ specs) l (Memᴰ.head e) = rw (l, ← e, same_refl) refl
first_status-own pod_name c spec (s ∷ specs) l (Memᴰ.tail m) =
    elim (Bool-cases (same s.name spec.name)) [
      | inl e ↦
          rw (l, e)
            (ap (λ st. st ∷ [])
              (status_of_name pod_name c s spec ((same_iff s.name spec.name).0 e)))
      | inr e ↦ rw (l, e) (first_status-own pod_name c spec specs l m)
    ]

Pull-cases : (p : Pull) → (p ≡ refused) ⊎ ((p ≡ broken) ⊎ (p ≡ pulled))
Pull-cases refused = inl refl
Pull-cases broken = inr (inl refl)
Pull-cases pulled = inr (inr refl)

abbrev pub started_container : Pod → Container → Text → Summary
started_container pod spec id = new_container id (container_labels pod spec.name) running

pod_label :
    (pod : Pod) (name : Text) → label pod_name_label (container_labels pod name) ≡ some pod.name
pod_label pod name = unfold label same in refl

container_label :
    (pod : Pod) (name : Text) → label container_name_label (container_labels pod name) ≡ some name
container_label pod name = unfold label same in refl

managed_started :
    (k : Kubelet) (pod : Pod) (spec : Container) (id : Text)
    → pod_named pod.name k.pods ≡ some pod
    → pod.node_name ≡ k.node_name
    → managed_pod k (started_container pod spec id) ≡ some (pod.name, pod)
unfolding managed_pod
managed_started k pod spec id known here =
    ground (arith, pod_label pod spec.name, same_iff pod.node_name k.node_name)

container_statuses-started :
    (k : Kubelet) (pod : Pod) (spec : Container) (id : Text) (cs : List Summary)
    → pod_named pod.name k.pods ≡ some pod
    → pod.node_name ≡ k.node_name
    → Memᴰ spec (elements pod.spec.containers)
    → container_statuses k (started_container pod spec id ∷ cs)
      ≡ status_of pod.name (started_container pod spec id) spec ∷ container_statuses k cs
unfolding container_statuses
container_statuses-started k pod spec id cs known here m = ground (
  arith,
  managed_started k pod spec id known here,
  first_status-own pod.name (started_container pod spec id) spec (elements pod.spec.containers)
      (container_label pod spec.name) m,
)

module _ {S : Type 0} {docker : Docker S} (laws : DockerLaws docker) where
  start_container_state :
      (generate_name : Text → Text) (pod : Pod) (spec : Container) (s : S) (id : Text)
      → (docker.image_pull spec.image s).0 ≡ pulled
      → (docker.container_create spec.image
          (container_labels pod spec.name)
          (generate_name (pod.name ++ b'-' ∷ spec.name))
          (docker.image_pull spec.image s).1).0
        ≡ some id
      → (start_container docker generate_name pod spec.name spec.image s).1
        ≡ (docker.container_start id
            (docker.container_create spec.image
              (container_labels pod spec.name)
              (generate_name (pod.name ++ b'-' ∷ spec.name))
              (docker.image_pull spec.image s).1).1).1
  unfolding start_container
  start_container_state generate_name pod spec s id e e2 = ground arith

  started_containers :
      (pod : Pod) (spec : Container) (name : Text) (s : S) (id : Text)
      → (docker.container_create spec.image (container_labels pod spec.name) name s).0 ≡ some id
      → (docker.container_start id
          (docker.container_create spec.image (container_labels pod spec.name) name s).1).0
        ≡ true
      → laws.containers
          (docker.container_start id
            (docker.container_create spec.image (container_labels pod spec.name) name s).1).1
        ≡ started_container pod spec id ∷ laws.containers s
  started_containers pod spec name s id e e' =
      let (is, fresh) = laws.create_law spec.image (container_labels pod spec.name) name s id e in
      let created_pod = new_container id (container_labels pod spec.name) created in
      laws.start_law id _ e'
      ∙ ap (map (started id)) is
      ∙ ap (λ c. c ∷ map (started id) (laws.containers s)) (started_own id created_pod refl)
      ∙ ap (λ cs. started_container pod spec id ∷ cs) (started_others id (laws.containers s) fresh)

  -- What Docker has after a start that succeeded.
  start_container-containers :
      (generate_name : Text → Text) (pod : Pod) (spec : Container) (s : S)
      → (start_container docker generate_name pod spec.name spec.image s).0 ≡ some (ok tt)
      → (id : Text) × (laws.containers
            (start_container docker generate_name pod spec.name spec.image s).1
          ≡ started_container pod spec id ∷ laws.containers s)
  unfolding start_container
  start_container-containers generate_name pod spec s done =
      let s1 = (docker.image_pull spec.image s).1 in
      let labels = container_labels pod spec.name in
      let name = generate_name (pod.name ++ b'-' ∷ spec.name) in
      elim (Pull-cases (docker.image_pull spec.image s).0) [
        | inl e ↦ absurd (ground arith)
        | inr (inl e) ↦ absurd (ground arith)
        | inr (inr e) ↦ elim (Option-cases (docker.container_create spec.image labels name s1).0) [
          | inl e2 ↦ absurd (ground arith)
          | inr (id, e2) ↦
              let s2 = (docker.container_create spec.image labels name s1).1 in
              elim (Bool-cases (docker.container_start id s2).0) [
                | inl e3 ↦ (
                  id,
                  ap laws.containers (start_container_state generate_name pod spec s id e e2)
                      ∙ started_containers pod spec name s1 id e2 e3
                      ∙ ap (λ cs. started_container pod spec id ∷ cs)
                          (laws.pull_keeps spec.image s),
                )
                | inr e3 ↦ absurd (ground arith)
              ]
        ]
      ]

  pub list_containers-statuses :
      (k : Kubelet) (s : S) (statuses : List ContainerStatus)
      → (list_containers docker k s).0 ≡ ok statuses
      → statuses ≡ container_statuses k (keep (λ c. laws.is_listed c.state) (laws.containers s))
  unfolding list_containers
  list_containers-statuses k s statuses listed =
      elim (Option-cases (docker.container_list false s).0) [
        | inl e ↦ absurd (ground arith)
        | inr (cs, e) ↦ ground (arith, laws.list_law s cs e)
      ]

  running-listed :
      (pod : Pod) (spec : Container) (id : Text) (cs : List Summary)
      → keep (λ c. laws.is_listed c.state) (started_container pod spec id ∷ cs)
        ≡ started_container pod spec id ∷ keep (λ c. laws.is_listed c.state) cs
  unfolding keep
  running-listed pod spec id cs = rw laws.running_listed refl

  -- After `StartContainer` returned without an error for a container of a pod that the kubelet knows
  -- and that is placed on its node, `ListContainers` reports that container as running, and besides
  -- it exactly what it reported before, provided that both lists are returned.
  pub start_container-list_containers :
      (generate_name : Text → Text) (k : Kubelet) (pod : Pod) (spec : Container) (s : S)
      (before after : List ContainerStatus)
      → pod_named pod.name k.pods ≡ some pod
      → pod.node_name ≡ k.node_name
      → Memᴰ spec (elements pod.spec.containers)
      → (start_container docker generate_name pod spec.name spec.image s).0 ≡ some (ok tt)
      → (list_containers docker k s).0 ≡ ok before
      → (list_containers docker k
          (start_container docker generate_name pod spec.name spec.image s).1).0
        ≡ ok after
      → (id : Text) × (after ≡ status_of pod.name (started_container pod spec id) spec ∷ before)
  start_container-list_containers generate_name k pod spec s before after known here m done was is =
      let (id, e) = start_container-containers generate_name pod spec s done in
      (
        id,
        list_containers-statuses k _ after is
            ∙ ap (λ cs. container_statuses k (keep (λ c. laws.is_listed c.state) cs)) e
            ∙ ap (container_statuses k) (running-listed pod spec id (laws.containers s))
            ∙ container_statuses-started k pod spec id _ known here m
            ∙ ap (λ l. status_of pod.name (started_container pod spec id) spec ∷ l)
                (sym (list_containers-statuses k s before was)),
      )
