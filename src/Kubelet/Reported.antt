-- ===== src/Kubelet/Reported.antt =====
-- Which containers the kubelet reports (`ListContainers` of pkg/kubelet/kubelet.go).
use mathlib.Core.List.{Memᴰ}
use mathlib.Core.List.Memᴰ
use gokube_workshop_day.Prelude.{
  ◌≡◌, refl, sym, ap, ◌∙◌, false, arith, some, List, [], ◌∷◌, Text, same, same_iff, inl, inr,
  Option-cases, Bool-cases, keep, ◌↔◌,
}
use gokube_workshop_day.Go.{ok}
use gokube_workshop_day.Api.Types.{Container, Pod, elements}
use gokube_workshop_day.Kubelet.Docker.{Docker, DockerLaws, Summary}
use gokube_workshop_day.Kubelet.Pods.{Kubelet, pod_named}
use gokube_workshop_day.Kubelet.Containers.{
  ContainerStatus, label, label_or_empty, pod_name_label, container_name_label, first_status,
  managed_pod, container_statuses, list_containers,
}

-- A status speaks of a listed container with the label of a known pod of this node, and of a
-- container of that pod's spec whose name is the container's label; a missing label is the empty text.
pub record Reports (k : Kubelet) (containers : List Summary) (status : ContainerStatus)
    : Type 0 where
  pub container : Summary
  pub pod : Pod
  pub spec : Container
  pub listed : Memᴰ container containers
  pub known : pod_named status.pod_name k.pods ≡ some pod
  pub on_node : pod.node_name ≡ k.node_name
  pub labelled : label pod_name_label container.labels ≡ some status.pod_name
  pub in_spec : Memᴰ spec (elements pod.spec.containers)
  pub matches : label_or_empty (label container_name_label container.labels) ≡ spec.name
  pub named : status.container_name ≡ spec.name
  pub with_id : status.container_id ≡ container.id
  pub with_state : status.status ≡ container.state

managed_pod_sound :
    (k : Kubelet) (c : Summary) (name : Text) (pod : Pod)
    → managed_pod k c ≡ some (name, pod)
    → (label pod_name_label c.labels ≡ some name)
      × (pod_named name k.pods ≡ some pod)
      × (pod.node_name ≡ k.node_name)
unfolding managed_pod
managed_pod_sound k c name pod h = elim (Option-cases (label pod_name_label c.labels)) [
  | inl e ↦ absurd (ground arith)
  | inr (n, e) ↦ elim (Option-cases (pod_named n k.pods)) [
    | inl e' ↦ absurd (ground arith)
    | inr (p, e') ↦ ground (arith, same_iff p.node_name k.node_name)
  ]
]

first_status_sound :
    (name : Text) (c : Summary) (specs : List Container) (status : ContainerStatus)
    → Memᴰ status (first_status name c specs)
    → (spec : Container) × Memᴰ spec specs
      × (label_or_empty (label container_name_label c.labels) ≡ spec.name)
      × (status ≡ record {
        pod_name = name;
        container_name = spec.name;
        container_id = c.id;
        status = c.state;
      })
unfolding first_status
first_status_sound name c [] status m = elim m [ ]
first_status_sound name c (spec ∷ specs) status m =
    elim (Bool-cases (same spec.name (label_or_empty (label container_name_label c.labels)))) [
      | inl e ↦ elim (Memᴰ.cases_cons (rw e at m)) [
        | inl q ↦ (
          spec,
          Memᴰ.head refl,
          sym ((same_iff spec.name (label_or_empty (label container_name_label c.labels))).0 e),
          q,
        )
        | inr none_left ↦ elim none_left [ ]
      ]
      | inr e ↦
          let (found, there, matches, q) = first_status_sound name c specs status (rw e at m) in
          (found, Memᴰ.tail there, matches, q)
    ]

managed-Reports :
    (k : Kubelet) (c : Summary) (cs : List Summary) (name : Text) (pod : Pod)
    (status : ContainerStatus)
    → managed_pod k c ≡ some (name, pod)
    → Memᴰ status (first_status name c (elements pod.spec.containers))
    → Reports k (c ∷ cs) status
managed-Reports k c cs name pod status found m =
    let (labelled, known, on_node) = managed_pod_sound k c name pod found in
    let (spec, in_spec, matches, e) =
      first_status_sound name c (elements pod.spec.containers) status m in
    rw e (record {
      container = c;
      pod = pod;
      spec = spec;
      listed = Memᴰ.head refl;
      known = known;
      on_node = on_node;
      labelled = labelled;
      in_spec = in_spec;
      matches = matches;
      named = refl;
      with_id = refl;
      with_state = refl;
    })

later-Reports :
    (k : Kubelet) (c : Summary) (cs : List Summary) (status : ContainerStatus)
    → Reports k cs status
    → Reports k (c ∷ cs) status
later-Reports k c cs status r = record {
  container = r.container;
  pod = r.pod;
  spec = r.spec;
  listed = Memᴰ.tail r.listed;
  known = r.known;
  on_node = r.on_node;
  labelled = r.labelled;
  in_spec = r.in_spec;
  matches = r.matches;
  named = r.named;
  with_id = r.with_id;
  with_state = r.with_state;
}

container_statuses_sound :
    (k : Kubelet) (cs : List Summary) (status : ContainerStatus)
    → Memᴰ status (container_statuses k cs)
    → Reports k cs status
unfolding container_statuses
container_statuses_sound k [] status m = elim m [ ]
container_statuses_sound k (c ∷ cs) status m = elim (Option-cases (managed_pod k c)) [
  | inl e ↦
      later-Reports k c cs status
        (container_statuses_sound k cs status (rw (e, container_statuses) at m))
  | inr ((name, pod), e) ↦
      elim (Memᴰ.append_cases (first_status name c (elements pod.spec.containers))
        (rw (e, container_statuses) at m)) [
          | inl now ↦ managed-Reports k c cs name pod status e now
          | inr later ↦ later-Reports k c cs status (container_statuses_sound k cs status later)
        ]
]

managed_pod_complete :
    (k : Kubelet) (c : Summary) (name : Text) (pod : Pod)
    → label pod_name_label c.labels ≡ some name
    → pod_named name k.pods ≡ some pod
    → pod.node_name ≡ k.node_name
    → managed_pod k c ≡ some (name, pod)
unfolding managed_pod
managed_pod_complete k c name pod labelled known on_node =
    ground (arith, (same_iff pod.node_name k.node_name).1 on_node)

abbrev status_for : Text → Text → Summary → ContainerStatus
status_for name container_name c = record {
  pod_name = name;
  container_name = container_name;
  container_id = c.id;
  status = c.state;
}

first_status_complete :
    (name : Text) (c : Summary) (specs : List Container) (spec : Container)
    → Memᴰ spec specs
    → label_or_empty (label container_name_label c.labels) ≡ spec.name
    → Memᴰ (status_for name spec.name c) (first_status name c specs)
unfolding first_status
first_status_complete name c [] spec m e = elim m [ ]
first_status_complete name c (first ∷ specs) spec m e =
    let bears = label_or_empty (label container_name_label c.labels) in
    elim (Bool-cases (same first.name bears)) [
      | inl q ↦
          let same_name : first.name ≡ spec.name = (same_iff first.name bears).0 q ∙ e in
          rw q (Memᴰ.head (rw same_name refl))
      | inr q ↦ elim (Memᴰ.cases_cons m) [
        | inl here ↦
            let met =
              (same_iff first.name bears).1 (sym (e ∙ ap (λ (x : Container). x.name) here)) in
            absurd (cc (met, q))
        | inr there ↦ rw q (first_status_complete name c specs spec there e)
      ]
    ]

container_statuses_complete :
    (k : Kubelet) (cs : List Summary) (c : Summary) (name : Text) (pod : Pod)
    (status : ContainerStatus)
    → Memᴰ c cs
    → managed_pod k c ≡ some (name, pod)
    → Memᴰ status (first_status name c (elements pod.spec.containers))
    → Memᴰ status (container_statuses k cs)
unfolding container_statuses
container_statuses_complete k [] c name pod status m e here = elim m [ ]
container_statuses_complete k (d ∷ cs) c name pod status (Memᴰ.head q) e here =
    let e' : managed_pod k d ≡ some (name, pod) = rw (← q) e in
    let here' : Memᴰ status (first_status name d (elements pod.spec.containers)) = rw (← q) here in
    rw (e', container_statuses) (Memᴰ.append_left (container_statuses k cs) here')
container_statuses_complete k (d ∷ cs) c name pod status (Memᴰ.tail m) e here =
    let later = container_statuses_complete k cs c name pod status m e here in
    elim (Option-cases (managed_pod k d)) [
      | inl q ↦ rw (q, container_statuses) later
      | inr ((n, p), q) ↦
          rw (q, container_statuses)
            (Memᴰ.append_right (first_status n d (elements p.spec.containers)) later)
    ]

Reports-reported :
    (k : Kubelet) (cs : List Summary) (status : ContainerStatus)
    → Reports k cs status
    → Memᴰ status (container_statuses k cs)
Reports-reported k cs status r =
    let status_is : status_for status.pod_name r.spec.name r.container ≡ status =
      rw (← r.named, ← r.with_id, ← r.with_state) refl in
    container_statuses_complete k cs r.container status.pod_name r.pod status r.listed
      (managed_pod_complete k r.container status.pod_name r.pod r.labelled r.known r.on_node)
      (rw status_is at (
        first_status_complete status.pod_name r.container (elements r.pod.spec.containers) r.spec
          r.in_spec r.matches))

-- A status is among those that `ListContainers` returns exactly if it speaks of a container of Docker in
-- a state that a list without `All` shows, which running is, of a known pod of this node by the
-- container's label, and of a container of the pod's spec whose name is the container's other label.
pub list_containers_iff :
    {S : Type 0} (docker : Docker S) (laws : DockerLaws docker) (k : Kubelet) (s : S)
    (statuses : List ContainerStatus) (status : ContainerStatus)
    → (list_containers docker k s).0 ≡ ok statuses
    → Memᴰ status statuses
      ↔ Reports k (keep (λ c. laws.is_listed c.state) (laws.containers s)) status
unfolding list_containers
list_containers_iff docker laws k s statuses status e =
    elim (Option-cases (docker.container_list false s).0) [
      | inl q ↦ absurd (ground arith)
      | inr (cs, q) ↦
          let shown = laws.list_law s cs q in
          let same_list : container_statuses k cs ≡ statuses = ground arith in
          (
            λ m. rw shown at (container_statuses_sound k cs status (rw (← same_list) at m)),
            λ r. rw same_list at (Reports-reported k cs status (rw (← shown) at r)),
          )
    ]
