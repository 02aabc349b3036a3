-- ===== src/Kubelet/Managed.antt =====
-- Which containers the kubelet removes and inspects (pkg/kubelet/kubelet.go).
use mathlib.Core.List.{Memᴰ}
use gokube_workshop_day.Prelude.{
  ◌≡◌, ◌≢◌, ◌≤◌, refl, sym, ap, ◌∙◌, true, false, Bool, arith, none, some, List, [], ◌∷◌, ◌++◌,
  Text, keep, map, length, length-append, take_all, All, has_prefix,
}
use gokube_workshop_day.Go.{ok, Go, ◌>>◌, pure}
use gokube_workshop_day.Api.Types.{Container, Pod, elements, pod_succeeded}
use gokube_workshop_day.Names.{max_generated_name_length}
use gokube_workshop_day.Names.Bounds.{IsGeneratedFrom}
use gokube_workshop_day.Kubelet.Status.{
  determine_pod_status, any_container_running, all_containers_failed, any_container_exists,
  all_containers_succeeded,
}
use gokube_workshop_day.Kubelet.Docker.{Docker, InspectionLaws, Summary, missing}
use gokube_workshop_day.Kubelet.Pods.{Kubelet}
use gokube_workshop_day.Kubelet.Containers.{
  managed_pod, remove_managed, cleanup_containers, get_pod_status,
}

module _ {S : Type 0} (docker : Docker S) where
  -- The calls of `ContainerRemove`, one after another.
  unfoldable pub remove_each : List Text → Go S (Unit {0})
  remove_each [] = pure tt
  remove_each (id ∷ ids) = do docker.container_remove id; remove_each ids

  abbrev pub is_managed : Kubelet → Summary → Bool
  is_managed k c = elim (managed_pod k c) [ none ↦ false | some p ↦ true ]

  remove_managed-each :
      (k : Kubelet) (cs : List Summary) (s : S)
      → remove_managed docker k cs s
        ≡ remove_each (map (λ c. c.id) (keep (λ c. is_managed k c) cs)) s
  unfolding remove_managed remove_each keep
  remove_managed-each k [] s = refl
  remove_managed-each k (c ∷ cs) s = ground (
    arith,
    remove_managed-each k cs s,
    remove_managed-each k cs (docker.container_remove c.id s).1,
  )

  -- If Docker lists its containers, `CleanupContainers` asks it to remove exactly the listed containers, stopped ones included,
  -- that carry the label of a known pod of this node, in the order of the list, and succeeds.
  pub cleanup_containers_lem :
      (k : Kubelet) (s : S) (cs : List Summary)
      → (docker.container_list true s).0 ≡ some cs
      → cleanup_containers docker k s ≡ (
        ok tt,
        (remove_each
            (map (λ c. c.id) (keep (λ c. is_managed k c) cs))
            (docker.container_list true s).1).1,
      )
  unfolding cleanup_containers
  cleanup_containers_lem k s cs listed =
      ground (arith, remove_managed-each k cs (docker.container_list true s).1)

module _ {S : Type 0} (docker : Docker S) where
  -- A pod with one container whose name Docker does not know is reported as succeeded.
  missing_succeeded :
      (pod : Pod) (c : Container) (s : S)
      → elements pod.spec.containers ≡ c ∷ []
      → (docker.container_inspect c.name s).0 ≡ missing
      → (get_pod_status docker pod s).0 ≡ ok pod_succeeded
  unfolding get_pod_status determine_pod_status any_container_running all_containers_failed
      any_container_exists all_containers_succeeded
  missing_succeeded pod c s one gone = ground arith

  longer_than_own :
      (pod_name container_name name : Text)
      → length (pod_name ++ b'-' ∷ container_name) ≤ max_generated_name_length
      → IsGeneratedFrom (pod_name ++ b'-' ∷ container_name) name
      → name ≢ container_name
  longer_than_own pod_name container_name name short g e =
      let base = pod_name ++ b'-' ∷ container_name in
      let split : name ≡ base ++ g.suffix =
        g.split ∙ ap (λ b. b ++ g.suffix) (take_all max_generated_name_length base short) in
      omega (
        arith,
        ap (λ (t : Text). length t) (sym e ∙ split),
        length-append base g.suffix,
        length-append pod_name (b'-' ∷ container_name),
        g.random,
      )

  -- A pod with one container is reported as succeeded, whether or not that container runs, if the names
  -- of Docker's containers are those that the kubelet generated for it, not cut, and no id begins with
  -- the name in the spec, which the inspection asks for.
  pub started_pod_succeeded :
      (inspections : InspectionLaws docker) (pod : Pod) (c : Container) (s : S)
      → elements pod.spec.containers ≡ c ∷ []
      → length (pod.name ++ b'-' ∷ c.name) ≤ max_generated_name_length
      → ((name : Text)
          → Memᴰ name (inspections.names s)
          → IsGeneratedFrom (pod.name ++ b'-' ∷ c.name) name)
      → All (λ id. has_prefix id c.name ≡ false) (inspections.ids s)
      → (get_pod_status docker pod s).0 ≡ ok pod_succeeded
  started_pod_succeeded inspections pod c s one short started apart =
      missing_succeeded pod c s one (
        inspections.missing_law c.name s
          (λ m. longer_than_own pod.name c.name c.name short (started c.name m) refl) apart)
