-- ===== src/Kubelet/Classification.antt =====
-- What the status of a pod says of its containers.
use gokube_workshop_day.Prelude.{◌≡◌, ◌↔◌, refl, ◌⊎◌, true, false, arith, List, [], ◌∷◌, All}
use gokube_workshop_day.Api.Types.{pod_running, pod_failed, pod_succeeded}
use gokube_workshop_day.Kubelet.Status.{
  ContainerState, is_zero, all_containers_succeeded, any_container_running, all_containers_failed,
  any_container_exists, determine_pod_status,
}

-- Of some container, by recursion.
abbrev pub Some : (ContainerState → Type 0) → List ContainerState → Type 0
Some P [] = ⊥
Some P (x ∷ xs) = P x ⊎ Some P xs

running_iff :
    (states : List ContainerState)
    → (any_container_running states ≡ true) ↔ Some (λ s. s.running ≡ true) states
unfolding any_container_running
running_iff [] = ground arith
running_iff (s ∷ states) = ground (arith, running_iff states)

not_running_iff :
    (states : List ContainerState)
    → (any_container_running states ≡ false) ↔ All (λ s. s.running ≡ false) states
unfolding any_container_running
not_running_iff [] = ground arith
not_running_iff (s ∷ states) = ground (arith, not_running_iff states)

exists_iff :
    (states : List ContainerState)
    → (any_container_exists states ≡ true) ↔ Some (λ s. s.exists ≡ true) states
unfolding any_container_exists
exists_iff [] = ground arith
exists_iff (s ∷ states) = ground (arith, exists_iff states)

failed_iff :
    (states : List ContainerState)
    → (all_containers_failed states ≡ true)
      ↔ All (λ s. (s.exists ≡ false) ⊎ (is_zero s.exit_code ≡ false)) states
unfolding all_containers_failed
failed_iff [] = ground arith
failed_iff (s ∷ states) = ground (arith, failed_iff states)

succeeded_iff :
    (states : List ContainerState)
    → (all_containers_succeeded states ≡ true) ↔ All (λ s. is_zero s.exit_code ≡ true) states
unfolding all_containers_succeeded
succeeded_iff [] = ground arith
succeeded_iff (s ∷ states) = ground (arith, succeeded_iff states)

-- Exit codes that are all zero leave no container that failed.
succeeded_not_failed :
    (states : List ContainerState)
    → all_containers_succeeded states ≡ true
    → all_containers_failed states ≡ true
    → any_container_exists states ≡ false
unfolding all_containers_succeeded all_containers_failed any_container_exists
succeeded_not_failed [] h k = refl
succeeded_not_failed (s ∷ states) h k = ground (arith, succeeded_not_failed states)

-- What three of the statuses mean.
pub record StatusMeaning (states : List ContainerState) : Type 0 where
  pub running : (determine_pod_status states ≡ pod_running) ↔ Some (λ s. s.running ≡ true) states
  pub failed : (determine_pod_status states ≡ pod_failed) ↔ (
      All (λ s. s.running ≡ false) states
      × Some (λ s. s.exists ≡ true) states
      × All (λ s. (s.exists ≡ false) ⊎ (is_zero s.exit_code ≡ false)) states)
  pub succeeded :
      (determine_pod_status states ≡ pod_succeeded)
      ↔ (All (λ s. s.running ≡ false) states × All (λ s. is_zero s.exit_code ≡ true) states)

-- A pod is running exactly if some container is, failed exactly if none is running, some exists and
-- every one that exists has a non-zero exit code, and succeeded exactly if none is running and all
-- exit codes are zero, where a container that does not exist counts as having exit code zero.
pub determine_pod_status-StatusMeaning : (states : List ContainerState) → StatusMeaning states
unfolding determine_pod_status
determine_pod_status-StatusMeaning states = record {
  running = ground (arith, running_iff states);
  failed = ground (arith, not_running_iff states, exists_iff states, failed_iff states);
  succeeded =
      ground (arith, not_running_iff states, succeeded_iff states, succeeded_not_failed states);
}
