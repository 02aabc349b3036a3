-- ===== src/Kubelet/Status.antt =====
-- `determinePodStatus` of pkg/kubelet/kubelet.go
use gokube_workshop_day.Prelude.{
  ℤ, pos, negsuc, zero, suc, Bool, true, false, not, ◌&&◌, List, [], ◌∷◌, if◌then◌else◌,
}
use gokube_workshop_day.Api.Types.{PodStatus, pod_running, pod_failed, pod_succeeded, pod_scheduled}

-- The zero value of the fields that a container that does not exist leaves unset is false and 0.
pub record ContainerState : Type 0 where
  pub exists : Bool
  pub running : Bool
  pub exit_code : ℤ

-- `exitCode == 0`
abbrev pub is_zero : ℤ → Bool
is_zero (pos zero) = true
is_zero (pos (suc n)) = false
is_zero (negsuc n) = false

unfoldable pub all_containers_succeeded : List ContainerState → Bool
all_containers_succeeded [] = true
all_containers_succeeded (state ∷ states) =
    let rest = all_containers_succeeded states in
    if not (is_zero state.exit_code) then false else rest

unfoldable pub any_container_running : List ContainerState → Bool
any_container_running [] = false
any_container_running (state ∷ states) =
    let rest = any_container_running states in if state.running then true else rest

unfoldable pub all_containers_failed : List ContainerState → Bool
all_containers_failed [] = true
all_containers_failed (state ∷ states) =
    let rest = all_containers_failed states in
    if state.exists && is_zero state.exit_code then false else rest

unfoldable pub any_container_exists : List ContainerState → Bool
any_container_exists [] = false
any_container_exists (state ∷ states) =
    let rest = any_container_exists states in if state.exists then true else rest

unfoldable pub determine_pod_status : List ContainerState → PodStatus
determine_pod_status states =
    if any_container_running states
    then pod_running
    else if all_containers_failed states && any_container_exists states
    then pod_failed
    else if all_containers_succeeded states
    then pod_succeeded
    else pod_scheduled
