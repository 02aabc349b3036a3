-- ===== src/Api/Ownership.antt =====
-- What the methods of pkg/api/pod.go say of a pod and a ReplicaSet.
use gokube_workshop_day.Prelude.{
  true, ◌≡◌, ◌≢◌, ◌↔◌, ◌++◌, arith, Text, same_iff, has_prefix, has_prefix_iff, has_prefix_trans,
}
use gokube_workshop_day.Api.Types.{Pod, ObjectMeta, pod_failed}
use gokube_workshop_day.Api.Pod.{is_active, is_owned_by, is_pod_active_and_owned_by}

pub is_active_iff : (p : Pod) → (is_active p ≡ true) ↔ (p.status ≢ pod_failed)
unfolding is_active
is_active_iff p = ground (arith, same_iff p.status pod_failed)

-- A pod is active and owned exactly when it has not failed and its name continues the ReplicaSet's.
pub is_pod_active_and_owned_by_iff :
    (p : Pod) (meta : ObjectMeta)
    → (is_pod_active_and_owned_by p meta ≡ true)
      ↔ ((p.status ≢ pod_failed) × ((rest : Text) × (p.name ≡ meta.name ++ rest)))
unfolding is_pod_active_and_owned_by
is_pod_active_and_owned_by_iff p meta =
    ground (arith, same_iff p.status pod_failed, has_prefix_iff p.name meta.name)

-- Ownership is not exclusive: a pod that a ReplicaSet owns is owned by every ReplicaSet whose name
-- begins that one's.
pub is_owned_by_prefix :
    (p : Pod) (short long : ObjectMeta)
    → is_owned_by p long ≡ true
    → has_prefix long.name short.name ≡ true
    → is_owned_by p short ≡ true
unfolding is_owned_by
is_owned_by_prefix p short long h k = has_prefix_trans p.name long.name short.name h k
