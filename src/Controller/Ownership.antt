-- ===== src/Controller/Ownership.antt =====
-- Which pods the controller counts for a ReplicaSet, and whether it counts those that it names.
use mathlib.Core.List.{Memᴰ}
use gokube_workshop_day.Prelude.{
  ℕ, ◌≡◌, ◌≢◌, ◌≤◌, ◌<◌, ◌↔◌, refl, true, false, arith, some, List, [], ◌∷◌, ◌++◌, ap, ◌∙◌, Text,
  length, take_all, keep, mem-keep, has_prefix, has_prefix-append,
}
use gokube_workshop_day.Go.{ok}
use gokube_workshop_day.Api.Types.{Pod, ObjectMeta, ReplicaSet, pod_failed}
use gokube_workshop_day.Api.Pod.{is_owned_by, is_pod_active_and_owned_by}
use gokube_workshop_day.Api.Ownership.{is_pod_active_and_owned_by_iff}
use gokube_workshop_day.Names.{max_name_length, max_generated_name_length}
use gokube_workshop_day.Names.Bounds.{generate_name-IsGeneratedFrom}
use gokube_workshop_day.Controller.{get_pods_for_replica_set, generate_pod_name_from_replica_set}

has_prefix_longer : (s p : Text) → length s < length p → has_prefix s p ≡ false
unfolding has_prefix
has_prefix_longer s [] h = absurd (omega arith)
has_prefix_longer [] (d ∷ p) h = refl
has_prefix_longer (c ∷ s) (d ∷ p) h = ground (arith, has_prefix_longer s p (omega arith))

-- The pods that the controller counts for a ReplicaSet are exactly the listed ones that have not failed and whose name
-- continues the ReplicaSet's.
pub active_pods_iff :
    (rs : ReplicaSet) (all_pods active : List Pod)
    → get_pods_for_replica_set rs all_pods is_pod_active_and_owned_by ≡ ok active
    → (pod : Pod)
    → Memᴰ pod active ↔ (
        Memᴰ pod all_pods
        × (pod.status ≢ pod_failed)
        × ((rest : Text) × (pod.name ≡ rs.name ++ rest)))
unfolding get_pods_for_replica_set
active_pods_iff rs all_pods active e pod =
    let condition = λ (p : Pod). is_pod_active_and_owned_by p rs.object_meta in
    let kept : keep condition all_pods ≡ active = cc in
    let counted = mem-keep condition all_pods pod in
    let meant = is_pod_active_and_owned_by_iff pod rs.object_meta in
    rw (← kept) (
      λ m.
          let (listed, passed) = counted.0 m in
          let (live, continued) = meant.0 passed in (listed, live, continued),
      λ h. counted.1 (h.0, meant.1 (h.1, h.2)),
    )

-- A pod named after a ReplicaSet is owned by it if the ReplicaSet's name has 58 bytes at most.
pub generated_pod_is_owned :
    (rng : ℕ → ℕ) (fuel : ℕ) (pod : Pod) (meta : ObjectMeta)
    → generate_pod_name_from_replica_set rng fuel meta.name ≡ some pod.name
    → length meta.name ≤ max_generated_name_length
    → is_owned_by pod meta ≡ true
unfolding generate_pod_name_from_replica_set is_owned_by
generated_pod_is_owned rng fuel pod meta e short =
    let g = generate_name-IsGeneratedFrom rng fuel meta.name pod.name e in
    rw (g.split ∙ ap (λ base. base ++ g.suffix) (take_all _ meta.name short))
      (has_prefix-append meta.name g.suffix)

-- A pod named after a ReplicaSet is not owned by it if the ReplicaSet's name has more than 63 bytes:
-- the name was cut.
pub generated_pod_is_not_owned :
    (rng : ℕ → ℕ) (fuel : ℕ) (pod : Pod) (meta : ObjectMeta)
    → generate_pod_name_from_replica_set rng fuel meta.name ≡ some pod.name
    → max_name_length < length meta.name
    → is_owned_by pod meta ≡ false
unfolding generate_pod_name_from_replica_set is_owned_by
generated_pod_is_not_owned rng fuel pod meta e long =
    let g = generate_name-IsGeneratedFrom rng fuel meta.name pod.name e in
    has_prefix_longer pod.name meta.name (omega (arith, g.fits))
