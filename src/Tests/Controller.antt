-- ===== src/Tests/Controller.antt =====
-- The theorems about the controller and the scheduler at the fixtures.
use mathlib.Core.List.{Memᴰ}
use gokube_workshop_day.Prelude.{
  ℕ, ◌+◌, ◌*◌, ◌≡◌, ◌≢◌, ◌↔◌, refl, arith, true, some, List, [], ◌∷◌, ◌++◌, Text, codes, has_prefix,
  same, All,
}
use gokube_workshop_day.Go.{ok}
use gokube_workshop_day.Api.Types.{Node, Pod, ReplicaSet, pod_failed}
use gokube_workshop_day.Api.Pod.{is_owned_by, is_pod_active_and_owned_by}
use gokube_workshop_day.Registry.Pod as Pods
use gokube_workshop_day.Registry.Node as Nodes
use gokube_workshop_day.Registry.ReplicaSet as ReplicaSets
use gokube_workshop_day.Names.{generate_name, string, cut}
use gokube_workshop_day.Controller.{
  get_pods_for_replica_set, generate_pod_name_from_replica_set, run, returned,
}
use gokube_workshop_day.Controller.Ownership.{active_pods_iff, generated_pod_is_owned}
use gokube_workshop_day.Controller.Runs.{run_returned_iff, Reconcilable}
use gokube_workshop_day.Scheduler.{schedule_pending_pods}
use gokube_workshop_day.Scheduler.Runs.{schedule_pending_pods_iff}
use gokube_workshop_day.Tests.Fixtures.{
  codec, store, worker_rows, web_rows, web_pod, web, pod_of, named,
}

abbrev failed_pod : Pod
failed_pod = pod_of (codes "web-2") [] pod_failed []

active_web :
    get_pods_for_replica_set web (failed_pod ∷ web_pod ∷ []) is_pod_active_and_owned_by
    ≡ ok (web_pod ∷ [])
unfolding get_pods_for_replica_set is_pod_active_and_owned_by same has_prefix
active_web = refl

active_pods_iff_example : Memᴰ web_pod (web_pod ∷ []) ↔ (
    Memᴰ web_pod (failed_pod ∷ web_pod ∷ [])
    × (web_pod.status ≢ pod_failed)
    × ((rest : Text) × (web_pod.name ≡ codes "web" ++ rest)))
active_pods_iff_example =
    active_pods_iff web (failed_pod ∷ web_pod ∷ []) (web_pod ∷ []) active_web web_pod

abbrev rng : ℕ → ℕ
rng n = 5000 + 1234567 * n

abbrev generated : Pod
generated = pod_of (codes "weblgbbb") [] [] []

generated_name : generate_pod_name_from_replica_set rng 40 (codes "web") ≡ some (codes "weblgbbb")
unfolding generate_pod_name_from_replica_set generate_name string cut
generated_name = refl

generated_pod_is_owned_example : is_owned_by generated (named (codes "web")) ≡ true
generated_pod_is_owned_example =
    generated_pod_is_owned rng 40 generated (named (codes "web")) generated_name (omega arith)

abbrev long_name : Text
long_name = codes "a-name-of-more-than-sixty-three-bytes-which-no-validator-has-refused-yet"

abbrev cut_name : Text
cut_name = codes "a-name-of-more-than-sixty-three-bytes-which-no-validator-hlgbbb"

long_generated : generate_pod_name_from_replica_set rng 40 long_name ≡ some cut_name
unfolding generate_pod_name_from_replica_set generate_name string cut
long_generated = refl

run_returned_iff_example : ((run store web_rows).0 ≡ returned) ↔ (
    (rss : List ReplicaSet) × ((ReplicaSets.list store web_rows).0 ≡ ok rss)
    × All (Reconcilable codec web_rows) rss)
run_returned_iff_example = run_returned_iff codec web_rows

schedule_pending_pods_iff_example : ((schedule_pending_pods store worker_rows).0 ≡ ok tt) ↔ (
    ((pods : List Pod) × ((Pods.list_pods store worker_rows).0 ≡ ok pods))
    × ((nodes : List Node) × ((Nodes.list_nodes store worker_rows).0 ≡ ok nodes) × (nodes ≢ [])))
schedule_pending_pods_iff_example = schedule_pending_pods_iff codec worker_rows
