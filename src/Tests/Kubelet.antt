-- ===== src/Tests/Kubelet.antt =====
-- The kubelet's theorems at the fixtures, with a Docker that runs.
use mathlib.Core.List.{Memᴰ}
use mathlib.Core.Path.{subst, sym}
use gokube_workshop_day.Prelude.{
  ℕ, ◌+◌, ◌*◌, ◌≡◌, refl, arith, true, false, if◌then◌else◌, has_prefix, same_iff, Bool-cases, inl,
  inr, pos, some, none, List, [], ◌∷◌, Text, codes, same,
}
use gokube_workshop_day.Go.{Result, ok, err}
use gokube_workshop_day.Api.Types.{Container, Pod, pod_succeeded, pod_running}
use gokube_workshop_day.Names.{generate_name, string, cut}
use gokube_workshop_day.Names.Bounds.{IsGeneratedFrom, generate_name-IsGeneratedFrom}
use gokube_workshop_day.Kubelet.Status.{ContainerState}
use gokube_workshop_day.Kubelet.Classification.{StatusMeaning, determine_pod_status-StatusMeaning}
use gokube_workshop_day.Kubelet.Docker.{
  InspectionLaws, Docker, Summary, Inspection, inspected, pulled, missing, failed,
}
use gokube_workshop_day.Kubelet.Pods.{Kubelet, pod_named, watch_all}
use gokube_workshop_day.Kubelet.Rounds.{NamesDistinct, watch_all_once}
use gokube_workshop_day.Kubelet.Containers.{
  ContainerStatus, pod_name_label, container_name_label, get_pod_status, update_pods,
}
use gokube_workshop_day.Kubelet.Ticks.{refreshed_all, update_pods_settles}
use gokube_workshop_day.Kubelet.Managed.{started_pod_succeeded}
use gokube_workshop_day.Tests.Fixtures.{nginx, web_pod, pod_of}

abbrev states : List ContainerState
states =
    record { exists = true; running = true; exit_code = pos 0 }
    ∷ record { exists = false; running = false; exit_code = pos 0 }
    ∷ []

determine_pod_status-StatusMeaning_example : StatusMeaning states
determine_pod_status-StatusMeaning_example = determine_pod_status-StatusMeaning states

abbrev idle : Kubelet
idle = record { node_name = codes "worker"; api_server_url = codes "localhost:8080"; pods = [] }

-- A pod is assigned, then the kubelet is told nothing, then the pod is assigned again.
abbrev rounds : List (Result (List Pod))
rounds = ok (web_pod ∷ []) ∷ err [] ∷ ok (web_pod ∷ []) ∷ []

watch_all_once_example :
    NamesDistinct (watch_all rounds idle).1
    × ((p : Pod)
        → Memᴰ p (watch_all rounds idle).1
        → (pod_named p.name [] ≡ none) × (pod_named p.name (watch_all rounds idle).0.pods ≡ some p))
    × ((pods : List Pod) (pod : Pod)
        → Memᴰ (ok pods) rounds
        → Memᴰ pod pods
        → pod_named pod.name [] ≡ none
        → (p : Pod) × Memᴰ p (watch_all rounds idle).1 × (p.name ≡ pod.name))
watch_all_once_example = watch_all_once rounds idle

abbrev pub placed : Pod
placed = pod_of (codes "web-1") (codes "worker") pod_running (nginx ∷ [])

abbrev pub busy : Kubelet
busy = record {
  node_name = codes "worker";
  api_server_url = codes "localhost:8080";
  pods = (codes "web-1", placed) ∷ [];
}

abbrev pub ours : Summary
ours = record {
  id = codes "c0ffee";
  labels = (pod_name_label, codes "web-1") ∷ (container_name_label, codes "nginx") ∷ [];
  state = codes "running";
}

abbrev pub other : Summary
other = record { id = codes "beef"; labels = []; state = codes "running" }

-- A Docker with two containers, which counts the removals and finds no container by name.
abbrev docker : Docker (List Text)
docker = record {
  image_pull = λ image s. (pulled, s);
  container_create = λ image labels name s. (some name, name ∷ s);
  container_start = λ id s. (true, s);
  container_list = λ everything s. (some (other ∷ ours ∷ []), s);
  container_inspect = λ name s. (missing, s);
  container_remove = λ id s. (true, id ∷ s);
}

abbrev pub our_status : ContainerStatus
our_status = record {
  pod_name = codes "web-1";
  container_name = codes "nginx";
  container_id = codes "c0ffee";
  status = codes "running";
}

abbrev rng : ℕ → ℕ
rng n = 5000 + 1234567 * n

abbrev unique_name : Text
unique_name = codes "web-1-nginxlgbbb"

unique_name-IsGeneratedFrom : IsGeneratedFrom (codes "web-1-nginx") unique_name
unique_name-IsGeneratedFrom =
    generate_name-IsGeneratedFrom rng 40 (codes "web-1-nginx") unique_name
      (unfold generate_name string cut in refl)

only_unique :
    (name : Text) → Memᴰ name (unique_name ∷ []) → IsGeneratedFrom (codes "web-1-nginx") name
only_unique name (Memᴰ.head e) =
    subst (IsGeneratedFrom (codes "web-1-nginx")) (sym e) unique_name-IsGeneratedFrom
only_unique name (Memᴰ.tail m) = elim m [ ]

-- A Docker with one container, which runs, and which is found by its name and by the beginning of its id.
abbrev running_docker : Docker (List Text)
running_docker = record docker {
  container_inspect = λ asked s. (
    if same asked unique_name
        then inspected true (pos 0)
        else if has_prefix (codes "c0ffee") asked
        then inspected true (pos 0)
        else missing,
    s,
  );
}

abbrev running_docker-Laws : InspectionLaws running_docker
running_docker-Laws = record {
  names = λ s. unique_name ∷ [];
  ids = λ s. codes "c0ffee" ∷ [];
  missing_law = λ asked s unnamed apart. elim (Bool-cases (same asked unique_name)) [
    | inl e ↦ absurd (unnamed (Memᴰ.head ((same_iff asked unique_name).0 e)))
    | inr e ↦ rw (e, apart.0) refl
  ];
}

started_pod_succeeded_example : (get_pod_status running_docker placed []).0 ≡ ok pod_succeeded
unfolding has_prefix
started_pod_succeeded_example =
    started_pod_succeeded running_docker running_docker-Laws placed nginx [] refl (omega arith)
      only_unique (refl, tt)

-- The container of the name in the pod has ended; others cannot be inspected.
abbrev ended : Text → Inspection
ended name = if same name nginx.name then inspected false (pos 0) else failed

abbrev still_docker : Docker (List Text)
still_docker = record docker { container_inspect = λ name s. (ended name, s) }

abbrev hidden : Container
hidden = record { name = codes "hidden"; image = codes "nginx:latest" }

abbrev unseen : Pod
unseen = pod_of (codes "web-2") (codes "worker") pod_running (hidden ∷ [])

abbrev known_pods : List (Text × Pod)
known_pods = (codes "web-1", placed) ∷ (codes "web-2", unseen) ∷ []

update_pods_settles_example :
    ((update_pods still_docker known_pods []).0 ≡ refreshed_all ended known_pods)
    × ((update_pods still_docker
          (update_pods still_docker known_pods []).0
          (update_pods still_docker known_pods []).1).0
        ≡ (update_pods still_docker known_pods []).0)
update_pods_settles_example =
    update_pods_settles still_docker ended (λ s. Unit) (λ name s h. (refl, tt)) known_pods [] tt
