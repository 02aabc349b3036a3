-- ===== src/Tests/Daemon.antt =====
-- A Docker that keeps its containers in a list, and the theorems on starting and cleaning up with it.
use mathlib.Core.List.{Memᴰ}
use gokube_workshop_day.Prelude.{
  ◌≡◌, ◌↔◌, refl, sym, ap, length, ◌∙◌, ◌++◌, arith, true, false, not, Bool, some, none, List, [],
  ◌∷◌, map, Text, codes, same, same_refl, keep, keep-not-any, any, All, if◌then◌else◌, Bool-cases,
  inl, inr, Option,
}
use gokube_workshop_day.Go.{Go, ok}
use gokube_workshop_day.Kubelet.Docker.{
  Docker, DockerLaws, Summary, IdsUnique, pulled, missing, created, running, new_container, started,
}
use gokube_workshop_day.Kubelet.Pods.{pod_named}
use gokube_workshop_day.Kubelet.Containers.{
  ContainerStatus, label, managed_pod, container_statuses, first_status, list_containers,
  start_container, cleanup_containers, remove_managed,
}
use gokube_workshop_day.Kubelet.Managed.{is_managed}
use gokube_workshop_day.Kubelet.Reported.{Reports, list_containers_iff}
use gokube_workshop_day.Kubelet.Started.{
  start_container-list_containers, status_of, started_container,
}
use gokube_workshop_day.Kubelet.Cleaned.{cleanup_containers-list_containers}
use gokube_workshop_day.Tests.Fixtures.{nginx}
use gokube_workshop_day.Tests.Kubelet.{busy, placed, ours, other, our_status}

abbrev with_id : Text → Summary → Bool
with_id id c = same c.id id

-- The name that the container is given is its id.
abbrev create : List (Text × Text) → Text → Go (List Summary) (Option Text)
create labels name s =
    if any (with_id name) s then (none, s) else (some name, new_container name labels created ∷ s)

abbrev daemon : Docker (List Summary)
daemon = record {
  image_pull = λ image s. (pulled, s);
  container_create = λ image labels name. create labels name;
  container_start = λ id s. (any (with_id id) s, map (started id) s);
  container_list =
      λ everything s. (some (if everything then s else keep (λ c. same c.state running) s), s);
  container_inspect = λ name s. (missing, s);
  container_remove = λ id s. (any (with_id id) s, keep (λ c. not (same c.id id)) s);
}

apart_ids :
    (id : Text) (s : List Summary) → any (with_id id) s ≡ false → All (λ c. same c.id id ≡ false) s
apart_ids id [] h = tt
apart_ids id (c ∷ s) h = (ground arith, apart_ids id s (ground arith))

create_daemon :
    (labels : List (Text × Text)) (name : Text) (s : List Summary) (id : Text)
    → (create labels name s).0 ≡ some id
    → ((create labels name s).1 ≡ new_container id labels created ∷ s)
      × All (λ c. same c.id id ≡ false) s
create_daemon labels name s id h = elim (Bool-cases (any (with_id name) s)) [
  | inl e ↦ absurd (ground arith)
  | inr e ↦ let is : name ≡ id = ground arith in (ground arith, apart_ids id s (rw is at e))
]

daemon-Laws : DockerLaws daemon
daemon-Laws = record {
  containers = λ s. s;
  is_listed = λ state. same state running;
  running_listed = same_refl running;
  list_all_law = λ s cs h. ground arith;
  list_law = λ s cs h. ground arith;
  list_keeps = λ everything s. refl;
  pull_keeps = λ image s. refl;
  create_law = λ image labels name s id h. create_daemon labels name s id h;
  start_law = λ id s h. refl;
  remove_law = λ id s h. refl;
  remove_missing_law = λ id s h. keep-not-any (with_id id) s h;
}

abbrev generated : Text → Text
generated base = base ++ codes "lgbbb"

abbrev after_start : List ContainerStatus
after_start =
    status_of (codes "web-1") (started_container placed nginx (codes "web-1-nginxlgbbb")) nginx
    ∷ our_status
    ∷ []

start_container-list_containers_example :
    (id : Text) × (after_start
      ≡ status_of (codes "web-1") (started_container placed nginx id) nginx ∷ our_status ∷ [])
start_container-list_containers_example =
    start_container-list_containers daemon-Laws generated busy placed nginx (other ∷ ours ∷ [])
      (our_status ∷ []) after_start (unfold pod_named same in refl) refl (Memᴰ.head refl)
      (unfold start_container same in refl)
      (unfold list_containers container_statuses managed_pod first_status pod_named label same
          keep in
        refl)
      (unfold start_container list_containers container_statuses managed_pod first_status pod_named
          label same keep in
        refl)

ids_apart : other.id ≡ ours.id → ⊥
ids_apart e = omega (arith, ap (λ (t : Text). length t) e)

two_unique : IdsUnique (other ∷ ours ∷ [])
two_unique c d (Memᴰ.head e) (Memᴰ.head e') q = e ∙ sym e'
two_unique c d (Memᴰ.head e) (Memᴰ.tail (Memᴰ.head e')) q =
    absurd (ids_apart (ap (λ (x : Summary). x.id) (sym e) ∙ q ∙ ap (λ (x : Summary). x.id) e'))
two_unique c d (Memᴰ.tail (Memᴰ.head e)) (Memᴰ.head e') q =
    absurd (ids_apart (ap (λ (x : Summary). x.id) (sym e') ∙ sym q ∙ ap (λ (x : Summary). x.id) e))
two_unique c d (Memᴰ.tail (Memᴰ.head e)) (Memᴰ.tail (Memᴰ.head e')) q = e ∙ sym e'
two_unique c d (Memᴰ.head e) (Memᴰ.tail (Memᴰ.tail m)) q = elim m [ ]
two_unique c d (Memᴰ.tail (Memᴰ.head e)) (Memᴰ.tail (Memᴰ.tail m)) q = elim m [ ]
two_unique c d (Memᴰ.tail (Memᴰ.tail m)) m' q = elim m [ ]

removes_daemon : (c : Summary) (s : List Summary) → Memᴰ c s → any (with_id c.id) s ≡ true
removes_daemon c [] m = elim m [ ]
removes_daemon c (d ∷ s) (Memᴰ.head e) = rw (← e, same_refl) refl
removes_daemon c (d ∷ s) (Memᴰ.tail m) = ground (arith, removes_daemon c s m)

cleanup_containers-list_containers_example :
    ((c : Summary)
      → Memᴰ c (cleanup_containers daemon busy (other ∷ ours ∷ [])).1
        ↔ (Memᴰ c (other ∷ ours ∷ []) × (is_managed daemon busy c ≡ false)))
    × (◌≡◌ {A = List ContainerStatus} [] [])
unfolding daemon-Laws
cleanup_containers-list_containers_example =
    cleanup_containers-list_containers daemon-Laws removes_daemon busy (other ∷ ours ∷ [])
      (other ∷ ours ∷ []) [] two_unique refl
      (unfold cleanup_containers remove_managed list_containers container_statuses managed_pod
          first_status pod_named label same keep in
        refl)

listed_ours : (list_containers daemon busy (other ∷ ours ∷ [])).0 ≡ ok (our_status ∷ [])
unfolding list_containers container_statuses managed_pod first_status pod_named label same keep
listed_ours = refl

list_containers_iff_example :
    Memᴰ our_status (our_status ∷ [])
    ↔ Reports busy (keep (λ c. same c.state running) (other ∷ ours ∷ [])) our_status
unfolding same daemon-Laws
list_containers_iff_example =
    list_containers_iff daemon daemon-Laws busy (other ∷ ours ∷ []) (our_status ∷ []) our_status
      listed_ours
