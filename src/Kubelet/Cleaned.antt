-- ===== src/Kubelet/Cleaned.antt =====
-- What Docker has after `CleanupContainers` (pkg/kubelet/kubelet.go).
use mathlib.Core.List.{Memᴰ}
use mathlib.Core.Path.{subst}
use gokube_workshop_day.Prelude.{
  ◌≡◌, ◌↔◌, refl, sym, ap, ◌∙◌, true, false, not, Bool, arith, some, List, [], ◌∷◌, map, Text, same,
  same_iff, same_refl, inl, inr, Bool-cases, keep, mem-keep, any, any_found, keep-not-any,
}
use gokube_workshop_day.Go.{ok}
use gokube_workshop_day.Kubelet.Docker.{Docker, DockerLaws, Summary, IdsUnique}
use gokube_workshop_day.Kubelet.Pods.{Kubelet}
use gokube_workshop_day.Kubelet.Containers.{
  ContainerStatus, container_statuses, list_containers, cleanup_containers,
}
use gokube_workshop_day.Kubelet.Started.{list_containers-statuses}
use gokube_workshop_day.Kubelet.Managed.{remove_each, is_managed, cleanup_containers_lem}

-- A kubelet reports nothing of containers that are not its own.
unmanaged_statuses :
    {S : Type 0} (docker : Docker S) (k : Kubelet) (cs : List Summary)
    → ((c : Summary) → Memᴰ c cs → is_managed docker k c ≡ false)
    → container_statuses k cs ≡ []
unfolding container_statuses
unmanaged_statuses docker k [] h = refl
unmanaged_statuses docker k (c ∷ cs) h =
    let rest = unmanaged_statuses docker k cs (λ d m. h d (Memᴰ.tail m)) in
    let e = h c (Memᴰ.head refl) in ground (arith, rest, e)

module _ (p : Summary → Bool) (c : Summary) where
  kept_id :
      (cs : List Summary)
      → Memᴰ c cs
      → p c ≡ true
      → any (same c.id) (map (λ d. d.id) (keep p cs)) ≡ true
  unfolding keep
  kept_id [] m e = elim m [ ]
  kept_id (d ∷ cs) (Memᴰ.head q) e = rw (← q, e, same_refl) refl
  kept_id (d ∷ cs) (Memᴰ.tail m) e = elim (Bool-cases (same c.id d.id)) [
    | inl h ↦ ground (arith, kept_id cs m e)
    | inr h ↦ ground (arith, kept_id cs m e)
  ]

  dropped_id :
      (cs : List Summary)
      → ((d : Summary) → Memᴰ d cs → c.id ≡ d.id → p d ≡ false)
      → any (same c.id) (map (λ d. d.id) (keep p cs)) ≡ false
  unfolding keep
  dropped_id [] h = refl
  dropped_id (d ∷ cs) h =
      let rest = dropped_id cs (λ e m. h e (Memᴰ.tail m)) in
      elim (Bool-cases (same c.id d.id)) [
        | inl e ↦ rw (h d (Memᴰ.head refl) ((same_iff c.id d.id).0 e)) rest
        | inr e ↦ ground (arith, rest)
      ]

module _ {S : Type 0} {docker : Docker S} (laws : DockerLaws docker)
    (removes : (c : Summary) (s : S)
      → Memᴰ c (laws.containers s)
      → (docker.container_remove c.id s).0 ≡ true) where
  -- A removal of an id that no container has fails, and changes nothing.
  remove-containers :
      (id : Text) (s : S)
      → laws.containers (docker.container_remove id s).1
        ≡ keep (λ d. not (same d.id id)) (laws.containers s)
  remove-containers id s = elim (Bool-cases (any (λ d. same d.id id) (laws.containers s))) [
    | inl e ↦
        let (c, there, q) = any_found (λ d. same d.id id) (laws.containers s) e in
        let is = (same_iff c.id id).0 q in
        laws.remove_law id s
          (subst (λ i. (docker.container_remove i s).0 ≡ true) is (removes c s there))
    | inr e ↦
        laws.remove_missing_law id s e
        ∙ sym (keep-not-any (λ d. same d.id id) (laws.containers s) e)
  ]

  remove_each-containers :
      (ids : List Text) (s : S) (c : Summary)
      → Memᴰ c (laws.containers (remove_each docker ids s).1)
        ↔ (Memᴰ c (laws.containers s) × (any (same c.id) ids ≡ false))
  unfolding remove_each
  remove_each-containers [] s c = ((λ m. (m, refl)), λ h. h.0)
  remove_each-containers (id ∷ ids) s c =
      let (there, back) = remove_each-containers ids (docker.container_remove id s).1 c in
      let kept : Memᴰ c (laws.containers (docker.container_remove id s).1)
          ↔ (Memᴰ c (laws.containers s) × (not (same c.id id) ≡ true)) =
        rw (remove-containers id s) (mem-keep (λ d. not (same d.id id)) (laws.containers s) c) in
      (
        λ m.
            let (now, rest) = there m in
            let (old, apart) = kept.0 now in (old, ground (arith, apart, rest)),
        λ (old, apart). back (kept.1 (old, ground arith), ground arith),
      )

  managed_ids :
      (k : Kubelet) (s : S) (c : Summary)
      → IdsUnique (laws.containers s)
      → Memᴰ c (laws.containers s)
      → any (same c.id) (map (λ d. d.id) (keep (λ d. is_managed docker k d) (laws.containers s)))
        ≡ is_managed docker k c
  managed_ids k s c unique m = elim (Bool-cases (is_managed docker k c)) [
    | inl e ↦ kept_id (λ d. is_managed docker k d) c (laws.containers s) m e ∙ sym e
    | inr e ↦
        dropped_id (λ d. is_managed docker k d) c (laws.containers s)
          (λ d there q. ap (λ x. is_managed docker k x) (sym (unique c d m there q)) ∙ e)
        ∙ sym e
  ]

  -- After a clean-up Docker has exactly the containers that it had and that are not managed.
  cleanup_containers-containers :
      (k : Kubelet) (s : S) (cs : List Summary)
      → IdsUnique (laws.containers s)
      → (docker.container_list true s).0 ≡ some cs
      → (c : Summary)
      → Memᴰ c (laws.containers (cleanup_containers docker k s).1)
        ↔ (Memᴰ c (laws.containers s) × (is_managed docker k c ≡ false))
  cleanup_containers-containers k s cs unique listed c =
      let ids = map (λ d. d.id) (keep (λ d. is_managed docker k d) (laws.containers s)) in
      let s' = (docker.container_list true s).1 in
      let same_rows : (cleanup_containers docker k s).1 ≡ (remove_each docker ids s').1 =
        ap (λ r. r.1) (cleanup_containers_lem docker k s cs listed)
        ∙ ap
            (λ l. (remove_each docker (map (λ d. d.id) (keep (λ d. is_managed docker k d) l)) s').1)
            (laws.list_all_law s cs listed) in
      let (there, back) = remove_each-containers ids s' c in
      let kept = laws.list_keeps true s in
      (
        λ m.
            let (old, apart) = there (subst (λ w. Memᴰ c (laws.containers w)) same_rows m) in
            let old' = subst (λ l. Memᴰ c l) kept old in
            (old', sym (managed_ids k s c unique old') ∙ apart),
        λ (old, apart).
            subst (λ w. Memᴰ c (laws.containers w)) (sym same_rows)
              (back (subst (λ l. Memᴰ c l) (sym kept) old, managed_ids k s c unique old ∙ apart)),
      )

  -- If Docker, in which no two containers have one id, lists its containers and removes every
  -- container that it is asked to and has, then after `CleanupContainers` it has exactly the
  -- containers that it had before and that do not carry the label of a known pod of this node, and
  -- `ListContainers`, if it returns a list, returns the empty one.
  pub cleanup_containers-list_containers :
      (k : Kubelet) (s : S) (cs : List Summary) (after : List ContainerStatus)
      → IdsUnique (laws.containers s)
      → (docker.container_list true s).0 ≡ some cs
      → (list_containers docker k (cleanup_containers docker k s).1).0 ≡ ok after
      → ((c : Summary)
          → Memᴰ c (laws.containers (cleanup_containers docker k s).1)
            ↔ (Memᴰ c (laws.containers s) × (is_managed docker k c ≡ false)))
        × (after ≡ [])
  cleanup_containers-list_containers k s cs after unique listed is =
      let s' = (cleanup_containers docker k s).1 in
      let has = cleanup_containers-containers k s cs unique listed in
      (
        has,
        list_containers-statuses laws k s' after is
            ∙ unmanaged_statuses docker k _ (λ c m.
              ((has c).0
                ((mem-keep (λ d. laws.is_listed d.state) (laws.containers s') c).0 m).0).1),
      )
