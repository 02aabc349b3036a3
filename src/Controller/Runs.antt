-- ===== src/Controller/Runs.antt =====
-- What runs of the controller do over the ordered map, and when they end the process.
use gokube_workshop_day.Prelude.{◌≡◌, ◌↔◌, inl, inr, refl, arith, List, [], ◌∷◌, All}
use gokube_workshop_day.Go.{Result, Result-cases, ok, err, pure, on_result}
use gokube_workshop_day.Api.Types.{Pod, ReplicaSet}
use gokube_workshop_day.Storage.Interface.{Codec}
use gokube_workshop_day.Storage.Rows.{Rows, map_storage}
use gokube_workshop_day.Registry.Pod as Pods
use gokube_workshop_day.Registry.ReplicaSet as ReplicaSets
use gokube_workshop_day.Controller.{
  get_pods_for_replica_set, reconcile, reconcile_all, run, start, returned, fatal, tick, done,
  Event,
}

module _ (c : Codec) (rows : Rows) where
  reconcile_rows : (rs : ReplicaSet) → (reconcile (map_storage c) rs rows).1 ≡ rows
  unfolding reconcile ReplicaSets.get Pods.list_pods
  reconcile_rows rs = ground arith

  reconcile_all_rows : (rss : List ReplicaSet) → (reconcile_all (map_storage c) rss rows).1 ≡ rows
  unfolding reconcile_all
  reconcile_all_rows [] = refl
  reconcile_all_rows (rs ∷ rest) = ground (arith, reconcile_rows rs, reconcile_all_rows rest)

  reconcile_listed_rows :
      (r : Result (List ReplicaSet))
      → (on_result r (λ rss. reconcile_all (map_storage c) rss) (λ _. pure fatal) rows).1 ≡ rows
  reconcile_listed_rows (ok rss) = reconcile_all_rows rss
  reconcile_listed_rows (err e) = refl

  run_rows : (run (map_storage c) rows).1 ≡ rows
  unfolding run ReplicaSets.list
  run_rows = ground (arith, reconcile_listed_rows (ReplicaSets.list (map_storage c) rows).0)

  -- However often the controller's ticker fires, every row stays as it was: no pod is created or
  -- deleted for any ReplicaSet.
  pub controller_start_rows : (events : List Event) → (start (map_storage c) events rows).1 ≡ rows
  unfolding start
  controller_start_rows [] = refl
  controller_start_rows (done ∷ events) = refl
  controller_start_rows (tick ∷ events) = ground (arith, run_rows, controller_start_rows events)

  -- A ReplicaSet that can be read under its name while the pods can be listed.
  abbrev pub Reconcilable : ReplicaSet → Type 0
  Reconcilable rs =
      ((r : ReplicaSet) × ((ReplicaSets.get (map_storage c) rs.name rows).0 ≡ ok r))
      × ((pods : List Pod) × ((Pods.list_pods (map_storage c) rows).0 ≡ ok pods))

  reconcile_iff :
      (rs : ReplicaSet) → ((reconcile (map_storage c) rs rows).0 ≡ ok tt) ↔ Reconcilable rs
  unfolding reconcile get_pods_for_replica_set ReplicaSets.get Pods.list_pods
  reconcile_iff rs = elim (Result-cases (ReplicaSets.get (map_storage c) rs.name rows).0) [
    | inr (e, q) ↦ (λ h. absurd (ground arith), λ h. absurd (ground arith))
    | inl (r, q) ↦ elim (Result-cases (Pods.list_pods (map_storage c) rows).0) [
      | inr (e, q') ↦ (λ h. absurd (ground arith), λ h. absurd (ground arith))
      | inl (pods, q') ↦ (λ h. ((r, q), (pods, q')), λ h. ground arith)
    ]
  ]

  reconcile_all_next :
      (rs : ReplicaSet) (rest : List ReplicaSet)
      → (reconcile (map_storage c) rs rows).0 ≡ ok tt
      → reconcile_all (map_storage c) (rs ∷ rest) rows ≡ reconcile_all (map_storage c) rest rows
  unfolding reconcile_all
  reconcile_all_next rs rest q = ground (arith, reconcile_rows rs)

  run_listed :
      (rss : List ReplicaSet)
      → (ReplicaSets.list (map_storage c) rows).0 ≡ ok rss
      → run (map_storage c) rows ≡ reconcile_all (map_storage c) rss rows
  unfolding run ReplicaSets.list
  run_listed rss q = ground arith

  reconcile_all_iff :
      (rss : List ReplicaSet)
      → ((reconcile_all (map_storage c) rss rows).0 ≡ returned) ↔ All Reconcilable rss
  unfolding reconcile_all
  reconcile_all_iff [] = (λ h. tt, λ h. refl)
  reconcile_all_iff (rs ∷ rest) =
      let (there, back) = reconcile_iff rs in
      let (there', back') = reconcile_all_iff rest in
      elim (Result-cases (reconcile (map_storage c) rs rows).0) [
        | inl (u, q) ↦ (
          λ h. (there q, there' (rw (reconcile_all_next rs rest q) at h)),
          λ (h, hs). rw (reconcile_all_next rs rest q) (back' hs),
        )
        | inr (e, q) ↦
            (λ h. absurd (ground arith), λ (h, hs). let done_well = back h in absurd (ground arith))
      ]

  -- A run returns, and does not end the process, exactly if the ReplicaSets can be listed, each of
  -- them can be read under its own name and, unless there is none, the pods can be listed.
  pub run_returned_iff : ((run (map_storage c) rows).0 ≡ returned) ↔ (
      (rss : List ReplicaSet) × ((ReplicaSets.list (map_storage c) rows).0 ≡ ok rss)
      × All Reconcilable rss)
  unfolding run ReplicaSets.list
  run_returned_iff = elim (Result-cases (ReplicaSets.list (map_storage c) rows).0) [
    | inl (rss, q) ↦
        let there = (reconcile_all_iff rss).0 in
        (
          λ h. (rss, q, there (rw (run_listed rss q) at h)),
          λ (rss', q', h). rw (run_listed rss' q') ((reconcile_all_iff rss').1 h),
        )
    | inr (e, q) ↦ (λ h. absurd (ground arith), λ (rss', q', h). absurd (ground arith))
  ]
