-- ===== src/Kubelet/Assignment.antt =====
-- Which pods `runNewPods` starts.
use mathlib.Core.List.{Memᴰ}
use mathlib.Core.List.Memᴰ
use mathlib.Core.Path.{subst}
use gokube_workshop_day.Prelude.{
  ◌≡◌, refl, sym, arith, none, some, List, [], ◌∷◌, Text, same_refl, same_iff, inl, inr,
  Option-cases, All,
}
use gokube_workshop_day.Api.Types.{Pod}
use gokube_workshop_day.Kubelet.Pods.{Kubelet, pod_named, run_new_pods}

pub run_new_pods_known :
    (pod old : Pod) (rest : List Pod) (k : Kubelet)
    → pod_named pod.name k.pods ≡ some old
    → run_new_pods (pod ∷ rest) k ≡ run_new_pods rest k
unfolding run_new_pods
run_new_pods_known pod old rest k e = ground arith

abbrev pub learned : Pod → Kubelet → Kubelet
learned pod k = record k { pods = (pod.name, pod) ∷ k.pods }

pub run_new_pods_new :
    (pod : Pod) (rest : List Pod) (k : Kubelet)
    → pod_named pod.name k.pods ≡ none
    → run_new_pods (pod ∷ rest) k
      ≡ ((run_new_pods rest (learned pod k)).0, pod ∷ (run_new_pods rest (learned pod k)).1)
unfolding run_new_pods
run_new_pods_new pod rest k e = ground arith

pub learned_named : (pod : Pod) (k : Kubelet) → pod_named pod.name (learned pod k).pods ≡ some pod
unfolding pod_named
learned_named pod k = rw same_refl

pub learned_keeps :
    (pod p : Pod) (k : Kubelet) (name : Text)
    → pod_named pod.name k.pods ≡ none
    → pod_named name k.pods ≡ some p
    → pod_named name (learned pod k).pods ≡ some p
unfolding pod_named
learned_keeps pod p k name new old = ground (arith, same_iff pod.name name)

-- A pod that the kubelet knows stays as it is, whatever is assigned.
pub run_new_pods_keeps :
    (pods : List Pod) (k : Kubelet) (name : Text) (p : Pod)
    → pod_named name k.pods ≡ some p
    → pod_named name (run_new_pods pods k).0.pods ≡ some p
run_new_pods_keeps [] k name p h = unfold run_new_pods in h
run_new_pods_keeps (pod ∷ rest) k name p h = elim (Option-cases (pod_named pod.name k.pods)) [
  | inl new ↦
      rw (run_new_pods_new pod rest k new)
        (run_new_pods_keeps rest (learned pod k) name p (learned_keeps pod p k name new h))
  | inr (old, e) ↦ rw (run_new_pods_known pod old rest k e) (run_new_pods_keeps rest k name p h)
]

abbrev pub Knows : Kubelet → List Pod → Type 0
Knows k pods = All (λ pod. (p : Pod) × (pod_named pod.name k.pods ≡ some p)) pods

-- Each assigned pod's name is known afterwards.
pub run_new_pods_all_known : (pods : List Pod) (k : Kubelet) → Knows (run_new_pods pods k).0 pods
run_new_pods_all_known [] k = tt
run_new_pods_all_known (pod ∷ rest) k = elim (Option-cases (pod_named pod.name k.pods)) [
  | inl new ↦
      subst (λ (r : Kubelet × List Pod). Knows r.0 (pod ∷ rest))
        (sym (run_new_pods_new pod rest k new))
        (
          (pod, run_new_pods_keeps rest (learned pod k) pod.name pod (learned_named pod k)),
          run_new_pods_all_known rest (learned pod k),
        )
  | inr (old, e) ↦
      subst (λ (r : Kubelet × List Pod). Knows r.0 (pod ∷ rest))
        (sym (run_new_pods_known pod old rest k e))
        ((old, run_new_pods_keeps rest k pod.name old e), run_new_pods_all_known rest k)
]

run_new_pods_all_old :
    (pods : List Pod) (k : Kubelet) → Knows k pods → run_new_pods pods k ≡ (k, [])
run_new_pods_all_old [] k h = unfold run_new_pods in refl
run_new_pods_all_old (pod ∷ rest) k ((p, e), h) =
    rw (run_new_pods_known pod p rest k e) (run_new_pods_all_old rest k h)

-- Assigned the same pods again, the kubelet starts nothing and learns nothing.
pub run_new_pods_idem :
    (pods : List Pod) (k : Kubelet)
    → run_new_pods pods (run_new_pods pods k).0 ≡ ((run_new_pods pods k).0, [])
run_new_pods_idem pods k = run_new_pods_all_old pods _ (run_new_pods_all_known pods k)

unlearned :
    (pod : Pod) (k : Kubelet) (name : Text)
    → pod_named name (learned pod k).pods ≡ none
    → pod_named name k.pods ≡ none
unfolding pod_named
unlearned pod k name h = ground arith

-- A pod is started only if its name was not known, and then it is the pod known by that name.
pub run_new_pods_started :
    (pods : List Pod) (k : Kubelet) (p : Pod)
    → Memᴰ p (run_new_pods pods k).1
    → (pod_named p.name k.pods ≡ none) × (pod_named p.name (run_new_pods pods k).0.pods ≡ some p)
run_new_pods_started [] k p m = unfold run_new_pods in elim m [ ]
run_new_pods_started (pod ∷ rest) k p m = elim (Option-cases (pod_named pod.name k.pods)) [
  | inl new ↦
      let m' : Memᴰ p (pod ∷ (run_new_pods rest (learned pod k)).1) =
        rw (run_new_pods_new pod rest k new) at m in
      rw (run_new_pods_new pod rest k new) (elim (Memᴰ.cases_cons m') [
        | inl e ↦
            rw e (new, run_new_pods_keeps rest (learned pod k) pod.name pod (learned_named pod k))
        | inr later ↦
            let (unknown, recorded) = run_new_pods_started rest (learned pod k) p later in
            (unlearned pod k p.name unknown, recorded)
      ])
  | inr (old, e) ↦
      let m' : Memᴰ p (run_new_pods rest k).1 = rw (run_new_pods_known pod old rest k e) at m in
      rw (run_new_pods_known pod old rest k e) (run_new_pods_started rest k p m')
]
