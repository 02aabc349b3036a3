-- ===== src/Kubelet/Rounds.antt =====
-- Which pods the loop of `watchPods` starts in all its rounds (pkg/kubelet/kubelet.go).
use mathlib.Core.List.{Memᴰ}
use mathlib.Core.List.Memᴰ
use mathlib.Core.Path.{subst}
use gokube_workshop_day.Prelude.{
  ◌≡◌, ◌≢◌, ◌⊎◌, refl, ap, ◌∙◌, arith, none, some, List, [], ◌∷◌, ◌++◌, Text, same_iff, inl, inr,
  Option-cases, Bool-cases, same,
}
use gokube_workshop_day.Go.{Result, ok, err}
use gokube_workshop_day.Api.Types.{Pod}
use gokube_workshop_day.Kubelet.Pods.{Kubelet, pod_named, run_new_pods, watched, watch_all}
use gokube_workshop_day.Kubelet.Assignment.{
  learned, learned_named, learned_keeps, run_new_pods_new, run_new_pods_known,
  run_new_pods_all_known, Knows,
}

-- No two of the pods have one name.
abbrev pub NamesDistinct : List Pod → Type 0
NamesDistinct [] = Unit
NamesDistinct (p ∷ ps) = ((q : Pod) → Memᴰ q ps → q.name ≢ p.name) × NamesDistinct ps

-- From one kubelet to a later one these pods were started: each once, none whose name was known, and
-- every pod that is newly known.
pub record Starts (k k' : Kubelet) (started : List Pod) : Type 0 where
  pub distinct : NamesDistinct started
  pub fresh :
      (p : Pod)
      → Memᴰ p started
      → (pod_named p.name k.pods ≡ none) × (pod_named p.name k'.pods ≡ some p)
  pub keeps :
      (name : Text) (p : Pod) → pod_named name k.pods ≡ some p → pod_named name k'.pods ≡ some p
  pub origin :
      (name : Text) (p : Pod)
      → pod_named name k'.pods ≡ some p
      → (pod_named name k.pods ≡ some p) ⊎ (Memᴰ p started × (p.name ≡ name))

NamesDistinct-append :
    (ps qs : List Pod)
    → NamesDistinct ps
    → NamesDistinct qs
    → ((p q : Pod) → Memᴰ p ps → Memᴰ q qs → q.name ≢ p.name)
    → NamesDistinct (ps ++ qs)
NamesDistinct-append [] qs h h' apart = h'
NamesDistinct-append (p ∷ ps) qs (h, hs) h' apart = (
  λ q m. elim (Memᴰ.append_cases ps m) [
    | inl early ↦ h q early
    | inr late ↦ apart p q (Memᴰ.head refl) late
  ],
  NamesDistinct-append ps qs hs h' (λ p' q m m'. apart p' q (Memᴰ.tail m) m'),
)

Starts-refl : (k : Kubelet) → Starts k k []
Starts-refl k = record {
  distinct = tt;
  fresh = λ p m. elim m [ ];
  keeps = λ name p h. h;
  origin = λ name p h. inl h;
}

module _ {k1 k2 k3 : Kubelet} {now later : List Pod} (a : Starts k1 k2 now)
    (b : Starts k2 k3 later) where
  unknown_before : (name : Text) → pod_named name k2.pods ≡ none → pod_named name k1.pods ≡ none
  unknown_before name h = elim (Option-cases (pod_named name k1.pods)) [
    | inl e ↦ e
    | inr (p, e) ↦ let kept = a.keeps name p e in absurd (cc (h, kept))
  ]

  started_apart : (p q : Pod) → Memᴰ p now → Memᴰ q later → q.name ≢ p.name
  started_apart p q m m' e =
      cc ((b.fresh q m').0, (a.fresh p m).1, ap (λ (n : Text). pod_named n k2.pods) e)

  Starts-trans : Starts k1 k3 (now ++ later)
  Starts-trans = record {
    distinct = NamesDistinct-append now later a.distinct b.distinct started_apart;
    fresh = λ p m. elim (Memᴰ.append_cases now m) [
      | inl m' ↦ ((a.fresh p m').0, b.keeps p.name p (a.fresh p m').1)
      | inr m' ↦ (unknown_before p.name (b.fresh p m').0, (b.fresh p m').1)
    ];
    keeps = λ name p h. b.keeps name p (a.keeps name p h);
    origin = λ name p h. elim (b.origin name p h) [
      | inr (m, e) ↦ inr (Memᴰ.append_right now m, e)
      | inl h' ↦ elim (a.origin name p h') [
        | inl h'' ↦ inl h''
        | inr (m, e) ↦ inr (Memᴰ.append_left later m, e)
      ]
    ];
  }

module _ (pod : Pod) (k : Kubelet) (new : pod_named pod.name k.pods ≡ none) where
  only_pod :
      (p : Pod)
      → Memᴰ p (pod ∷ [])
      → (pod_named p.name k.pods ≡ none) × (pod_named p.name (learned pod k).pods ≡ some p)
  only_pod p (Memᴰ.head e) = rw e (new, learned_named pod k)
  only_pod p (Memᴰ.tail m) = elim m [ ]

  learned-origin :
      (name : Text) (p : Pod)
      → pod_named name (learned pod k).pods ≡ some p
      → (pod_named name k.pods ≡ some p) ⊎ (Memᴰ p (pod ∷ []) × (p.name ≡ name))
  unfolding pod_named
  learned-origin name p h = elim (Bool-cases (same pod.name name)) [
    | inl e ↦
        let q : p ≡ pod = ground arith in
        inr (Memᴰ.head q, ap (λ (r : Pod). r.name) q ∙ (same_iff pod.name name).0 e)
    | inr e ↦ inl (ground arith)
  ]

  Starts-learned : Starts k (learned pod k) (pod ∷ [])
  Starts-learned = record {
    distinct = (λ q m. elim m [ ], tt);
    fresh = only_pod;
    keeps = λ name p h. learned_keeps pod p k name new h;
    origin = learned-origin;
  }

run_new_pods-Starts :
    (pods : List Pod) (k : Kubelet) → Starts k (run_new_pods pods k).0 (run_new_pods pods k).1
run_new_pods-Starts [] k = unfold run_new_pods in Starts-refl k
run_new_pods-Starts (pod ∷ rest) k = elim (Option-cases (pod_named pod.name k.pods)) [
  | inl new ↦
      rw (run_new_pods_new pod rest k new)
        (Starts-trans (Starts-learned pod k new) (run_new_pods-Starts rest (learned pod k)))
  | inr (old, e) ↦ rw (run_new_pods_known pod old rest k e) (run_new_pods-Starts rest k)
]

watched-Starts :
    (assigned : Result (List Pod)) (k : Kubelet)
    → Starts k (watched assigned k).0 (watched assigned k).1
watched-Starts (ok pods) k = run_new_pods-Starts pods k
watched-Starts (err e) k = Starts-refl k

watch_all-Starts :
    (rounds : List (Result (List Pod))) (k : Kubelet)
    → Starts k (watch_all rounds k).0 (watch_all rounds k).1
unfolding watch_all
watch_all-Starts [] k = Starts-refl k
watch_all-Starts (assigned ∷ rounds) k =
    Starts-trans (watched-Starts assigned k) (watch_all-Starts rounds (watched assigned k).0)

Knows-mem :
    (pods : List Pod) (k : Kubelet) (pod : Pod)
    → Knows k pods
    → Memᴰ pod pods
    → (p : Pod) × (pod_named pod.name k.pods ≡ some p)
Knows-mem [] k pod h m = elim m [ ]
Knows-mem (q ∷ qs) k pod (h, hs) (Memᴰ.head e) = rw e h
Knows-mem (q ∷ qs) k pod (h, hs) (Memᴰ.tail m) = Knows-mem qs k pod hs m

watch_all_known :
    (rounds : List (Result (List Pod))) (k : Kubelet) (pods : List Pod) (pod : Pod)
    → Memᴰ (ok pods) rounds
    → Memᴰ pod pods
    → (p : Pod) × (pod_named pod.name (watch_all rounds k).0.pods ≡ some p)
unfolding watch_all
watch_all_known [] k pods pod m m' = elim m [ ]
watch_all_known (assigned ∷ rounds) k pods pod (Memᴰ.head e) m' =
    let after = watched assigned k in
    let (p, known) =
      subst
        (λ (r : Result (List Pod)). (p : Pod) × (pod_named pod.name (watched r k).0.pods ≡ some p))
        e (Knows-mem pods (run_new_pods pods k).0 pod (run_new_pods_all_known pods k) m') in
    (p, (watch_all-Starts rounds after.0).keeps pod.name p known)
watch_all_known (assigned ∷ rounds) k pods pod (Memᴰ.tail m) m' =
    watch_all_known rounds (watched assigned k).0 pods pod m m'

-- Over all the rounds of `watchPods`, whatever is assigned in each: no two pods of one name are started,
-- none whose name the kubelet knew, every assigned pod whose name it did not know is started or shares
-- the name of one that is, and a started pod is known by its name afterwards.
pub watch_all_once :
    (rounds : List (Result (List Pod))) (k : Kubelet)
    → NamesDistinct (watch_all rounds k).1
      × ((p : Pod)
          → Memᴰ p (watch_all rounds k).1
          → (pod_named p.name k.pods ≡ none)
            × (pod_named p.name (watch_all rounds k).0.pods ≡ some p))
      × ((pods : List Pod) (pod : Pod)
          → Memᴰ (ok pods) rounds
          → Memᴰ pod pods
          → pod_named pod.name k.pods ≡ none
          → (p : Pod) × Memᴰ p (watch_all rounds k).1 × (p.name ≡ pod.name))
watch_all_once rounds k =
    let all = watch_all-Starts rounds k in
    (
      all.distinct,
      all.fresh,
      λ pods pod m m' new.
          let (p, known) = watch_all_known rounds k pods pod m m' in
          elim (all.origin pod.name p known) [
            | inl old ↦ absurd (cc (new, old))
            | inr (started, e) ↦ (p, started, e)
          ],
    )
