-- ===== src/Server/Cluster/Pods.antt =====
-- The operations on pods over the ordered map of encoded objects.
use gokube_workshop_day.Prelude.{
  ◌≡◌, arith, none, some, [], ◌∷◌, Text, ◌&&◌, same, same_refl, inl, inr, Option-cases, Bool-cases,
}
use gokube_workshop_day.Go.{Result-cases, ok, err, err_not_found}
use gokube_workshop_day.Api.Types.{Pod, pod_kind}
use gokube_workshop_day.Api.Pod as ApiPod
use gokube_workshop_day.Api.Validation.{Validator}
use gokube_workshop_day.Storage.Interface.{Codec}
use gokube_workshop_day.Storage.Rows.{
  Rows, lookup, insert, remove, decode_row, put_row, map_storage,
}
use gokube_workshop_day.Registry.Path.{IsPlain}
use gokube_workshop_day.Registry.Pod as Pods
use gokube_workshop_day.Handlers.Http.{Request, attribute}
use gokube_workshop_day.Handlers.Pod as PodHandler
use gokube_workshop_day.Server.{serve, post_pods, get_pod, put_pod, delete_pod}
use gokube_workshop_day.Server.Cluster.{Cluster, put, drop, perform, create, read, replace, destroy}
use gokube_workshop_day.Server.Cluster.Represents.{Represents, Agrees, agrees, BodyRoundTrips}
use gokube_workshop_day.Server.Cluster.Changes.{Represents-put, Represents-drop}

module _ (c : Codec) (v : Validator) {rows : Rows} {cl : Cluster} (r : Represents c rows cl)
    (req : Request) where
  pod_missing :
      (name : Text)
      → IsPlain name
      → cl pod_kind name ≡ none
      → decode_row c pod_kind (lookup (Pods.generate_key name) rows) ≡ err (err_not_found ∷ [])
  pod_missing name plain e = rw e at (r.held pod_kind name plain)

  pod_found :
      (name : Text) (pod : Pod)
      → IsPlain name
      → cl pod_kind name ≡ some pod
      → decode_row c pod_kind (lookup (Pods.generate_key name) rows) ≡ ok pod
  pod_found name pod plain e = rw e at (r.held pod_kind name plain)

  pub get_pod-Agrees :
      IsPlain req.name
      → Agrees c (serve (map_storage c) v get_pod req rows) (perform v (read pod_kind) req cl)
  unfolding serve PodHandler.load_pod_into_request PodHandler.get_pod Pods.get_pod attribute perform
  get_pod-Agrees plain = elim (Option-cases (cl pod_kind req.name)) [
    | inl e ↦ agrees c _ _ rows cl (ground (arith, pod_missing req.name plain e)) (ground arith) r
    | inr (pod, e) ↦
        agrees c _ _ rows cl
          (ground (arith, pod_found req.name pod plain e, same_refl PodHandler.pod_attribute_key))
          (ground arith) r
  ]

  pub delete_pod-Agrees :
      IsPlain req.name
      → Agrees c (serve (map_storage c) v delete_pod req rows) (perform v (destroy pod_kind) req cl)
  unfolding serve PodHandler.load_pod_into_request PodHandler.delete_pod Pods.get_pod
      Pods.delete_pod attribute perform
  delete_pod-Agrees plain = elim (Option-cases (cl pod_kind req.name)) [
    | inl e ↦ agrees c _ _ rows cl (ground (arith, pod_missing req.name plain e)) (ground arith) r
    | inr (pod, e) ↦
        agrees c _ _ (remove (Pods.generate_key req.name) rows) (drop pod_kind req.name cl)
          (ground (
            arith,
            pod_found req.name pod plain e,
            r.own pod_kind req.name pod plain e,
            same_refl PodHandler.pod_attribute_key,
          ))
          (ground arith) (Represents-drop c r pod_kind req.name plain)
  ]

  -- A pod is not stored.
  pub post_pods-Agrees :
      Agrees c (serve (map_storage c) v post_pods req rows) (perform v (create pod_kind) req cl)
  unfolding serve PodHandler.create_pod perform
  post_pods-Agrees = elim (Result-cases (req.read_entity pod_kind)) [
    | inr (e', e) ↦ agrees c _ _ rows cl (ground arith) (ground arith) r
    | inl (pod, e) ↦ agrees c _ _ rows cl (ground arith) (ground arith) r
  ]

  pub put_pod-Agrees :
      IsPlain req.name
      → BodyRoundTrips c req pod_kind
      → Agrees c (serve (map_storage c) v put_pod req rows) (perform v (replace pod_kind) req cl)
  unfolding serve PodHandler.load_pod_into_request PodHandler.update_pod Pods.get_pod
      Pods.update_pod ApiPod.validate put_row attribute perform
  put_pod-Agrees plain body = elim (Option-cases (cl pod_kind req.name)) [
    | inl q ↦ agrees c _ _ rows cl (ground (arith, pod_missing req.name plain q)) (ground arith) r
    | inr (old, q) ↦
        let stored = pod_found req.name old plain q in
        let named = r.own pod_kind req.name old plain q in
        let key = same_refl PodHandler.pod_attribute_key in
        elim (Result-cases (req.read_entity pod_kind)) [
          | inr (e', e) ↦ agrees c _ _ rows cl (ground (arith, stored, key)) (ground arith) r
          | inl (pod, e) ↦
              let (plain', t) = body pod e in
              elim (Bool-cases (same req.name pod.name && v.struct_pod pod)) [
                | inl fits ↦
                    agrees c _ _ (insert (Pods.generate_key pod.name) t.encoded rows)
                      (put pod_kind pod cl) (ground (arith, stored, named, key, t.encodes))
                      (ground arith) (Represents-put c r pod_kind pod plain' t)
                | inr refused ↦
                    agrees c _ _ rows cl (ground (arith, stored, named, key)) (ground arith) r
              ]
        ]
  ]
