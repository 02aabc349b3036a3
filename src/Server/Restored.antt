-- ===== src/Server/Restored.antt =====
-- A PUT and a DELETE of one pod that are handled at the same time (pkg/api/handlers/pod.go).
use gokube_workshop_day.Prelude.{◌≡◌, arith, true, false, none, some, [], ◌∷◌, same_refl}
use gokube_workshop_day.Go.{ok}
use gokube_workshop_day.Go.Calls.{returns}
use gokube_workshop_day.Go.Interleaving.{together}
use gokube_workshop_day.Api.Types.{Pod, pod_kind}
use gokube_workshop_day.Api.Pod as ApiPod
use gokube_workshop_day.Api.Validation.{Validator}
use gokube_workshop_day.Storage.Interface.{Codec}
use gokube_workshop_day.Storage.Rows.{
  Rows, lookup, insert, remove, decode_row, put_row, map_storage, lookup-insert, lookup-remove,
}
use gokube_workshop_day.Registry.Pod as Pods
use gokube_workshop_day.Registry.Rules.{RoundTrips}
use gokube_workshop_day.Handlers.Http.{
  Request, attribute, write_response, status_ok, status_no_content, pod_entity,
}
use gokube_workshop_day.Handlers.Pod as PodHandler
use gokube_workshop_day.Server.{put_pod, delete_pod, serve, serve_all}
use gokube_workshop_day.Server.Interleaved.{serve_calls}

module _ (c : Codec) (v : Validator) (rows : Rows) where
  module _ (old pod : Pod) (t : RoundTrips c pod_kind pod) (putting deleting : Request)
      (stored : decode_row c pod_kind (lookup (Pods.generate_key pod.name) rows) ≡ ok old)
      (named : old.name ≡ pod.name) (p : putting.name ≡ pod.name) (d : deleting.name ≡ pod.name)
      (body : putting.read_entity pod_kind ≡ ok pod) (valid : v.struct_pod pod ≡ true) where
    met :
        together
          (true ∷ false ∷ false ∷ true ∷ [])
          (serve_calls (map_storage c) v put_pod putting)
          (serve_calls (map_storage c) v delete_pod deleting)
          rows
        ≡ (
          returns (write_response status_ok (some (pod_entity pod))),
          returns (write_response status_no_content none),
          insert (Pods.generate_key pod.name) t.encoded (remove (Pods.generate_key pod.name) rows),
        )
    unfolding together serve_calls PodHandler.update_pod PodHandler.delete_pod Pods.get_pod
        Pods.update_pod Pods.delete_pod ApiPod.validate put_row attribute
    met = ground (arith, t.encodes, same_refl PodHandler.pod_attribute_key, same_refl pod.name)

    put_then_delete :
        lookup
          (Pods.generate_key pod.name)
          (serve_all (map_storage c) v ((put_pod, putting) ∷ (delete_pod, deleting) ∷ []) rows).1
        ≡ none
    unfolding serve_all serve PodHandler.load_pod_into_request PodHandler.update_pod
        PodHandler.delete_pod Pods.get_pod Pods.update_pod Pods.delete_pod ApiPod.validate put_row
        attribute decode_row
    put_then_delete = ground (
      arith,
      t.encodes,
      t.decodes,
      same_refl PodHandler.pod_attribute_key,
      same_refl pod.name,
      same_refl (Pods.generate_key pod.name),
      lookup-insert (Pods.generate_key pod.name) (Pods.generate_key pod.name) t.encoded rows,
      lookup-remove (Pods.generate_key pod.name) (Pods.generate_key pod.name)
          (insert (Pods.generate_key pod.name) t.encoded rows),
    )

    delete_then_put :
        lookup
          (Pods.generate_key pod.name)
          (serve_all (map_storage c) v ((delete_pod, deleting) ∷ (put_pod, putting) ∷ []) rows).1
        ≡ none
    unfolding serve_all serve PodHandler.load_pod_into_request PodHandler.update_pod
        PodHandler.delete_pod Pods.get_pod Pods.update_pod Pods.delete_pod ApiPod.validate put_row
        attribute decode_row
    delete_then_put = ground (
      arith,
      same_refl PodHandler.pod_attribute_key,
      same_refl pod.name,
      same_refl (Pods.generate_key pod.name),
      lookup-remove (Pods.generate_key pod.name) (Pods.generate_key pod.name) rows,
    )

  -- A PUT and a DELETE of one pod, where the pod is there and the body of the PUT is a valid pod that the
  -- codec takes there and back. If both load the pod before either changes it and the PUT stores after the
  -- DELETE, the DELETE answers 204 and the PUT 200, and the pod is there as the PUT has it; served one
  -- after the other, in either order, they leave no pod of the name.
  pub put_pod-delete_pod :
      (old pod : Pod) (t : RoundTrips c pod_kind pod) (putting deleting : Request)
      → decode_row c pod_kind (lookup (Pods.generate_key pod.name) rows) ≡ ok old
      → old.name ≡ pod.name
      → putting.name ≡ pod.name
      → deleting.name ≡ pod.name
      → putting.read_entity pod_kind ≡ ok pod
      → v.struct_pod pod ≡ true
      → (together
            (true ∷ false ∷ false ∷ true ∷ [])
            (serve_calls (map_storage c) v put_pod putting)
            (serve_calls (map_storage c) v delete_pod deleting)
            rows
          ≡ (
            returns (write_response status_ok (some (pod_entity pod))),
            returns (write_response status_no_content none),
            insert
                (Pods.generate_key pod.name)
                t.encoded
                (remove (Pods.generate_key pod.name) rows),
          ))
        × (lookup
              (Pods.generate_key pod.name)
              (serve_all
                (map_storage c)
                v
                ((put_pod, putting) ∷ (delete_pod, deleting) ∷ [])
                rows).1
            ≡ none)
        × (lookup
              (Pods.generate_key pod.name)
              (serve_all
                (map_storage c)
                v
                ((delete_pod, deleting) ∷ (put_pod, putting) ∷ [])
                rows).1
            ≡ none)
  put_pod-delete_pod old pod t putting deleting stored named p d body valid = (
    met old pod t putting deleting stored named p d body valid,
    put_then_delete old pod t putting deleting stored named p d body valid,
    delete_then_put old pod t putting deleting stored named p d body valid,
  )
