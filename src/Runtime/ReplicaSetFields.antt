-- ===== src/Runtime/ReplicaSetFields.antt =====
-- A ReplicaSet that was encoded is decoded again as it was.
use gokube_workshop_day.Prelude.{
  ◌≡◌, ◌∙◌, refl, ap, true, Option, none, some, List, [], ◌∷◌, Text, codes, same,
}
use gokube_workshop_day.Api.Types.{
  ObjectMeta, PodSpec, ReplicaSetStatus, ReplicaSet, replica_set_kind,
}
use gokube_workshop_day.Storage.Rows.{insert}
use gokube_workshop_day.Runtime.Json.{Json, number, no_fields, Fields, JsonText, JsonTextLaws}
use gokube_workshop_day.Runtime.Encode.{
  optional, is_zero, entries_into, map_fields, encode_map, encode_status, template_json,
  replica_set_json,
}
use gokube_workshop_day.Runtime.Decode.{
  first_named, resolve, read_fields, read_meta, read_template, read_map, read_spec, read_status,
  read_entries, is_int32, status_table, zero_object, decode_object,
}
use gokube_workshop_day.Runtime.Fields.{read_field, read_optional, is_zero_pos, pod_spec_read}

-- A map as a decoder leaves it: nil, or the entries in the order of their keys.
abbrev pub IsCanonical : Option (List (Text × Text)) → Type 0
IsCanonical none = Unit
IsCanonical (some m) = entries_into [] m ≡ m

-- The numbers are of type int32, and the selector is a map.
pub record Fits (r : ReplicaSet) : Type 0 where
  pub selector : IsCanonical r.spec.selector
  pub replicas : is_int32 r.spec.replicas ≡ true
  pub template : is_int32 r.spec.template.spec.replicas ≡ true
  pub status_replicas : is_int32 r.status.replicas ≡ true
  pub labeled : is_int32 r.status.fully_labeled_replicas ≡ true
  pub ready : is_int32 r.status.ready_replicas ≡ true
  pub available : is_int32 r.status.available_replicas ≡ true

entries_read :
    (es m : List (Text × Text)) → read_entries (map_fields es) m ≡ some (entries_into m es)
unfolding read_entries map_fields entries_into
entries_read [] m = refl
entries_read ((k, v) ∷ es) m = entries_read es (insert k v m)

map_read : (m : Option (List (Text × Text))) → IsCanonical m → read_map (encode_map m) none ≡ some m
map_read none h = refl
map_read (some m) h = rw (entries_read (entries_into [] m) [], h, h) refl

module _ {text : JsonText} (laws : JsonTextLaws text) where
  abbrev zero : ReplicaSet
  zero = zero_object replica_set_kind

  status_read :
      (s : ReplicaSetStatus)
      → is_int32 s.replicas ≡ true
      → is_int32 s.fully_labeled_replicas ≡ true
      → is_int32 s.ready_replicas ≡ true
      → is_int32 s.available_replicas ≡ true
      → read_status text (encode_status s) zero.status ≡ some s
  unfolding read_status read_fields resolve first_named same
  status_read s h0 h1 h2 h3 =
      let f3 : Fields =
        optional (codes "availableReplicas") (is_zero s.available_replicas)
          (number s.available_replicas) no_fields in
      let f2 : Fields =
        optional (codes "readyReplicas") (is_zero s.ready_replicas) (number s.ready_replicas) f3 in
      let f1 : Fields =
        optional (codes "fullyLabeledReplicas") (is_zero s.fully_labeled_replicas)
          (number s.fully_labeled_replicas) f2 in
      let a0 : ReplicaSetStatus = record zero.status { replicas = s.replicas } in
      let a1 : ReplicaSetStatus = record a0 { fully_labeled_replicas = s.fully_labeled_replicas } in
      let a2 : ReplicaSetStatus = record a1 { ready_replicas = s.ready_replicas } in
      read_field laws (status_table text) (codes "replicas") (number s.replicas) f1 zero.status a0
        refl (rw h0 refl)
      ∙ read_optional laws (status_table text) (codes "fullyLabeledReplicas")
          (is_zero s.fully_labeled_replicas) (number s.fully_labeled_replicas) f2 a0 a1 refl
          (λ e.
            ap (λ n. record a0 { fully_labeled_replicas = n })
              (is_zero_pos laws s.fully_labeled_replicas e))
          (rw h1 refl)
      ∙ read_optional laws (status_table text) (codes "readyReplicas") (is_zero s.ready_replicas)
          (number s.ready_replicas) f3 a1 a2 refl
          (λ e. ap (λ n. record a1 { ready_replicas = n }) (is_zero_pos laws s.ready_replicas e))
          (rw h2 refl)
      ∙ read_optional laws (status_table text) (codes "availableReplicas")
          (is_zero s.available_replicas) (number s.available_replicas) no_fields a2 s refl
          (λ e.
            ap (λ n. record a2 { available_replicas = n })
              (is_zero_pos laws s.available_replicas e))
          (rw h3 refl)

  template_read :
      (m : ObjectMeta) (spec : PodSpec) (meta : Json)
      → is_int32 spec.replicas ≡ true
      → read_meta text meta zero.object_meta ≡ some m
      → read_template text
          (template_json text (record { object_meta = m; spec = spec }) meta)
          zero.spec.template
        ≡ some (record { object_meta = m; spec = spec })
  unfolding read_template read_fields resolve first_named same
  template_read m spec meta int32 h =
      rw (h, pod_spec_read laws spec.containers spec.replicas int32) refl

  pub replica_set_read :
      (r : ReplicaSet) (meta template_meta : Json)
      → Fits r
      → read_meta text meta zero.object_meta ≡ some r.object_meta
      → read_meta text template_meta zero.object_meta ≡ some r.spec.template.object_meta
      → decode_object text replica_set_kind
          (replica_set_json text r meta (template_json text r.spec.template template_meta))
        ≡ some r
  unfolding decode_object read_fields read_spec resolve first_named same
  replica_set_read r meta template_meta fits h h' =
      rw
        (
          h,
          fits.replicas,
          map_read r.spec.selector fits.selector,
          template_read r.spec.template.object_meta r.spec.template.spec template_meta fits.template
              h',
          status_read r.status fits.status_replicas fits.labeled fits.ready fits.available,
        )
        refl
