-- ===== src/Runtime/Fields.antt =====
-- The fields of nodes and pods that were encoded are decoded again as they were.
use gokube_workshop_day.Prelude.{
  ℕ, ℤ, pos, ◌≡◌, refl, ap, true, false, Bool, Option, none, some, List, [], ◌∷◌, Text, same, arith,
}
use gokube_workshop_day.Api.Types.{Container, ObjectMeta, NodeSpec, PodSpec, node_kind, pod_kind}
use gokube_workshop_day.Runtime.Json.{Json, object, Fields, field, JsonText, JsonTextLaws}
use gokube_workshop_day.Runtime.Encode.{
  optional, is_zero, container_items, encode_pod_spec, encode_node_spec, meta_fields, node_json,
  pod_json,
}
use gokube_workshop_day.Runtime.Decode.{
  Table, first_named, resolve, read_fields, read_meta, read_items, read_pod_spec, read_node_spec,
  is_int32, zero_object, decode_object,
}

module _ {text : JsonText} (laws : JsonTextLaws text) where
  module _ {A : Type 0} (table : Table A) where
    pub read_field :
        (k : Text) (j : Json) (rest : Fields) {set : Json → A → Option A} (a b : A)
        → resolve text table k ≡ some set
        → set j a ≡ some b
        → read_fields text table (field k j rest) a ≡ read_fields text table rest b
    unfolding read_fields
    read_field k j rest a b found h = cc

    pub read_optional :
        (k : Text) (e : Bool) (j : Json) (rest : Fields) {set : Json → A → Option A} (a b : A)
        → resolve text table k ≡ some set
        → (e ≡ true → a ≡ b)
        → set j a ≡ some b
        → read_fields text table (optional k e j rest) a ≡ read_fields text table rest b
    read_optional k true j rest a b found left h =
        ap (λ x. read_fields text table rest x) (left refl)
    read_optional k false j rest a b found left h = read_field k j rest a b found h

  pub is_zero_pos : (n : ℤ) → is_zero n ≡ true → pos 0 ≡ n
  is_zero_pos n h = ground arith

  pub meta_read :
      (name namespace uid resource_version time : Text) (t : ℕ)
      → text.parse_time time ≡ some t
      → read_meta text
          (object (
            meta_fields
              (record {
                name = name;
                namespace = namespace;
                uid = uid;
                resource_version = resource_version;
                creation_timestamp = t;
              })
              time))
          (zero_object node_kind).object_meta
        ≡ some (record {
          name = name;
          namespace = namespace;
          uid = uid;
          resource_version = resource_version;
          creation_timestamp = t;
        })
  unfolding read_meta read_fields resolve first_named same
  meta_read name [] [] [] time t timed = rw timed refl
  meta_read name [] [] (c ∷ s) time t timed = rw timed refl
  meta_read name [] (c ∷ s) [] time t timed = rw timed refl
  meta_read name [] (c ∷ s) (d ∷ u) time t timed = rw timed refl
  meta_read name (c ∷ s) [] [] time t timed = rw timed refl
  meta_read name (c ∷ s) [] (d ∷ u) time t timed = rw timed refl
  meta_read name (c ∷ s) (d ∷ u) [] time t timed = rw timed refl
  meta_read name (c ∷ s) (d ∷ u) (e ∷ v) time t timed = rw timed refl

  node_spec_read :
      (unschedulable : Bool) (provider_id : Text)
      → read_node_spec text
          (encode_node_spec (record { unschedulable = unschedulable; provider_id = provider_id }))
          (zero_object node_kind).spec
        ≡ some (record { unschedulable = unschedulable; provider_id = provider_id })
  unfolding read_node_spec read_fields resolve first_named same
  node_spec_read true [] = refl
  node_spec_read true (c ∷ s) = refl
  node_spec_read false [] = refl
  node_spec_read false (c ∷ s) = refl

  pub node_read :
      (m : ObjectMeta) (spec : NodeSpec) (status : Text) (meta : Json)
      → read_meta text meta (zero_object node_kind).object_meta ≡ some m
      → decode_object text node_kind
          (node_json text (record { object_meta = m; spec = spec; status = status }) meta)
        ≡ some (record { object_meta = m; spec = spec; status = status })
  unfolding decode_object read_fields resolve first_named same
  node_read m spec [] meta h = rw (h, node_spec_read spec.unschedulable spec.provider_id) refl
  node_read m spec (c ∷ s) meta h = rw (h, node_spec_read spec.unschedulable spec.provider_id) refl

  containers_read : (cs : List Container) → read_items text (container_items cs) ≡ some cs
  unfolding read_items container_items read_fields resolve first_named same
  containers_read [] = refl
  containers_read (c ∷ cs) = rw (containers_read cs) refl

  pub pod_spec_read :
      (containers : Option (List Container)) (replicas : ℤ)
      → is_int32 replicas ≡ true
      → read_pod_spec text
          (encode_pod_spec (record { containers = containers; replicas = replicas }))
          (zero_object pod_kind).spec
        ≡ some (record { containers = containers; replicas = replicas })
  unfolding read_pod_spec read_fields resolve first_named same
  pod_spec_read none n h = rw h refl
  pod_spec_read (some cs) n h = rw (containers_read cs, h) refl

  pub pod_read :
      (m : ObjectMeta) (spec : PodSpec) (node_name status : Text) (meta : Json)
      → is_int32 spec.replicas ≡ true
      → read_meta text meta (zero_object node_kind).object_meta ≡ some m
      → decode_object text pod_kind (
          pod_json text
            (record { object_meta = m; spec = spec; node_name = node_name; status = status })
            meta)
        ≡ some (record { object_meta = m; spec = spec; node_name = node_name; status = status })
  unfolding decode_object read_fields resolve first_named same
  pod_read m spec [] status meta int32 h =
      rw (h, pod_spec_read spec.containers spec.replicas int32) refl
  pod_read m spec (c ∷ s) status meta int32 h =
      rw (h, pod_spec_read spec.containers spec.replicas int32) refl
