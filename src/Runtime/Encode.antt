-- ===== src/Runtime/Encode.antt =====
-- `runtime.Encode`: `json.Marshal` by the tags of the structs of pkg/api. A field tagged `omitempty` is
-- left out where it is empty; the tag has no effect on a struct.
use gokube_workshop_day.Prelude.{
  ℤ, pos, zero, Bool, true, false, Option, none, some, List, [], ◌∷◌, Text, codes, if◌then◌else◌,
  not,
}
use gokube_workshop_day.Api.Types.{
  Container, ObjectMeta, NodeSpec, Node, PodSpec, Pod, PodTemplateSpec, ReplicaSetStatus,
  ReplicaSet, Kind, Obj, node_kind, pod_kind, replica_set_kind,
}
use gokube_workshop_day.Api.Validation.{is_set}
use gokube_workshop_day.Storage.Rows.{insert}
use gokube_workshop_day.Runtime.Json.{
  Json, null, boolean, number, string, array, object, Items, no_items, item, Fields, no_fields,
  field, JsonText,
}

-- A field with `omitempty`.
abbrev pub optional : Text → Bool → Json → Fields → Fields
optional key is_empty j rest = if is_empty then rest else field key j rest

abbrev pub is_empty : Text → Bool
is_empty s = not (is_set s)

abbrev pub is_zero : ℤ → Bool
is_zero (pos zero) = true
is_zero _ = false

-- The entries of a map in the order of their keys, with one entry for each key.
unfoldable pub entries_into : List (Text × Text) → List (Text × Text) → List (Text × Text)
entries_into m [] = m
entries_into m ((k, v) ∷ rest) = entries_into (insert k v m) rest

unfoldable pub map_fields : List (Text × Text) → Fields
map_fields [] = no_fields
map_fields ((k, v) ∷ entries) = field k (string v) (map_fields entries)

abbrev pub encode_map : Option (List (Text × Text)) → Json
encode_map none = null
encode_map (some m) = object (map_fields (entries_into [] m))

unfoldable pub container_items : List Container → Items
container_items [] = no_items
container_items (c ∷ cs) =
    item
      (object
        (field (codes "name") (string c.name) (field (codes "image") (string c.image) no_fields)))
      (container_items cs)

abbrev pub encode_containers : Option (List Container) → Json
encode_containers none = null
encode_containers (some cs) = array (container_items cs)

abbrev pub encode_pod_spec : PodSpec → Json
encode_pod_spec s = object (
    field (codes "containers") (encode_containers s.containers)
      (field (codes "replicas") (number s.replicas) no_fields))

abbrev pub encode_node_spec : NodeSpec → Json
encode_node_spec s = object (
    optional (codes "unschedulable") (not s.unschedulable) (boolean s.unschedulable)
      (optional (codes "providerID") (is_empty s.provider_id) (string s.provider_id) no_fields))

abbrev pub encode_status : ReplicaSetStatus → Json
encode_status s = object (
    field (codes "replicas") (number s.replicas) (
      optional (codes "fullyLabeledReplicas") (is_zero s.fully_labeled_replicas)
        (number s.fully_labeled_replicas)
        (optional (codes "readyReplicas") (is_zero s.ready_replicas) (number s.ready_replicas) (
          optional (codes "availableReplicas") (is_zero s.available_replicas)
            (number s.available_replicas) no_fields))))

abbrev pub meta_fields : ObjectMeta → Text → Fields
meta_fields m time = field (codes "name") (string m.name) (
    optional (codes "namespace") (is_empty m.namespace) (string m.namespace) (
      optional (codes "uid") (is_empty m.uid) (string m.uid) (
        optional (codes "resourceVersion") (is_empty m.resource_version) (string m.resource_version)
          (field (codes "creationTimestamp") (string time) no_fields))))

module _ (text : JsonText) where
  -- An error is that of a time that has no text.
  unfoldable pub encode_meta : ObjectMeta → Option Json
  encode_meta m = elim (text.format_time m.creation_timestamp) [
    | none ↦ none
    | some time ↦ some (object (meta_fields m time))
  ]

  abbrev pub node_json : Node → Json → Json
  node_json n meta = object (
      field (codes "metadata") meta (
        field (codes "spec") (encode_node_spec n.spec)
          (optional (codes "status") (is_empty n.status) (string n.status) no_fields)))

  abbrev pub pod_json : Pod → Json → Json
  pod_json p meta = object (
      field (codes "metadata") meta (
        field (codes "spec") (encode_pod_spec p.spec) (
          optional (codes "nodeName") (is_empty p.node_name) (string p.node_name)
            (field (codes "status") (string p.status) no_fields))))

  abbrev pub template_json : PodTemplateSpec → Json → Json
  template_json t meta =
      object
        (field (codes "metadata") meta (field (codes "spec") (encode_pod_spec t.spec) no_fields))

  abbrev pub replica_set_json : ReplicaSet → Json → Json → Json
  replica_set_json r meta template = object (
      field (codes "metadata") meta (
        field (codes "spec")
          (object (
            field (codes "replicas") (number r.spec.replicas) (
              field (codes "selector") (encode_map r.spec.selector)
                (field (codes "template") template no_fields))))
          (field (codes "status") (encode_status r.status) no_fields)))

  unfoldable pub encode_object : (k : Kind) → Obj k → Option Json
  unfolding encode_meta
  encode_object node_kind n = elim (encode_meta n.object_meta) [
    | none ↦ none
    | some meta ↦ some (node_json n meta)
  ]
  encode_object pod_kind p = elim (encode_meta p.object_meta) [
    | none ↦ none
    | some meta ↦ some (pod_json p meta)
  ]
  encode_object replica_set_kind r = elim (encode_meta r.object_meta) [
    | none ↦ none
    | some meta ↦ elim (encode_meta r.spec.template.object_meta) [
      | none ↦ none
      | some template_meta ↦
          some (replica_set_json r meta (template_json r.spec.template template_meta))
    ]
  ]
