-- ===== src/Runtime/Decode.antt =====
-- `runtime.Decode` into a fresh object: `json.Unmarshal` by the tags of the structs of pkg/api. A key
-- is taken for the field of exactly that name, or else of that name but for case; other keys are
-- skipped, and null leaves a field as it is. That a slice which is named twice in one object is
-- merged with its first value is not modelled.
use gokube_workshop_day.Prelude.{
  ℕ, ◌+◌, ◌^◌, leb, ℤ, pos, negsuc, Bool, false, Option, none, some, List, [], ◌∷◌, Text, codes,
  same, if◌then◌else◌,
}
use gokube_workshop_day.Api.Types.{
  Container, ObjectMeta, NodeSpec, Node, PodSpec, Pod, PodTemplateSpec, ReplicaSetSpec,
  ReplicaSetStatus, ReplicaSet, Kind, Obj, node_kind, pod_kind, replica_set_kind,
}
use gokube_workshop_day.Storage.Rows.{insert}
use gokube_workshop_day.Runtime.Json.{
  Json, null, boolean, number, string, array, object, Items, no_items, item, Fields, no_fields,
  field, JsonText,
}

infixl 5 ◌>>=◌
abbrev ◌>>=◌ {ℓ κ} : {A : Type ℓ} {B : Type κ} → Option A → (A → Option B) → Option B
none >>= f = none
some a >>= f = f a

-- A struct's fields: the name in the tag, and how a value is read into the field.
abbrev pub Table {ℓ} : Type ℓ → Type ℓ
Table A = List (Text × (Json → A → Option A))

-- The first field whose name passes a test.
unfoldable pub first_named {ℓ} :
    {A : Type ℓ} → (Text → Bool) → Table A → Option (Json → A → Option A)
first_named test [] = none
first_named test ((name, set) ∷ table) =
    let later = first_named test table in if test name then some set else later

-- `[-2^31, 2^31)`
abbrev pub is_int32 : ℤ → Bool
is_int32 (pos n) = leb (n + 1) (2 ^ 31)
is_int32 (negsuc n) = leb (n + 1) (2 ^ 31)

abbrev pub read_text : Json → Text → Option Text
read_text null old = some old
read_text (string s) old = some s
read_text _ old = none

abbrev pub read_bool : Json → Bool → Option Bool
read_bool null old = some old
read_bool (boolean b) old = some b
read_bool _ old = none

abbrev pub read_int32 : Json → ℤ → Option ℤ
read_int32 null old = some old
read_int32 (number n) old = if is_int32 n then some n else none
read_int32 _ old = none

unfoldable pub read_entries : Fields → List (Text × Text) → Option (List (Text × Text))
read_entries no_fields m = some m
read_entries (field k j fields) m = read_text j [] >>= λ v. read_entries fields (insert k v m)

-- Into a nil map, a new map is made first.
abbrev pub entries_of : Option (List (Text × Text)) → List (Text × Text)
entries_of none = []
entries_of (some m) = m

abbrev pub read_map : Json → Option (List (Text × Text)) → Option (Option (List (Text × Text)))
read_map null old = some none
read_map (object fields) old = read_entries fields (entries_of old) >>= λ m. some (some m)
read_map _ old = none

abbrev zero_meta : ObjectMeta
zero_meta = record {
  name = [];
  namespace = [];
  uid = [];
  resource_version = [];
  creation_timestamp = 0;
}

abbrev zero_pod_spec : PodSpec
zero_pod_spec = record { containers = none; replicas = pos 0 }

-- The object that `new` makes.
abbrev pub zero_object : (k : Kind) → Obj k
zero_object node_kind = record {
  object_meta = zero_meta;
  spec = record { unschedulable = false; provider_id = [] };
  status = [];
}
zero_object pod_kind = record {
  object_meta = zero_meta;
  spec = zero_pod_spec;
  node_name = [];
  status = [];
}
zero_object replica_set_kind = record {
  object_meta = zero_meta;
  spec = record {
    replicas = pos 0;
    selector = none;
    template = record { object_meta = zero_meta; spec = zero_pod_spec };
  };
  status = record {
    replicas = pos 0;
    fully_labeled_replicas = pos 0;
    ready_replicas = pos 0;
    available_replicas = pos 0;
  };
}

module _ (text : JsonText) where
  -- The field that a key names.
  unfoldable pub resolve {ℓ} : {A : Type ℓ} → Table A → Text → Option (Json → A → Option A)
  unfolding first_named
  resolve table key = elim (first_named (λ name. same key name) table) [
    | some set ↦ some set
    | none ↦ first_named (λ name. text.folds key name) table
  ]

  -- The keys of a JSON object, one after another, into a struct.
  unfoldable pub read_fields {ℓ} : {A : Type ℓ} → Table A → Fields → A → Option A
  read_fields table no_fields a = some a
  read_fields {A} table (field k j fields) a =
      let next : A → Option A = λ b. read_fields table fields b in
      elim (resolve table k) [ none ↦ next a | some set ↦ (set j a >>= next) ]

  abbrev pub read_struct {ℓ} : {A : Type ℓ} → Table A → Json → A → Option A
  read_struct table null a = some a
  read_struct table (object fields) a = read_fields table fields a
  read_struct table _ a = none

  abbrev pub read_time : Json → ℕ → Option ℕ
  read_time null old = some old
  read_time (string s) old = text.parse_time s
  read_time _ old = none

  abbrev pub meta_table : Table ObjectMeta
  meta_table =
      (codes "name", λ j m. read_text j m.name >>= λ s. some (record m { name = s }))
      ∷ (
        codes "namespace",
        λ j m. read_text j m.namespace >>= λ s. some (record m { namespace = s }),
      )
      ∷ (codes "uid", λ j m. read_text j m.uid >>= λ s. some (record m { uid = s }))
      ∷ (
        codes "resourceVersion",
        λ j m. read_text j m.resource_version >>= λ s. some (record m { resource_version = s }),
      )
      ∷ (
        codes "creationTimestamp",
        λ j m. read_time j m.creation_timestamp >>= λ t. some (record m { creation_timestamp = t }),
      )
      ∷ []

  unfoldable pub read_meta : Json → ObjectMeta → Option ObjectMeta
  unfolding read_fields
  read_meta j m = read_struct meta_table j m

  abbrev pub container_table : Table Container
  container_table =
      (codes "name", λ j c. read_text j c.name >>= λ s. some (record c { name = s }))
      ∷ (codes "image", λ j c. read_text j c.image >>= λ s. some (record c { image = s }))
      ∷ []

  unfoldable pub read_items : Items → Option (List Container)
  unfolding read_fields
  read_items no_items = some []
  read_items (item j items) =
      read_struct container_table j (record { name = []; image = [] }) >>= λ c.
      read_items items >>= λ cs. some (c ∷ cs)

  abbrev pub read_containers : Json → Option (List Container) → Option (Option (List Container))
  read_containers null old = some none
  read_containers (array items) old = read_items items >>= λ cs. some (some cs)
  read_containers _ old = none

  abbrev pub pod_spec_table : Table PodSpec
  pod_spec_table =
      (
        codes "containers",
        λ j s. read_containers j s.containers >>= λ cs. some (record s { containers = cs }),
      )
      ∷ (codes "replicas", λ j s. read_int32 j s.replicas >>= λ n. some (record s { replicas = n }))
      ∷ []

  unfoldable pub read_pod_spec : Json → PodSpec → Option PodSpec
  unfolding read_fields read_items
  read_pod_spec j s = read_struct pod_spec_table j s

  abbrev pub node_spec_table : Table NodeSpec
  node_spec_table =
      (
        codes "unschedulable",
        λ j s. read_bool j s.unschedulable >>= λ b. some (record s { unschedulable = b }),
      )
      ∷ (
        codes "providerID",
        λ j s. read_text j s.provider_id >>= λ t. some (record s { provider_id = t }),
      )
      ∷ []

  unfoldable pub read_node_spec : Json → NodeSpec → Option NodeSpec
  unfolding read_fields
  read_node_spec j s = read_struct node_spec_table j s

  abbrev pub node_table : Table Node
  node_table =
      (
        codes "metadata",
        λ j n. read_meta j n.object_meta >>= λ m. some (record n { object_meta = m }),
      )
      ∷ (codes "spec", λ j n. read_node_spec j n.spec >>= λ s. some (record n { spec = s }))
      ∷ (codes "status", λ j n. read_text j n.status >>= λ s. some (record n { status = s }))
      ∷ []

  abbrev pub pod_table : Table Pod
  pod_table =
      (
        codes "metadata",
        λ j p. read_meta j p.object_meta >>= λ m. some (record p { object_meta = m }),
      )
      ∷ (codes "spec", λ j p. read_pod_spec j p.spec >>= λ s. some (record p { spec = s }))
      ∷ (
        codes "nodeName",
        λ j p. read_text j p.node_name >>= λ s. some (record p { node_name = s }),
      )
      ∷ (codes "status", λ j p. read_text j p.status >>= λ s. some (record p { status = s }))
      ∷ []

  abbrev pub template_table : Table PodTemplateSpec
  template_table =
      (
        codes "metadata",
        λ j t. read_meta j t.object_meta >>= λ m. some (record t { object_meta = m }),
      )
      ∷ (codes "spec", λ j t. read_pod_spec j t.spec >>= λ s. some (record t { spec = s }))
      ∷ []

  unfoldable pub read_template : Json → PodTemplateSpec → Option PodTemplateSpec
  unfolding read_fields read_meta read_pod_spec
  read_template j t = read_struct template_table j t

  abbrev pub spec_table : Table ReplicaSetSpec
  spec_table =
      (codes "replicas", λ j s. read_int32 j s.replicas >>= λ n. some (record s { replicas = n }))
      ∷ (codes "selector", λ j s. read_map j s.selector >>= λ m. some (record s { selector = m }))
      ∷ (
        codes "template",
        λ j s. read_template j s.template >>= λ t. some (record s { template = t }),
      )
      ∷ []

  unfoldable pub read_spec : Json → ReplicaSetSpec → Option ReplicaSetSpec
  unfolding read_fields read_template
  read_spec j s = read_struct spec_table j s

  abbrev pub status_table : Table ReplicaSetStatus
  status_table =
      (codes "replicas", λ j s. read_int32 j s.replicas >>= λ n. some (record s { replicas = n }))
      ∷ (
        codes "fullyLabeledReplicas",
        λ j s. read_int32 j s.fully_labeled_replicas >>= λ n.
            some (record s { fully_labeled_replicas = n }),
      )
      ∷ (
        codes "readyReplicas",
        λ j s. read_int32 j s.ready_replicas >>= λ n. some (record s { ready_replicas = n }),
      )
      ∷ (
        codes "availableReplicas",
        λ j s.
            read_int32 j s.available_replicas >>= λ n. some (record s { available_replicas = n }),
      )
      ∷ []

  unfoldable pub read_status : Json → ReplicaSetStatus → Option ReplicaSetStatus
  unfolding read_fields
  read_status j s = read_struct status_table j s

  abbrev pub replica_set_table : Table ReplicaSet
  replica_set_table =
      (
        codes "metadata",
        λ j r. read_meta j r.object_meta >>= λ m. some (record r { object_meta = m }),
      )
      ∷ (codes "spec", λ j r. read_spec j r.spec >>= λ s. some (record r { spec = s }))
      ∷ (codes "status", λ j r. read_status j r.status >>= λ s. some (record r { status = s }))
      ∷ []

  unfoldable pub decode_object : (k : Kind) → Json → Option (Obj k)
  unfolding read_fields read_meta read_node_spec read_pod_spec read_spec read_status
  decode_object node_kind j = read_struct node_table j (zero_object node_kind)
  decode_object pod_kind j = read_struct pod_table j (zero_object pod_kind)
  decode_object replica_set_kind j = read_struct replica_set_table j (zero_object replica_set_kind)
