-- ===== src/Api/Types.antt =====
-- pkg/api/types.go and the structs of pkg/api/pod.go and pkg/api/node.go. A status is a string, and
-- decoded objects may hold any. A nil slice of containers or a nil map is `none`. A timestamp is an instant.
use gokube_workshop_day.Prelude.{ℕ, Bool, List, Option, Text, codes, ℤ}

abbrev pub PodStatus : Type 0
PodStatus = Text

abbrev pub pod_pending : PodStatus
pod_pending = codes "Pending"

abbrev pub pod_running : PodStatus
pod_running = codes "Running"

abbrev pub pod_succeeded : PodStatus
pod_succeeded = codes "Succeeded"

abbrev pub pod_failed : PodStatus
pod_failed = codes "Failed"

abbrev pub pod_scheduled : PodStatus
pod_scheduled = codes "Scheduled"

pub record Container : Type 0 where
  pub name : Text
  pub image : Text

pub record ObjectMeta : Type 0 where
  pub name : Text
  pub namespace : Text
  pub uid : Text
  pub resource_version : Text
  pub creation_timestamp : ℕ

pub record NodeSpec : Type 0 where
  pub unschedulable : Bool
  pub provider_id : Text

abbrev pub NodeStatus : Type 0
NodeStatus = Text

abbrev pub node_not_ready : NodeStatus
node_not_ready = codes "NotReady"

abbrev pub node_ready : NodeStatus
node_ready = codes "Ready"

pub record Node : Type 0 where
  pub object_meta : ObjectMeta
  pub open object_meta use *
  pub spec : NodeSpec
  pub status : NodeStatus

pub record PodSpec : Type 0 where
  pub containers : Option (List Container)
  pub replicas : ℤ

pub record Pod : Type 0 where
  pub object_meta : ObjectMeta
  pub open object_meta use *
  pub spec : PodSpec
  pub node_name : Text
  pub status : PodStatus

pub record PodTemplateSpec : Type 0 where
  pub object_meta : ObjectMeta
  pub spec : PodSpec

pub record ReplicaSetSpec : Type 0 where
  pub replicas : ℤ
  pub selector : Option (List (Text × Text))
  pub template : PodTemplateSpec

pub record ReplicaSetStatus : Type 0 where
  pub replicas : ℤ
  pub fully_labeled_replicas : ℤ
  pub ready_replicas : ℤ
  pub available_replicas : ℤ

pub record ReplicaSet : Type 0 where
  pub object_meta : ObjectMeta
  pub open object_meta use *
  pub spec : ReplicaSetSpec
  pub status : ReplicaSetStatus

-- The element type that a caller of pkg/storage passes by its target pointer.
pub data Kind : Type 0 where
  node_kind pod_kind replica_set_kind : Kind

abbrev pub Obj : Kind → Type 0
Obj node_kind = Node
Obj pod_kind = Pod
Obj replica_set_kind = ReplicaSet

-- `range pod.Spec.Containers`, where a nil slice has no element.
abbrev pub elements {ℓ} : {A : Type ℓ} → Option (List A) → List A
elements Option.none = List.[]
elements (Option.some xs) = xs
