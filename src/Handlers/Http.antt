-- ===== src/Handlers/Http.antt =====
-- What the handlers use of github.com/emicklei/go-restful, and pkg/api/response.go. A failure to
-- write a response is only logged, and is left out.
use gokube_workshop_day.Prelude.{ℕ, Option, none, some, List, [], ◌∷◌, Text, same, if◌then◌else◌}
use gokube_workshop_day.Go.{Error, Result, Go}
use gokube_workshop_day.Api.Types.{Node, Pod, ReplicaSet, Kind, Obj}

pub data Attribute : Type 0 where
  node_attribute : Node → Attribute
  pod_attribute : Pod → Attribute
  replica_set_attribute : ReplicaSet → Attribute

-- `name` is the path parameter of that name, `node_name` the query parameter `nodeName`,
-- `read_entity` the body decoded at a type.
pub record Request : Type 0 where
  pub name : Text
  pub node_name : Text
  pub read_entity : (k : Kind) → Result (Obj k)
  pub attributes : List (Text × Attribute)

unfoldable pub attribute : Text → List (Text × Attribute) → Option Attribute
unfolding same
attribute key [] = none
attribute key ((k, a) ∷ rest) = if same k key then some a else attribute key rest

-- `req.SetAttribute(key, a)`
abbrev pub set_attribute : Text → Attribute → Request → Request
set_attribute key a req = record req { attributes = (key, a) ∷ req.attributes }

-- `request.Attribute(key).(*api.Node)`, and so on
abbrev pub as_node : Option Attribute → Option Node
as_node (some (node_attribute n)) = some n
as_node _ = none

abbrev pub as_pod : Option Attribute → Option Pod
as_pod (some (pod_attribute p)) = some p
as_pod _ = none

abbrev pub as_replica_set : Option Attribute → Option ReplicaSet
as_replica_set (some (replica_set_attribute r)) = some r
as_replica_set _ = none

pub data Entity : Type 0 where
  node_entity : Node → Entity
  node_list : List Node → Entity
  pod_entity : Pod → Entity
  pod_list : List Pod → Entity
  replica_set_entity : ReplicaSet → Entity
  replica_set_list : List ReplicaSet → Entity

pub data Body : Type 0 where
  no_body : Body
  error_body : Error → Body
  entity_body : Entity → Body

pub record Response : Type 0 where
  pub status : ℕ
  pub body : Body

-- `api.WriteResponse`
abbrev pub write_response : ℕ → Option Entity → Response
write_response status none = record { status = status; body = no_body }
write_response status (some entity) = record { status = status; body = entity_body entity }

-- `api.WriteError`
abbrev pub write_error : ℕ → Error → Response
write_error status e = record { status = status; body = error_body e }

abbrev pub status_ok : ℕ
status_ok = 200

abbrev pub status_created : ℕ
status_created = 201

abbrev pub status_no_content : ℕ
status_no_content = 204

abbrev pub status_bad_request : ℕ
status_bad_request = 400

abbrev pub status_not_found : ℕ
status_not_found = 404

abbrev pub status_conflict : ℕ
status_conflict = 409

abbrev pub status_internal_server_error : ℕ
status_internal_server_error = 500

abbrev pub Handler : Type 0 → Type 0
Handler S = Request → Go S Response

-- What a handler does with an attribute: the value, or the response that it is missing.
module _ {S A : Type 0} where
  abbrev pub on_attribute : Option A → (A → Go S Response) → Go S Response
  on_attribute (some a) f s = f a s
  on_attribute none f s = (write_error status_internal_server_error [], s)
