-- ===== src/Api/Validation.antt =====
-- `validator.Struct` of github.com/go-playground/validator, on the two types that the program
-- validates. `ValidatorLaws` is its documented reading of the `validate` tags of those structs:
-- `required` refuses an empty string and a nil slice, `dive` goes to the elements, and nested
-- structs are entered.
use gokube_workshop_day.Prelude.{
  Bool, true, false, ◌&&◌, ◌≡◌, refl, Option, none, some, List, [], ◌∷◌, Text, all, is_natural,
}
use gokube_workshop_day.Api.Types.{Container, Node, Pod}

-- `true` where the call returns no error.
pub record Validator : Type 0 where
  pub struct_node : Node → Bool
  pub struct_pod : Pod → Bool

abbrev pub is_set : Text → Bool
is_set [] = false
is_set (c ∷ s) = true

abbrev pub container_tags : Container → Bool
container_tags c = is_set c.name && is_set c.image

abbrev pub containers_tags : Option (List Container) → Bool
containers_tags none = false
containers_tags (some cs) = all container_tags cs

abbrev pub pod_tags : Pod → Bool
pod_tags p = is_set p.name && containers_tags p.spec.containers && is_natural p.spec.replicas

pub record ValidatorLaws (v : Validator) : Type 0 where
  pub node_law : (n : Node) → v.struct_node n ≡ is_set n.name
  pub pod_law : (p : Pod) → v.struct_pod p ≡ pod_tags p

-- A validator that does what the tags say.
abbrev pub tag_validator : Validator
tag_validator = record { struct_node = λ n. is_set n.name; struct_pod = pod_tags }

pub tag_validator-Laws : ValidatorLaws tag_validator
tag_validator-Laws = record { node_law = λ n. refl; pod_law = λ p. refl }
