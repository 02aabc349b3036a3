-- ===== src/Api/Node.antt =====
-- pkg/api/node.go
use gokube_workshop_day.Prelude.{[], ◌∷◌, if◌then◌else◌}
use gokube_workshop_day.Go.{Result, ok, err, err_invalid_node_spec}
use gokube_workshop_day.Api.Types.{Node}
use gokube_workshop_day.Api.Validation.{Validator}

-- `Node.Validate`
unfoldable pub validate : Validator → Node → Result (Unit {0})
validate v n = if v.struct_node n then ok tt else err (err_invalid_node_spec ∷ [])
