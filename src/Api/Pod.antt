-- ===== src/Api/Pod.antt =====
-- pkg/api/pod.go
use gokube_workshop_day.Prelude.{Bool, not, ◌&&◌, [], ◌∷◌, same, has_prefix, if◌then◌else◌}
use gokube_workshop_day.Go.{Result, ok, err, err_invalid_pod_spec}
use gokube_workshop_day.Api.Types.{Pod, ObjectMeta, pod_failed}
use gokube_workshop_day.Api.Validation.{Validator}

-- `Pod.Validate`
unfoldable pub validate : Validator → Pod → Result (Unit {0})
validate v p = if v.struct_pod p then ok tt else err (err_invalid_pod_spec ∷ [])

-- `Pod.IsActive`
unfoldable pub is_active : Pod → Bool
is_active p = not (same p.status pod_failed)

-- `IsOwnedBy`
unfoldable pub is_owned_by : Pod → ObjectMeta → Bool
is_owned_by pod meta = has_prefix pod.name meta.name

-- `IsPodActiveAndOwnedBy`
unfoldable pub is_pod_active_and_owned_by : Pod → ObjectMeta → Bool
unfolding is_active is_owned_by
is_pod_active_and_owned_by pod meta = is_owned_by pod meta && is_active pod
