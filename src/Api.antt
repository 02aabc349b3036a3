-- ===== src/Api.antt =====
-- pkg/api: the API objects. `Api/Types` has types.go with the structs of pod.go and node.go,
-- `Api/Validation` what the third-party validator is taken to be, `Api/Node` and `Api/Pod` the
-- methods, `Api/Ownership` what they mean for ReplicaSets.
pub mod Types
pub mod Validation
pub mod Node
pub mod Pod
pub mod Ownership
