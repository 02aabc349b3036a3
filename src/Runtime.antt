-- ===== src/Runtime.antt =====
-- pkg/runtime/object.go: objects as JSON, by the tags of their structs.
pub mod Json
pub mod Encode
pub mod Decode
pub mod Codec
pub mod Fields
pub mod ReplicaSetFields
pub mod RoundTrip
