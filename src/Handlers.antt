-- ===== src/Handlers.antt =====
-- pkg/api/handlers: the HTTP handlers of nodes, pods and ReplicaSets. `Handlers/Http` is what they
-- see of a request and write as a response.
pub mod Http
pub mod Node
pub mod Pod
pub mod ReplicaSet
