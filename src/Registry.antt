-- ===== src/Registry.antt =====
-- pkg/registry: the registries of nodes, pods and ReplicaSets over the interface `Storage`.
-- `Registry/Path` is what they use of Go's package path. In these three files calls run
-- one after another; `Registry/Locked` has the mutexes, `Registry/Race` the registry without one.
pub mod Path
pub mod Node
pub mod Pod
pub mod ReplicaSet
pub mod Simulation
pub mod Rules
pub mod Steps
pub mod Locked
pub mod Race
pub mod RoundTrip
pub mod Outcomes
pub mod Listing
pub mod Unlisted
pub mod Collisions
pub mod Failures
pub mod Keeps
