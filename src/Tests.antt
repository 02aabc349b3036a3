-- ===== src/Tests.antt =====
-- The theorems at concrete inputs. `Tests/Fixtures` has the objects, a codec, an etcd and a Docker
-- that runs.
mod Fixtures
mod JsonText
mod Commands
mod Runtime
mod Concurrent
mod Storage
mod Registry
mod Server
mod Cluster
mod Routing
mod Names
mod Controller
mod Kubelet
pub mod Daemon
