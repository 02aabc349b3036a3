-- ===== src/Lib.antt =====
-- gokube: a small Kubernetes in Go. An API server keeps nodes, pods and ReplicaSets in etcd behind
-- REST routes; a controller, a scheduler and a kubelet work on the same objects.
--
-- The program's parts and the files that model them
--
--   pkg/api                    Api/Types (structs), Api/Node and Api/Pod (methods), Api/Validation
--                              (the validator); response.go is in Handlers/Http
--   pkg/storage/storage.go     Storage/Interface: the interface as a record `Storage S` over a world
--                              `S`, one field for each method
--   pkg/storage/etcd_storage.go  Storage/Etcd: `EtcdStorage`, over an etcd client
--   pkg/storage/etcd.go        Storage/Embedded: the etcd server inside the API server's process
--   pkg/runtime                Runtime: Encode and Decode by the struct tags, over JSON values
--   pkg/registry               Registry/Node, Registry/Pod, Registry/ReplicaSet, one function for each
--                              method; Registry/Path is path.Join. Registry/Locked and Registry/Race
--                              have the storage calls of a method one by one
--   pkg/registry/names         Names
--   pkg/api/handlers           Handlers/Node, Handlers/Pod, Handlers/ReplicaSet; Handlers/Http has
--                              requests and responses
--   pkg/api/server             Server: the routes, and `serve`, the handler behind each;
--                              Server/Router: the container, and `dispatch`, the route and the
--                              parameters that a request takes
--   pkg/controller             Controller
--   pkg/scheduler              Scheduler
--   pkg/kubelet                Kubelet/Pods (the pod map), Kubelet/Containers (containers and their
--                              states), Kubelet/Status (the pod status), Kubelet/Docker (the client)
--   cmd                        Commands: the four programs, with their exit statuses
--
-- Names are those of the source in snake case. A handler calls a registry, a registry calls a
-- storage, and a storage is an argument: the same code runs over `etcd_storage` and over
-- `map_storage` of Storage/Rows, the specification, whose world is the list of keys and encoded
-- objects in the order of the keys. Storage/Refinement and Server/Simulation are about the two
-- together; the other theorems on registries and handlers are over the rows, but for those that speak
-- of etcd. Registry/Steps has the changes that a request can make as a step relation on rows,
-- Server/Steps an invariant of them, and Server/Lifecycle a sequence of requests about one node.
-- Server/Cluster is what the API server is to its clients: at most one object of each kind under a
-- name, operations on one object and lists of them. Its Represents says which rows stand for such a
-- cluster, its Refinement and Lists are about the server over rows that do. Storage/Ordered is about
-- rows in the order of their keys. Storage/Faults is an etcd of which any call can fail.
-- Commands/Registration is about a kubelet and the API server together, Kubelet/Rounds about the
-- rounds of a kubelet over what it is assigned, Kubelet/Ticks about the ticks of its pod statuses.
--
-- Effects, errors and text
--
--   A method is a function of the world that returns a result and the next world (`Go S A`). An
--   error is the chain of sentinels that `errors.Is` finds; message texts and logging are left out.
--   Goroutines that share a registry are states of Go/Mutex: each stands before, inside or behind its
--   method, and a step is a locking, one call of the storage or an unlocking. Go/Interleaving lets
--   goroutines alternate by a schedule; Server/Interleaved has the storage calls of the handler of each
--   route, and Server/Concurrent and Server/Restored requests that are handled at the same time. Text
--   is its list of bytes. log.Fatalf is an outcome of its own, a panic a missing result.
--
-- Parameters
--
--   EtcdClient with EtcdLaws: an ordered key space, as etcd documents it while it is up, and with
--   EtcdFaults where calls fail. Router with RouterLaws: go-restful's choice of a route by method and
--   path, as it documents it, and the parameters that it takes from the path. Codec: how
--   objects become bytes; a theorem that needs a round trip asks it of the object at hand, and
--   Runtime/Codec is the program's codec, over JsonText with JsonTextLaws, the text of JSON values and
--   of times. Os with OsLaws: the calls behind the embedded etcd, and the directories. Validator with
--   ValidatorLaws: the validate tags. Docker with DockerLaws and
--   InspectionLaws: the calls of the Docker client. `rng`: the results of
--   math/rand. A request's path parameter, query and decoded body are what go-restful gives.
--
-- Loops
--
--   The loop of `String` (Names) has no bound in the source; its fuel is the number of rounds, and it
--   ends as soon as the rounds have drawn the letters asked for. Every other loop runs over a list.
--   The endless loops of Start, watchPods and updatePodStatuses are given by one round or by the
--   sequence of events that their select finds.
--
-- Not modelled
--
--   Mocks and test helpers; the bytes of a JSON text; the parsing of flags.
--   Goroutines run in parallel only in Go/Mutex, Go/Interleaving and what is built on them;
--   elsewhere calls run one after another, and other processes do not interfere. CreatePod,
--   getPodAssignments, updatePodStatus, the choice of a node and the creation of pods by the
--   controller are stubs in the source, and are modelled as such, where the tests
--   (replica_set_controller_test.go, scheduler_test.go) expect pods that are created and scheduled. A request that etcd refuses for its
--   size is not: EtcdLaws takes every put as done while etcd is up.
pub mod Prelude
pub mod Go
pub mod Api
pub mod Storage
pub mod Runtime
pub mod Registry
pub mod Names
pub mod Handlers
pub mod Server
pub mod Controller
pub mod Scheduler
pub mod Kubelet
pub mod Commands
pub mod Tests
