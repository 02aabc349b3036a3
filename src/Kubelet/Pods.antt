-- ===== src/Kubelet/Pods.antt =====
-- The pods that a kubelet knows, and how it learns of them (pkg/kubelet/kubelet.go). The map `pods`
-- is a list of its entries.
use gokube_workshop_day.Prelude.{
  ℕ, Bool, false, List, [], ◌∷◌, ◌++◌, codes, Option, none, some, Text, same, ◌==◌, if◌then◌else◌,
}
use gokube_workshop_day.Go.{Result, ok, err, Go, pure, ◌>>=◌}
use gokube_workshop_day.Api.Types.{Pod, Node, node_ready}
use gokube_workshop_day.Handlers.Http.{status_created}

pub record Kubelet : Type 0 where
  pub node_name : Text
  pub api_server_url : Text
  pub pods : List (Text × Pod)

-- `k.pods[name]`
unfoldable pub pod_named : Text → List (Text × Pod) → Option Pod
pod_named name [] = none
pod_named name ((key, pod) ∷ pods) = if same key name then some pod else pod_named name pods

-- `runNewPods`: the kubelet afterwards, and the pods for which it starts a goroutine, in order.
unfoldable pub run_new_pods : List Pod → Kubelet → Kubelet × List Pod
run_new_pods [] k = (k, [])
run_new_pods (pod ∷ rest) k =
    let known = run_new_pods rest k in
    let (k', started) = run_new_pods rest (record k { pods = (pod.name, pod) ∷ k.pods }) in
    elim (pod_named pod.name k.pods) [ some old ↦ known | none ↦ (k', pod ∷ started) ]

-- `getPodAssignments`, which is not implemented
unfoldable pub get_pod_assignments : Kubelet → Result (List Pod)
get_pod_assignments k = ok []

abbrev pub watched : Result (List Pod) → Kubelet → Kubelet × List Pod
watched (ok pods) k = run_new_pods pods k
watched (err e) k = (k, [])

-- One round of the loop of `watchPods`.
unfoldable pub watch_round : Kubelet → Kubelet × List Pod
unfolding run_new_pods get_pod_assignments
watch_round k = watched (get_pod_assignments k) k

-- The loop of `watchPods`, over what `getPodAssignments` returns in its rounds: the pods started in
-- all of them.
unfoldable pub watch_all : List (Result (List Pod)) → Kubelet → Kubelet × List Pod
watch_all [] k = (k, [])
watch_all (assigned ∷ rounds) k =
    let (k', now) = watched assigned k in
    let (k'', later) = watch_all rounds k' in (k'', now ++ later)

-- The node that `registerNode` posts.
abbrev pub registration : Kubelet → Node
registration k = record {
  object_meta = record {
    name = k.node_name;
    namespace = [];
    uid = [];
    resource_version = [];
    creation_timestamp = 0;
  };
  spec = record { unschedulable = false; provider_id = [] };
  status = node_ready;
}

abbrev registered : Option ℕ → Result (Unit {0})
registered none = err []
registered (some code) = if code == status_created then ok tt else err []

-- `registerNode`; `post` sends a node to a URL and has the status code of the response.
unfoldable pub register_node :
    {S : Type 0} → (Text → Node → Go S (Option ℕ)) → Kubelet → Go S (Result (Unit {0}))
register_node post k = do
  code ← post (codes "http://" ++ k.api_server_url ++ codes "/api/v1/nodes") (registration k)
  pure (registered code)

-- `NewKubelet`, given whether a Docker client could be made.
unfoldable pub new_kubelet : Bool → Text → Text → Result Kubelet
new_kubelet docker_client node_name api_server_url =
    if docker_client
    then ok (record { node_name = node_name; api_server_url = api_server_url; pods = [] })
    else err []

-- `GetNodeName`
unfoldable pub get_node_name : Kubelet → Text
get_node_name k = k.node_name

-- The goroutines that a kubelet runs.
pub data Loop : Type 0 where
  watch_pods update_pod_statuses : Loop

abbrev loops : Result (Unit {0}) → Result (List Loop)
loops (ok u) = ok (watch_pods ∷ update_pod_statuses ∷ [])
loops (err e) = err e

-- `Start`: the goroutines that it starts, once the node is registered. The error wraps that of
-- `registerNode`.
unfoldable pub start :
    {S : Type 0} → (Text → Node → Go S (Option ℕ)) → Kubelet → Go S (Result (List Loop))
unfolding register_node
start post k = do registered_node ← register_node post k; pure (loops registered_node)
