-- ===== src/Tests/Routing.antt =====
-- The theorems on routes and on the kubelet's registration at the fixtures, with a router that takes
-- the match with the most literal elements.
use mathlib.Core.List.{Memᴰ}
use gokube_workshop_day.Prelude.{
  ◌≡◌, ◌≢◌, ◌↔◌, ℕ, drop, true, refl, arith, ◌≤◌, none, some, List, [], ◌∷◌, ◌++◌, same, Text,
  codes, leb, if◌then◌else◌, All, ap, length, Option, Bool, true, false,
}
use gokube_workshop_day.Go.{Go, Error, Result, ok, err, err_node_not_found}
use gokube_workshop_day.Api.Types.{
  Node, node_not_ready, Kind, Obj, node_kind, pod_kind, replica_set_kind,
}
use gokube_workshop_day.Storage.Rows.{decode_row, lookup}
use gokube_workshop_day.Storage.Etcd.{etcd_storage}
use gokube_workshop_day.Registry.Node as Nodes
use gokube_workshop_day.Registry.Path.{join}
use gokube_workshop_day.Commands.{main_kubelet, blocked, exited}
use gokube_workshop_day.Commands.Registration.{Delivers, main_kubelet_iff, main_kubelet_restarted}
use gokube_workshop_day.Handlers.Http.{Request, Response}
use gokube_workshop_day.Api.Validation.{tag_validator}
use gokube_workshop_day.Server.{Route, get_pod, serve}
use gokube_workshop_day.Server.Router.{
  Router, RouterLaws, Candidate, candidates, Container, dispatch, elements_of,
}
use gokube_workshop_day.Server.Dispatch.{path_of, addressed, dispatch-serve}
use gokube_workshop_day.Tests.Fixtures.{
  codec, store, row, node_of, web_rows, Memory, memory, memory-Laws, empty_memory, worker,
  worker-RoundTrips,
}

abbrev best_of : Candidate → List Candidate → Candidate
best_of c [] = c
best_of c (d ∷ cs) =
    let best = best_of d cs in if leb best.literal_elements c.literal_elements then c else best

abbrev chosen : List Candidate → Option (Route × List (Text × Text))
chosen [] = none
chosen (c ∷ cs) = let best = best_of c cs in some (best.route, best.parameters)

abbrev pub router : Router
router = record { select = λ table method path. chosen (candidates table method path) }

abbrev IsBest : Candidate → List Candidate → Type 0
IsBest best cs =
    Memᴰ best cs × All (λ (d : Candidate). d.literal_elements ≤ best.literal_elements) cs

below_best :
    (b c : Candidate) (cs : List Candidate)
    → b.literal_elements ≤ c.literal_elements
    → All (λ (d : Candidate). d.literal_elements ≤ b.literal_elements) cs
    → All (λ (d : Candidate). d.literal_elements ≤ c.literal_elements) cs
below_best b c [] h all = tt
below_best b c (d ∷ cs) h all = (omega arith, below_best b c cs h all.1)

better-IsBest :
    (first : Bool) (c best : Candidate) (cs : List Candidate)
    → leb best.literal_elements c.literal_elements ≡ first
    → IsBest best cs
    → IsBest (if first then c else best) (c ∷ cs)
better-IsBest true c best cs e (there, most) =
    (Memᴰ.head refl, (omega arith, below_best best c cs (ground arith) most))
better-IsBest false c best cs e (there, most) = (Memᴰ.tail there, (ground arith, most))

best_of-IsBest : (c : Candidate) (cs : List Candidate) → IsBest (best_of c cs) (c ∷ cs)
best_of-IsBest c [] = (Memᴰ.head refl, (omega arith, tt))
best_of-IsBest c (d ∷ cs) = better-IsBest _ c (best_of d cs) (d ∷ cs) refl (best_of-IsBest d cs)

pub router-Laws : RouterLaws router
router-Laws = record {
  none_law = λ table method path e. rw e;
  best_law = λ table method path c cs e.
      (best_of c cs, (best_of-IsBest c cs).0, (best_of-IsBest c cs).1, rw e);
}

abbrev bodiless : Request
bodiless = record { name = []; node_name = []; read_entity = λ k. err []; attributes = [] }

dispatch-serve_example :
    dispatch router store tag_validator
      (codes "GET")
      (path_of get_pod (codes "web-1"))
      bodiless
      web_rows
    ≡ (
      some
          (serve store tag_validator get_pod
            (addressed get_pod (codes "web-1") bodiless)
            web_rows).0,
      (serve store tag_validator get_pod (addressed get_pod (codes "web-1") bodiless) web_rows).1,
    )
dispatch-serve_example =
    dispatch-serve router router-Laws store tag_validator get_pod (codes "web-1") bodiless web_rows
      (λ pod e. ground (arith, ap (λ (t : Text). length t) e))

abbrev address : Text
address = codes "localhost:8080"

abbrev own_body : (k : Kind) → Result (Obj k)
own_body node_kind = ok worker
own_body pod_kind = err []
own_body replica_set_kind = err []

abbrev own_request : Request
own_request = record { name = []; node_name = []; read_entity = own_body; attributes = [] }

abbrev container : Container Memory
container = dispatch router (etcd_storage memory codec) tag_validator

abbrev status_back : Option Response → Option ℕ
status_back none = none
status_back (some response) = some response.status

-- The network between one kubelet and one API server.
abbrev post : Text → Node → Go Memory (Option ℕ)
post url node m =
    let answer = container (codes "POST") (elements_of (drop 21 url)) own_request m in
    (status_back answer.0, answer.1)

post-Delivers : Delivers post container address worker
post-Delivers = record { request = own_request; body = refl; posted = λ path m response e. rw e }

main_kubelet_iff_example :
    ((main_kubelet true post (some (codes "worker", address)) empty_memory).0 ≡ blocked) ↔ (
      ((e : Error) × ((Nodes.get_node store (codes "worker") []).0 ≡ err e))
      × (tag_validator.struct_node worker ≡ true)
      × (codec.encode node_kind worker ≢ none))
main_kubelet_iff_example =
    main_kubelet_iff memory-Laws codec tag_validator router-Laws post address (codes "worker")
      post-Delivers empty_memory refl

first_start : (main_kubelet true post (some (codes "worker", address)) empty_memory).0 ≡ blocked
unfolding Nodes.get_node decode_row lookup
first_start =
    (main_kubelet_iff memory-Laws codec tag_validator router-Laws post address (codes "worker")
        post-Delivers empty_memory refl).1
      ((err_node_not_found ∷ [], refl), refl, λ e. cc)

abbrev after_start : Memory
after_start = (main_kubelet true post (some (codes "worker", address)) empty_memory).1

-- The node is not ready since, and there are a pod and a ReplicaSet.
abbrev tired : Node
tired = node_of (codes "worker") node_not_ready

abbrev later_memory : Memory
later_memory = record {
  table = web_rows ++ row node_kind (codes "/registry/nodes/worker") tired;
  faults = 0;
}

still_there : (Nodes.get_node store (codes "worker") later_memory.table).0 ≡ ok tired
unfolding Nodes.get_node Nodes.generate_key join decode_row lookup same
still_there = refl

main_kubelet_restarted_example :
    ((Nodes.get_node store (codes "worker") after_start.table).0 ≡ ok worker)
    × (memory-Laws.up after_start ≡ true)
    × ((main_kubelet true post (some (codes "worker", address)) later_memory).0 ≡ exited 1)
    × ((main_kubelet true post (some (codes "worker", address)) later_memory).1.table
        ≡ later_memory.table)
main_kubelet_restarted_example =
    main_kubelet_restarted memory-Laws codec tag_validator router-Laws post address (codes "worker")
      post-Delivers empty_memory later_memory tired worker-RoundTrips refl first_start refl
      still_there
