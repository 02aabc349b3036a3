-- ===== src/Server/Dispatch.antt =====
-- Which requests reach which handler (pkg/api/server/server.go and the route tables of
-- pkg/api/handlers).
use mathlib.Core.List.{Memᴰ}
use gokube_workshop_day.Prelude.{
  ℕ, ◌≡◌, ◌≢◌, refl, arith, Bool, true, false, some, List, [], ◌∷◌, Text, codes, same, same_iff,
  Bool-cases, inl, inr, ◌≤◌, ◌<◌, sym, ap, ◌∙◌, if◌then◌else◌,
}
use gokube_workshop_day.Api.Validation.{Validator}
use gokube_workshop_day.Storage.Interface.{Storage}
use gokube_workshop_day.Handlers.Http.{Request}
use gokube_workshop_day.Server.{
  Route, get_healthz, post_pods, get_pods, get_pod, put_pod, delete_pod, get_pods_unassigned,
  post_nodes, get_nodes, get_node, put_node, delete_node, post_replicasets, get_replicasets,
  get_replicaset, put_replicaset, delete_replicaset, serve,
}
use gokube_workshop_day.Server.Router.{
  Router, RouterLaws, Candidate, candidates, container_routes, path_parameter, with_parameters,
  answer, dispatch,
}

-- The API: the method and the path of each operation, on the object of a name where it has one.
abbrev pub method_of : Route → Text
method_of get_healthz = codes "GET"
method_of post_pods = codes "POST"
method_of get_pods = codes "GET"
method_of get_pod = codes "GET"
method_of put_pod = codes "PUT"
method_of delete_pod = codes "DELETE"
method_of get_pods_unassigned = codes "GET"
method_of post_nodes = codes "POST"
method_of get_nodes = codes "GET"
method_of get_node = codes "GET"
method_of put_node = codes "PUT"
method_of delete_node = codes "DELETE"
method_of post_replicasets = codes "POST"
method_of get_replicasets = codes "GET"
method_of get_replicaset = codes "GET"
method_of put_replicaset = codes "PUT"
method_of delete_replicaset = codes "DELETE"

abbrev below : Text → List Text → List Text
below collection rest = codes "api" ∷ codes "v1" ∷ collection ∷ rest

abbrev pub path_of : Route → Text → List Text
path_of get_healthz name = below (codes "healthz") []
path_of post_pods name = below (codes "pods") []
path_of get_pods name = below (codes "pods") []
path_of get_pod name = below (codes "pods") (name ∷ [])
path_of put_pod name = below (codes "pods") (name ∷ [])
path_of delete_pod name = below (codes "pods") (name ∷ [])
path_of get_pods_unassigned name = below (codes "pods") (codes "unassigned" ∷ [])
path_of post_nodes name = below (codes "nodes") []
path_of get_nodes name = below (codes "nodes") []
path_of get_node name = below (codes "nodes") (name ∷ [])
path_of put_node name = below (codes "nodes") (name ∷ [])
path_of delete_node name = below (codes "nodes") (name ∷ [])
path_of post_replicasets name = below (codes "replicasets") []
path_of get_replicasets name = below (codes "replicasets") []
path_of get_replicaset name = below (codes "replicasets") (name ∷ [])
path_of put_replicaset name = below (codes "replicasets") (name ∷ [])
path_of delete_replicaset name = below (codes "replicasets") (name ∷ [])

-- The operations on the object of a name.
abbrev pub is_named : Route → Bool
is_named get_pod = true
is_named put_pod = true
is_named delete_pod = true
is_named get_node = true
is_named put_node = true
is_named delete_node = true
is_named get_replicaset = true
is_named put_replicaset = true
is_named delete_replicaset = true
is_named _ = false

abbrev parameters_of : Route → Text → List (Text × Text)
parameters_of route name = if is_named route then (codes "name", name) ∷ [] else []

not_reserved : (name : Text) → name ≢ codes "unassigned" → same (codes "unassigned") name ≡ false
not_reserved name h = elim (Bool-cases (same (codes "unassigned") name)) [
  | inl e ↦ absurd (h (sym ((same_iff (codes "unassigned") name).0 e)))
  | inr e ↦ e
]

abbrev matched : Route → Text → ℕ → Candidate
matched route name n = record {
  route = route;
  parameters = parameters_of route name;
  literal_elements = n;
}

-- The request with the name in its path.
abbrev pub addressed : Route → Text → Request → Request
addressed route name req = record req { name = if is_named route then name else [] }

with_parameters-addressed :
    (route : Route) (name : Text) (req : Request)
    → with_parameters (parameters_of route name) req ≡ addressed route name req
unfolding path_parameter
with_parameters-addressed route name req = elim (Bool-cases (is_named route)) [
  | inl e ↦ rw e
  | inr e ↦ rw e
]

module _ (router : Router) (laws : RouterLaws router) where
  -- The only match is taken.
  only_match :
      (table : List (Text × Text × Route)) (method : Text) (path : List Text) (c : Candidate)
      → candidates table method path ≡ c ∷ []
      → router.select table method path ≡ some (c.route, c.parameters)
  only_match table method path c e =
      let (best, there, most, taken) = laws.best_law table method path c [] e in
      taken_only best there taken
    where
      taken_only :
          (best : Candidate)
          → Memᴰ best (c ∷ [])
          → router.select table method path ≡ some (best.route, best.parameters)
          → router.select table method path ≡ some (c.route, c.parameters)
      taken_only best (Memᴰ.head q) taken = rw (← q) taken
      taken_only best (Memᴰ.tail m) taken = elim m [ ]

  -- Of the two matches the one with more literal elements is taken.
  more_literal_match :
      (table : List (Text × Text × Route)) (method : Text) (path : List Text) (c d : Candidate)
      → candidates table method path ≡ c ∷ d ∷ []
      → c.literal_elements < d.literal_elements
      → router.select table method path ≡ some (d.route, d.parameters)
  more_literal_match table method path c d e less =
      let (best, there, most, taken) = laws.best_law table method path c (d ∷ []) e in
      taken_second best there most.1.0 taken
    where
      taken_second :
          (best : Candidate)
          → Memᴰ best (c ∷ d ∷ [])
          → d.literal_elements ≤ best.literal_elements
          → router.select table method path ≡ some (best.route, best.parameters)
          → router.select table method path ≡ some (d.route, d.parameters)
      taken_second best (Memᴰ.head q) most taken =
          absurd (omega (arith, ap (λ (b : Candidate). b.literal_elements) q))
      taken_second best (Memᴰ.tail (Memᴰ.head q)) most taken = rw (← q) taken
      taken_second best (Memᴰ.tail (Memᴰ.tail m)) most taken = elim m [ ]

  selected :
      (route : Route) (name : Text)
      → (route ≡ get_pod → name ≢ codes "unassigned")
      → router.select container_routes (method_of route) (path_of route name)
        ≡ some (route, parameters_of route name)
  unfolding candidates container_routes
  selected get_healthz name h = only_match _ _ _ (matched get_healthz name 3) refl
  selected post_pods name h = only_match _ _ _ (matched post_pods name 3) refl
  selected get_pods name h = only_match _ _ _ (matched get_pods name 3) refl
  selected get_pod name h =
      only_match _ _ _ (matched get_pod name 3) (rw (not_reserved name (h refl)))
  selected put_pod name h = only_match _ _ _ (matched put_pod name 3) refl
  selected delete_pod name h = only_match _ _ _ (matched delete_pod name 3) refl
  selected get_pods_unassigned name h =
      more_literal_match _ _ _ (matched get_pod (codes "unassigned") 3)
        (matched get_pods_unassigned name 4) refl (omega arith)
  selected post_nodes name h = only_match _ _ _ (matched post_nodes name 3) refl
  selected get_nodes name h = only_match _ _ _ (matched get_nodes name 3) refl
  selected get_node name h = only_match _ _ _ (matched get_node name 3) refl
  selected put_node name h = only_match _ _ _ (matched put_node name 3) refl
  selected delete_node name h = only_match _ _ _ (matched delete_node name 3) refl
  selected post_replicasets name h = only_match _ _ _ (matched post_replicasets name 3) refl
  selected get_replicasets name h = only_match _ _ _ (matched get_replicasets name 3) refl
  selected get_replicaset name h = only_match _ _ _ (matched get_replicaset name 3) refl
  selected put_replicaset name h = only_match _ _ _ (matched put_replicaset name 3) refl
  selected delete_replicaset name h = only_match _ _ _ (matched delete_replicaset name 3) refl

  -- A request for an operation of the API, on the object of a name where it has one, is answered by the
  -- handler of that operation with that name as its path parameter, but for a GET of the pod named
  -- "unassigned", which is answered with the unassigned pods.
  pub dispatch-serve :
      {S : Type 0} (st : Storage S) (v : Validator) (route : Route) (name : Text) (req : Request)
      (s : S)
      → (route ≡ get_pod → name ≢ codes "unassigned")
      → dispatch router st v (method_of route) (path_of route name) req s ≡ (
        some (serve st v route (addressed route name req) s).0,
        (serve st v route (addressed route name req) s).1,
      )
  unfolding dispatch
  dispatch-serve st v route name req s h =
      ap (λ taken. answer router st v taken req s) (selected route name h)
      ∙ ap (λ r. (some (serve st v route r s).0, (serve st v route r s).1))
          (with_parameters-addressed route name req)
