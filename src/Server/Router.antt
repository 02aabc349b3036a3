-- ===== src/Server/Router.antt =====
-- The routes in go-restful's container (pkg/api/server/server.go). Which route a request takes is
-- decided by go-restful, which is third-party code: `Router` is that call, and `RouterLaws` what its
-- documentation says of it. A path is the list of its elements. A request carries and accepts JSON.
use mathlib.Core.List.{Memᴰ}
use gokube_workshop_day.Prelude.{
  ℕ, suc, ◌≡◌, ◌≤◌, Bool, false, not, Option, none, some, List, [], ◌∷◌, ◌++◌, Text, codes, same,
  ◌==◌, if◌then◌else◌, drop, keep, All,
}
use gokube_workshop_day.Go.{Result, Go, pure, ◌>>=◌}
use gokube_workshop_day.Api.Validation.{Validator}
use gokube_workshop_day.Storage.Interface.{Storage}
use gokube_workshop_day.Registry.Path.{split_slash}
use gokube_workshop_day.Handlers.Http.{Request, Response}
use gokube_workshop_day.Server.{Route, registered_routes, serve}

-- The elements of a path that is written as a text.
unfoldable pub elements_of : Text → List Text
unfolding split_slash keep same
elements_of path = keep (λ part. not (same part [])) (split_slash path)

-- `{name}` in a route's path
abbrev pub is_parameter : Text → Bool
is_parameter [] = false
is_parameter (c ∷ s) = c == b'{'

abbrev pub parameter_name : Text → Text
parameter_name part = keep (λ c. not (c == b'}')) (drop 1 part)

abbrev pub cons_parameter : Text × Text → Option (List (Text × Text)) → Option (List (Text × Text))
cons_parameter p none = none
cons_parameter p (some ps) = some (p ∷ ps)

-- A path matches a route's path element by element, and gives its parameters their values.
unfoldable pub match_elements : List Text → List Text → Option (List (Text × Text))
unfolding same keep
match_elements [] [] = some []
match_elements [] (e ∷ path) = none
match_elements (p ∷ pattern_) [] = none
match_elements (p ∷ pattern_) (e ∷ path) =
    let rest = match_elements pattern_ path in
    if is_parameter p
    then cons_parameter (parameter_name p, e) rest
    else if same p e
    then rest
    else none

unfoldable pub literals : List Text → ℕ
literals [] = 0
literals (p ∷ pattern_) = let n = literals pattern_ in if is_parameter p then n else suc n

-- A route of the request's method whose path matches, with the number of its literal elements.
pub record Candidate : Type 0 where
  pub route : Route
  pub parameters : List (Text × Text)
  pub literal_elements : ℕ

abbrev candidate : Route → ℕ → Option (List (Text × Text)) → List Candidate → List Candidate
candidate route n none rest = rest
candidate route n (some parameters) rest =
    record { route = route; parameters = parameters; literal_elements = n } ∷ rest

unfoldable pub candidates : List (Text × Text × Route) → Text → List Text → List Candidate
unfolding elements_of match_elements literals same
candidates [] method path = []
candidates ((m, p, route) ∷ table) method path =
    let rest = candidates table method path in
    if same m method
    then candidate route (literals (elements_of p)) (match_elements (elements_of p) path) rest
    else rest

-- The route that is taken with the values of its path parameters, or an error response.
pub record Router : Type 0 where
  pub select : List (Text × Text × Route) → Text → List Text → Option (Route × List (Text × Text))

-- Without a match go-restful answers an error itself. Among several matches it takes one with the
-- most literal elements.
pub record RouterLaws (router : Router) : Type 0 where
  pub none_law :
      (table : List (Text × Text × Route)) (method : Text) (path : List Text)
      → candidates table method path ≡ []
      → router.select table method path ≡ none
  pub best_law :
      (table : List (Text × Text × Route)) (method : Text) (path : List Text) (c : Candidate)
      (cs : List Candidate)
      → candidates table method path ≡ c ∷ cs
      → (best : Candidate) × Memᴰ best (c ∷ cs)
        × All (λ d. d.literal_elements ≤ best.literal_elements) (c ∷ cs)
        × (router.select table method path ≡ some (best.route, best.parameters))

-- `ws.Path("/api/v1")`
abbrev pub root_path : Text
root_path = codes "/api/v1"

abbrev under_root : List (Text × Text × Route) → List (Text × Text × Route)
under_root [] = []
under_root ((method, path, route) ∷ table) = (method, root_path ++ path, route) ∷ under_root table

-- `registerRoutes`: the routes of the container.
unfoldable pub container_routes : List (Text × Text × Route)
container_routes = under_root registered_routes

-- `request.PathParameter("name")`, the empty string if the route has no such parameter
unfoldable pub path_parameter : Text → List (Text × Text) → Text
unfolding same
path_parameter key [] = []
path_parameter key ((k, v) ∷ ps) = if same k key then v else path_parameter key ps

abbrev pub with_parameters : List (Text × Text) → Request → Request
with_parameters ps req = record req { name = path_parameter (codes "name") ps }

-- What the container does with a method, a path and the rest of a request; `none` is an error
-- response of go-restful's own.
abbrev pub Container : Type 0 → Type 0
Container S = Text → List Text → Request → Go S (Option Response)

module _ {S : Type 0} (router : Router) (st : Storage S) (v : Validator) where
  abbrev pub answer : Option (Route × List (Text × Text)) → Request → Go S (Option Response)
  answer none req = pure none
  answer (some (route, ps)) req = do
    response ← serve st v route (with_parameters ps req)
    pure (some response)

  unfoldable pub dispatch : Container S
  dispatch method path req = answer (router.select container_routes method path) req

-- `NewAPIServer` and `Start`: the registries share the one storage, and the container is served at
-- the address by `net/http`, whose call is `listen_and_serve`.
unfoldable pub start :
    {S : Type 0}
    → (Text → Container S → Go S (Result (Unit {0})))
    → Router
    → Storage S
    → Validator
    → Text
    → Go S (Result (Unit {0}))
start listen_and_serve router st v address = listen_and_serve address (dispatch router st v)
