-- ===== src/Kubelet/Docker.antt =====
-- The calls that the kubelet makes of the Docker client, which is third-party code, and what Docker
-- documents of the containers that it has.
use mathlib.Core.List.{Memᴰ}
use gokube_workshop_day.Prelude.{
  ◌≡◌, ℤ, Bool, true, false, not, List, ◌∷◌, map, Option, some, Text, codes, same, if◌then◌else◌,
  keep, any, All, has_prefix,
}
use gokube_workshop_day.Go.{Go}

-- A container of a list, with its labels.
pub record Summary : Type 0 where
  pub id : Text
  pub labels : List (Text × Text)
  pub state : Text

-- What an inspection returns: the state, an error that `client.IsErrNotFound` recognises, or another.
pub data Inspection : Type 0 where
  inspected : Bool → ℤ → Inspection
  missing failed : Inspection

-- What a pull returns: an error of the call, an error while its output is read, or none.
pub data Pull : Type 0 where
  refused broken pulled : Pull

-- A call that returns `false` or `none` returned an error.
pub record Docker (S : Type 0) : Type 0 where
  pub image_pull : Text → Go S Pull
  pub container_create : Text → List (Text × Text) → Text → Go S (Option Text)
  pub container_start : Text → Go S Bool
  pub container_list : Bool → Go S (Option (List Summary))
  pub container_inspect : Text → Go S Inspection
  pub container_remove : Text → Go S Bool

abbrev pub created : Text
created = codes "created"

abbrev pub running : Text
running = codes "running"

abbrev pub new_container : Text → List (Text × Text) → Text → Summary
new_container id labels state = record { id = id; labels = labels; state = state }

-- What a start does to the container of an id.
abbrev pub started : Text → Summary → Summary
started id c = if same c.id id then new_container c.id c.labels running else c

-- What the calls do to the containers, the newest first, where they return no error. `is_listed` are
-- the states that a list without `All` shows.
pub record DockerLaws {S : Type 0} (docker : Docker S) : Type 0 where
  pub containers : S → List Summary
  pub is_listed : Text → Bool
  pub running_listed : is_listed running ≡ true
  pub list_all_law :
      (s : S) (cs : List Summary) → (docker.container_list true s).0 ≡ some cs → cs ≡ containers s
  pub list_law :
      (s : S) (cs : List Summary)
      → (docker.container_list false s).0 ≡ some cs
      → cs ≡ keep (λ c. is_listed c.state) (containers s)
  pub list_keeps :
      (everything : Bool) (s : S) → containers (docker.container_list everything s).1 ≡ containers s
  pub pull_keeps : (image : Text) (s : S) → containers (docker.image_pull image s).1 ≡ containers s
  pub create_law :
      (image : Text) (labels : List (Text × Text)) (name : Text) (s : S) (id : Text)
      → (docker.container_create image labels name s).0 ≡ some id
      → (containers (docker.container_create image labels name s).1
          ≡ new_container id labels created ∷ containers s)
        × All (λ c. same c.id id ≡ false) (containers s)
  pub start_law :
      (id : Text) (s : S)
      → (docker.container_start id s).0 ≡ true
      → containers (docker.container_start id s).1 ≡ map (started id) (containers s)
  pub remove_law :
      (id : Text) (s : S)
      → (docker.container_remove id s).0 ≡ true
      → containers (docker.container_remove id s).1 ≡ keep (λ c. not (same c.id id)) (containers s)
  pub remove_missing_law :
      (id : Text) (s : S)
      → any (λ c. same c.id id) (containers s) ≡ false
      → containers (docker.container_remove id s).1 ≡ containers s

-- No two containers have one id.
abbrev pub IdsUnique : List Summary → Type 0
IdsUnique cs = (c d : Summary) → Memᴰ c cs → Memᴰ d cs → c.id ≡ d.id → c ≡ d

-- `ContainerInspect` takes a container's name, its id or the beginning of its id, and finds no other.
pub record InspectionLaws {S : Type 0} (docker : Docker S) : Type 0 where
  pub names : S → List Text
  pub ids : S → List Text
  pub missing_law :
      (asked : Text) (s : S)
      → (Memᴰ asked (names s) → ⊥)
      → All (λ id. has_prefix id asked ≡ false) (ids s)
      → (docker.container_inspect asked s).0 ≡ missing
