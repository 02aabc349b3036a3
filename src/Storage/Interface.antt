-- ===== src/Storage/Interface.antt =====
-- pkg/storage/storage.go, and what pkg/runtime/object.go takes from encoding/json.
use gokube_workshop_day.Prelude.{List, Option, Text}
use gokube_workshop_day.Go.{Result, Go}
use gokube_workshop_day.Go.Simulation.{Simulates}
use gokube_workshop_day.Api.Types.{Kind, Obj}

-- `runtime.Encode` and `runtime.Decode` (into a fresh object) at each type; `none` is an error.
pub record Codec : Type 0 where
  pub encode : (k : Kind) → Obj k → Option Text
  pub decode : (k : Kind) → Text → Option (Obj k)

-- The interface `Storage`. An operation that fills a target through a pointer returns its value.
pub record Storage (S : Type 0) : Type 0 where
  pub create : (k : Kind) → Text → Obj k → Go S (Result (Unit {0}))
  pub get : (k : Kind) → Text → Go S (Result (Obj k))
  pub update : (k : Kind) → Text → Obj k → Go S (Result (Unit {0}))
  pub delete : Text → Go S (Result (Unit {0}))
  pub delete_prefix : Text → Go S (Result (Unit {0}))
  pub list : (k : Kind) → Text → Go S (Result (List (Obj k)))

-- One implementation of the interface stands for another: each operation does the same.
pub record Refines {S T : Type 0} (R : S → T → Type 0) (st : Storage S) (st' : Storage T)
    : Type 0 where
  pub create :
      (k : Kind) (key : Text) (obj : Obj k)
      → Simulates R (st.create k key obj) (st'.create k key obj)
  pub get : (k : Kind) (key : Text) → Simulates R (st.get k key) (st'.get k key)
  pub update :
      (k : Kind) (key : Text) (obj : Obj k)
      → Simulates R (st.update k key obj) (st'.update k key obj)
  pub delete : (key : Text) → Simulates R (st.delete key) (st'.delete key)
  pub delete_prefix : (p : Text) → Simulates R (st.delete_prefix p) (st'.delete_prefix p)
  pub list : (k : Kind) (p : Text) → Simulates R (st.list k p) (st'.list k p)
