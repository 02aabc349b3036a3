-- ===== src/Server/Cluster/Represents.antt =====
-- When the ordered map of encoded objects stands for a cluster.
use mathlib.Core.List.{Memᴰ}
use mathlib.Core.Path.{subst}
use gokube_workshop_day.Prelude.{◌≡◌, refl, sym, Option, none, some, [], ◌∷◌, Text}
use gokube_workshop_day.Go.{Result, ok, err, err_not_found}
use gokube_workshop_day.Api.Types.{Kind, Obj}
use gokube_workshop_day.Storage.Interface.{Codec}
use gokube_workshop_day.Storage.Rows.{Rows, lookup, decode_row}
use gokube_workshop_day.Storage.Ordered.{Ordered}
use gokube_workshop_day.Registry.Path.{IsPlain}
use gokube_workshop_day.Registry.Rules.{RoundTrips}
use gokube_workshop_day.Handlers.Http.{Request, Response}
use gokube_workshop_day.Server.Cluster.Keys.{key_of}
use gokube_workshop_day.Server.Cluster.{Cluster, name_of}

abbrev pub found : (k : Kind) → Option (Obj k) → Result (Obj k)
found k none = err (err_not_found ∷ [])
found k (some obj) = ok obj

-- A row is that of an object in the cluster.
pub record InCluster (c : Codec) (cl : Cluster) (row : Text × Text) : Type 0 where
  pub kind : Kind
  pub name : Text
  pub obj : Obj kind
  pub plain : IsPlain name
  pub key : row.0 ≡ key_of kind name
  pub there : cl kind name ≡ some obj
  pub decodes : c.decode kind row.1 ≡ some obj

-- Under the key of each plain name is the object of that name, or none, and there are no other rows.
pub record Represents (c : Codec) (rows : Rows) (cl : Cluster) : Type 0 where
  pub held :
      (k : Kind) (name : Text)
      → IsPlain name
      → decode_row c k (lookup (key_of k name) rows) ≡ found k (cl k name)
  pub own :
      (k : Kind) (name : Text) (obj : Obj k)
      → IsPlain name
      → cl k name ≡ some obj
      → name_of k obj ≡ name
  pub ordered : Ordered rows
  pub only : (row : Text × Text) → Memᴰ row rows → InCluster c cl row

-- What the server answers and leaves is what the cluster's operation does.
abbrev pub Agrees : Codec → Response × Rows → Response × Cluster → Type 0
Agrees c x y = (x.0 ≡ y.0) × Represents c x.1 y.1

pub agrees :
    (c : Codec) (x : Response × Rows) (y : Response × Cluster) (rows : Rows) (cl : Cluster)
    → x ≡ (y.0, rows)
    → y.1 ≡ cl
    → Represents c rows cl
    → Agrees c x y
agrees c x y rows cl e e' r = rw e (refl, subst (λ (z : Cluster). Represents c rows z) (sym e') r)

-- The body, if it can be read, is an object with a plain name that the codec takes there and back.
abbrev pub BodyRoundTrips : Codec → Request → Kind → Type 0
BodyRoundTrips c req k =
    (obj : Obj k) → req.read_entity k ≡ ok obj → IsPlain (name_of k obj) × RoundTrips c k obj
