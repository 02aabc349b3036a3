-- ===== src/Registry/Rules.antt =====
-- Reading back from the ordered map, for the proofs about the registries.
use gokube_workshop_day.Prelude.{◌≡◌, ◌≢◌, none, some, arith, Text, same_refl, same_iff}
use gokube_workshop_day.Api.Types.{Kind, Obj}
use gokube_workshop_day.Storage.Interface.{Codec}
use gokube_workshop_day.Storage.Rows.{Rows, lookup, insert, remove, lookup-insert, lookup-remove}

-- The object is encoded, and decoded again as it was.
pub record RoundTrips (c : Codec) (k : Kind) (obj : Obj k) : Type 0 where
  pub encoded : Text
  pub encodes : c.encode k obj ≡ some encoded
  pub decodes : c.decode k encoded ≡ some obj

-- The rows of every other key are as they were.
abbrev pub SameElsewhere : Text → Rows → Rows → Type 0
SameElsewhere key rows rows' = (j : Text) → j ≢ key → lookup j rows' ≡ lookup j rows

pub insert-lookup : (k v : Text) (rows : Rows) → lookup k (insert k v rows) ≡ some v
insert-lookup k v rows = rw lookup-insert (rw same_refl)

pub remove-lookup : (k : Text) (rows : Rows) → lookup k (remove k rows) ≡ none
remove-lookup k rows = rw lookup-remove (rw same_refl)

pub insert-SameElsewhere : (key v : Text) (rows : Rows) → SameElsewhere key rows (insert key v rows)
insert-SameElsewhere key v rows j h = ground (arith, lookup-insert key j v rows, same_iff key j)

pub remove-SameElsewhere : (key : Text) (rows : Rows) → SameElsewhere key rows (remove key rows)
remove-SameElsewhere key rows j h = ground (arith, lookup-remove key j rows, same_iff key j)
