-- ===== src/Storage/Rows.antt =====
-- The abstract store: keys in order with encoded objects, and the interface `Storage` over it.
use gokube_workshop_day.Prelude.{
  ◌≡◌, refl, not, Option, none, some, List, [], ◌∷◌, arith, Text, same, same_iff, before,
  has_prefix, keep, if◌then◌else◌,
}
use gokube_workshop_day.Go.{Result, ok, err, Go, err_encoding, err_decoding, err_not_found}
use gokube_workshop_day.Api.Types.{Kind, Obj}
use gokube_workshop_day.Storage.Interface.{Codec, Storage}

abbrev pub Rows : Type 0
Rows = List (Text × Text)

unfoldable pub lookup : Text → Rows → Option Text
lookup k [] = none
lookup k ((j, v) ∷ rows) = if same j k then some v else lookup k rows

unfoldable pub insert : Text → Text → Rows → Rows
insert k v [] = (k, v) ∷ []
insert k v ((j, w) ∷ rows) =
    let later = insert k v rows in
    if same j k
    then (k, v) ∷ rows
    else if before k j
    then (k, v) ∷ (j, w) ∷ rows
    else (j, w) ∷ later

unfoldable pub remove : Text → Rows → Rows
unfolding keep
remove k rows = keep (λ r. not (same r.0 k)) rows

unfoldable pub under : Text → Rows → Rows
unfolding keep
under p rows = keep (λ r. has_prefix r.0 p) rows

unfoldable pub remove_under : Text → Rows → Rows
unfolding keep
remove_under p rows = keep (λ r. not (has_prefix r.0 p)) rows

pub lookup-insert :
    (k j v : Text) (rows : Rows)
    → lookup j (insert k v rows) ≡ (if same k j then some v else lookup j rows)
unfolding lookup insert
lookup-insert k j v [] = refl
lookup-insert k j v ((i, w) ∷ rows) =
    ground (arith, same_iff k j, same_iff i k, same_iff i j, lookup-insert k j v rows)

pub lookup-remove :
    (k j : Text) (rows : Rows)
    → lookup j (remove k rows) ≡ (if same k j then none else lookup j rows)
unfolding lookup remove
lookup-remove k j [] = ground arith
lookup-remove k j ((i, w) ∷ rows) =
    ground (arith, same_iff k j, same_iff i k, same_iff i j, lookup-remove k j rows)

pub ruleset rows_laws = (lookup-insert, lookup-remove)

abbrev pub cons_result {ℓ} : {A : Type ℓ} → A → Result (List A) → Result (List A)
cons_result obj (ok objs) = ok (obj ∷ objs)
cons_result obj (err e) = err e

module _ (c : Codec) (k : Kind) where
  unfoldable pub decode_row : Option Text → Result (Obj k)
  decode_row none = err (err_not_found ∷ [])
  decode_row (some data_) = elim (c.decode k data_) [
    | none ↦ err (err_decoding ∷ [])
    | some obj ↦ ok obj
  ]

  -- The objects of the rows, in order, or the first failure to decode.
  unfoldable pub decode_rows : Rows → Result (List (Obj k))
  decode_rows [] = ok []
  decode_rows ((j, data_) ∷ rows) =
      let rest = decode_rows rows in
      elim (c.decode k data_) [ none ↦ err (err_decoding ∷ []) | some obj ↦ cons_result obj rest ]

  unfoldable pub put_row : Text → Obj k → Go Rows (Result (Unit {0}))
  put_row key obj rows = elim (c.encode k obj) [
    | none ↦ (err (err_encoding ∷ []), rows)
    | some data_ ↦ (ok tt, insert key data_ rows)
  ]

-- What the interface promises: an ordered map of encoded objects, whose operations never fail but
-- by the codec.
abbrev pub map_storage : Codec → Storage Rows
map_storage c = record {
  create = put_row c;
  get = λ k key rows. (decode_row c k (lookup key rows), rows);
  update = put_row c;
  delete = λ key rows. (ok tt, remove key rows);
  delete_prefix = λ p rows. (ok tt, remove_under p rows);
  list = λ k p rows. (decode_rows c k (under p rows), rows);
}
