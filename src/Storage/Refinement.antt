-- ===== src/Storage/Refinement.antt =====
-- EtcdStorage keeps the promise of the interface while etcd is up.
use gokube_workshop_day.Prelude.{
  ◌≡◌, refl, sym, ap, ◌∙◌, ◌++◌, true, inl, inr, List, [], ◌∷◌, arith, Text, Option-cases,
}
use mathlib.Core.List.{append_assoc, append-nil}
use gokube_workshop_day.Go.{Result, ok, err}
use gokube_workshop_day.Go.Simulation.{Simulates}
use gokube_workshop_day.Api.Types.{Kind, Obj}
use gokube_workshop_day.Storage.Interface.{Codec, Refines}
use gokube_workshop_day.Storage.Rows.{
  Rows, under, cons_result, decode_row, decode_rows, put_row, map_storage,
}
use gokube_workshop_day.Storage.Etcd
use gokube_workshop_day.Storage.Etcd.{EtcdClient, EtcdLaws, append_kvs, etcd_storage}

-- The world is up and holds these rows.
abbrev pub Holds : {S : Type 0} {client : EtcdClient S} → EtcdLaws client → S → Rows → Type 0
Holds laws s rows = (laws.up s ≡ true) × (laws.rows s ≡ rows)

-- What the loop has appended so far stands before what the rest gives.
abbrev prepend : {A : Type 0} → List A → Result (List A) → Result (List A)
prepend objs (ok more) = ok (objs ++ more)
prepend objs (err e) = err e

prepend-cons_result :
    {A : Type 0} (objs : List A) (obj : A) (r : Result (List A))
    → prepend (objs ++ obj ∷ []) r ≡ prepend objs (cons_result obj r)
prepend-cons_result objs obj (ok more) = ap ok (append_assoc objs (obj ∷ []) more)
prepend-cons_result objs obj (err e) = refl

module _ (c : Codec) (k : Kind) where
  append_kvs-decode_rows :
      (objs : List (Obj k)) (kvs : Rows)
      → append_kvs c k objs kvs ≡ prepend objs (decode_rows c k kvs)
  unfolding append_kvs decode_rows
  append_kvs-decode_rows objs [] = ap ok (sym (append-nil objs))
  append_kvs-decode_rows objs ((key, data_) ∷ kvs) = elim (Option-cases (c.decode k data_)) [
    | inl e ↦ rw (e, append_kvs, decode_rows)
    | inr (obj, e) ↦
        rw (e, append_kvs, decode_rows)
          (append_kvs-decode_rows (objs ++ obj ∷ []) kvs
            ∙ prepend-cons_result objs obj (decode_rows c k kvs))
  ]

  listed-decode_rows : (kvs : Rows) → append_kvs c k [] kvs ≡ decode_rows c k kvs
  listed-decode_rows kvs = append_kvs-decode_rows [] kvs ∙ nothing_before (decode_rows c k kvs)
    where
      nothing_before : (r : Result (List (Obj k))) → prepend [] r ≡ r
      nothing_before (ok objs) = refl
      nothing_before (err e) = refl

module _ {S : Type 0} {client : EtcdClient S} (laws : EtcdLaws client) (c : Codec) where
  create_refines :
      (k : Kind) (key : Text) (obj : Obj k)
      → Simulates (Holds laws) (Etcd.create client c k key obj) ((map_storage c).create k key obj)
  unfolding Etcd.create put_row
  create_refines k key obj = record {
    at = λ s t h. elim (Option-cases (c.encode k obj)) [
      | inl e ↦ rw (e, Etcd.create, put_row) (refl, h)
      | inr (data_, e) ↦ rw (e, Etcd.create, put_row) (ground (arith, laws.put_law key data_ s h.0))
    ];
  }

  get_refines :
      (k : Kind) (key : Text)
      → Simulates (Holds laws) (Etcd.get client c k key) ((map_storage c).get k key)
  unfolding Etcd.get decode_row
  get_refines k key = record { at = λ s t h. ground (arith, laws.get_law key s h.0) }

  update_refines :
      (k : Kind) (key : Text) (obj : Obj k)
      → Simulates (Holds laws) (Etcd.update client c k key obj) ((map_storage c).update k key obj)
  unfolding Etcd.update put_row
  update_refines k key obj = record {
    at = λ s t h. elim (Option-cases (c.encode k obj)) [
      | inl e ↦ rw (e, Etcd.update, put_row) (refl, h)
      | inr (data_, e) ↦ rw (e, Etcd.update, put_row) (ground (arith, laws.put_law key data_ s h.0))
    ];
  }

  delete_refines :
      (key : Text) → Simulates (Holds laws) (Etcd.delete client c key) ((map_storage c).delete key)
  unfolding Etcd.delete
  delete_refines key = record { at = λ s t h. ground (arith, laws.delete_law key s h.0) }

  delete_prefix_refines :
      (p : Text)
      → Simulates (Holds laws) (Etcd.delete_prefix client c p) ((map_storage c).delete_prefix p)
  unfolding Etcd.delete_prefix
  delete_prefix_refines p = record {
    at = λ s t h. ground (arith, laws.delete_with_prefix_law p s h.0);
  }

  list_refines :
      (k : Kind) (p : Text)
      → Simulates (Holds laws) (Etcd.list client c k p) ((map_storage c).list k p)
  unfolding Etcd.list
  list_refines k p = record {
    at = λ s t h.
        ground
          (arith, laws.get_with_prefix_law p s h.0, listed-decode_rows c k (under p (laws.rows s)));
  }

  -- While etcd is up, every operation of EtcdStorage returns what the ordered map of encoded
  -- objects returns, and leaves etcd up and holding what the map then holds.
  pub etcd_storage-Refines : Refines (Holds laws) (etcd_storage client c) (map_storage c)
  etcd_storage-Refines = record {
    create = create_refines;
    get = get_refines;
    update = update_refines;
    delete = delete_refines;
    delete_prefix = delete_prefix_refines;
    list = list_refines;
  }
