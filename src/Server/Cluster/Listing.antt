-- ===== src/Server/Cluster/Listing.antt =====
-- What the lists of the API server hold, over the ordered map that represents a cluster.
use mathlib.Core.List.{Memᴰ}
use gokube_workshop_day.Prelude.{
  ◌≡◌, ◌≢◌, ◌↔◌, refl, sym, ap, ◌∙◌, arith, true, Option, none, some, List, [], ◌∷◌, Text, same_iff,
  has_prefix, mem-keep,
}
use gokube_workshop_day.Go.{ok}
use gokube_workshop_day.Api.Types.{Kind, Obj, node_kind, pod_kind, replica_set_kind}
use gokube_workshop_day.Storage.Interface.{Codec}
use gokube_workshop_day.Storage.Rows.{Rows, lookup, under, decode_row, decode_rows}
use gokube_workshop_day.Storage.Ordered.{
  Ordered, Above, Ordered-keep, Above-mem, before-ne, lookup-mem,
}
use gokube_workshop_day.Registry.Path.{IsPlain}
use gokube_workshop_day.Registry.Collisions.{node_key-IsPlain}
use gokube_workshop_day.Registry.Node as Nodes
use gokube_workshop_day.Registry.Pod as Pods
use gokube_workshop_day.Registry.ReplicaSet as ReplicaSets
use gokube_workshop_day.Registry.Listing.{decode_rows-cons, decode_rows_sound, listed_iff}
use gokube_workshop_day.Server.Cluster.{Cluster, name_of}
use gokube_workshop_day.Server.Cluster.Keys.{key_of}
use gokube_workshop_day.Server.Cluster.Represents.{Represents}

abbrev pub prefix_of : Kind → Text
prefix_of node_kind = Nodes.node_prefix
prefix_of pod_kind = Pods.pod_prefix
prefix_of replica_set_kind = ReplicaSets.replica_set_prefix

key_prefixed :
    (k : Kind) (name : Text) → IsPlain name → has_prefix (key_of k name) (prefix_of k) ≡ true
unfolding Pods.generate_key ReplicaSets.generate_key has_prefix
key_prefixed node_kind name h = rw (node_key-IsPlain name h)
key_prefixed pod_kind name h = refl
key_prefixed replica_set_kind name h = refl

-- No two of the objects have one name.
abbrev pub Distinct : (k : Kind) → List (Obj k) → Type 0
Distinct k [] = Unit
Distinct k (obj ∷ objs) =
    ((other : Obj k) → Memᴰ other objs → name_of k other ≢ name_of k obj) × Distinct k objs

module _ (c : Codec) {rows : Rows} {cl : Cluster} (r : Represents c rows cl) where
  -- An object of the cluster that a row with a key of this kind holds.
  record KeyedRow (k : Kind) (row : Text × Text) : Type 0 where
    name : Text
    obj : Obj k
    plain : IsPlain name
    key : row.0 ≡ key_of k name
    there : cl k name ≡ some obj
    decodes : c.decode k row.1 ≡ some obj

  keyed-KeyedRow :
      (k j : Kind) (row : Text × Text) (name : Text) (obj : Obj j)
      → IsPlain name
      → row.0 ≡ key_of j name
      → cl j name ≡ some obj
      → c.decode j row.1 ≡ some obj
      → has_prefix row.0 (prefix_of k) ≡ true
      → KeyedRow k row
  unfolding Pods.generate_key ReplicaSets.generate_key has_prefix
  keyed-KeyedRow node_kind node_kind row name obj h key there d e = record {
    name = name;
    obj = obj;
    plain = h;
    key = key;
    there = there;
    decodes = d;
  }
  keyed-KeyedRow node_kind pod_kind row name obj h key there d e = absurd (cc (rw key at e))
  keyed-KeyedRow node_kind replica_set_kind row name obj h key there d e = absurd (cc (rw key at e))
  keyed-KeyedRow pod_kind node_kind row name obj h key there d e =
      absurd (cc (rw (key, node_key-IsPlain name h) at e))
  keyed-KeyedRow pod_kind pod_kind row name obj h key there d e = record {
    name = name;
    obj = obj;
    plain = h;
    key = key;
    there = there;
    decodes = d;
  }
  keyed-KeyedRow pod_kind replica_set_kind row name obj h key there d e = absurd (cc (rw key at e))
  keyed-KeyedRow replica_set_kind node_kind row name obj h key there d e =
      absurd (cc (rw (key, node_key-IsPlain name h) at e))
  keyed-KeyedRow replica_set_kind pod_kind row name obj h key there d e = absurd (cc (rw key at e))
  keyed-KeyedRow replica_set_kind replica_set_kind row name obj h key there d e = record {
    name = name;
    obj = obj;
    plain = h;
    key = key;
    there = there;
    decodes = d;
  }

  row-KeyedRow :
      (k : Kind) (row : Text × Text) → Memᴰ row (under (prefix_of k) rows) → KeyedRow k row
  unfolding under
  row-KeyedRow k row m =
      let (there, prefixed) =
        (mem-keep (λ (q : Text × Text). has_prefix q.0 (prefix_of k)) rows row).0 m in
      let i = r.only row there in
      keyed-KeyedRow k i.kind row i.name i.obj i.plain i.key i.there i.decodes prefixed

  decode_rows_total :
      (k : Kind) (some_rows : Rows)
      → ((row : Text × Text) → Memᴰ row some_rows → KeyedRow k row)
      → (objs : List (Obj k)) × (decode_rows c k some_rows ≡ ok objs)
  decode_rows_total k [] h = ([], unfold decode_rows in refl)
  decode_rows_total k ((key, d) ∷ rest) h =
      let here = h (key, d) (Memᴰ.head refl) in
      let (objs, e) = decode_rows_total k rest (λ row m. h row (Memᴰ.tail m)) in
      (here.obj ∷ objs, decode_rows_next k key d rest here.obj objs here.decodes e)
    where
      decode_rows_next :
          (k : Kind) (key d : Text) (rest : Rows) (obj : Obj k) (objs : List (Obj k))
          → c.decode k d ≡ some obj
          → decode_rows c k rest ≡ ok objs
          → decode_rows c k ((key, d) ∷ rest) ≡ ok (obj ∷ objs)
      decode_rows_next k key d rest obj objs e e' = unfold decode_rows in ground arith

  own_key :
      (k : Kind) (row : Text × Text) (obj : Obj k)
      → KeyedRow k row
      → c.decode k row.1 ≡ some obj
      → row.0 ≡ key_of k (name_of k obj)
  own_key k row obj held d =
      let same_obj : held.obj ≡ obj = cc (d, held.decodes) in
      let named = r.own k held.name held.obj held.plain held.there in
      held.key ∙ ap (key_of k) (sym named ∙ ap (λ (o : Obj k). name_of k o) same_obj)

  -- Each object of a list stands under its own key.
  listed_own :
      (k : Kind) (some_rows : Rows) (objs : List (Obj k)) (obj : Obj k)
      → ((row : Text × Text) → Memᴰ row some_rows → KeyedRow k row)
      → decode_rows c k some_rows ≡ ok objs
      → Memᴰ obj objs
      → (row : Text × Text) × Memᴰ row some_rows × (row.0 ≡ key_of k (name_of k obj))
  listed_own k some_rows objs obj h e m =
      let (row, there, d) = decode_rows_sound c k some_rows objs e m in
      (row, there, own_key k row obj (h row there) d)

  one_key :
      (k : Kind) (key : Text) (rest : Rows) (row : Text × Text) (obj other : Obj k)
      → Above key rest
      → Memᴰ row rest
      → key ≡ key_of k (name_of k obj)
      → row.0 ≡ key_of k (name_of k other)
      → name_of k other ≢ name_of k obj
  one_key k key rest row obj other above m e e' q =
      let apart = before-ne key row.0 (Above-mem key rest row above m) in
      let met = (same_iff key row.0).1 (e ∙ ap (key_of k) (sym q) ∙ sym e') in cc (apart, met)

  listed-Distinct :
      (k : Kind) (some_rows : Rows) (objs : List (Obj k))
      → Ordered some_rows
      → ((row : Text × Text) → Memᴰ row some_rows → KeyedRow k row)
      → decode_rows c k some_rows ≡ ok objs
      → Distinct k objs
  listed-Distinct k [] objs o h e =
      let nothing : [] ≡ objs = unfold decode_rows in cc in rw (← nothing) tt
  listed-Distinct k ((key, d) ∷ rest) objs (above, o) h e =
      let f = decode_rows-cons c k key d rest objs e in
      let here = own_key k (key, d) f.obj (h (key, d) (Memᴰ.head refl)) f.decodes in
      rw f.joined (
        λ other m.
            let (row, there, key') =
              listed_own k rest f.rest other (λ row m. h row (Memᴰ.tail m)) f.decoded m in
            one_key k key rest row f.obj other above there here key',
        listed-Distinct k rest f.rest o (λ row m. h row (Memᴰ.tail m)) f.decoded,
      )

  decoded_row :
      (k : Kind) (found_row : Option Text) (obj : Obj k)
      → decode_row c k found_row ≡ ok obj
      → (d : Text) × (found_row ≡ some d) × (c.decode k d ≡ some obj)
  unfolding decode_row
  decoded_row k none obj e = absurd (cc e)
  decoded_row k (some d) obj e = (d, refl, ground arith)

  -- A list of one kind succeeds, holds exactly the objects of the cluster, and each once.
  pub list_of_kind :
      (k : Kind)
      → (objs : List (Obj k)) × (decode_rows c k (under (prefix_of k) rows) ≡ ok objs)
        × Distinct k objs
        × ((obj : Obj k) → Memᴰ obj objs ↔ ((name : Text) × IsPlain name × (cl k name ≡ some obj)))
  list_of_kind k =
      let (objs, e) = decode_rows_total k (under (prefix_of k) rows) (row-KeyedRow k) in
      (
        objs,
        e,
        listed-Distinct k (under (prefix_of k) rows) objs
            (unfold under in Ordered-keep _ rows r.ordered) (row-KeyedRow k) e,
        λ obj. (
          λ m.
              let (row, there, d) = decode_rows_sound c k (under (prefix_of k) rows) objs e m in
              let held = row-KeyedRow k row there in
              let same_obj : held.obj ≡ obj = cc (d, held.decodes) in
              (held.name, held.plain, held.there ∙ ap (λ (o : Obj k). some o) same_obj),
          λ (name, plain, there).
              let (d, at, decodes) =
                decoded_row k (lookup (key_of k name) rows) obj
                  (rw there at (r.held k name plain)) in
              (listed_iff c k (prefix_of k) rows objs obj e).1 (record {
                key = key_of k name;
                encoded = d;
                row = lookup-mem (key_of k name) d rows at;
                prefixed = key_prefixed k name plain;
                decodes = decodes;
              }),
        ),
      )
