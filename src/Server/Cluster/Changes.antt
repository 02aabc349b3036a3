-- ===== src/Server/Cluster/Changes.antt =====
-- What putting and removing an object does to a representation of a cluster.
use mathlib.Core.List.{Memᴰ}
use gokube_workshop_day.Prelude.{
  ◌≡◌, refl, ap, ◌∙◌, Bool, true, false, Option, none, some, Text, same, same_iff, inl, inr,
  if◌then◌else◌,
}
use gokube_workshop_day.Api.Types.{Kind, Obj, node_kind, pod_kind, replica_set_kind}
use gokube_workshop_day.Storage.Interface.{Codec}
use gokube_workshop_day.Storage.Rows.{
  Rows, lookup, insert, remove, lookup-insert, lookup-remove, decode_row,
}
use gokube_workshop_day.Storage.Ordered.{Ordered-insert, Ordered-remove, mem-insert, mem-remove}
use gokube_workshop_day.Registry.Path.{IsPlain}
use gokube_workshop_day.Registry.Rules.{RoundTrips}
use gokube_workshop_day.Server.Cluster.Keys.{
  key_of, key_same, put_self, put_elsewhere, drop_elsewhere,
}
use gokube_workshop_day.Server.Cluster.Represents.{found, InCluster, Represents}
use gokube_workshop_day.Server.Cluster.{Cluster, name_of, put, drop}

module _ (c : Codec) (k : Kind) where
  -- What a lookup finds after a put, at the same kind.
  decode_put :
      (obj : Obj k) (t : RoundTrips c k obj) (b : Bool) (o : Option Text) (x : Option (Obj k))
      → decode_row c k o ≡ found k x
      → decode_row c k (if b then some t.encoded else o) ≡ found k (if b then some obj else x)
  unfolding decode_row
  decode_put obj t true o x h = rw t.decodes
  decode_put obj t false o x h = h

  decode_drop :
      (b : Bool) (o : Option Text) (x : Option (Obj k))
      → decode_row c k o ≡ found k x
      → decode_row c k (if b then none else o) ≡ found k (if b then none else x)
  unfolding decode_row
  decode_drop true o x h = refl
  decode_drop false o x h = h

  own_put :
      (obj obj' : Obj k) (x : Option (Obj k)) (name : Text) (b : Bool)
      → same (name_of k obj) name ≡ b
      → (x ≡ some obj' → name_of k obj' ≡ name)
      → (if b then some obj else x) ≡ some obj'
      → name_of k obj' ≡ name
  own_put obj obj' x name true e h q =
      let named = (same_iff (name_of k obj) name).0 e in cc (q, named)
  own_put obj obj' x name false e h q = h q

  own_drop :
      (obj' : Obj k) (x : Option (Obj k)) (name : Text) (b : Bool)
      → (x ≡ some obj' → name_of k obj' ≡ name)
      → (if b then none else x) ≡ some obj'
      → name_of k obj' ≡ name
  own_drop obj' x name true h q = cc
  own_drop obj' x name false h q = h q

module _ (c : Codec) {rows : Rows} {cl : Cluster} (r : Represents c rows cl) where
  held_put :
      (k : Kind) (obj : Obj k) (t : RoundTrips c k obj) (j : Kind) (name : Text)
      → IsPlain (name_of k obj)
      → IsPlain name
      → decode_row c j (lookup (key_of j name) (insert (key_of k (name_of k obj)) t.encoded rows))
        ≡ found j (put k obj cl j name)
  held_put node_kind obj t node_kind name h h' =
      rw (lookup-insert, key_same node_kind node_kind _ name h h')
        (decode_put c node_kind obj t _ _ _ (r.held node_kind name h'))
  held_put node_kind obj t pod_kind name h h' =
      rw (lookup-insert, key_same node_kind pod_kind _ name h h') (r.held pod_kind name h')
  held_put node_kind obj t replica_set_kind name h h' =
      rw (lookup-insert, key_same node_kind replica_set_kind _ name h h')
        (r.held replica_set_kind name h')
  held_put pod_kind obj t node_kind name h h' =
      rw (lookup-insert, key_same pod_kind node_kind _ name h h') (r.held node_kind name h')
  held_put pod_kind obj t pod_kind name h h' =
      rw (lookup-insert, key_same pod_kind pod_kind _ name h h')
        (decode_put c pod_kind obj t _ _ _ (r.held pod_kind name h'))
  held_put pod_kind obj t replica_set_kind name h h' =
      rw (lookup-insert, key_same pod_kind replica_set_kind _ name h h')
        (r.held replica_set_kind name h')
  held_put replica_set_kind obj t node_kind name h h' =
      rw (lookup-insert, key_same replica_set_kind node_kind _ name h h') (r.held node_kind name h')
  held_put replica_set_kind obj t pod_kind name h h' =
      rw (lookup-insert, key_same replica_set_kind pod_kind _ name h h') (r.held pod_kind name h')
  held_put replica_set_kind obj t replica_set_kind name h h' =
      rw (lookup-insert, key_same replica_set_kind replica_set_kind _ name h h')
        (decode_put c replica_set_kind obj t _ _ _ (r.held replica_set_kind name h'))

  own_at :
      (k : Kind) (obj : Obj k) (j : Kind) (name : Text) (obj' : Obj j)
      → IsPlain name
      → put k obj cl j name ≡ some obj'
      → name_of j obj' ≡ name
  own_at node_kind obj node_kind name obj' h q =
      own_put c node_kind obj obj' _ name _ refl (r.own node_kind name obj' h) q
  own_at node_kind obj pod_kind name obj' h q = r.own pod_kind name obj' h q
  own_at node_kind obj replica_set_kind name obj' h q = r.own replica_set_kind name obj' h q
  own_at pod_kind obj node_kind name obj' h q = r.own node_kind name obj' h q
  own_at pod_kind obj pod_kind name obj' h q =
      own_put c pod_kind obj obj' _ name _ refl (r.own pod_kind name obj' h) q
  own_at pod_kind obj replica_set_kind name obj' h q = r.own replica_set_kind name obj' h q
  own_at replica_set_kind obj node_kind name obj' h q = r.own node_kind name obj' h q
  own_at replica_set_kind obj pod_kind name obj' h q = r.own pod_kind name obj' h q
  own_at replica_set_kind obj replica_set_kind name obj' h q =
      own_put c replica_set_kind obj obj' _ name _ refl (r.own replica_set_kind name obj' h) q

  held_drop :
      (k : Kind) (gone : Text) (j : Kind) (name : Text)
      → IsPlain gone
      → IsPlain name
      → decode_row c j (lookup (key_of j name) (remove (key_of k gone) rows))
        ≡ found j (drop k gone cl j name)
  held_drop node_kind gone node_kind name h h' =
      rw (lookup-remove, key_same node_kind node_kind gone name h h')
        (decode_drop c node_kind _ _ _ (r.held node_kind name h'))
  held_drop node_kind gone pod_kind name h h' =
      rw (lookup-remove, key_same node_kind pod_kind gone name h h') (r.held pod_kind name h')
  held_drop node_kind gone replica_set_kind name h h' =
      rw (lookup-remove, key_same node_kind replica_set_kind gone name h h')
        (r.held replica_set_kind name h')
  held_drop pod_kind gone node_kind name h h' =
      rw (lookup-remove, key_same pod_kind node_kind gone name h h') (r.held node_kind name h')
  held_drop pod_kind gone pod_kind name h h' =
      rw (lookup-remove, key_same pod_kind pod_kind gone name h h')
        (decode_drop c pod_kind _ _ _ (r.held pod_kind name h'))
  held_drop pod_kind gone replica_set_kind name h h' =
      rw (lookup-remove, key_same pod_kind replica_set_kind gone name h h')
        (r.held replica_set_kind name h')
  held_drop replica_set_kind gone node_kind name h h' =
      rw (lookup-remove, key_same replica_set_kind node_kind gone name h h')
        (r.held node_kind name h')
  held_drop replica_set_kind gone pod_kind name h h' =
      rw (lookup-remove, key_same replica_set_kind pod_kind gone name h h')
        (r.held pod_kind name h')
  held_drop replica_set_kind gone replica_set_kind name h h' =
      rw (lookup-remove, key_same replica_set_kind replica_set_kind gone name h h')
        (decode_drop c replica_set_kind _ _ _ (r.held replica_set_kind name h'))

  own_left :
      (k : Kind) (gone : Text) (j : Kind) (name : Text) (obj' : Obj j)
      → IsPlain name
      → drop k gone cl j name ≡ some obj'
      → name_of j obj' ≡ name
  own_left node_kind gone node_kind name obj' h q =
      own_drop c node_kind obj' _ name _ (r.own node_kind name obj' h) q
  own_left node_kind gone pod_kind name obj' h q = r.own pod_kind name obj' h q
  own_left node_kind gone replica_set_kind name obj' h q = r.own replica_set_kind name obj' h q
  own_left pod_kind gone node_kind name obj' h q = r.own node_kind name obj' h q
  own_left pod_kind gone pod_kind name obj' h q =
      own_drop c pod_kind obj' _ name _ (r.own pod_kind name obj' h) q
  own_left pod_kind gone replica_set_kind name obj' h q = r.own replica_set_kind name obj' h q
  own_left replica_set_kind gone node_kind name obj' h q = r.own node_kind name obj' h q
  own_left replica_set_kind gone pod_kind name obj' h q = r.own pod_kind name obj' h q
  own_left replica_set_kind gone replica_set_kind name obj' h q =
      own_drop c replica_set_kind obj' _ name _ (r.own replica_set_kind name obj' h) q

  only_put :
      (k : Kind) (obj : Obj k) (t : RoundTrips c k obj) (row : Text × Text)
      → IsPlain (name_of k obj)
      → Memᴰ row (insert (key_of k (name_of k obj)) t.encoded rows)
      → InCluster c (put k obj cl) row
  only_put k obj t row plain m =
      elim (mem-insert (key_of k (name_of k obj)) t.encoded rows row r.ordered m) [
        | inl e ↦ record {
          kind = k;
          name = name_of k obj;
          obj = obj;
          plain = plain;
          key = ap (λ (q : Text × Text). q.0) e;
          there = put_self cl k obj;
          decodes = rw e t.decodes;
        }
        | inr (old, other) ↦
            let i = r.only row old in
            record {
              kind = i.kind;
              name = i.name;
              obj = i.obj;
              plain = i.plain;
              key = i.key;
              there =
                  put_elsewhere cl k obj i.kind i.name plain i.plain (rw i.key at other) ∙ i.there;
              decodes = i.decodes;
            }
      ]

  only_drop :
      (k : Kind) (gone : Text) (row : Text × Text)
      → IsPlain gone
      → Memᴰ row (remove (key_of k gone) rows)
      → InCluster c (drop k gone cl) row
  only_drop k gone row plain m =
      let (old, other) = mem-remove (key_of k gone) rows row m in
      let i = r.only row old in
      record {
        kind = i.kind;
        name = i.name;
        obj = i.obj;
        plain = i.plain;
        key = i.key;
        there = drop_elsewhere cl k gone i.kind i.name plain i.plain (rw i.key at other) ∙ i.there;
        decodes = i.decodes;
      }

  pub Represents-put :
      (k : Kind) (obj : Obj k)
      → IsPlain (name_of k obj)
      → (t : RoundTrips c k obj)
      → Represents c (insert (key_of k (name_of k obj)) t.encoded rows) (put k obj cl)
  Represents-put k obj plain t = record {
    held = λ j name h. held_put k obj t j name plain h;
    own = λ j name obj' h q. own_at k obj j name obj' h q;
    ordered = Ordered-insert (key_of k (name_of k obj)) t.encoded rows r.ordered;
    only = λ row m. only_put k obj t row plain m;
  }

  pub Represents-drop :
      (k : Kind) (gone : Text)
      → IsPlain gone
      → Represents c (remove (key_of k gone) rows) (drop k gone cl)
  Represents-drop k gone plain = record {
    held = λ j name h. held_drop k gone j name plain h;
    own = λ j name obj' h q. own_left k gone j name obj' h q;
    ordered = Ordered-remove (key_of k gone) rows r.ordered;
    only = λ row m. only_drop k gone row plain m;
  }
