-- ===== src/Registry/Steps.antt =====
-- What one call of a registry may do to the rows: nothing, put one object that is valid, or remove
-- one key.
use gokube_workshop_day.Prelude.{
  ◌≡◌, arith, true, some, same, same_iff, inl, inr, Text, Option-cases, Bool-cases,
}
use gokube_workshop_day.Api.Types.{
  Node, Pod, ReplicaSet, Kind, Obj, node_kind, pod_kind, replica_set_kind,
}
use gokube_workshop_day.Api.Validation.{is_set, pod_tags}
use gokube_workshop_day.Storage.Interface.{Codec}
use gokube_workshop_day.Storage.Rows.{
  Rows, lookup, insert, remove, lookup-insert, lookup-remove, put_row,
}
use gokube_workshop_day.Registry.Node as Nodes
use gokube_workshop_day.Registry.Pod as Pods
use gokube_workshop_day.Registry.ReplicaSet as ReplicaSets

module _ (c : Codec) where
  -- The key and the row of an object: of a node with a name, of a pod that fits its tags, or of a
  -- ReplicaSet.
  pub data Stored (key encoded : Text) : Type 0 where
    stored_node :
        (node : Node)
        → is_set node.name ≡ true
        → Nodes.generate_key Nodes.node_prefix node.name ≡ key
        → c.encode node_kind node ≡ some encoded
        → Stored key encoded
    stored_pod :
        (pod : Pod)
        → pod_tags pod ≡ true
        → Pods.generate_key pod.name ≡ key
        → c.encode pod_kind pod ≡ some encoded
        → Stored key encoded
    stored_replica_set :
        (rs : ReplicaSet)
        → ReplicaSets.generate_key rs.name ≡ key
        → c.encode replica_set_kind rs ≡ some encoded
        → Stored key encoded

  pub data Step (rows after : Rows) : Type 0 where
    unchanged : after ≡ rows → Step rows after
    put :
        (key encoded : Text)
        → Stored key encoded
        → after ≡ insert key encoded rows
        → Step rows after
    removed : (key : Text) → after ≡ remove key rows → Step rows after

  pub put_row-Step :
      (k : Kind) (key : Text) (obj : Obj k) (rows : Rows)
      → ((encoded : Text) → c.encode k obj ≡ some encoded → Stored key encoded)
      → Step rows (put_row c k key obj rows).1
  unfolding put_row
  put_row-Step k key obj rows stored = elim (Option-cases (c.encode k obj)) [
    | inl fails ↦ unchanged (ground arith)
    | inr (d, e) ↦ put key d (stored d e) (ground arith)
  ]

  -- Every row is that of such an object.
  abbrev pub WellFormed : Rows → Type 0
  WellFormed rows = (key encoded : Text) → lookup key rows ≡ some encoded → Stored key encoded

  pub Step-WellFormed : {rows after : Rows} → Step rows after → WellFormed rows → WellFormed after
  Step-WellFormed (unchanged e) wf key d h = wf key d (ground arith)
  Step-WellFormed {rows} (put k d' st e) wf key d h = elim (Bool-cases (same k key)) [
    | inl here ↦
        let e1 : k ≡ key = (same_iff k key).0 here in
        let e2 : d' ≡ d = ground (arith, lookup-insert k key d' rows) in rw (← e1, ← e2) st
    | inr there ↦ wf key d (ground (arith, lookup-insert k key d' rows))
  ]
  Step-WellFormed {rows} (removed k e) wf key d h =
      wf key d (ground (arith, lookup-remove k key rows))
