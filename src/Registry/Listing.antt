-- ===== src/Registry/Listing.antt =====
-- Over the ordered map: what the lists hold.
use mathlib.Core.List.{Memᴰ}
use mathlib.Core.List.Memᴰ
use gokube_workshop_day.Prelude.{
  ◌≡◌, ◌↔◌, refl, true, false, arith, some, List, [], ◌∷◌, Text, inl, inr, Option-cases, keep,
  mem-keep, has_prefix, same, same_iff,
}
use gokube_workshop_day.Go.{ok, Result-cases}
use gokube_workshop_day.Api.Types.{Kind, Obj, Node, node_kind, Pod, pod_kind, pod_pending}
use gokube_workshop_day.Api.Validation.{Validator}
use gokube_workshop_day.Storage.Interface.{Codec}
use gokube_workshop_day.Storage.Rows.{Rows, under, insert, decode_rows, put_row, map_storage}
use gokube_workshop_day.Registry.Node as Nodes
use gokube_workshop_day.Registry.Pod as Pods

module _ (c : Codec) (k : Kind) where
  -- A row holds the object, under a key that begins with the prefix.
  pub record StoredUnder (p : Text) (rows : Rows) (obj : Obj k) : Type 0 where
    pub key : Text
    pub encoded : Text
    pub row : Memᴰ (key, encoded) rows
    pub prefixed : has_prefix key p ≡ true
    pub decodes : c.decode k encoded ≡ some obj

  pub record FirstDecoded (b : Text) (rows : Rows) (objs : List (Obj k)) : Type 0 where
    pub obj : Obj k
    pub rest : List (Obj k)
    pub decodes : c.decode k b ≡ some obj
    pub decoded : decode_rows c k rows ≡ ok rest
    pub joined : objs ≡ obj ∷ rest

  pub decode_rows-cons :
      (key b : Text) (rows : Rows) (objs : List (Obj k))
      → decode_rows c k ((key, b) ∷ rows) ≡ ok objs
      → FirstDecoded b rows objs
  decode_rows-cons key b rows objs e = elim (Option-cases (c.decode k b)) [
    | inl none_ ↦ absurd (unfold decode_rows in ground arith)
    | inr (o, d) ↦ elim (Result-cases (decode_rows c k rows)) [
      | inl (os, r) ↦ record {
        obj = o;
        rest = os;
        decodes = d;
        decoded = r;
        joined = unfold decode_rows in ground arith;
      }
      | inr (x, r) ↦ absurd (unfold decode_rows in ground arith)
    ]
  ]

  pub decode_rows_sound :
      (rows : Rows) (objs : List (Obj k)) {obj : Obj k}
      → decode_rows c k rows ≡ ok objs
      → Memᴰ obj objs
      → (row : Text × Text) × Memᴰ row rows × (c.decode k row.1 ≡ some obj)
  decode_rows_sound [] objs e m =
      let nothing : [] ≡ objs = unfold decode_rows in cc in elim (rw (← nothing) at m) [ ]
  decode_rows_sound ((key, b) ∷ rows) objs e m =
      let f = decode_rows-cons key b rows objs e in
      elim (Memᴰ.cases_cons (rw (f.joined) at m)) [
        | inl here ↦ ((key, b), Memᴰ.head refl, rw here f.decodes)
        | inr later ↦
            let (row, there, d) = decode_rows_sound rows f.rest f.decoded later in
            (row, Memᴰ.tail there, d)
      ]

  decode_rows_complete :
      (rows : Rows) (objs : List (Obj k)) {obj : Obj k} {row : Text × Text}
      → decode_rows c k rows ≡ ok objs
      → Memᴰ row rows
      → c.decode k row.1 ≡ some obj
      → Memᴰ obj objs
  decode_rows_complete [] objs e m d = elim m [ ]
  decode_rows_complete ((key, b) ∷ rows) objs {obj} e (Memᴰ.head q) d =
      let f = decode_rows-cons key b rows objs e in
      let d' : c.decode k b ≡ some obj = rw q at d in rw (f.joined) (Memᴰ.head (cc (d', f.decodes)))
  decode_rows_complete ((key, b) ∷ rows) objs e (Memᴰ.tail m) d =
      let f = decode_rows-cons key b rows objs e in
      rw (f.joined) (Memᴰ.tail (decode_rows_complete rows f.rest f.decoded m d))

  pub listed_iff :
      (p : Text) (rows : Rows) (objs : List (Obj k)) (obj : Obj k)
      → decode_rows c k (under p rows) ≡ ok objs
      → Memᴰ obj objs ↔ StoredUnder p rows obj
  unfolding under
  listed_iff p rows objs obj e = (
    λ m.
        let (row, there, d) = decode_rows_sound (under p rows) objs e m in
        let (kept, prefixed) =
          (mem-keep (λ (r : Text × Text). has_prefix r.0 p) rows row).0 there in
        record { key = row.0; encoded = row.1; row = kept; prefixed = prefixed; decodes = d },
    λ h.
        decode_rows_complete (under p rows) objs e
          ((mem-keep (λ (r : Text × Text). has_prefix r.0 p) rows (h.key, h.encoded)).1
            (h.row, h.prefixed))
          h.decodes,
  )

module _ (c : Codec) (rows : Rows) where
  -- A list of nodes that is returned holds exactly the nodes stored under keys that begin with
  -- "/registry/nodes/".
  list_nodes_iff :
      (nodes : List Node) (node : Node)
      → (Nodes.list_nodes (map_storage c) rows).0 ≡ ok nodes
      → Memᴰ node nodes ↔ StoredUnder c node_kind Nodes.node_prefix rows node
  unfolding Nodes.list_nodes
  list_nodes_iff nodes node h =
      listed_iff c node_kind Nodes.node_prefix rows nodes node (ground arith)

  list_pods_iff :
      (pods : List Pod) (pod : Pod)
      → (Pods.list_pods (map_storage c) rows).0 ≡ ok pods
      → Memᴰ pod pods ↔ StoredUnder c pod_kind Pods.pod_prefix rows pod
  unfolding Pods.list_pods
  list_pods_iff pods pod h = listed_iff c pod_kind Pods.pod_prefix rows pods pod (ground arith)

  pending_of_listed :
      (pods : List Pod)
      → (Pods.list_pending_pods (map_storage c) rows).0 ≡ ok pods
      → (all_pods : List Pod) × ((Pods.list_pods (map_storage c) rows).0 ≡ ok all_pods)
        × (pods ≡ keep (λ pod. same pod.status pod_pending) all_pods)
  unfolding Pods.list_pending_pods
  pending_of_listed pods h =
      elim (Result-cases (decode_rows c pod_kind (under Pods.pod_prefix rows))) [
        | inl (all_pods, e) ↦ (all_pods, ground arith, ground arith)
        | inr (x, e) ↦ absurd (ground arith)
      ]

  -- A list of pending pods that is returned holds exactly the pods stored under keys that begin with
  -- "/pods/" whose status is "Pending".
  pub list_pending_pods_iff :
      (pods : List Pod) (pod : Pod)
      → (Pods.list_pending_pods (map_storage c) rows).0 ≡ ok pods
      → Memᴰ pod pods
        ↔ (StoredUnder c pod_kind Pods.pod_prefix rows pod × (pod.status ≡ pod_pending))
  list_pending_pods_iff pods pod h =
      let (all_pods, listed, filtered) = pending_of_listed pods h in
      let kept = mem-keep (λ (p : Pod). same p.status pod_pending) all_pods pod in
      let stored = list_pods_iff all_pods pod listed in
      let equal = same_iff pod.status pod_pending in
      rw filtered (
        λ m. let (there, passed) = kept.0 m in (stored.0 there, equal.0 passed),
        λ x. kept.1 (stored.1 x.0, equal.1 x.1),
      )

-- A row under a key without the prefix does not show in what lies under the prefix.
under-insert :
    (p key b : Text) (rows : Rows)
    → has_prefix key p ≡ false
    → under p (insert key b rows) ≡ under p rows
unfolding under insert
under-insert p key b [] h = ground arith
under-insert p key b ((j, w) ∷ rows) h = ground (arith, same_iff j key, under-insert p key b rows)

-- The creation of a node whose key does not begin with "/registry/nodes/" leaves the list as it was.
pub create_node-list_nodes :
    (c : Codec) (v : Validator) (rows : Rows) (node : Node)
    → has_prefix (Nodes.generate_key Nodes.node_prefix node.name) Nodes.node_prefix ≡ false
    → (Nodes.list_nodes (map_storage c) (Nodes.create_node (map_storage c) v node rows).1).0
      ≡ (Nodes.list_nodes (map_storage c) rows).0
unfolding Nodes.create_node Nodes.list_nodes put_row
create_node-list_nodes c v rows node h = elim (Option-cases (c.encode node_kind node)) [
  | inl e ↦ ground arith
  | inr (b, e) ↦
      let key = Nodes.generate_key Nodes.node_prefix node.name in
      ground (arith, under-insert Nodes.node_prefix key b rows h)
]
