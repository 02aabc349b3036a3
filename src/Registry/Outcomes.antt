-- ===== src/Registry/Outcomes.antt =====
-- Over the ordered map: when an operation succeeds, and what it reports when it does not.
use gokube_workshop_day.Prelude.{◌≡◌, ◌≢◌, ◌↔◌, true, arith, none, [], ◌∷◌, inl, inr}
use gokube_workshop_day.Go.{Error, ok, err, Result-cases, err_node_already_exists}
use gokube_workshop_day.Api.Types.{Node, node_kind, Pod, pod_kind, ReplicaSet, replica_set_kind}
use gokube_workshop_day.Api.Node as ApiNode
use gokube_workshop_day.Api.Pod as ApiPod
use gokube_workshop_day.Api.Validation.{Validator}
use gokube_workshop_day.Storage.Interface.{Codec}
use gokube_workshop_day.Storage.Rows.{Rows, lookup, decode_row, put_row, map_storage}
use gokube_workshop_day.Registry.Node as Nodes
use gokube_workshop_day.Registry.Pod as Pods
use gokube_workshop_day.Registry.ReplicaSet as ReplicaSets

module _ (c : Codec) (v : Validator) (rows : Rows) where
  -- A node is created exactly if no node can be read under its name, the validator accepts it and
  -- it can be encoded.
  pub create_node_iff :
      (node : Node)
      → ((Nodes.create_node (map_storage c) v node rows).0 ≡ ok tt) ↔ (
          ((e : Error) × ((Nodes.get_node (map_storage c) node.name rows).0 ≡ err e))
          × (v.struct_node node ≡ true)
          × (c.encode node_kind node ≢ none))
  unfolding Nodes.create_node Nodes.get_node ApiNode.validate put_row
  create_node_iff node =
      let key = Nodes.generate_key Nodes.node_prefix node.name in
      elim (Result-cases (decode_row c node_kind (lookup key rows))) [
        | inl (n, e) ↦ (λ h. absurd (ground arith), λ h. absurd (ground arith))
        | inr (e', e) ↦ (
          λ h. ((Nodes.node_read_error e', ground arith), ground arith, ground arith),
          λ h. ground arith,
        )
      ]

  -- A node is refused as existing exactly if one can be read under its name, whatever the validator
  -- says of the new one.
  pub create_node_conflict_iff :
      (node : Node)
      → ((Nodes.create_node (map_storage c) v node rows).0 ≡ err (err_node_already_exists ∷ []))
        ↔ ((n : Node) × ((Nodes.get_node (map_storage c) node.name rows).0 ≡ ok n))
  unfolding Nodes.create_node Nodes.get_node ApiNode.validate put_row
  create_node_conflict_iff node =
      let key = Nodes.generate_key Nodes.node_prefix node.name in
      elim (Result-cases (decode_row c node_kind (lookup key rows))) [
        | inl (n, e) ↦ (λ h. (n, ground arith), λ h. ground arith)
        | inr (e', e) ↦ (λ h. absurd (ground arith), λ h. absurd (ground arith))
      ]

  -- A node is updated exactly if the validator accepts it and it can be encoded, whether or not there
  -- was a node of its name.
  pub update_node_iff :
      (node : Node)
      → ((Nodes.update_node (map_storage c) v node rows).0 ≡ ok tt)
        ↔ ((v.struct_node node ≡ true) × (c.encode node_kind node ≢ none))
  unfolding Nodes.update_node ApiNode.validate put_row
  update_node_iff node = ground arith

  -- A pod is updated exactly if the validator accepts it and it can be encoded, whether or not there
  -- was a pod of its name.
  pub update_pod_iff :
      (pod : Pod)
      → ((Pods.update_pod (map_storage c) v pod rows).0 ≡ ok tt)
        ↔ ((v.struct_pod pod ≡ true) × (c.encode pod_kind pod ≢ none))
  unfolding Pods.update_pod ApiPod.validate put_row
  update_pod_iff pod = ground arith

  -- A ReplicaSet is updated exactly if one can be read under its name and the new one can be encoded;
  -- no validator is asked.
  pub update_iff :
      (rs : ReplicaSet)
      → ((ReplicaSets.update (map_storage c) rs rows).0 ≡ ok tt) ↔ (
          ((r : ReplicaSet) × ((ReplicaSets.get (map_storage c) rs.name rows).0 ≡ ok r))
          × (c.encode replica_set_kind rs ≢ none))
  unfolding ReplicaSets.update ReplicaSets.get put_row
  update_iff rs =
      let key = ReplicaSets.generate_key rs.name in
      elim (Result-cases (decode_row c replica_set_kind (lookup key rows))) [
        | inl (r, e) ↦ (λ h. ((r, ground arith), ground arith), λ h. ground arith)
        | inr (e', e) ↦ (λ h. absurd (ground arith), λ h. absurd (ground arith))
      ]
