-- ===== src/Registry/RoundTrip.antt =====
-- Over the ordered map: what is created or updated is read back, what is deleted is gone, and no
-- other key is touched.
use gokube_workshop_day.Prelude.{◌≡◌, arith, [], ◌∷◌, Text}
use gokube_workshop_day.Go.{
  ok, err, err_node_not_found, err_pod_not_found, err_replica_set_not_found,
}
use gokube_workshop_day.Api.Types.{Node, node_kind, Pod, pod_kind, ReplicaSet, replica_set_kind}
use gokube_workshop_day.Api.Validation.{Validator}
use gokube_workshop_day.Storage.Interface.{Codec}
use gokube_workshop_day.Storage.Rows.{Rows, decode_row, put_row, map_storage}
use gokube_workshop_day.Registry.Rules.{
  RoundTrips, SameElsewhere, insert-lookup, remove-lookup, insert-SameElsewhere,
  remove-SameElsewhere,
}
use gokube_workshop_day.Registry.Node as Nodes
use gokube_workshop_day.Registry.Pod as Pods
use gokube_workshop_day.Registry.ReplicaSet as ReplicaSets

module _ (c : Codec) (v : Validator) (rows : Rows) where
  -- After a node was created, a get of its name returns it, and the rows of all other keys are as they
  -- were, if the codec takes the node there and back.
  pub create_node-get_node :
      (node : Node)
      → RoundTrips c node_kind node
      → (Nodes.create_node (map_storage c) v node rows).0 ≡ ok tt
      → ((Nodes.get_node
            (map_storage c)
            node.name
            (Nodes.create_node (map_storage c) v node rows).1).0
          ≡ ok node)
        × SameElsewhere
            (Nodes.generate_key Nodes.node_prefix node.name)
            rows
            (Nodes.create_node (map_storage c) v node rows).1
  unfolding Nodes.create_node Nodes.get_node put_row decode_row
  create_node-get_node node t h =
      let key = Nodes.generate_key Nodes.node_prefix node.name in
      (
        ground (arith, t.encodes, t.decodes, insert-lookup key t.encoded rows),
        λ j ne. ground (arith, t.encodes, insert-SameElsewhere key t.encoded rows j ne),
      )

  -- After a node was updated, a get of its name returns it, and the rows of all other keys are as they
  -- were, if the codec takes the node there and back.
  pub update_node-get_node :
      (node : Node)
      → RoundTrips c node_kind node
      → (Nodes.update_node (map_storage c) v node rows).0 ≡ ok tt
      → ((Nodes.get_node
            (map_storage c)
            node.name
            (Nodes.update_node (map_storage c) v node rows).1).0
          ≡ ok node)
        × SameElsewhere
            (Nodes.generate_key Nodes.node_prefix node.name)
            rows
            (Nodes.update_node (map_storage c) v node rows).1
  unfolding Nodes.update_node Nodes.get_node put_row decode_row
  update_node-get_node node t h =
      let key = Nodes.generate_key Nodes.node_prefix node.name in
      (
        ground (arith, t.encodes, t.decodes, insert-lookup key t.encoded rows),
        λ j ne. ground (arith, t.encodes, insert-SameElsewhere key t.encoded rows j ne),
      )

  -- After a delete of a node, a get of its name finds no node, and the rows of all other keys are as
  -- they were.
  pub delete_node-get_node :
      (name : Text)
      → ((Nodes.get_node (map_storage c) name (Nodes.delete_node (map_storage c) name rows).1).0
          ≡ err (err_node_not_found ∷ []))
        × SameElsewhere
            (Nodes.generate_key Nodes.node_prefix name)
            rows
            (Nodes.delete_node (map_storage c) name rows).1
  unfolding Nodes.delete_node Nodes.get_node decode_row
  delete_node-get_node name =
      let key = Nodes.generate_key Nodes.node_prefix name in
      (
        ground (arith, remove-lookup key rows),
        λ j ne. ground (arith, remove-SameElsewhere key rows j ne),
      )

  -- After a pod was updated, a get of its name returns it, and the rows of all other keys are as they
  -- were, if the codec takes the pod there and back.
  pub update_pod-get_pod :
      (pod : Pod)
      → RoundTrips c pod_kind pod
      → (Pods.update_pod (map_storage c) v pod rows).0 ≡ ok tt
      → ((Pods.get_pod (map_storage c) pod.name (Pods.update_pod (map_storage c) v pod rows).1).0
          ≡ ok pod)
        × SameElsewhere
            (Pods.generate_key pod.name)
            rows
            (Pods.update_pod (map_storage c) v pod rows).1
  unfolding Pods.update_pod Pods.get_pod put_row decode_row
  update_pod-get_pod pod t h =
      let key = Pods.generate_key pod.name in
      (
        ground (arith, t.encodes, t.decodes, insert-lookup key t.encoded rows),
        λ j ne. ground (arith, t.encodes, insert-SameElsewhere key t.encoded rows j ne),
      )

  -- After a delete of a pod, a get of its name finds no pod, and the rows of all other keys are as
  -- they were.
  pub delete_pod-get_pod :
      (name : Text)
      → ((Pods.get_pod (map_storage c) name (Pods.delete_pod (map_storage c) name rows).1).0
          ≡ err (err_pod_not_found ∷ []))
        × SameElsewhere (Pods.generate_key name) rows (Pods.delete_pod (map_storage c) name rows).1
  unfolding Pods.delete_pod Pods.get_pod decode_row
  delete_pod-get_pod name =
      let key = Pods.generate_key name in
      (
        ground (arith, remove-lookup key rows),
        λ j ne. ground (arith, remove-SameElsewhere key rows j ne),
      )

  -- After a ReplicaSet was created, a get of its name returns it, and the rows of all other keys are
  -- as they were, if the codec takes the ReplicaSet there and back.
  pub create-get :
      (rs : ReplicaSet)
      → RoundTrips c replica_set_kind rs
      → (ReplicaSets.create (map_storage c) rs rows).0 ≡ ok tt
      → ((ReplicaSets.get (map_storage c) rs.name (ReplicaSets.create (map_storage c) rs rows).1).0
          ≡ ok rs)
        × SameElsewhere
            (ReplicaSets.generate_key rs.name)
            rows
            (ReplicaSets.create (map_storage c) rs rows).1
  unfolding ReplicaSets.create ReplicaSets.get put_row decode_row
  create-get rs t h =
      let key = ReplicaSets.generate_key rs.name in
      (
        ground (arith, t.encodes, t.decodes, insert-lookup key t.encoded rows),
        λ j ne. ground (arith, t.encodes, insert-SameElsewhere key t.encoded rows j ne),
      )

  -- After a ReplicaSet was updated, a get of its name returns it, and the rows of all other keys are
  -- as they were, if the codec takes the ReplicaSet there and back.
  pub update-get :
      (rs : ReplicaSet)
      → RoundTrips c replica_set_kind rs
      → (ReplicaSets.update (map_storage c) rs rows).0 ≡ ok tt
      → ((ReplicaSets.get (map_storage c) rs.name (ReplicaSets.update (map_storage c) rs rows).1).0
          ≡ ok rs)
        × SameElsewhere
            (ReplicaSets.generate_key rs.name)
            rows
            (ReplicaSets.update (map_storage c) rs rows).1
  unfolding ReplicaSets.update ReplicaSets.get put_row decode_row
  update-get rs t h =
      let key = ReplicaSets.generate_key rs.name in
      (
        ground (arith, t.encodes, t.decodes, insert-lookup key t.encoded rows),
        λ j ne. ground (arith, t.encodes, insert-SameElsewhere key t.encoded rows j ne),
      )

  -- After a delete of a ReplicaSet, a get of its name finds no ReplicaSet, and the rows of all other
  -- keys are as they were.
  pub delete-get :
      (name : Text)
      → ((ReplicaSets.get (map_storage c) name (ReplicaSets.delete (map_storage c) name rows).1).0
          ≡ err (err_replica_set_not_found ∷ []))
        × SameElsewhere
            (ReplicaSets.generate_key name)
            rows
            (ReplicaSets.delete (map_storage c) name rows).1
  unfolding ReplicaSets.delete ReplicaSets.get decode_row
  delete-get name =
      let key = ReplicaSets.generate_key name in
      (
        ground (arith, remove-lookup key rows),
        λ j ne. ground (arith, remove-SameElsewhere key rows j ne),
      )
