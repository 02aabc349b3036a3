-- ===== src/Registry/Failures.antt =====
-- Over any storage, with whatever failures: what the registries make of a get that failed.
use gokube_workshop_day.Prelude.{◌≡◌, true, arith, Text, none}
use gokube_workshop_day.Go.{Error, ok, err, errors_is, err_replica_set_not_found}
use gokube_workshop_day.Api.Types.{Node, node_kind}
use gokube_workshop_day.Api.Node as ApiNode
use gokube_workshop_day.Api.Validation.{Validator}
use gokube_workshop_day.Storage.Interface.{Codec, Storage}
use gokube_workshop_day.Storage.Rows.{insert}
use gokube_workshop_day.Storage.Etcd as Etcd
use gokube_workshop_day.Storage.Etcd.{EtcdClient, EtcdLaws, etcd_storage}
use gokube_workshop_day.Registry.Rules.{RoundTrips}
use gokube_workshop_day.Registry.Node as Nodes
use gokube_workshop_day.Registry.ReplicaSet as ReplicaSets

module _ {S : Type 0} (st : Storage S) (s : S) where
  -- Whatever made the get of the storage fail, the registry reports that there is no ReplicaSet.
  pub get_error_is_not_found :
      (name : Text) (e : Error)
      → (ReplicaSets.get st name s).0 ≡ err e
      → errors_is e err_replica_set_not_found ≡ true
  unfolding ReplicaSets.get
  get_error_is_not_found name e h = ground arith

  -- Whatever made the get of the storage fail, an accepted node is written.
  create_node_after_failed_get :
      (v : Validator) (node : Node) (e : Error)
      → (st.get node_kind (Nodes.generate_key Nodes.node_prefix node.name) s).0 ≡ err e
      → v.struct_node node ≡ true
      → Nodes.create_node st v node s
        ≡ st.create node_kind
            (Nodes.generate_key Nodes.node_prefix node.name)
            node
            (st.get node_kind (Nodes.generate_key Nodes.node_prefix node.name) s).1
  unfolding Nodes.create_node ApiNode.validate
  create_node_after_failed_get v node e h accepted = ground arith

module _ {S : Type 0} {client : EtcdClient S} (laws : EtcdLaws client) (c : Codec) where
  -- If etcd fails to answer the get of a create and is up for the put, then the create succeeds and
  -- replaces whatever node has that name.
  pub create_node_overwrites :
      (v : Validator) (node : Node) (t : RoundTrips c node_kind node) (s : S)
      → (client.get (Nodes.generate_key Nodes.node_prefix node.name) s).0 ≡ none
      → laws.up (client.get (Nodes.generate_key Nodes.node_prefix node.name) s).1 ≡ true
      → v.struct_node node ≡ true
      → ((Nodes.create_node (etcd_storage client c) v node s).0 ≡ ok tt)
        × (laws.rows (Nodes.create_node (etcd_storage client c) v node s).1
            ≡ insert
                (Nodes.generate_key Nodes.node_prefix node.name)
                t.encoded
                (laws.rows (client.get (Nodes.generate_key Nodes.node_prefix node.name) s).1))
  unfolding Nodes.create_node ApiNode.validate Etcd.get Etcd.create
  create_node_overwrites v node t s lost up accepted =
      let key = Nodes.generate_key Nodes.node_prefix node.name in
      ground (arith, t.encodes, laws.put_law key t.encoded (client.get key s).1 up)
